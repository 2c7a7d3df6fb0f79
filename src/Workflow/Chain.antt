-- ===== src/Workflow/Chain.antt =====
-- One device's walk through the steps of a workflow: `runDeviceStepChain` of durableEngine.ts.
-- The step executors (workflowSteps.ts, mdmActionExecutor.ts), the recovery check and the database
-- reads before the loop enter as the answers of an `Env`; each may throw. The loop runs on fuel.
pub mod Bounds
pub mod Outcome
use applivery_soar.Common.{
  ℕ, zero, suc, ◌+◌, ◌*◌, String, Bool, true, false, not, ◌&&◌, ◌||◌, Option, none, some, List, [],
  ◌∷◌, ◌++◌, str_eq, truthy, or_string, ltb, if◌then◌else◌, length, any, all,
}
use applivery_soar.Workflow.Store.{
  text, waiting_until, dispatched, dispatched_forever, unknown_type, unexpected, LogEntry, Final,
  ResultRow, success, partial, failed, RowStatus, waiting, done, Device, Pending, timer, script,
  Store, upsert_run_result, finalize_run_if_done, persist_pending_step,
}
use applivery_soar.Workflow.Steps.{
  Amount, nan, infinite, negative, whole, Step, Workflow, Reply, replied, threw, Check,
  not_recovered, recovered, check_threw, Env, Exit, parked, finished, crashed, out_of_fuel, Next,
  continue, leave, Context, find_step, first_id, success_id, failure_id, entry, push,
  seconds_per_unit, pending_step,
}

-- The last time that a `Date` holds.
abbrev pub last_date : ℕ
last_date = 8640000000000000

abbrev pub resume_time : Context → ℕ → Step → ℕ → ℕ
resume_time c n step amount =
    c.env.now n + amount * seconds_per_unit (or_string step.unit "minutes") * 1000

-- A step of type "wait". `toISOString` throws on a later date than the last one.
wait_for : Context → ℕ → Step → String → List LogEntry → ℕ → Next
wait_for c n step id log amount =
    let resume_at = resume_time c n step amount in
    let detail = waiting_until amount (or_string step.unit "minutes") resume_at in
    let log' = push log (entry step true detail) in
    let next = success_id step id c.workflow.steps in
    if ltb last_date resume_at
    then leave (crashed log "Invalid time value")
    else leave (parked (pending_step c next log' resume_at timer none none))

wait_round : Context → ℕ → Step → String → List LogEntry → Amount → Next
unfolding wait_for
wait_round c n step id log (whole (suc k)) = wait_for c n step id log (suc k)
wait_round c n step id log _ =
    continue (failure_id step) (push log (entry step false (text "Invalid wait duration")))

-- `if (!timeoutMinutes || timeoutMinutes <= 0) timeoutMinutes = 30`
abbrev pub timeout_or_default : Amount → Amount
timeout_or_default (whole (suc k)) = whole (suc k)
timeout_or_default infinite = infinite
timeout_or_default _ = whole 30

abbrev pub script_timeout : Context → ℕ → ℕ → ℕ
script_timeout c n minutes = c.env.now n + minutes * 60000

-- The action was accepted: park until its result or the timeout. A timeout that is infinite or later
-- than the last date gives an invalid date, which the database refuses.
script_dispatched : Context → ℕ → Step → String → List LogEntry → Amount → Next
script_dispatched c n step id log (whole minutes) =
    let log' = push log (entry step true (dispatched minutes)) in
    let next = success_id step id c.workflow.steps in
    let timeout_at = script_timeout c n minutes in
    if ltb last_date timeout_at
    then leave (crashed log' "Invalid Date")
    else leave (
        parked (
          pending_step c next log' timeout_at script (some (failure_id step))
            (some (c.env.token n))))
script_dispatched c n step id log _ =
    leave (crashed (push log (entry step true dispatched_forever)) "Invalid Date")

script_reply : Context → ℕ → Step → String → List LogEntry → Reply → Next
unfolding script_dispatched
script_reply c n step id log (replied true detail) =
    script_dispatched c n step id log (timeout_or_default step.timeout_minutes)
script_reply c n step id log (replied false detail) =
    continue (failure_id step) (push log (entry step false detail))
script_reply c n step id log (threw message) = leave (crashed log message)

-- A step of type "run_script_wait".
script_round : Context → ℕ → Step → String → List LogEntry → Next
unfolding script_reply
script_round c n step id log =
    if truthy (or_string step.library_id "")
    then script_reply c n step id log (c.env.execute n step)
    else continue (failure_id step)
        (push log (entry step false (text "No script selected from the Library")))

abbrev pub is_action : String → Bool
is_action t =
    str_eq t "mdm_action"
    || str_eq t "http_request"
    || str_eq t "notification"
    || str_eq t "policy_replace"
    || str_eq t "policy_add"
    || str_eq t "policy_restore"
    || str_eq t "monitor"

run_action : Context → ℕ → Step → Reply
run_action c n step =
    if is_action step.type then c.env.execute n step else replied false (unknown_type step.type)

after_action : Context → Step → String → List LogEntry → Reply → Next
after_action c step id log (replied true detail) =
    continue (success_id step id c.workflow.steps) (push log (entry step true detail))
after_action c step id log (replied false detail) =
    continue (failure_id step) (push log (entry step false detail))
after_action c step id log (threw message) = leave (crashed log message)

run_step : Context → ℕ → Step → String → List LogEntry → Next
unfolding wait_round script_round run_action after_action
run_step c n step id log =
    if str_eq step.type "wait"
    then wait_round c n step id log step.amount
    else if str_eq step.type "run_script_wait"
    then script_round c n step id log
    else after_action c step id log (run_action c n step)

-- The recovery check, and then the step.
checked : Context → ℕ → Step → String → List LogEntry → Check → Next
unfolding run_step
checked c n step id log not_recovered = run_step c n step id log
checked c n step id log (recovered entries) = leave (finished (log ++ entries))
checked c n step id log (check_threw message) = leave (crashed log message)

abbrev pub max_rounds : ℕ
max_rounds = 50

abbrev pub goes_on : ℕ → String → Bool
goes_on guard id = truthy id && not (str_eq id "end") && ltb guard max_rounds

-- One round of the loop, its condition included.
unfoldable pub round : Context → ℕ → String → List LogEntry → Next
unfolding checked
round c guard id log =
    if goes_on guard id
    then elim (find_step id c.workflow.steps) [
      | none ↦ leave (finished log)
      | some step ↦ checked c (suc guard) step id log (c.env.check (suc guard))
    ]
    else leave (finished log)

-- Whether the loop goes round again.
abbrev pub follow : Next → (String → List LogEntry → Exit) → Exit
follow (continue id log) again = again id log
follow (leave x) again = x

unfoldable pub loop : Context → ℕ → ℕ → String → List LogEntry → Exit
loop c zero guard id log = out_of_fuel
loop c (suc fuel) guard id log = follow (round c guard id log) (loop c fuel (suc guard))

abbrev pub final_of : List LogEntry → Final
final_of log =
    if all (λ s. s.ok) log then success else if any (λ s. s.ok) log then partial else failed

pub record ChainResult : Type 0 where
  pub steps : List LogEntry
  pub final_status : Option Final
  pub status : RowStatus

abbrev pub result_row : Context → ChainResult → ResultRow
result_row c r = record {
  run_id = c.run_id;
  device_id = c.device.id;
  device_name = c.device.display_name;
  steps = r.steps;
  status = r.status;
  final_status = r.final_status;
}

abbrev pub write_result : Context → ChainResult → Store → Store
write_result c r = upsert_run_result (result_row c r)

abbrev pub done_with : List LogEntry → Final → ChainResult
done_with log f = record { steps = log; final_status = some f; status = done }

abbrev pub close : Context → ChainResult → Store → Store × ChainResult
close c r s = (finalize_run_if_done (c.env.now 0) c.run_id (write_result c r s), r)

abbrev pub engine_error : String → LogEntry
engine_error message = record {
  step_id = none;
  name = "Workflow engine error";
  type = "error";
  ok = false;
  detail = unexpected message;
}

abbrev pub wait_result : Pending → ChainResult
wait_result p = record { steps = p.log; final_status = none; status = waiting }

-- What follows the loop: the tables are written, and the run is closed if this was its last device.
unfoldable pub settle : Context → Exit → Store → Store × ChainResult
settle c (parked p) s = (write_result c (wait_result p) (persist_pending_step p s), wait_result p)
settle c (finished log) s = close c (done_with log (final_of log)) s
settle c (crashed log message) s = close c (done_with (push log (engine_error message)) failed) s
settle c out_of_fuel s = (s, record { steps = []; final_status = none; status = waiting })

-- The rounds of the loop number 50 at most, and one more call sees that it has ended.
abbrev pub chain_fuel : ℕ
chain_fuel = 51

-- `startStepId || stepOrder[0]`
abbrev pub start_id : Option String → List Step → String
start_id start steps = or_string start (first_id steps)

-- The body of the `try`, by what the reads before the loop threw, if they did.
unfoldable pub chain_exit : Context → Option String → Option String → List LogEntry → Exit
unfolding loop round
chain_exit c (some message) start log = crashed log message
chain_exit c none start log = loop c chain_fuel (length log) (start_id start c.workflow.steps) log

unfoldable pub run_steps :
    Context → List Step → Option String → List LogEntry → Store → Store × ChainResult
unfolding settle chain_exit
run_steps c [] start existing s = close c (done_with [] success) s
run_steps c (_ ∷ _) start existing s = settle c (chain_exit c c.env.setup_error start existing) s

-- `runDeviceStepChain`
unfoldable pub run_device_step_chain :
    Context → Option String → List LogEntry → Store → Store × ChainResult
unfolding run_steps
run_device_step_chain c start existing s = run_steps c c.workflow.steps start existing s
