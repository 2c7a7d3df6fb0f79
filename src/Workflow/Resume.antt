-- ===== src/Workflow/Resume.antt =====
-- Picking parked chains up again: `resumeDueWorkflowSteps` and `resumeWorkflowPendingStepByToken` of
-- durableEngine.ts. The claimed rows of one tick are resumed one after another, in the order of the
-- claim. The workflow table and the automation credential are lookups of an `Outside`.
pub mod Progress
pub mod Claim
pub mod Replay
use applivery_soar.Common.{
  ℕ, suc, String, Bool, true, false, not, ◌&&◌, Option, none, some, List, [], ◌∷◌, map, truthy,
  or_string, leb, ◌==◌, if◌then◌else◌, length, take, keep, find, any, opt_eq, is_some,
}
use applivery_soar.Workflow.Store.{text, LogEntry, StepKind, timer, script, failed, Pending, Store}
use applivery_soar.Workflow.Steps.{Env, Workflow, Context, push}
use applivery_soar.Workflow.Chain.{done_with, close, run_device_step_chain}

pub record Outside : Type 0 where
  pub workflow_of : String → String → Option Workflow  -- by workspace and id
  pub bearer : String → String  -- the automation credential, "" if there is none
  pub env : Pending → Env  -- the answers during the resumed chain

abbrev pub is_script : StepKind → Bool
is_script script = true
is_script timer = false

-- `resumeAt <= now() AND claimedAt IS NULL`
abbrev pub is_due : ℕ → Pending → Bool
is_due now p = leb p.resume_at now && not (is_some p.claimed_at)

abbrev pub insert_by_time : Pending → List Pending → List Pending
insert_by_time p [] = p ∷ []
insert_by_time p (q ∷ qs) =
    if leb p.resume_at q.resume_at then p ∷ q ∷ qs else q ∷ insert_by_time p qs

-- `ORDER BY "resumeAt"`
abbrev pub sort_by_time : List Pending → List Pending
sort_by_time [] = []
sort_by_time (p ∷ ps) = insert_by_time p (sort_by_time ps)

abbrev pub has_row_id : List Pending → ℕ → Bool
has_row_id rows id = any (λ p. p.id == id) rows

-- The rows that a tick claims.
unfoldable pub due_rows : ℕ → ℕ → Store → List Pending
due_rows now limit s = take limit (sort_by_time (keep (is_due now) s.pending))

abbrev pub stamp : ℕ → List Pending → Pending → Pending
stamp now rows p = if has_row_id rows p.id then record p { claimed_at = some now } else p

-- The `UPDATE … RETURNING` of a tick.
unfoldable pub claim : ℕ → ℕ → Store → Store × List Pending
unfolding due_rows
claim now limit s =
    let rows = due_rows now limit s in
    (record s { pending = map (stamp now rows) s.pending }, map (stamp now rows) rows)

abbrev pub delete_row : ℕ → Store → Store
delete_row id s = record s { pending = keep (λ p. not (p.id == id)) s.pending }

abbrev pub note : String → String → Bool → String → LogEntry
note name label ok detail = record {
  step_id = none;
  name = name;
  type = label;
  ok = ok;
  detail = text detail;
}

abbrev pub gone : String
gone = "Linked workflow no longer exists"

abbrev pub no_credential : String
no_credential =
    "No automation credential is configured for this workspace — cannot resume without one. Configure one from Settings."

abbrev pub context_of : Outside → Pending → Workflow → Context
context_of o row w = record {
  env = o.env row;
  workflow = w;
  run_id = row.run_id;
  device = row.device;
  slug_key = row.slug_key;
}

abbrev pub no_workflow : Workflow
no_workflow = record { id = ""; steps = [] }

-- The device's part of the run ends as failed, with one more entry in its log.
abbrev pub give_up : Outside → Pending → List LogEntry → LogEntry → Store → Store
give_up o row log e s = (close (context_of o row no_workflow) (done_with (push log e) failed) s).0

-- The chain goes on at a step, if the workflow and the credential are there. The flag says that
-- the credential was missing.
unfoldable pub resume_at_step :
    Outside
    → Pending
    → String
    → String
    → List LogEntry
    → List LogEntry
    → Option Workflow
    → Store
    → Store × Bool
resume_at_step o row label target given_up log none s =
    (give_up o row given_up (note "Resume" label false gone) s, false)
resume_at_step o row label target given_up log (some w) s =
    if truthy (o.bearer row.slug_key)
    then ((run_device_step_chain (context_of o row w) (some target) log s).0, false)
    else (give_up o row given_up (note "Resume" label false no_credential) s, true)

abbrev pub label_of : StepKind → String
label_of script = "run_script_wait"
label_of timer = "wait"

-- A script whose result has not come by its timeout follows the failure branch.
abbrev pub target_of : Pending → StepKind → String
target_of row script = or_string row.on_failure_step_id "end"
target_of row timer = row.next_step_id

abbrev pub timeout_note : LogEntry
timeout_note =
    note "Script result" "run_script_wait" false
      "No script result received before the timeout — following the failure branch"

abbrev pub timer_log : Pending → StepKind → List LogEntry
timer_log row script = push row.log timeout_note
timer_log row timer = row.log

-- `resumeOne`: the row is deleted whatever comes of the resumed step. The reads of the credential and of
-- the workflow, which the source makes before that, are taken to succeed.
unfoldable pub resume_one : Outside → Pending → Store → Store × Bool
unfolding resume_at_step
resume_one o row s =
    let (s', blocked) =
      resume_at_step o row (label_of row.step_kind) (target_of row row.step_kind) row.log
        (timer_log row row.step_kind) (o.workflow_of row.slug_key row.workflow_id) s in
    (delete_row row.id s', blocked)

abbrev pub count_blocked : Bool → ℕ → ℕ
count_blocked true n = suc n
count_blocked false n = n

unfoldable pub resume_all : Outside → List Pending → Store → Store × ℕ
unfolding resume_one
resume_all o [] s = (s, 0)
resume_all o (row ∷ rows) s =
    let (s', blocked) = resume_one o row s in
    let (s'', n) = resume_all o rows s' in (s'', count_blocked blocked n)

-- The count of the rows, or the error 502 with the count of those that were blocked.
pub data Tick : Type 0 where
  resumed : ℕ → Tick
  blocked_steps : ℕ → Tick

abbrev pub tick_of : ℕ → ℕ → Tick
tick_of blocked n = if blocked == 0 then resumed n else blocked_steps blocked

abbrev pub resume_claimed : Outside → Store × List Pending → Store × Tick
resume_claimed o (s, rows) =
    let (s', blocked) = resume_all o rows s in (s', tick_of blocked (length rows))

-- `resumeDueWorkflowSteps`
unfoldable pub resume_due_workflow_steps : Outside → ℕ → ℕ → Store → Store × Tick
unfolding claim resume_all
resume_due_workflow_steps o now limit s = resume_claimed o (claim now limit s)

abbrev pub has_token : String → Pending → Bool
has_token token p = opt_eq p.pending_token (some token)

abbrev pub delete_token : String → Store → Store
delete_token token s = record s { pending = keep (λ p. not (has_token token p)) s.pending }

abbrev pub outcome_text : Bool → String
outcome_text true = "Script completed successfully — resuming"
outcome_text false = "Script failed — following the failure branch"

abbrev pub outcome_target : Pending → Bool → String
outcome_target row true = row.next_step_id
outcome_target row false = or_string row.on_failure_step_id "end"

-- The log with the script's result.
abbrev pub result_log : Pending → Bool → String → List LogEntry
result_log row ok extra =
    push row.log
      (note "Script result" "run_script_wait" ok (or_string (some extra) (outcome_text ok)))

resume_found : Outside → Bool → String → Pending → Store → Store
unfolding resume_at_step
resume_found o ok extra row s =
    (resume_at_step o row "run_script_wait" (outcome_target row ok) (result_log row ok extra)
      (result_log row ok extra) (o.workflow_of row.slug_key row.workflow_id) s).0

-- `resumeWorkflowPendingStepByToken`
unfoldable pub resume_by_token : Outside → String → Bool → String → Store → Store
unfolding resume_found
resume_by_token o token ok extra s =
    if truthy token
    then elim (find (has_token token) s.pending) [
      | none ↦ s
      | some row ↦ resume_found o ok extra row (delete_token token s)
    ]
    else s
