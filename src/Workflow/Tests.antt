-- ===== src/Workflow/Tests.antt =====
-- The durable engine (durableEngine.ts) on small workflows.
use applivery_soar.Common.{
  ℕ, ◌≡◌, refl, String, true, false, none, some, List, [], ◌∷◌, All, str_eq,
}
use applivery_soar.Workflow.Store.{
  Store, Run, ResultRow, running, completed, waiting, done, text, script, Device, Pending, success,
  partial, rows_of, finalize_run_if_done, upsert_run_result,
}
use applivery_soar.Workflow.Store.Finalize.{run_at, finalize-run, closed_if_due}
use applivery_soar.Workflow.Steps.{
  Step, Workflow, Env, Context, Reply, replied, not_recovered, nan, whole,
}
use applivery_soar.Workflow.Chain.{run_device_step_chain}
use applivery_soar.Workflow.Chain.Outcome.{IsSettled, chain-IsSettled}
use applivery_soar.Workflow.Resume.{
  Outside, due_rows, claim, has_row_id, resume_one, resume_by_token, resume_due_workflow_steps,
}
use applivery_soar.Workflow.Resume.Progress.{Advances, without_row, resume_one-Advances}
use applivery_soar.Workflow.Resume.Claim.{claim_exclusive}
use applivery_soar.Workflow.Resume.Replay.{resume_by_token_once}
use applivery_soar.Workflow.Run.{execute_workflow_run_durable}
use applivery_soar.Workflow.Run.Completion.{run-completed}

abbrev bare_step : String → String → Step
bare_step id type = record {
  id = id;
  name = id;
  type = type;
  amount = nan;
  unit = none;
  library_id = none;
  timeout_minutes = nan;
  on_success = none;
  on_failure = none;
}

-- A notification, a wait of two hours, and an action that fails.
abbrev steps : List Step
steps =
    bare_step "a" "notification"
    ∷ record (bare_step "b" "wait") { amount = whole 2; unit = some "hours" }
    ∷ bare_step "c" "http_request"
    ∷ []

abbrev answer : ℕ → Step → Reply
answer n s = replied (str_eq s.type "notification") (text "sent")

abbrev env : Env
env = record {
  now = λ n. n;
  setup_error = none;
  check = λ n. not_recovered;
  execute = answer;
  token = λ n. "fresh";
}

abbrev laptop : Device
laptop = record { id = "d1"; display_name = some "Laptop" }

abbrev workflow : Workflow
workflow = record { id = "w"; steps = steps }

abbrev short_workflow : Workflow
short_workflow = record {
  id = "w";
  steps = bare_step "a" "notification" ∷ bare_step "c" "http_request" ∷ [];
}

abbrev context : Workflow → String → Context
context w id = record {
  env = env;
  workflow = w;
  run_id = "r";
  device = record { id = id; display_name = none };
  slug_key = "global";
}

abbrev run_of : ℕ → Run
run_of n = record {
  id = "r";
  workspace_slug = "global";
  workflow_name = some "Notify";
  total = some n;
  status = running;
  completed_at = none;
  log = none;
}

abbrev store_of : ℕ → Store
store_of n = record { runs = run_of n ∷ []; results = []; pending = []; next_id = 7 }

abbrev outside : Outside
outside = record {
  workflow_of = λ slug id. some workflow;
  bearer = λ slug. "token";
  env = λ row. env;
}

-- The chain parks at its second step for two hours.
chain_parks :
    (run_device_step_chain (context workflow "d1") none [] (store_of 1)).1.status ≡ waiting
unfolding run_device_step_chain
chain_parks = refl

chain_ends :
    (run_device_step_chain (context short_workflow "d1") none [] (store_of 1)).1.final_status
    ≡ some partial
unfolding run_device_step_chain
chain_ends = refl

chain-IsSettled_example :
    IsSettled
      (context workflow "d1")
      0
      (store_of 1)
      (run_device_step_chain (context workflow "d1") none [] (store_of 1))
chain-IsSettled_example = chain-IsSettled (context workflow "d1") none [] (store_of 1)

abbrev done_row : ResultRow
done_row = record {
  run_id = "r";
  device_id = "d1";
  device_name = none;
  steps = [];
  status = done;
  final_status = some success;
}

abbrev one_done : Store
one_done = record (store_of 1) { results = done_row ∷ [] }

finalize-run_example :
    run_at "r" (finalize_run_if_done 9 "r" one_done)
    ≡ some (closed_if_due 9 (rows_of "r" one_done) (some 1) (run_of 1))
finalize-run_example = finalize-run 9 "r" one_done (run_of 1) refl refl

abbrev parked_row : Pending
parked_row = record {
  id = 3;
  run_id = "r";
  device = laptop;
  workflow_id = "w";
  slug_key = "global";
  next_step_id = "c";
  log = [];
  resume_at = 5;
  step_kind = script;
  on_failure_step_id = none;
  pending_token = some "t";
  claimed_at = none;
}

abbrev parked_store : Store
parked_store = record (store_of 1) { pending = parked_row ∷ [] }

resume_one-Advances_example :
    (after : List Pending) × Advances outside parked_row 0 (parked_row ∷ []) after
    × ((resume_one outside parked_row parked_store).0.pending ≡ without_row 3 after)
resume_one-Advances_example = resume_one-Advances outside parked_row parked_store

claim_exclusive_example :
    All
      (λ p. has_row_id (due_rows 5 50 parked_store) p.id ≡ false)
      (due_rows 6 50 (claim 5 50 parked_store).0)
claim_exclusive_example = claim_exclusive 5 6 50 50 parked_store

-- The tick leaves no pending step, for the script's row has timed out and goes to its failure branch.
tick_clears : (resume_due_workflow_steps outside 5 50 parked_store).0.pending ≡ []
unfolding resume_due_workflow_steps run_device_step_chain upsert_run_result finalize_run_if_done
tick_clears = refl

resume_by_token_once_example :
    resume_by_token outside "t" false "" (resume_by_token outside "t" true "" parked_store)
    ≡ resume_by_token outside "t" true "" parked_store
resume_by_token_once_example =
    resume_by_token_once outside outside "t" true false "" "" parked_store (λ row n. refl)

run-completed_example :
    (r : Run) × (run_at "r" (
        execute_workflow_run_durable 0 "r"
          (context short_workflow "d1" ∷ context short_workflow "d2" ∷ [])
          (store_of 2))
      ≡ some r)
    × (r.status ≡ completed)
unfolding run_device_step_chain
run-completed_example =
    run-completed 0 "r" (context short_workflow "d1" ∷ context short_workflow "d2" ∷ [])
      (store_of 2) (refl, refl, (refl, refl, tt)) ((refl, tt), (tt, tt)) (refl, (refl, tt))
      (run_of 2, refl, refl)
