-- ===== src/Workflow/Store.antt =====
-- The tables that the engine writes (durableEngine.ts): WorkflowRun, WorkflowRunResult and
-- WorkflowPendingStep as lists of rows, and the operations on them. A time is a number of
-- milliseconds. The database calls are taken to succeed. The texts of a log are values of `Detail`,
-- with one constructor for each template of the source.
pub mod Rows
pub mod Finalize
use applivery_soar.Common.{
  ℕ, suc, String, Bool, true, false, ◌&&◌, Option, none, some, List, [], ◌∷◌, ◌++◌, str_eq, leb,
  if◌then◌else◌, find, keep, count_if, any, not,
}

pub data Detail : Type 0 where
  text : String → Detail
  waiting_until : ℕ → String → ℕ → Detail  -- amount, unit, resume time
  dispatched : ℕ → Detail  -- minutes
  dispatched_forever : Detail
  unknown_type : String → Detail
  unexpected : String → Detail

pub record LogEntry : Type 0 where
  pub step_id : Option String
  pub name : String
  pub type : String
  pub ok : Bool
  pub detail : Detail

pub data Final : Type 0 where
  success partial failed : Final

pub data RowStatus : Type 0 where
  waiting done : RowStatus

pub record ResultRow : Type 0 where
  pub run_id : String
  pub device_id : String
  pub device_name : Option String
  pub steps : List LogEntry
  pub status : RowStatus
  pub final_status : Option Final

pub record RunLog : Type 0 where
  pub workflow_name : Option String
  pub total : ℕ
  pub completed : ℕ
  pub results : List ResultRow

pub data RunStatus : Type 0 where
  running completed : RunStatus

pub record Run : Type 0 where
  pub id : String
  pub workspace_slug : String
  pub workflow_name : Option String
  pub total : Option ℕ
  pub status : RunStatus
  pub completed_at : Option ℕ
  pub log : Option RunLog

pub data StepKind : Type 0 where
  timer script : StepKind

pub record Device : Type 0 where
  pub id : String
  pub display_name : Option String

pub record Pending : Type 0 where
  pub id : ℕ
  pub run_id : String
  pub device : Device
  pub workflow_id : String
  pub slug_key : String
  pub next_step_id : String
  pub log : List LogEntry
  pub resume_at : ℕ
  pub step_kind : StepKind
  pub on_failure_step_id : Option String
  pub pending_token : Option String
  pub claimed_at : Option ℕ

-- `next_id` is the database's supply of row ids.
pub record Store : Type 0 where
  pub runs : List Run
  pub results : List ResultRow
  pub pending : List Pending
  pub next_id : ℕ

abbrev pub is_row : String → String → ResultRow → Bool
is_row run_id device_id r = str_eq r.run_id run_id && str_eq r.device_id device_id

abbrev pub upsert_row : ResultRow → List ResultRow → List ResultRow
upsert_row new [] = new ∷ []
upsert_row new (r ∷ rs) =
    if is_row new.run_id new.device_id r then new ∷ rs else r ∷ upsert_row new rs

-- `upsertRunResult`: the key of a row is (runId, deviceId).
unfoldable pub upsert_run_result : ResultRow → Store → Store
upsert_run_result new s = record s { results = upsert_row new s.results }

abbrev pub is_completed : RunStatus → Bool
is_completed completed = true
is_completed running = false

abbrev pub is_done : RowStatus → Bool
is_done done = true
is_done waiting = false

abbrev pub of_run : String → ResultRow → Bool
of_run run_id r = str_eq r.run_id run_id

abbrev pub has_id : String → Run → Bool
has_id run_id r = str_eq r.id run_id

-- `findMany({ where: { runId } })`
abbrev pub rows_of : String → Store → List ResultRow
rows_of run_id s = keep (of_run run_id) s.results

abbrev pub done_count : List ResultRow → ℕ
done_count rows = count_if (λ r. is_done r.status) rows

abbrev pub complete_run : ℕ → List ResultRow → ℕ → Run → Run
complete_run now rows total r = record r {
  status = completed;
  completed_at = some now;
  log = some (record {
    workflow_name = r.workflow_name;
    total = total;
    completed = done_count rows;
    results = rows;
  });
}

abbrev pub update_run : String → (Run → Run) → List Run → List Run
update_run run_id f [] = []
update_run run_id f (r ∷ rs) = if has_id run_id r then f r ∷ rs else r ∷ update_run run_id f rs

-- What `finalizeRunIfDone` does with the run that it found, by its status and total.
abbrev pub finalize_found : ℕ → String → Store → RunStatus → Option ℕ → Store
finalize_found now run_id s completed total = s
finalize_found now run_id s running none = s
finalize_found now run_id s running (some total) =
    if leb total (done_count (rows_of run_id s))
    then record s { runs = update_run run_id (complete_run now (rows_of run_id s) total) s.runs }
    else s

-- `finalizeRunIfDone`
unfoldable pub finalize_run_if_done : ℕ → String → Store → Store
finalize_run_if_done now run_id s = elim (find (has_id run_id) s.runs) [
  | none ↦ s
  | some run ↦ finalize_found now run_id s run.status run.total
]

-- `persistPendingStep`
unfoldable pub persist_pending_step : Pending → Store → Store
persist_pending_step p s = record s {
  pending = s.pending ++ record p { id = s.next_id; claimed_at = none } ∷ [];
  next_id = suc s.next_id;
}

pub data ViewStatus : Type 0 where
  completed waiting running : ViewStatus

pub record RunView : Type 0 where
  pub id : String
  pub status : ViewStatus
  pub total : ℕ
  pub completed : ℕ
  pub results : List ResultRow

abbrev pub is_waiting : ResultRow → Bool
is_waiting r = not (is_done r.status)

-- `run.total && completed >= run.total`
abbrev pub reached : Option ℕ → ℕ → Bool
reached none n = false
reached (some total) n = not (leb total 0) && leb total n

abbrev pub view_status : Run → List ResultRow → ViewStatus
view_status run rows =
    if is_completed run.status
    then completed
    else if any is_waiting rows
    then waiting
    else if reached run.total (done_count rows)
    then completed
    else running

abbrev pub view_total : Option ℕ → ℕ
view_total none = 0
view_total (some n) = n

-- `runView`
unfoldable pub run_view : String → Store → Option RunView
run_view run_id s = elim (find (has_id run_id) s.runs) [
  | none ↦ none
  | some run ↦ some (record {
    id = run.id;
    status = view_status run (rows_of run_id s);
    total = view_total run.total;
    completed = done_count (rows_of run_id s);
    results = rows_of run_id s;
  })
]

abbrev pub collect_views : List Run → Store → List RunView
collect_views [] s = []
collect_views (r ∷ rs) s =
    let rest = collect_views rs s in elim (run_view r.id s) [ none ↦ rest | some v ↦ v ∷ rest ]

-- `listOpenRuns`; the rows of `runs` stand in the order of the query, the latest start first.
unfoldable pub list_open_runs : String → Store → List RunView
list_open_runs slug s =
    collect_views (keep (λ r. str_eq r.workspace_slug slug && not (is_completed r.status)) s.runs) s
