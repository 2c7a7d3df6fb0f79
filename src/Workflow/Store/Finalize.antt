-- ===== src/Workflow/Store/Finalize.antt =====
-- `finalizeRunIfDone` of durableEngine.ts.
use applivery_soar.Common.{
  ℕ, ◌+◌, ◌≡◌, refl, sym, ap, subst, ◌∙◌, ◌⊎◌, String, true, false, inl, inr, Option, none, some,
  List, [], ◌∷◌, arith, find, Bool-cases, Option-cases, leb, if◌then◌else◌,
}
use applivery_soar.Workflow.Store.{
  ResultRow, Run, RowStatus, waiting, done, RunStatus, running, completed, Store, has_id, rows_of,
  done_count, update_run, complete_run, finalize_found, finalize_run_if_done,
}

abbrev pub run_at : String → Store → Option Run
run_at run_id s = find (has_id run_id) s.runs

finalize_found-results :
    (now : ℕ) (run_id : String) (s : Store) (status : RunStatus) (total : Option ℕ)
    → (finalize_found now run_id s status total).results ≡ s.results
finalize_found-results now run_id s completed total = refl
finalize_found-results now run_id s running none = refl
finalize_found-results now run_id s running (some t) = ground arith

finalize_found-pending :
    (now : ℕ) (run_id : String) (s : Store) (status : RunStatus) (total : Option ℕ)
    → (finalize_found now run_id s status total).pending ≡ s.pending
finalize_found-pending now run_id s completed total = refl
finalize_found-pending now run_id s running none = refl
finalize_found-pending now run_id s running (some t) = ground arith

-- Only the table of runs changes.
pub finalize-results :
    (now : ℕ) (run_id : String) (s : Store)
    → (finalize_run_if_done now run_id s).results ≡ s.results
unfolding finalize_run_if_done
finalize-results now run_id s = elim (Option-cases (run_at run_id s)) [
  | inl e ↦ rw (e, finalize_run_if_done)
  | inr (r, e) ↦ rw (e, finalize_run_if_done) (finalize_found-results now run_id s r.status r.total)
]

pub finalize-pending :
    (now : ℕ) (run_id : String) (s : Store)
    → (finalize_run_if_done now run_id s).pending ≡ s.pending
unfolding finalize_run_if_done
finalize-pending now run_id s = elim (Option-cases (run_at run_id s)) [
  | inl e ↦ rw (e, finalize_run_if_done)
  | inr (r, e) ↦ rw (e, finalize_run_if_done) (finalize_found-pending now run_id s r.status r.total)
]

find-update_run :
    (run_id : String) (f : Run → Run) (runs : List Run) {r : Run}
    → ((x : Run) → (f x).id ≡ x.id)
    → find (has_id run_id) runs ≡ some r
    → find (has_id run_id) (update_run run_id f runs) ≡ some (f r)
find-update_run run_id f [] k h = cc
find-update_run run_id f (x ∷ xs) {r} k h = elim (Bool-cases (has_id run_id x)) [
  | inl e ↦
      let same : x ≡ r = ground (arith, e, h) in
      let kept : has_id run_id (f x) ≡ true = rw (k x) e in rw (e, kept) (ap (λ y. some (f y)) same)
  | inr e ↦
      let later : find (has_id run_id) xs ≡ some r = rw e at h in
      rw (e, e) (find-update_run run_id f xs k later)
]

-- How many of the rows are those of a device that is done.
abbrev pub ended : RowStatus → ℕ
ended done = 1
ended waiting = 0

abbrev pub ended_count : List ResultRow → ℕ
ended_count [] = 0
ended_count (row ∷ rows) = ended row.status + ended_count rows

done_cases : (x : RowStatus) → (x ≡ done) ⊎ (x ≡ waiting)
done_cases done = inl refl
done_cases waiting = inr refl

pub done_count_lem : (rows : List ResultRow) → done_count rows ≡ ended_count rows
done_count_lem [] = refl
done_count_lem (row ∷ rows) = elim (done_cases row.status) [
  | inl e ↦ rw e (omega (arith, done_count_lem rows))
  | inr e ↦ rw e (omega (arith, done_count_lem rows))
]

-- What becomes of a run that is not completed, by its total and the count of the devices done.
abbrev pub closed_if_due : ℕ → List ResultRow → Option ℕ → Run → Run
closed_if_due now rows none r = r
closed_if_due now rows (some total) r =
    if leb total (ended_count rows)
    then record {
      id = r.id;
      workspace_slug = r.workspace_slug;
      workflow_name = r.workflow_name;
      total = r.total;
      status = completed;
      completed_at = some now;
      log = some (record {
        workflow_name = r.workflow_name;
        total = total;
        completed = ended_count rows;
        results = rows;
      });
    }
    else r

finalize_found-run :
    (now : ℕ) (run_id : String) (s : Store) {r : Run} (total : Option ℕ)
    → run_at run_id s ≡ some r
    → run_at run_id (finalize_found now run_id s running total)
      ≡ some (closed_if_due now (rows_of run_id s) total r)
finalize_found-run now run_id s none h = h
finalize_found-run now run_id s (some total) h =
    let same = done_count_lem (rows_of run_id s) in
    elim (Bool-cases (leb total (done_count (rows_of run_id s)))) [
      | inl k ↦
          let due : leb total (ended_count (rows_of run_id s)) ≡ true = rw same at k in
          rw (k, due)
            (find-update_run run_id (complete_run now (rows_of run_id s) total) s.runs (λ x. refl) h
              ∙ rw same refl)
      | inr k ↦
          let early : leb total (ended_count (rows_of run_id s)) ≡ false = rw same at k in
          rw (k, early) h
    ]

-- A run that is still running is completed exactly if it has a total and at least that many of its
-- devices are done; the run then holds the time and, in its log, the count of those done and the rows,
-- and is otherwise as it was. If not completed it stays as it is.
pub finalize-run :
    (now : ℕ) (run_id : String) (s : Store) (r : Run)
    → run_at run_id s ≡ some r
    → r.status ≡ running
    → run_at run_id (finalize_run_if_done now run_id s)
      ≡ some (closed_if_due now (rows_of run_id s) r.total r)
unfolding finalize_run_if_done
finalize-run now run_id s r h st =
    rw (h, finalize_run_if_done)
      (subst
        (λ t.
          run_at run_id (finalize_found now run_id s t r.total)
          ≡ some (closed_if_due now (rows_of run_id s) r.total r))
        (sym st) (finalize_found-run now run_id s r.total h))

-- Nothing is done to a run that is completed.
pub finalize_of_completed :
    (now : ℕ) (run_id : String) (s : Store) (r : Run)
    → run_at run_id s ≡ some r
    → r.status ≡ completed
    → finalize_run_if_done now run_id s ≡ s
unfolding finalize_run_if_done
finalize_of_completed now run_id s r h st =
    rw (h, finalize_run_if_done)
      (subst (λ t. finalize_found now run_id s t r.total ≡ s) (sym st) refl)

-- A run that the database does not have changes nothing.
finalize_of_missing :
    (now : ℕ) (run_id : String) (s : Store)
    → run_at run_id s ≡ none
    → finalize_run_if_done now run_id s ≡ s
unfolding finalize_run_if_done
finalize_of_missing now run_id s h = rw (h, finalize_run_if_done)

finalize_running :
    (now : ℕ) (run_id : String) (s : Store) (r : Run)
    → run_at run_id s ≡ some r
    → r.status ≡ running
    → (finalize_run_if_done now run_id s ≡ finalize_found now run_id s running r.total)
unfolding finalize_run_if_done
finalize_running now run_id s r h st =
    rw (h, finalize_run_if_done) (ap (λ t. finalize_found now run_id s t r.total) st)

finalize_found-again :
    (now later : ℕ) (run_id : String) (s : Store) (r : Run) (total : Option ℕ)
    → run_at run_id s ≡ some r
    → r.status ≡ running
    → r.total ≡ total
    → finalize_run_if_done later run_id (finalize_found now run_id s running total)
      ≡ finalize_found now run_id s running total
finalize_found-again now later run_id s r none h st e =
    finalize_running later run_id s r h st ∙ ap (λ t. finalize_found later run_id s running t) e
finalize_found-again now later run_id s r (some total) h st e =
    elim (Bool-cases (leb total (done_count (rows_of run_id s)))) [
      | inl k ↦ rw k (
          finalize_of_completed later run_id _ _
            (find-update_run run_id (complete_run now (rows_of run_id s) total) s.runs (λ x. refl)
              h)
            refl)
      | inr k ↦ rw k (
          finalize_running later run_id s r h st
          ∙ ap (λ t. finalize_found later run_id s running t) e
          ∙ rw k)
    ]

pub RunStatus-cases : (x : RunStatus) → (x ≡ running) ⊎ (x ≡ completed)
RunStatus-cases running = inl refl
RunStatus-cases completed = inr refl

-- Finalizing a run twice, at any two times, is the same as doing it once: the second call of two devices
-- that end together changes nothing.
pub finalize_idempotent :
    (now later : ℕ) (run_id : String) (s : Store)
    → finalize_run_if_done later run_id (finalize_run_if_done now run_id s)
      ≡ finalize_run_if_done now run_id s
finalize_idempotent now later run_id s = elim (Option-cases (run_at run_id s)) [
  | inl e ↦
      let same = finalize_of_missing now run_id s e in
      rw (same) (finalize_of_missing later run_id s e)
  | inr (r, e) ↦ elim (RunStatus-cases r.status) [
    | inl st ↦
        rw (finalize_running now run_id s r e st)
          (finalize_found-again now later run_id s r r.total e st refl)
    | inr st ↦
        rw (finalize_of_completed now run_id s r e st) (finalize_of_completed later run_id s r e st)
  ]
]
