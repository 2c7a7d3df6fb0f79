-- ===== src/Workflow/Run/Completion.antt =====
-- A run whose chains all end is completed (`executeWorkflowRunDurable` of durableEngine.ts).
use applivery_soar.Common.{
  ℕ, suc, ◌+◌, ◌≤◌, ◌≡◌, refl, sym, ap, subst, ◌∙◌, String, false, Option, none, some, inl, inr,
  List, [], ◌∷◌, arith, find, keep, Bool-cases, str_eq, str_eq_self, length, All, le→leb,
}
use applivery_soar.Workflow.Store.{
  Store, Run, ResultRow, done, completed, is_row, of_run, rows_of, done_count, is_done, upsert_row,
  upsert_run_result, finalize_run_if_done,
}
use applivery_soar.Workflow.Store.Rows.{row_at, row_at-upsert_ne}
use applivery_soar.Workflow.Store.Finalize.{
  run_at, finalize-run, finalize_of_completed, finalize-results, closed_if_due, ended_count,
  done_count_lem, RunStatus-cases,
}
use applivery_soar.Workflow.Steps.{Step, Exit, parked, finished, crashed, out_of_fuel, Context}
use applivery_soar.Workflow.Chain.{
  ChainResult, close, result_row, settle, run_steps, run_device_step_chain, chain_exit,
}
use applivery_soar.Workflow.Run.{run_chains, execute_workflow_run_durable}

-- One more device is done when a device without a row gets one.
done_count-upsert_row :
    (new : ResultRow) (rows : List ResultRow)
    → new.status ≡ done
    → find (is_row new.run_id new.device_id) rows ≡ none
    → done_count (keep (of_run new.run_id) (upsert_row new rows))
      ≡ suc (done_count (keep (of_run new.run_id) rows))
done_count-upsert_row new [] d h = rw (str_eq_self new.run_id, d)
done_count-upsert_row new (r ∷ rs) d h = elim (Bool-cases (is_row new.run_id new.device_id r)) [
  | inl e ↦ cc (rw e at h)
  | inr e ↦
      let ih = done_count-upsert_row new rs d (rw e at h) in
      rw e (elim (Bool-cases (of_run new.run_id r)) [
        | inl k ↦
            rw k
              (elim (Bool-cases (is_done r.status)) [ inl m ↦ rw m (ap suc ih) | inr m ↦ rw m ih ])
        | inr k ↦ rw k ih
      ])
]

settle-close :
    (c : Context) (x : Exit) (s : Store)
    → (settle c x s).1.status ≡ done
    → settle c x s ≡ close c (settle c x s).1 s
unfolding settle
settle-close c (parked p) s h = cc
settle-close c (finished log) s h = refl
settle-close c (crashed log m) s h = refl
settle-close c out_of_fuel s h = cc

-- A chain that is done has written its row and closed the run if it was due, and no more.
chain-close :
    (c : Context) (start : Option String) (s : Store)
    → (run_device_step_chain c start [] s).1.status ≡ done
    → run_device_step_chain c start [] s ≡ close c (run_device_step_chain c start [] s).1 s
unfolding run_device_step_chain
chain-close c start s = go c.workflow.steps
  where
    go :
        (steps : List Step)
        → (run_steps c steps start [] s).1.status ≡ done
        → run_steps c steps start [] s ≡ close c (run_steps c steps start [] s).1 s
    go [] h = refl
    go (x ∷ xs) h = settle-close c (chain_exit c c.env.setup_error start []) s h

-- The run is there, with that total.
abbrev pub HasRun : String → ℕ → Store → Type 0
HasRun run_id total s = (r : Run) × (run_at run_id s ≡ some r) × (r.total ≡ some total)

closed_if_due-total :
    (now : ℕ) (rows : List ResultRow) (total : Option ℕ) (r : Run)
    → (closed_if_due now rows total r).total ≡ r.total
closed_if_due-total now rows none r = refl
closed_if_due-total now rows (some t) r = ground arith

closed_if_due_reached :
    (now total : ℕ) (rows : List ResultRow) (r : Run)
    → total ≤ done_count rows
    → (closed_if_due now rows (some total) r).status ≡ completed
closed_if_due_reached now total rows r le =
    let reached : total ≤ ended_count rows = omega (arith, le, done_count_lem rows) in
    rw (le→leb total (ended_count rows) reached)

finalize-HasRun :
    (now : ℕ) (run_id : String) (total : ℕ) (s : Store)
    → HasRun run_id total s
    → HasRun run_id total (finalize_run_if_done now run_id s)
finalize-HasRun now run_id total s (r, at, t) = elim (RunStatus-cases r.status) [
  | inl st ↦ (
    closed_if_due now (rows_of run_id s) r.total r,
    finalize-run now run_id s r at st,
    closed_if_due-total now (rows_of run_id s) r.total r ∙ t,
  )
  | inr st ↦ (r, rw (finalize_of_completed now run_id s r at st) at, t)
]

finalize_completes :
    (now : ℕ) (run_id : String) (total : ℕ) (s : Store)
    → HasRun run_id total s
    → total ≤ done_count (rows_of run_id s)
    → (r : Run) × (run_at run_id (finalize_run_if_done now run_id s) ≡ some r)
      × (r.status ≡ completed)
finalize_completes now run_id total s (r, at, t) le = elim (RunStatus-cases r.status) [
  | inl st ↦
      let rows = rows_of run_id s in
      (
        closed_if_due now rows r.total r,
        finalize-run now run_id s r at st,
        subst (λ x. (closed_if_due now rows x r).status ≡ completed) (sym t)
            (closed_if_due_reached now total rows r le),
      )
  | inr st ↦ (r, rw (finalize_of_completed now run_id s r at st) at, st)
]

abbrev next_store : Context → Store → Store
next_store c s = (run_device_step_chain c none [] s).0

-- Each chain belongs to the run and ends, in the state that the chains before it leave.
abbrev pub EndsDone : String → List Context → Store → Type 0
EndsDone run_id [] s = Unit
EndsDone run_id (c ∷ cs) s =
    (c.run_id ≡ run_id)
    × ((run_device_step_chain c none [] s).1.status ≡ done)
    × EndsDone run_id cs (run_device_step_chain c none [] s).0

-- The chains are of different devices.
abbrev pub IsDistinct : List Context → Type 0
IsDistinct [] = Unit
IsDistinct (c ∷ cs) = All (λ d. str_eq c.device.id d.device.id ≡ false) cs × IsDistinct cs

-- No row stands for any of the devices yet.
abbrev pub HasNoRows : String → Store → List Context → Type 0
HasNoRows run_id s cs = All (λ c. row_at run_id c.device.id s ≡ none) cs

row_at-close_ne :
    (run_id : String) (c d : Context) (r : ChainResult) (s : Store)
    → str_eq c.device.id d.device.id ≡ false
    → row_at run_id d.device.id (close c r s).0 ≡ row_at run_id d.device.id s
row_at-close_ne run_id c d r s h =
    ap (λ rows. find (is_row run_id d.device.id) rows)
      (finalize-results (c.env.now 0) c.run_id (upsert_run_result (result_row c r) s))
    ∙ row_at-upsert_ne run_id d.device.id (result_row c r) s (ground (arith, h))

HasNoRows-close :
    (run_id : String) (c : Context) (r : ChainResult) (s : Store) (cs : List Context)
    → All (λ d. str_eq c.device.id d.device.id ≡ false) cs
    → HasNoRows run_id s cs
    → HasNoRows run_id (close c r s).0 cs
HasNoRows-close run_id c r s [] h k = tt
HasNoRows-close run_id c r s (d ∷ ds) h k =
    (row_at-close_ne run_id c d r s h.0 ∙ k.0, HasNoRows-close run_id c r s ds h.1 k.1)

done_count-close :
    (c : Context) (r : ChainResult) (s : Store)
    → r.status ≡ done
    → row_at c.run_id c.device.id s ≡ none
    → done_count (rows_of c.run_id (close c r s).0) ≡ suc (done_count (rows_of c.run_id s))
unfolding upsert_run_result
done_count-close c r s d h =
    ap (λ rows. done_count (keep (of_run c.run_id) rows))
      (finalize-results (c.env.now 0) c.run_id (upsert_run_result (result_row c r) s))
    ∙ done_count-upsert_row (result_row c r) s.results d h

close-HasRun :
    (total : ℕ) (c : Context) (r : ChainResult) (s : Store)
    → HasRun c.run_id total s
    → HasRun c.run_id total (close c r s).0
unfolding upsert_run_result
close-HasRun total c r s h =
    finalize-HasRun (c.env.now 0) c.run_id total (upsert_run_result (result_row c r) s) h

-- What one chain of the run, `c`, that is done leaves to the chains behind it.
step_done :
    (total : ℕ) (c : Context) (cs : List Context) (s : Store)
    → (run_device_step_chain c none [] s).1.status ≡ done
    → IsDistinct (c ∷ cs)
    → HasNoRows c.run_id s (c ∷ cs)
    → HasRun c.run_id total s
    → (done_count (rows_of c.run_id (next_store c s)) ≡ suc (done_count (rows_of c.run_id s)))
      × HasNoRows c.run_id (next_store c s) cs
      × HasRun c.run_id total (next_store c s)
step_done total c cs s d distinct absent has =
    let r = (run_device_step_chain c none [] s).1 in
    subst
      (λ s'.
        (done_count (rows_of c.run_id s') ≡ suc (done_count (rows_of c.run_id s)))
        × HasNoRows c.run_id s' cs
        × HasRun c.run_id total s')
      (sym (ap (λ x. x.0) (chain-close c none s d)))
      (
        done_count-close c r s d absent.0,
        HasNoRows-close c.run_id c r s cs distinct.0 absent.1,
        close-HasRun total c r s has,
      )

chains_done :
    (run_id : String) (total : ℕ) (cs : List Context) (s : Store)
    → EndsDone run_id cs s
    → IsDistinct cs
    → HasNoRows run_id s cs
    → HasRun run_id total s
    → (length cs + done_count (rows_of run_id s) ≤ done_count (rows_of run_id (run_chains cs s)))
      × HasRun run_id total (run_chains cs s)
unfolding run_chains
chains_done run_id total [] s ends distinct absent has = (omega arith, has)
chains_done run_id total (c ∷ cs) s (e, d, ends) distinct absent has =
    let (more, absent', has') =
      subst
        (λ (run : String).
          (done_count (rows_of run (next_store c s)) ≡ suc (done_count (rows_of run s)))
          × HasNoRows run (next_store c s) cs
          × HasRun run total (next_store c s))
        e
        (step_done total c cs s d distinct (subst (λ run. HasNoRows run s (c ∷ cs)) (sym e) absent)
          (subst (λ run. HasRun run total s) (sym e) has)) in
    let (le, has'') = chains_done run_id total cs (next_store c s) ends distinct.1 absent' has' in
    (omega (arith, more, le), has'')

-- A run with one chain for each of its devices is completed, in whatever order the chains end, if none
-- of them is parked: when it began, the run was in the table with the count of the chains as its
-- total, the devices differed, and none of them had a row.
pub run-completed :
    (now : ℕ) (run_id : String) (chains : List Context) (s : Store)
    → EndsDone run_id chains s
    → IsDistinct chains
    → HasNoRows run_id s chains
    → HasRun run_id (length chains) s
    → (r : Run) × (run_at run_id (execute_workflow_run_durable now run_id chains s) ≡ some r)
      × (r.status ≡ completed)
unfolding execute_workflow_run_durable
run-completed now run_id chains s ends distinct absent has =
    let (le, has') = chains_done run_id (length chains) chains s ends distinct absent has in
    finalize_completes now run_id (length chains) (run_chains chains s) has' (omega (arith, le))
