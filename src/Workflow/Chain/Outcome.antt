-- ===== src/Workflow/Chain/Outcome.antt =====
-- What a call of `runDeviceStepChain` (durableEngine.ts) leaves in the tables and returns.
use applivery_soar.Common.{
  find, ◌≢◌, ℕ, ◌≤◌, ◌<◌, ◌≡◌, refl, ap, ◌∙◌, String, Option, none, some, List, [], ◌∷◌, ◌++◌,
  arith, length,
}
use applivery_soar.Workflow.Store.{
  LogEntry, Store, is_row, Pending, Final, success, failed, RowStatus, waiting, done,
  persist_pending_step, upsert_run_result,
}
use applivery_soar.Workflow.Store.Rows.{row_at, row_at-upsert_self}
use applivery_soar.Workflow.Store.Finalize.{finalize-results, finalize-pending}
use applivery_soar.Workflow.Steps.{
  Step, Exit, parked, finished, crashed, out_of_fuel, Context, push,
}
use applivery_soar.Workflow.Chain.{
  start_id, ChainResult, result_row, write_result, done_with, close, engine_error, wait_result,
  settle, chain_exit, run_steps, run_device_step_chain, chain_fuel, final_of, max_rounds,
}
use applivery_soar.Workflow.Chain.Bounds.{IsOwn, Ends, loop-Ends}

chain_exit-Ends :
    (c : Context) (error start : Option String) (log : List LogEntry)
    → Ends c (length log) (chain_exit c error start log)
unfolding chain_exit
chain_exit-Ends c (some m) start log = omega arith
chain_exit-Ends c none start log =
    loop-Ends c chain_fuel (length log) (start_id start c.workflow.steps) log refl (omega arith)
      (omega arith)

-- What is written before the run is closed stays written.
row_at-close :
    (c : Context) (r : ChainResult) (s : Store)
    → row_at c.run_id c.device.id (close c r s).0 ≡ some (result_row c r)
row_at-close c r s =
    ap (λ rows. find (is_row c.run_id c.device.id) rows)
      (finalize-results (c.env.now 0) c.run_id (write_result c r s))
    ∙ row_at-upsert_self (result_row c r) s

pub pending-close :
    (c : Context) (r : ChainResult) (s : Store) → (close c r s).0.pending ≡ s.pending
unfolding upsert_run_result
pending-close c r s = finalize-pending (c.env.now 0) c.run_id (write_result c r s)

-- What a call promises, from a log of `n` entries: the row of the device is the result; a chain that
-- waits has a longer log, of 50 entries at most, and has left one more pending step, its own, with
-- that log; a chain that is done has left none, and has a final status.
abbrev pub Settles : Context → ℕ → Store → Store → ChainResult → RowStatus → Type 0
Settles c n s s' r waiting =
    (n < length r.steps)
    × (length r.steps ≤ max_rounds)
    × (r.final_status ≡ none)
    × ((p : Pending) × (s'.pending ≡ s.pending ++ p ∷ []) × IsOwn c p × (p.log ≡ r.steps))
Settles c n s s' r done = (s'.pending ≡ s.pending) × (r.final_status ≢ none)

abbrev pub IsSettled : Context → ℕ → Store → Store × ChainResult → Type 0
IsSettled c n s (s', r) =
    (row_at c.run_id c.device.id s' ≡ some (result_row c r)) × Settles c n s s' r r.status

close-IsSettled :
    (c : Context) (n : ℕ) (log : List LogEntry) (f : Final) (s : Store)
    → IsSettled c n s (close c (done_with log f) s)
close-IsSettled c n log f s =
    (row_at-close c (done_with log f) s, (pending-close c (done_with log f) s, λ e. cc))

settle-IsSettled :
    (c : Context) (n : ℕ) (x : Exit) (s : Store) → Ends c n x → IsSettled c n s (settle c x s)
unfolding settle upsert_run_result persist_pending_step
settle-IsSettled c n (parked p) s (lt, le, own) =
    let p' : Pending = record p { id = s.next_id; claimed_at = none } in
    let own' : IsOwn c p' = record {
      of_run = own.of_run;
      of_device = own.of_device;
      of_workflow = own.of_workflow;
      of_slug = own.of_slug;
      of_token = own.of_token;
    } in
    (
      row_at-upsert_self (result_row c (wait_result p)) (persist_pending_step p s),
      (lt, le, refl, (p', refl, own', refl)),
    )
settle-IsSettled c n (finished log) s h = close-IsSettled c n log (final_of log) s
settle-IsSettled c n (crashed log m) s h = close-IsSettled c n (push log (engine_error m)) failed s
settle-IsSettled c n out_of_fuel s h = absurd h

-- Every call of `runDeviceStepChain` on any workflow ends within its fuel, either done or waiting, with
-- the row of the device equal to what it returns. If it is done, it has a final status and no new
-- pending step. If it waits, it has added exactly one pending step, its own and with its log, which is
-- longer than the log it was given and has 50 entries at most.
pub chain-IsSettled :
    (c : Context) (start : Option String) (log : List LogEntry) (s : Store)
    → IsSettled c (length log) s (run_device_step_chain c start log s)
unfolding run_device_step_chain
chain-IsSettled c start log s = go c.workflow.steps
  where
    go : (steps : List Step) → IsSettled c (length log) s (run_steps c steps start log s)
    go [] = close-IsSettled c (length log) [] success s
    go (x ∷ xs) =
        settle-IsSettled c (length log) (chain_exit c c.env.setup_error start log) s
          (chain_exit-Ends c c.env.setup_error start log)
