-- ===== src/Workflow/Resume/Progress.antt =====
-- What resuming a parked chain leaves behind (`resumeOne` and `resumeWorkflowPendingStepByToken` of
-- durableEngine.ts).
use applivery_soar.Common.{
  ℕ, ◌≤◌, ◌<◌, ◌≡◌, refl, ◌⊎◌, inl, inr, String, false, not, Option, none, some, List, [], ◌∷◌,
  ◌++◌, arith, length, length-append, keep, Bool-cases, truthy, ◌==◌,
}
use applivery_soar.Workflow.Store.{
  LogEntry, Store, Pending, StepKind, timer, script, RowStatus, waiting, done, failed,
}
use applivery_soar.Workflow.Steps.{Context, Workflow, push}
use applivery_soar.Workflow.Chain.{ChainResult, run_device_step_chain, max_rounds, done_with}
use applivery_soar.Workflow.Chain.Bounds.{IsToken}
use applivery_soar.Workflow.Chain.Outcome.{Settles, chain-IsSettled, pending-close}
use applivery_soar.Workflow.Resume.{
  Outside, context_of, no_workflow, note, gone, no_credential, give_up, resume_at_step, timer_log,
  timeout_note, resume_one, label_of, target_of,
}

-- A step that is parked on behalf of `row`, later than a log of `n` entries.
pub record IsHeir (o : Outside) (row : Pending) (n : ℕ) (p : Pending) : Type 0 where
  pub grown : n < length p.log
  pub bounded : length p.log ≤ max_rounds
  pub same_run : p.run_id ≡ row.run_id
  pub same_device : p.device ≡ row.device
  pub drawn : IsToken (o.env row).token p.pending_token

-- The pending steps are those that stood in the table, and at most one heir behind them.
abbrev pub Advances : Outside → Pending → ℕ → List Pending → List Pending → Type 0
Advances o row n before after =
    (after ≡ before) ⊎ ((p : Pending) × (after ≡ before ++ p ∷ []) × IsHeir o row n p)

Settles-Advances :
    (o : Outside) (row : Pending) (w : Workflow) (n : ℕ) (s s' : Store) (r : ChainResult)
    (status : RowStatus)
    → Settles (context_of o row w) n s s' r status
    → Advances o row n s.pending s'.pending
Settles-Advances o row w n s s' r waiting (lt, le, _, (p, eq, own, same)) = inr (
  p,
  eq,
  record {
    grown = rw same lt;
    bounded = rw same le;
    same_run = own.of_run;
    same_device = own.of_device;
    drawn = own.of_token;
  },
)
Settles-Advances o row w n s s' r done (eq, _) = inl eq

give_up-pending :
    (o : Outside) (row : Pending) (log : List LogEntry) (e : LogEntry) (s : Store)
    → (give_up o row log e s).pending ≡ s.pending
give_up-pending o row log e s =
    pending-close (context_of o row no_workflow) (done_with (push log e) failed) s

pub resume_at_step-Advances :
    (o : Outside) (row : Pending) (label target : String) (given_up log : List LogEntry)
    (w : Option Workflow) (s : Store)
    → Advances o row
        (length log)
        s.pending
        (resume_at_step o row label target given_up log w s).0.pending
unfolding resume_at_step
resume_at_step-Advances o row label target given_up log none s =
    inl (give_up-pending o row given_up (note "Resume" label false gone) s)
resume_at_step-Advances o row label target given_up log (some w) s =
    elim (Bool-cases (truthy (o.bearer row.slug_key))) [
      | inl e ↦
          let c : Context = context_of o row w in
          let r = run_device_step_chain c (some target) log s in
          rw e (
            Settles-Advances o row w (length log) s r.0 r.1 r.1.status
              (chain-IsSettled c (some target) log s).1)
      | inr e ↦
          rw e (inl (give_up-pending o row given_up (note "Resume" label false no_credential) s))
    ]

timer_log_grows : (row : Pending) (k : StepKind) → length row.log ≤ length (timer_log row k)
timer_log_grows row script = omega (arith, length-append row.log (timeout_note ∷ []))
timer_log_grows row timer = omega arith

Advances-weaken :
    (o : Outside) (row : Pending) {m n : ℕ} (before after : List Pending)
    → m ≤ n
    → Advances o row n before after
    → Advances o row m before after
Advances-weaken o row before after le (inl e) = inl e
Advances-weaken o row before after le (inr (p, e, heir)) = inr (
  p,
  e,
  record {
    grown = omega arith;
    bounded = heir.bounded;
    same_run = heir.same_run;
    same_device = heir.same_device;
    drawn = heir.drawn;
  },
)

abbrev pub without_row : ℕ → List Pending → List Pending
without_row id rows = keep (λ p. not (p.id == id)) rows

-- Resuming a row by the timer ends in a table without that row: in the rest of the old table, or in
-- that and one new row for the same run and device, whose log is strictly longer than the log of the
-- resumed row and has 50 entries at most.
pub resume_one-Advances :
    (o : Outside) (row : Pending) (s : Store)
    → (after : List Pending) × Advances o row (length row.log) s.pending after
      × ((resume_one o row s).0.pending ≡ without_row row.id after)
unfolding resume_one
resume_one-Advances o row s =
    let k = row.step_kind in
    let w = o.workflow_of row.slug_key row.workflow_id in
    let target = target_of row k in
    let after =
      (resume_at_step o row (label_of k) target row.log (timer_log row k) w s).0.pending in
    (
      after,
      Advances-weaken o row s.pending after (timer_log_grows row k)
          (resume_at_step-Advances o row (label_of k) target row.log (timer_log row k) w s),
      refl,
    )
