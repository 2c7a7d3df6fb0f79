-- ===== src/Compliance/Scheduler.antt =====
-- The tick of the compliance scheduler (modules/compliance/complianceJobs.ts), and the guard that keeps
-- two ticks of a job apart (jobs/jobReentrancyGuard.ts). What a workspace has around its tables comes
-- from outside. Of the errors of an evaluation only one is modelled, that the devices cannot be fetched,
-- which comes before anything is written; the clock stands still within a tick.
pub mod Stamped
mod Tests
use applivery_soar.Compliance.Alert.{Senders}
use applivery_soar.Compliance.Pass.Table.{Device, Policy, Workflow}
use applivery_soar.Compliance.Pass.Plan.{Outside}
use applivery_soar.Compliance.Pass.Evaluation.{Tables, Request, run_compliance_evaluation}
use applivery_soar.Cases.Table.{Dispatch}
use applivery_soar.Common.{
  if◌then◌else◌, ℕ, min, max, zero, suc, ◌+◌, ◌-◌, ◌*◌, ◌≤◌, ◌<◌, ◌≡◌, ◌≢◌, ◌↔◌, ◌⊎◌, inl, inr,
  refl, sym, ap, subst, ◌∙◌, String, Bool, true, false, not, ◌&&◌, ◌||◌, Option, none, some, List,
  [], ◌∷◌, ◌++◌, map, arith, ltb, leb, ◌==◌, ==_self, ==-eq, Bool-cases, Option-cases, or_else,
  is_some, or_string, join, str_eq, str_eq-true, str_eq_self, str_eq_comm, str_eq-false, truthy,
  includes, opt_eq, is_set, length, take, drop, any, all, keep, find, count_if, All, find-All,
  find-holds, All-keep, keep-all, all-keep, length-append, length-keep-le, lookup, insert,
  delete_keys, lookup-insert, lookup-delete_keys,
}

-- A minute, in milliseconds.
abbrev pub minute : ℕ
minute = 60000

-- `tryAcquireJobSlot`: the keys that run, and whether the job was marked as running
unfoldable pub try_acquire_job_slot : String → List String → List String × Bool
try_acquire_job_slot key running =
    if includes running key then (running, false) else (key ∷ running, true)

-- `releaseJobSlot`
unfoldable pub release_job_slot : String → List String → List String
release_job_slot key running = keep (λ k. not (str_eq k key)) running

pub record Surroundings {ℓ} (Condition : Type ℓ) : Type ℓ where
  pub outside : Outside Condition
  pub senders : Senders
  pub dispatch : Dispatch
  pub workflows : List Workflow
  pub devices : Option (List Device)
  pub has_automation : Bool  -- of `listAutomationWorkspaces`
  pub bearer : Option String  -- of `getAutomationBearer`

-- Why a workspace was not evaluated.
pub data Blocked : Type 0 where
  no_credential credential_cleared evaluation_failed : Blocked

abbrev pub due_request : List String → Request
due_request ids = record { policy_ids = some ids; only_device_serial = none }

abbrev pub if_blocked : String → Option Blocked → List (String × Blocked) → List (String × Blocked)
if_blocked slug none bs = bs
if_blocked slug (some b) bs = (slug, b) ∷ bs

module _ {ℓ} {Condition : Type ℓ} where
  -- The filter of the due policies.
  abbrev pub has_waited : ℕ → Policy Condition → Bool
  has_waited now p = elim p.last_evaluated_at [
    | none ↦ true
    | some last ↦ leb (last + p.evaluation_interval_minutes * minute) now
  ]

  abbrev pub is_due : ℕ → Policy Condition → Bool
  is_due now p = p.enabled && has_waited now p

  abbrev pub policy_ids : List (Policy Condition) → List String
  policy_ids [] = []
  policy_ids (p ∷ ps) = p.id ∷ policy_ids ps

  -- `duePolicyIds`
  abbrev pub due_policy_ids : ℕ → Tables Condition → List String
  due_policy_ids now t = policy_ids (keep (is_due now) t.policies)

  abbrev pub evaluate_due :
      Surroundings Condition
      → List String
      → Tables Condition
      → Option (List Device)
      → Tables Condition × Option Blocked
  evaluate_due e ids t none = (t, some evaluation_failed)
  evaluate_due e ids t (some devices) = (
    (run_compliance_evaluation e.outside e.senders e.dispatch e.workflows devices (due_request ids)
        t).0,
    none,
  )

  -- One round of the loop over the workspaces
  unfoldable pub tick_workspace :
      Surroundings Condition → Tables Condition → Tables Condition × Option Blocked
  unfolding run_compliance_evaluation
  tick_workspace e t =
      let ids = due_policy_ids e.outside.now t in
      if length ids == 0
      then (t, none)
      else if not e.has_automation
      then (t, some no_credential)
      else if not (is_set e.bearer)
      then (t, some credential_cleared)
      else evaluate_due e ids t e.devices

  -- The workspaces, each with its surroundings and tables, and those that were not evaluated; the
  -- tick throws 502 if there are any.
  unfoldable pub run_compliance_scheduler_tick :
      List (String × (Surroundings Condition × Tables Condition))
      → List (String × Tables Condition) × List (String × Blocked)
  unfolding tick_workspace
  run_compliance_scheduler_tick [] = ([], [])
  run_compliance_scheduler_tick ((slug, (e, t)) ∷ ws) =
      let one = tick_workspace e t in
      let rest = run_compliance_scheduler_tick ws in
      ((slug, one.0) ∷ rest.0, if_blocked slug one.1 rest.1)
