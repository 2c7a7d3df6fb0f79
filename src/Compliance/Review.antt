-- ===== src/Compliance/Review.antt =====
-- The review of violations by hand (modules/compliance/compliance.service.ts): `approveViolationCore`,
-- `dismissViolationCore` and their bulk forms. The workflows of the workspace and the launch of a run
-- come from outside; what the removal of markers does is in Compliance/Markers, here it is recorded
-- that it was asked for.
pub mod Approve
mod Tests
use applivery_soar.Compliance.Pass.Table.{
  Workflow, Violation, ViolationStatus, pending, no_workflow, auto_fired, autorun_blocked,
  autorun_capped, workflow_unavailable, approved, dismissed, SuppressionEntry, State, pair_key,
}
use applivery_soar.Cases.Table.{
  Store, HttpError, http_error, link_run, add_case_timeline_entry, violation_approved,
  violation_dismissed,
}
use applivery_soar.Common.{
  if◌then◌else◌, ℕ, min, max, zero, suc, ◌+◌, ◌-◌, ◌*◌, ◌≤◌, ◌<◌, ◌≡◌, ◌≢◌, ◌↔◌, ◌⊎◌, inl, inr,
  refl, sym, ap, subst, ◌∙◌, String, Bool, true, false, not, ◌&&◌, ◌||◌, Option, none, some, List,
  [], ◌∷◌, ◌++◌, map, arith, ltb, leb, ◌==◌, ==_self, ==-eq, Bool-cases, Option-cases, or_else,
  is_some, or_string, join, str_eq, str_eq-true, str_eq_self, str_eq_comm, str_eq-false, truthy,
  includes, opt_eq, is_set, length, take, drop, any, all, keep, find, count_if, All, find-All,
  find-holds, All-keep, keep-all, all-keep, length-append, length-keep-le, lookup, insert,
  delete_keys, lookup-insert, lookup-delete_keys,
}

-- A run that a review has started.
pub record Started : Type 0 where
  pub workflow_id : String
  pub device_id : String
  pub run_id : String

pub record Desk {ℓ} (Condition : Type ℓ) : Type ℓ where
  pub violations : List (Violation Condition)
  pub state : State
  pub store : Store
  pub runs : List Started
  pub attempts : ℕ
  pub cleanups : List (String × String)  -- `removeComplianceMarkersForDevice`: policy and device

pub record Reviewer : Type 0 where
  pub workflows : List Workflow
  pub launch : ℕ → Workflow → String → Option String  -- by the calls before, workflow and device
  pub actor : String
  pub now : ℕ

pub data ReviewOutcome {ℓ} (A : Type ℓ) : Type ℓ where
  accepted : A → ReviewOutcome A
  refused : HttpError → ReviewOutcome A

abbrev pub is_pending : ViolationStatus → Bool
is_pending pending = true
is_pending no_workflow = false
is_pending auto_fired = false
is_pending autorun_blocked = false
is_pending autorun_capped = false
is_pending workflow_unavailable = false
is_pending approved = false
is_pending dismissed = false

abbrev pub status_name : ViolationStatus → String
status_name pending = "pending"
status_name no_workflow = "no_workflow"
status_name auto_fired = "auto_fired"
status_name autorun_blocked = "autorun_blocked"
status_name autorun_capped = "autorun_capped"
status_name workflow_unavailable = "workflow_unavailable"
status_name approved = "approved"
status_name dismissed = "dismissed"

-- `state[key].status = …`, if there is an entry
abbrev pub set_entry : String → ViolationStatus → Option SuppressionEntry → State → State
set_entry key status none state = state
set_entry key status (some entry) state = insert key (record entry { status = status }) state

abbrev pub set_status : String → ViolationStatus → State → State
set_status key status state = set_entry key status (lookup key state) state

abbrev pub linked_workflow : List Workflow → Option String → Option Workflow
linked_workflow workflows none = none
linked_workflow workflows (some id) =
    if truthy id then find (λ w. str_eq w.id id) workflows else none

pub record BulkResult {ℓ} (Condition : Type ℓ) : Type ℓ where
  pub desk : Desk Condition
  pub succeeded : List String
  pub not_done : List (String × HttpError)

module _ {ℓ} {Condition : Type ℓ} where
  abbrev pub violation_at : String → Desk Condition → Option (Violation Condition)
  violation_at id t = find (λ v. str_eq v.id id) t.violations

  -- `prisma.complianceViolation.update`, by id
  abbrev pub set_violation :
      Violation Condition → List (Violation Condition) → List (Violation Condition)
  set_violation new [] = []
  set_violation new (v ∷ vs) = if str_eq v.id new.id then new ∷ vs else v ∷ set_violation new vs

  abbrev pub approved_row : Reviewer → String → Violation Condition → Violation Condition
  approved_row r run_id v = record v {
    status = approved;
    resolved_at = some r.now;
    workflow_run_id = some run_id;
  }

  -- The case of an approved violation.
  abbrev pub link_approved : Reviewer → Violation Condition → Workflow → String → Store → Store
  link_approved r v w run_id s = elim v.case_id [
    | none ↦ s
    | some case_id ↦ link_run case_id run_id (violation_approved r.actor w.name) r.actor r.now s
  ]

  abbrev pub approve_with :
      Reviewer → Violation Condition → Workflow → String → Desk Condition → Desk Condition
  approve_with r v w run_id t = record {
    violations = set_violation (approved_row r run_id v) t.violations;
    state = set_status (pair_key v.policy_id v.device_id) approved t.state;
    store = link_approved r v w run_id t.store;
    runs = t.runs ++ record { workflow_id = w.id; device_id = v.device_id; run_id = run_id } ∷ [];
    attempts = suc t.attempts;
    cleanups = t.cleanups ++ (v.policy_id, v.device_id) ∷ [];
  }

  abbrev pub approve_launched :
      Reviewer
      → Violation Condition
      → Workflow
      → Option String
      → Desk Condition
      → ReviewOutcome (Desk Condition)
  approve_launched r v w none t = refused (
      http_error 400
        "This workflow includes a 'wait' or 'run script and wait for result' step, which requires durable storage (Phase 4b).")
  approve_launched r v w (some run_id) t = accepted (approve_with r v w run_id t)

  abbrev pub approve_pending :
      Reviewer
      → Violation Condition
      → Option Workflow
      → Desk Condition
      → ReviewOutcome (Desk Condition)
  approve_pending r v none t = refused (http_error 400 "Linked workflow no longer exists")
  approve_pending r v (some w) t = approve_launched r v w (r.launch t.attempts w v.device_id) t

  abbrev pub approve_found :
      Reviewer → Option (Violation Condition) → Desk Condition → ReviewOutcome (Desk Condition)
  approve_found r none t = refused (http_error 404 "Violation not found")
  approve_found r (some v) t =
      if is_pending v.status
      then approve_pending r v (linked_workflow r.workflows v.workflow_id) t
      else refused (http_error 400 (join "Violation already '" (join (status_name v.status) "'")))

  -- `approveViolationCore`
  unfoldable pub approve_violation_core :
      Reviewer → String → Desk Condition → ReviewOutcome (Desk Condition)
  unfolding link_run
  approve_violation_core r id t = approve_found r (violation_at id t) t

  abbrev pub dismissed_row : Reviewer → Violation Condition → Violation Condition
  dismissed_row r v = record v { status = dismissed; resolved_at = some r.now }

  abbrev pub note_dismissed : Reviewer → Violation Condition → Store → Store
  note_dismissed r v s = elim v.case_id [
    | none ↦ s
    | some case_id ↦ add_case_timeline_entry case_id (violation_dismissed r.actor) r.actor s
  ]

  abbrev pub dismiss_found :
      Reviewer
      → Bool
      → Option (Violation Condition)
      → Desk Condition
      → ReviewOutcome (Desk Condition)
  dismiss_found r authorized none t = refused (http_error 404 "Violation not found")
  dismiss_found r authorized (some v) t = accepted (record t {
    violations = set_violation (dismissed_row r v) t.violations;
    state = set_status (pair_key v.policy_id v.device_id) dismissed t.state;
    store = note_dismissed r v t.store;
    cleanups = if authorized then t.cleanups ++ (v.policy_id, v.device_id) ∷ [] else t.cleanups;
  })

  -- `dismissViolationCore`; whether an authorization was given decides on the cleanup
  unfoldable pub dismiss_violation_core :
      Reviewer → Bool → String → Desk Condition → ReviewOutcome (Desk Condition)
  unfolding add_case_timeline_entry
  dismiss_violation_core r authorized id t = dismiss_found r authorized (violation_at id t) t

  -- The loop of the bulk forms, with the rest of the loop by the desk that it starts from.
  abbrev pub note_reviewed :
      String
      → ReviewOutcome (Desk Condition)
      → Desk Condition
      → (Desk Condition → BulkResult Condition)
      → BulkResult Condition
  note_reviewed id (accepted u) t rest = let r = rest u in record r { succeeded = id ∷ r.succeeded }
  note_reviewed id (refused e) t rest =
      let r = rest t in record r { not_done = (id, e) ∷ r.not_done }

  abbrev pub bulk_review :
      (String → Desk Condition → ReviewOutcome (Desk Condition))
      → List String
      → Desk Condition
      → BulkResult Condition
  bulk_review review [] t = record { desk = t; succeeded = []; not_done = [] }
  bulk_review review (id ∷ ids) t = note_reviewed id (review id t) t (bulk_review review ids)

  -- `bulkApproveViolations`
  unfoldable pub bulk_approve_violations :
      Reviewer → List String → Desk Condition → BulkResult Condition
  unfolding approve_violation_core
  bulk_approve_violations r ids t = bulk_review (approve_violation_core r) ids t

  -- `bulkDismissViolations`
  unfoldable pub bulk_dismiss_violations :
      Reviewer → Bool → List String → Desk Condition → BulkResult Condition
  unfolding dismiss_violation_core
  bulk_dismiss_violations r authorized ids t =
      bulk_review (dismiss_violation_core r authorized) ids t
