-- ===== src/Compliance/Pass/Run/Quiet.antt =====
-- A pass of `runComplianceEvaluation` (modules/compliance/compliance.service.ts) that finds every
-- device as it is flagged.
use applivery_soar.Compliance.Policy.{has_some}
use applivery_soar.Compliance.Pass.Table.{
  Device, Policy, Violation, Workflow, State, MarkerAction, SuppressionEntry,
}
use applivery_soar.Compliance.Pass.Plan.{Outside, Plan, Pass, Launch}
use applivery_soar.Compliance.Pass.Visit.{visit, key_of, visit_known, matched_by}
use applivery_soar.Compliance.Pass.Visit.Flag.{flagged, violates}
use applivery_soar.Compliance.Pass.Run.{
  visits, run_policy, run_policies, plan_of, scoped_devices, trip, begin_policy, end_policy,
  fresh_trip_of,
}
use applivery_soar.Compliance.Pass.Run.Flags.{Visits, visited, all_visited}
use applivery_soar.Cases.Table.{Store, Event}
use applivery_soar.Common.{
  ℕ, ◌≡◌, refl, sym, ap, subst, ◌∙◌, String, Option, none, some, List, [], ◌∷◌, ◌++◌, is_some,
  length, All, lookup,
}

-- The pairs are flagged as their verdicts say.
abbrev pub Agrees : State → Visits → Type 0
Agrees state vs = All (λ v. flagged state v.0 ≡ v.1) vs

Agrees-split :
    (state : State) (xs ys : Visits) → Agrees state (xs ++ ys) → Agrees state xs × Agrees state ys
Agrees-split state [] ys h = (tt, h)
Agrees-split state (x ∷ xs) ys h = let r = Agrees-split state xs ys h.1 in ((h.0, r.0), r.1)

-- All that a pass changes but for the audit log and what trips a policy.
pub record Effects {ℓ} (Condition : Type ℓ) : Type ℓ where
  pub state : State
  pub store : Store
  pub rows : List (Violation Condition)
  pub markers : List MarkerAction
  pub events : List (ℕ × Event)
  pub alerts : List (Policy Condition × (ℕ × ℕ))
  pub launches : List (Launch Condition)

abbrev pub effects {ℓ} : {Condition : Type ℓ} → Pass Condition → Effects Condition
effects s = record {
  state = s.state;
  store = s.store;
  rows = s.new_violation_rows;
  markers = s.marker_actions;
  events = s.case_notify_events;
  alerts = s.policy_alert_events;
  launches = s.launches;
}

module _ {ℓ} {Condition : Type ℓ} where
  visit-quiet :
      (o : Outside Condition) (plan : Plan Condition) (d : Device) (s : Pass Condition)
      → flagged s.state (key_of plan.policy d) ≡ violates o plan.policy d
      → visit o plan d s ≡ s
  unfolding visit
  visit-quiet o plan d s h =
      go (matched_by o plan.policy d) (lookup (key_of plan.policy d) s.state) h
    where
      go :
          (matched : List Condition) (known : Option SuppressionEntry)
          → is_some known ≡ has_some matched
          → visit_known o plan d matched known s ≡ s
      go matched none k = rw (← k) refl
      go matched (some entry) k = rw (← k) refl

  visits-quiet :
      (o : Outside Condition) (plan : Plan Condition) (ds : List Device) (s : Pass Condition)
      → Agrees s.state (visited o plan.policy ds)
      → visits o plan ds s ≡ s
  visits-quiet o plan [] s h = refl
  visits-quiet o plan (d ∷ ds) s h = rw (visit-quiet o plan d s h.0) (visits-quiet o plan ds s h.1)

  around-effects :
      (p : Policy Condition) (n : ℕ) (reason : Option String) (s : Pass Condition)
      → effects (end_policy p n (trip p reason (begin_policy n s))) ≡ effects s
  around-effects p n none s = refl
  around-effects p n (some reason) s = refl

  trip-state :
      (p : Policy Condition) (reason : Option String) (s : Pass Condition)
      → (trip p reason s).state ≡ s.state
  trip-state p none s = refl
  trip-state p (some reason) s = refl

  run_policy-quiet :
      (o : Outside Condition) (ws : List Workflow) (vs : List (Violation Condition))
      (devices : List Device) (p : Policy Condition) (s : Pass Condition)
      → Agrees s.state (visited o p (scoped_devices p devices))
      → effects (run_policy o ws vs devices p s) ≡ effects s
  unfolding run_policy plan_of
  run_policy-quiet o ws vs devices p s h =
      let plan = plan_of o ws vs p in
      let scoped = scoped_devices p devices in
      let begun = begin_policy (length scoped) s in
      let started = trip p (fresh_trip_of o plan vs) begun in
      let calm : Agrees started.state (visited o p scoped) =
        subst (λ state. Agrees state (visited o p scoped))
          (sym (trip-state p (fresh_trip_of o plan vs) begun)) h in
      ap (λ t. effects (end_policy p (length scoped) t)) (visits-quiet o plan scoped started calm)
      ∙ around-effects p (length scoped) (fresh_trip_of o plan vs) s

  pub run_policies-quiet :
      (o : Outside Condition) (ws : List Workflow) (vs : List (Violation Condition))
      (devices : List Device) (ps : List (Policy Condition)) (s : Pass Condition)
      → Agrees s.state (all_visited o devices ps)
      → effects (run_policies o ws vs devices ps s) ≡ effects s
  run_policies-quiet o ws vs devices [] s h = refl
  run_policies-quiet o ws vs devices (p ∷ ps) s h =
      let parts =
        Agrees-split s.state (visited o p (scoped_devices p devices)) (all_visited o devices ps)
          h in
      let first = run_policy-quiet o ws vs devices p s parts.0 in
      let calm : Agrees (run_policy o ws vs devices p s).state (all_visited o devices ps) =
        subst (λ state. Agrees state (all_visited o devices ps)) (sym (ap (λ e. e.state) first))
          parts.1 in
      run_policies-quiet o ws vs devices ps (run_policy o ws vs devices p s) calm ∙ first
