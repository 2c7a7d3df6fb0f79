-- ===== src/Compliance/Pass/Run/Launches.antt =====
-- The runs that a pass of `runComplianceEvaluation` (modules/compliance/compliance.service.ts)
-- starts: how many for each policy, how many for each device, and under which conditions.
use applivery_soar.Compliance.Pass.Table.{Device, Policy, Violation, Workflow}
use applivery_soar.Compliance.Pass.Plan.{Outside, Plan, Pass}
use applivery_soar.Compliance.Pass.Visit.{visit}
use applivery_soar.Compliance.Pass.Visit.Launching.{Ran, ran, Step, visit-Step}
use applivery_soar.Compliance.Pass.Run.{
  visits, run_policy, plan_of, scoped_devices, trip, begin_policy, alert_if_new, fresh_trip_of,
}
use applivery_soar.Common.{
  ℕ, ◌≡◌, inl, inr, refl, sym, subst, String, Option, none, some, List, [], ◌∷◌, ltb, Bool-cases,
  length, All,
}

module _ {ℓ} {Condition : Type ℓ} where
  -- What every step keeps holds after all the visits of a policy.
  pub visits-Keeps {κ} :
      (P : Ran Condition → Type κ) (Q : Device → Type 0) (o : Outside Condition)
      (plan : Plan Condition)
      → ((d : Device) (r r' : Ran Condition) → Q d → Step o plan d r r' → P r → P r')
      → (ds : List Device) (s : Pass Condition) → All Q ds
      → P (ran s)
      → P (ran (visits o plan ds s))
  visits-Keeps P Q o plan keeps [] s q h = h
  visits-Keeps P Q o plan keeps (d ∷ ds) s q h =
      visits-Keeps P Q o plan keeps ds (visit o plan d s) q.1
        (keeps d (ran s) (ran (visit o plan d s)) q.0 (visit-Step o plan d s) h)

  pub trip-ran :
      (p : Policy Condition) (reason : Option String) (s : Pass Condition)
      → ran (trip p reason s) ≡ ran s
  trip-ran p none s = refl
  trip-ran p (some reason) s = refl

  pub alert_if_new-ran :
      (p : Policy Condition) (count : ℕ) (s : Pass Condition) → ran (alert_if_new p count s) ≡ ran s
  alert_if_new-ran p count s = elim (Bool-cases (ltb 0 s.policy_new_violations)) [
    | inl e ↦ rw e refl
    | inr e ↦ rw e refl
  ]

  -- What every step keeps holds after a policy, if it holds when its counters are zero.
  pub run_policy-Keeps {κ} :
      (P : Ran Condition → Type κ) (Q : Device → Type 0) (o : Outside Condition)
      (ws : List Workflow) (vs : List (Violation Condition)) (devices : List Device)
      (p : Policy Condition) (s : Pass Condition)
      → ((d : Device) (r r' : Ran Condition) → Q d → Step o (plan_of o ws vs p) d r r' → P r → P r')
      → All Q (scoped_devices p devices)
      → P (record (ran s) { count = 0 })
      → P (ran (run_policy o ws vs devices p s))
  unfolding run_policy
  run_policy-Keeps P Q o ws vs devices p s keeps q h =
      let plan = plan_of o ws vs p in
      let scoped = scoped_devices p devices in
      let started = trip p (fresh_trip_of o plan vs) (begin_policy (length scoped) s) in
      subst P (sym (alert_if_new-ran p (length scoped) _)) (
        visits-Keeps P Q o plan keeps scoped started q
          (subst P (sym (trip-ran p (fresh_trip_of o plan vs) (begin_policy (length scoped) s))) h))

-- Where it does not matter which devices are visited.
pub All-anything {ℓ} : {A : Type ℓ} (xs : List A) → All {ℓ, 0} (λ x. Unit) xs
All-anything [] = tt
All-anything (x ∷ xs) = (tt, All-anything xs)
