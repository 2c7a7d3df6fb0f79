-- ===== src/Compliance/Pass/Run/Cap.antt =====
-- The cap on the runs that one policy starts in one pass (modules/compliance/compliance.service.ts).
use applivery_soar.Compliance.Pass.Table.{Device, Policy, Violation, Workflow}
use applivery_soar.Compliance.Pass.Breaker.{resolve_auto_run_batch_cap}
use applivery_soar.Compliance.Pass.Plan.{Outside, Plan, Pass, decide-IsFired, cap_reached}
use applivery_soar.Compliance.Pass.Visit.Launching.{Ran, ran, Step, idle, tried, started}
use applivery_soar.Compliance.Pass.Run.{scoped_devices, run_policy, plan_of}
use applivery_soar.Compliance.Pass.Run.Launches.{All-anything, run_policy-Keeps}
use applivery_soar.Common.{
  ℕ, suc, ◌+◌, ◌≤◌, ◌≡◌, subst, false, Option, none, some, List, arith, length, length-append,
}

below_cap :
    (cap : Option ℕ) (limit count : ℕ)
    → cap ≡ some limit
    → cap_reached cap count ≡ false
    → suc count ≤ limit
below_cap none limit count h k = cc
below_cap (some n) limit count h k =
    let same : n ≡ limit = cc in subst (λ m. suc count ≤ m) same (ground (arith, k))

-- No more runs than violations that had one, which are no more than the cap.
abbrev IsWithin {ℓ} : {Condition : Type ℓ} → ℕ → ℕ → Ran Condition → Type 0
IsWithin limit base r = (r.count ≤ limit) × (length r.launches ≤ base + r.count)

module _ {ℓ} {Condition : Type ℓ} where
  Step-IsWithin :
      (o : Outside Condition) (plan : Plan Condition) (limit base : ℕ)
      → resolve_auto_run_batch_cap plan.policy.auto_run_batch_cap ≡ some limit
      → (d : Device) (r r' : Ran Condition) → Step o plan d r r'
      → IsWithin limit base r
      → IsWithin limit base r'
  Step-IsWithin o plan limit base e d r r' idle h = h
  Step-IsWithin o plan limit base e d r r' (tried w k) h =
      (below_cap _ limit r.count e (decide-IsFired plan d r.count w k).below, omega (arith, h.1))
  Step-IsWithin o plan limit base e d r r' (started w run n k _ _ _) h = (
    below_cap _ limit r.count e (decide-IsFired plan d r.count w k).below,
    rw (length-append r.launches _) (omega (arith, h.1)),
  )

  -- One policy starts no more runs in one pass than its cap says: the number that is set, or 15 where
  -- zero is set. A policy without a cap is left out.
  pub run_policy-launches_cap :
      (o : Outside Condition) (ws : List Workflow) (vs : List (Violation Condition))
      (devices : List Device) (p : Policy Condition) (s : Pass Condition) (limit : ℕ)
      → resolve_auto_run_batch_cap p.auto_run_batch_cap ≡ some limit
      → length (run_policy o ws vs devices p s).launches ≤ length s.launches + limit
  unfolding plan_of
  run_policy-launches_cap o ws vs devices p s limit e =
      let within : IsWithin limit (length s.launches) (ran (run_policy o ws vs devices p s)) =
        run_policy-Keeps (IsWithin limit (length s.launches)) (λ d. Unit) o ws vs devices p s
          (λ d r r' q. Step-IsWithin o (plan_of o ws vs p) limit (length s.launches) e d r r')
          (All-anything (scoped_devices p devices)) (omega arith, omega arith) in
      omega (arith, within.0, within.1)
