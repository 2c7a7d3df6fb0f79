-- ===== src/Compliance/Tests.antt =====
-- Versions, a policy and a scope (modules/compliance/complianceEvaluate.ts and
-- modules/geofencing/geofence.service.ts).
use applivery_soar.Common.{ℕ, ◌≡◌, Bool, true, false, some, [], ◌∷◌, ltb, All}
use applivery_soar.Compliance.Policy.{
  CompliancePolicy, policy_violated, has_some, policy_violated-is_violated,
}

-- A policy of numbers, of which every one has to be below 5.
abbrev policy : CompliancePolicy ℕ
policy = record { conditions = 1 ∷ 7 ∷ []; condition_logic = some "all" }

abbrev below : ℕ → Bool
below n = ltb n 5

policy_violated-is_violated_example :
    (has_some (policy_violated below policy) ≡ false)
    × All (λ c. below c ≡ true) (policy_violated below policy)
policy_violated-is_violated_example = policy_violated-is_violated below policy
