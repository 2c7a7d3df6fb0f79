-- ===== src/Compliance/Scheduler/Stamped.antt =====
-- What a tick of the scheduler leaves (modules/compliance/complianceJobs.ts, and the stamp at the end of
-- `runComplianceEvaluation`).
use applivery_soar.Compliance.Pass.Table.{Device, Policy}
use applivery_soar.Compliance.Pass.Evaluation.{Tables, selected, stamp, run_compliance_evaluation}
use applivery_soar.Compliance.Pass.Evaluation.Flags.{no_length}
use applivery_soar.Compliance.Scheduler.{
  evaluate_due, tick_workspace, due_policy_ids, no_credential, credential_cleared, Surroundings,
  minute, is_due, due_request,
}
use applivery_soar.Common.{
  ℕ, ◌+◌, ◌*◌, ◌≡◌, inl, inr, refl, String, Bool, true, false, ◌&&◌, Option, none, some, List, [],
  ◌∷◌, arith, ltb, leb, ◌==◌, Bool-cases, includes, is_set, length, keep, All,
}

too_early : (a b : Bool) (x y : ℕ) → (a && (b && leb x y) && ltb y x) ≡ false
too_early true true x y = ground arith
too_early true false x y = refl
too_early false b x y = refl

module _ {ℓ} {Condition : Type ℓ} where
  -- One of those policies is due again before its interval has passed.
  abbrev pub is_early : List String → ℕ → ℕ → Policy Condition → Bool
  is_early ids now later p =
      includes ids p.id
      && is_due later p
      && ltb later (now + p.evaluation_interval_minutes * minute)

  stamp-is_early :
      (ids : List String) (now later : ℕ) (ps : List (Policy Condition))
      → All (λ p. is_early ids now later p ≡ false) (stamp (due_request ids) now ps)
  stamp-is_early ids now later [] = tt
  stamp-is_early ids now later (p ∷ ps) = (
    elim (Bool-cases (p.enabled && includes ids p.id)) [
      | inl e ↦ rw e (
          too_early (includes ids p.id) p.enabled (now + p.evaluation_interval_minutes * minute)
            later)
      | inr e ↦ rw e (ground (arith, e))
    ],
    stamp-is_early ids now later ps,
  )

  none_selected :
      (ids : List String) (now later : ℕ) (ps : List (Policy Condition))
      → keep (λ p. p.enabled && includes ids p.id) ps ≡ []
      → All (λ p. is_early ids now later p ≡ false) ps
  none_selected ids now later [] h = tt
  none_selected ids now later (p ∷ ps) h = elim (Bool-cases (p.enabled && includes ids p.id)) [
    | inl e ↦ let no_way : p ∷ _ ≡ [] = rw e at h in cc
    | inr e ↦ (ground (arith, e), none_selected ids now later ps (rw e at h))
  ]

  evaluated-is_early :
      (e : Surroundings Condition) (ids : List String) (later : ℕ) (t : Tables Condition)
      (devices : List Device)
      → All
          (λ p. is_early ids e.outside.now later p ≡ false)
          ((run_compliance_evaluation e.outside e.senders e.dispatch e.workflows devices
              (due_request ids)
              t).0
            ).policies
  unfolding run_compliance_evaluation
  evaluated-is_early e ids later t devices =
      elim (Bool-cases (length (selected (due_request ids) t.policies) == 0)) [
        | inl k ↦ rw k (
            none_selected ids e.outside.now later t.policies
              (no_length (selected (due_request ids) t.policies) k))
        | inr k ↦ rw k (stamp-is_early ids e.outside.now later _)
      ]

  nothing_due :
      (now later : ℕ) (ps : List (Policy Condition)) → All (λ p. is_early [] now later p ≡ false) ps
  nothing_due now later [] = tt
  nothing_due now later (p ∷ ps) = (refl, nothing_due now later ps)

  evaluate_due-is_early :
      (e : Surroundings Condition) (ids : List String) (later : ℕ) (t : Tables Condition)
      (devices : Option (List Device))
      → (evaluate_due e ids t devices).1 ≡ none
      → All
          (λ p. is_early ids e.outside.now later p ≡ false)
          ((evaluate_due e ids t devices).0).policies
  evaluate_due-is_early e ids later t none h = cc
  evaluate_due-is_early e ids later t (some devices) h = evaluated-is_early e ids later t devices

  -- After a tick that was not blocked in a workspace, none of the policies that were due is due again
  -- before its own interval has passed, so that the ticks in between leave it alone.
  pub tick_workspace-is_early :
      (e : Surroundings Condition) (t : Tables Condition) (later : ℕ)
      → (tick_workspace e t).1 ≡ none
      → All
          (λ p. is_early (due_policy_ids e.outside.now t) e.outside.now later p ≡ false)
          ((tick_workspace e t).0).policies
  unfolding tick_workspace
  tick_workspace-is_early e t later h =
      elim (Bool-cases (length (due_policy_ids e.outside.now t) == 0)) [
        | inl k ↦
            rw (k, no_length (due_policy_ids e.outside.now t) k)
              (nothing_due e.outside.now later t.policies)
        | inr k ↦ elim (Bool-cases e.has_automation) [
          | inr a ↦ let no_way : some no_credential ≡ none = rw (k, a) at h in cc
          | inl a ↦ elim (Bool-cases (is_set e.bearer)) [
            | inr b ↦ let no_way : some credential_cleared ≡ none = rw (k, a, b) at h in cc
            | inl b ↦
                rw (k, a, b)
                  (evaluate_due-is_early e (due_policy_ids e.outside.now t) later t e.devices
                    (rw (k, a, b) at h))
          ]
        ]
      ]
