-- ===== src/Compliance/Policy.antt =====
-- The verdict of a policy on a device: `policyViolated` of modules/compliance/complianceEvaluate.ts.
-- What a single condition says of the device is an argument, a Boolean test on conditions.
use applivery_soar.Common.{
  if◌then◌else◌, ◌≡◌, ◌⊎◌, inl, inr, refl, subst, String, Bool, true, false, not, ◌&&◌, Option,
  List, [], ◌∷◌, arith, ◌==◌, ==_self, ==-eq, Bool-cases, or_else, str_eq, length, any, all, keep,
  All, All-keep, keep-all, all-keep,
}

pub record CompliancePolicy {ℓ} (Condition : Type ℓ) : Type ℓ where
  pub conditions : List Condition
  pub condition_logic : Option String

module _ {ℓ} {Condition : Type ℓ} where
  abbrev pub by_logic : String → List Condition → List Condition → List Condition
  by_logic logic conditions matched =
      if str_eq logic "all"
      then (if length matched == length conditions then matched else [])
      else matched

  -- `policyViolated`: the conditions that matched, none if the policy is not violated
  unfoldable pub policy_violated : (Condition → Bool) → CompliancePolicy Condition → List Condition
  policy_violated matches policy =
      if length policy.conditions == 0
      then []
      else by_logic (or_else policy.condition_logic "any") policy.conditions
          (keep matches policy.conditions)

  -- Whether a list has an element.
  abbrev pub has_some : List Condition → Bool
  has_some xs = not (length xs == 0)

  -- A policy says that it is violated by every condition, or by one at least.
  abbrev pub is_violated : (Condition → Bool) → CompliancePolicy Condition → Bool
  is_violated matches policy =
      has_some policy.conditions
      && (if str_eq (or_else policy.condition_logic "any") "all"
          then all matches policy.conditions
          else any matches policy.conditions)

  has_some-keep : (p : Condition → Bool) (xs : List Condition) → has_some (keep p xs) ≡ any p xs
  has_some-keep p [] = refl
  has_some-keep p (x ∷ xs) = elim (Bool-cases (p x)) [
    | inl e ↦ rw e (ground arith)
    | inr e ↦ rw e (has_some-keep p xs)
  ]

  all-count :
      (p : Condition → Bool) (xs : List Condition) → (length (keep p xs) == length xs) ≡ all p xs
  all-count p xs = elim (Bool-cases (all p xs)) [
    | inl e ↦ rw (e, all-keep p xs e) (==_self (length xs))
    | inr e ↦ elim (Bool-cases (length (keep p xs) == length xs)) [
      | inl h ↦ cc (keep-all p xs (==-eq (length (keep p xs)) (length xs) h), e)
      | inr h ↦ rw (e, h)
    ]
  ]

  -- The verdict is right for both kinds of policies: conditions are returned exactly if there are
  -- some and, for "all", every one of them matches, or else at least one does; and all that is
  -- returned matches.
  pub policy_violated-is_violated :
      (matches : Condition → Bool) (policy : CompliancePolicy Condition)
      → (has_some (policy_violated matches policy) ≡ is_violated matches policy)
        × All (λ c. matches c ≡ true) (policy_violated matches policy)
  unfolding policy_violated
  policy_violated-is_violated matches policy =
      go policy.conditions (str_eq (or_else policy.condition_logic "any") "all")
        (Bool-cases (length policy.conditions == 0))
    where
      go :
          (cs : List Condition) (every : Bool)
          → ((length cs == 0) ≡ true) ⊎ ((length cs == 0) ≡ false)
          → (has_some (
                if length cs == 0
                then []
                else if every
                then (if length (keep matches cs) == length cs then keep matches cs else [])
                else keep matches cs)
              ≡ (has_some cs && (if every then all matches cs else any matches cs)))
            × All
                (λ c. matches c ≡ true)
                (if length cs == 0
                  then []
                  else if every
                  then (if length (keep matches cs) == length cs then keep matches cs else [])
                  else keep matches cs)
      go cs every (inl e) = rw e (refl, tt)
      go cs false (inr e) = rw e (has_some-keep matches cs, All-keep matches cs)
      go cs true (inr e) = elim (Bool-cases (all matches cs)) [
        | inl h ↦
            rw (e, all-count matches cs, h, all-keep matches cs h, e)
              (
                refl,
                subst (λ xs. All (λ c. matches c ≡ true) xs) (all-keep matches cs h)
                    (All-keep matches cs),
              )
        | inr h ↦ rw (e, all-count matches cs, h) (refl, tt)
      ]
