-- ===== src/Compliance/Pass/Visit/Flag.antt =====
-- What one round of the inner loop of `runComplianceEvaluation`
-- (modules/compliance/compliance.service.ts) does to the flags of the devices.
use applivery_soar.Compliance.Policy.{has_some}
use applivery_soar.Compliance.Pass.Table.{Device, Policy, State, SuppressionEntry}
use applivery_soar.Compliance.Pass.Plan.{Outside, Plan, Pass, decide}
use applivery_soar.Compliance.Pass.Settle.{settle}
use applivery_soar.Compliance.Pass.Visit.{
  visit, recover, detect, open_case, key_of, matched_by, visit_known, mark, count_violation,
}
use applivery_soar.Compliance.Pass.Visit.Core.{recover-core, open_case-core, settle-state}
use applivery_soar.Common.{
  if◌then◌else◌, ◌≡◌, inl, inr, refl, ap, String, Bool, true, false, Option, none, some, List,
  Bool-cases, is_some, str_eq, str_eq-true, lookup, lookup-insert, lookup-delete_keys,
}

-- Whether a pair is flagged.
abbrev pub flagged : State → String → Bool
flagged state key = is_some (lookup key state)

pub is_some-if {ℓ} :
    {A : Type ℓ} (b : Bool) (x : A) (o : Option A)
    → is_some (if b then some x else o) ≡ (if b then true else is_some o)
is_some-if true x o = refl
is_some-if false x o = refl

pub is_some-unless {ℓ} :
    {A : Type ℓ} (b : Bool) (o : Option A)
    → is_some (if b then none else o) ≡ (if b then false else is_some o)
is_some-unless true o = refl
is_some-unless false o = refl

-- A flag that is kept.
pub kept :
    (k key : String) (state : State) (b : Bool)
    → flagged state k ≡ b
    → flagged state key ≡ (if str_eq k key then b else flagged state key)
kept k key state b h = elim (Bool-cases (str_eq k key)) [
  | inl e ↦ rw (e, ← str_eq-true k key e) h
  | inr e ↦ rw e refl
]

module _ {ℓ} {Condition : Type ℓ} where
  detect-flagged :
      (o : Outside Condition) (plan : Plan Condition) (d : Device) (matched : List Condition)
      (s : Pass Condition) (key : String)
      → flagged (detect o plan d matched s).state key
        ≡ (if str_eq (key_of plan.policy d) key then true else flagged s.state key)
  unfolding detect
  detect-flagged o plan d matched s key =
      let marked = mark plan.policy d true (count_violation s) in
      let opened = open_case o plan.policy d (o.uuid s.drawn) marked in
      let choice = decide plan d opened.0.policy_autofired_count in
      let settled = settle o plan d opened.1 choice opened.0 in
      rw
        (
          lookup-insert (key_of plan.policy d) key
              (record {
                violation_id = o.uuid s.drawn;
                status = settled.status;
                last_detected_at = o.now;
              })
              settled.after.state,
          settle-state o plan d opened.1 choice opened.0,
          ap (λ c. c.0) (open_case-core o plan.policy d (o.uuid s.drawn) marked),
        )
        (is_some-if (str_eq (key_of plan.policy d) key) _ _)

  recover-flagged :
      (o : Outside Condition) (p : Policy Condition) (d : Device) (e : SuppressionEntry)
      (s : Pass Condition) (key : String)
      → flagged (recover o p d e s).state key
        ≡ (if str_eq (key_of p d) key then false else flagged s.state key)
  recover-flagged o p d e s key =
      rw
        (
          ap (λ c. c.0) (recover-core o p d e s),
          lookup-delete_keys (λ k. str_eq (key_of p d) k) key s.state,
        )
        (is_some-unless (str_eq (key_of p d) key) (lookup key s.state))

  -- Whether the device violates the policy.
  abbrev pub violates : Outside Condition → Policy Condition → Device → Bool
  violates o p d = has_some (matched_by o p d)

  -- After a visit the pair is flagged exactly if the device violates the policy, and all other pairs
  -- are as before.
  pub visit-flagged :
      (o : Outside Condition) (plan : Plan Condition) (d : Device) (s : Pass Condition)
      (key : String)
      → flagged (visit o plan d s).state key ≡ (
          if str_eq (key_of plan.policy d) key
          then violates o plan.policy d
          else flagged s.state key)
  unfolding visit
  visit-flagged o plan d s key =
      go (matched_by o plan.policy d) (lookup (key_of plan.policy d) s.state) refl
    where
      go :
          (matched : List Condition) (known : Option SuppressionEntry)
          → lookup (key_of plan.policy d) s.state ≡ known
          → flagged (visit_known o plan d matched known s).state key
            ≡ (if str_eq (key_of plan.policy d) key then has_some matched else flagged s.state key)
      go matched none e = elim (Bool-cases (has_some matched)) [
        | inl h ↦ rw h (detect-flagged o plan d matched s key)
        | inr h ↦ rw h (kept (key_of plan.policy d) key s.state false (ap is_some e))
      ]
      go matched (some entry) e = elim (Bool-cases (has_some matched)) [
        | inl h ↦ rw h (kept (key_of plan.policy d) key s.state true (ap is_some e))
        | inr h ↦ rw h (recover-flagged o plan.policy d entry s key)
      ]
