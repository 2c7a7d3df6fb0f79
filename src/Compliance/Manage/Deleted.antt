-- ===== src/Compliance/Manage/Deleted.antt =====
-- What is left of a deleted policy (modules/compliance/compliance.service.ts,
-- `deleteCompliancePolicy`).
use text.Mathlib.TextPositions.{starts_with-append}
use text.Mathlib.TextEquality.{starts_with_iff}
use applivery_soar.Compliance.Pass.Table.{Violation, Policy, pair_key}
use applivery_soar.Compliance.Pass.Visit.Flag.{flagged}
use applivery_soar.Compliance.Pass.Evaluation.{Tables}
use applivery_soar.Compliance.Manage.{policy_at, delete_compliance_policy, is_key_of}
use applivery_soar.Common.{
  ◌≡◌, ◌≢◌, ◌↔◌, inl, inr, refl, sym, ap, String, true, false, not, List, Bool-cases, is_some, join,
  str_eq, str_eq_self, str_eq-false, keep, mem-keep, keep-mem, Memᴰ, lookup, lookup-delete_keys,
}

-- A filter by an id that is not to be kept.
mem-unlike {κ} :
    {A : Type κ} (name : A → String) (id : String) (xs : List A) (x : A)
    → Memᴰ x (keep (λ y. not (str_eq (name y) id)) xs) ↔ (Memᴰ x xs × (name x ≢ id))
mem-unlike name id xs x = (
  λ m.
      let (there, unlike) = mem-keep (λ y. not (str_eq (name y) id)) xs m in
      (there, λ same. cc (unlike, ap (λ z. str_eq z id) same, str_eq_self id)),
  λ (there, unlike).
      keep-mem (λ y. not (str_eq (name y) id)) xs (rw (str_eq-false (name x) id unlike) refl) there,
)

module _ {ℓ} {Condition : Type ℓ} where
  delete-found :
      (id : String) (t : Tables Condition) (d : String)
      → is_some (policy_at id t) ≡ true
      → flagged (delete_compliance_policy id t).state (pair_key id d) ≡ false
  unfolding delete_compliance_policy
  delete-found id t d h =
      rw
        (
          h,
          lookup-delete_keys (is_key_of id) (pair_key id d) t.state,
          starts_with-append (join id ":") d,
        )
        refl

  -- A key that is not the id, a colon and something more keeps its entry.
  delete-other :
      (id : String) (t : Tables Condition) (key : String)
      → is_some (policy_at id t) ≡ true
      → ((rest : String) → key ≢ join (join id ":") rest)
      → lookup key (delete_compliance_policy id t).state ≡ lookup key t.state
  unfolding delete_compliance_policy
  delete-other id t key h other = elim (Bool-cases (is_key_of id key)) [
    | inl e ↦
        let (rest, eq) = (starts_with_iff key (join id ":")).0 e in absurd (other rest (sym eq))
    | inr e ↦ rw (h, lookup-delete_keys (is_key_of id) key t.state, e) refl
  ]

  -- Deleting a policy that exists takes the flag from each of its devices, and leaves the entry of every
  -- key that does not start with its id and a colon. The violations that are left are those of the other
  -- policies, all of them, and the policies that are left are all those with another id.
  pub delete_compliance_policy-Clears :
      (id : String) (t : Tables Condition) (device_id key : String) (v : Violation Condition)
      (p : Policy Condition)
      → is_some (policy_at id t) ≡ true
      → ((rest : String) → key ≢ join (join id ":") rest)
      → (flagged (delete_compliance_policy id t).state (join (join id ":") device_id) ≡ false)
        × (lookup key (delete_compliance_policy id t).state ≡ lookup key t.state)
        × (Memᴰ v (delete_compliance_policy id t).violations
            ↔ (Memᴰ v t.violations × (v.policy_id ≢ id)))
        × (Memᴰ p (delete_compliance_policy id t).policies ↔ (Memᴰ p t.policies × (p.id ≢ id)))
  unfolding delete_compliance_policy
  delete_compliance_policy-Clears id t device_id key v p h other = (
    delete-found id t device_id h,
    delete-other id t key h other,
    rw h (mem-unlike (λ w. w.policy_id) id t.violations v),
    rw h (mem-unlike (λ q. q.id) id t.policies p),
  )
