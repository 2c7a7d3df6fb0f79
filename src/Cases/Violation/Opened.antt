-- ===== src/Cases/Violation/Opened.antt =====
-- The case that a violation leaves open (`upsertCaseForViolation` of cases.service.ts).
use applivery_soar.Common.{
  ℕ, suc, ◌≤◌, ◌≡◌, ◌⊎◌, inl, inr, refl, sym, ap, subst, String, Bool, true, false, not, ◌&&◌,
  Option, none, some, arith, ◌==◌, ==_self, str_eq, str_eq-true, str_eq_self, includes, opt_eq,
  length, any, keep, All, find-holds, All-both, find-none, find-Memᴰ, mem-keep, Memᴰ,
}
use applivery_soar.Cases.Table.{Case, Store, case_at, update_case_row, add_case_timeline_entry}
use applivery_soar.Cases.Violation.{
  CasePolicyRef, CaseDeviceRef, link, reopen, create, is_open, linked, reopened_row, new_row,
  Upserted, upsert_with, matching, open_match, closed_match, upsert_case_for_violation,
}
use applivery_soar.Cases.Violation.Latest.{
  any-find, any-keep, latest-Memᴰ, latest-none, latest-NoLater, any-latest, case_at-update,
  includes-concat, case_at-concat, length-set_case, keep-NoLater, keep-empty, length-concat,
}

-- No row has the id that the database would give next.
abbrev pub HasFreshId : Store → Type 0
HasFreshId s = any (λ c. c.id == s.next_id) s.cases ≡ false

-- A case of the policy on the device, by its fields.
abbrev pub IsOf : String → CasePolicyRef → CaseDeviceRef → Case → Type 0
IsOf slug p d c = (c.workspace_slug ≡ slug) × (c.policy_id ≡ some p.id) × (c.device_id ≡ some d.id)

-- Which case is used, by the cases before: one that is open; if none is, a closed one that no closed
-- one of the same policy and device was updated later than; if there is none, one with the next id.
-- The number of cases afterwards is the last argument.
pub data Chosen (slug : String) (p : CasePolicyRef) (d : CaseDeviceRef) (s : Store)
    : ℕ → ℕ → Type 0 where
  the_open :
      (c : Case)
      → Memᴰ c s.cases
      → IsOf slug p d c
      → is_open c ≡ true
      → Chosen slug p d s c.id (length s.cases)
  the_latest :
      (c : Case)
      → All (λ x. (matching slug p d x && is_open x) ≡ false) s.cases
      → Memᴰ c s.cases
      → IsOf slug p d c
      → is_open c ≡ false
      → All (λ x. (matching slug p d x ≡ false) ⊎ (x.updated_at ≤ c.updated_at)) s.cases
      → Chosen slug p d s c.id (length s.cases)
  a_new_one :
      All (λ x. matching slug p d x ≡ false) s.cases
      → Chosen slug p d s s.next_id (suc (length s.cases))

-- The case that was chosen is open, is of the policy and the device, and lists the violation.
abbrev pub IsOpened :
    String → CasePolicyRef → CaseDeviceRef → String → Store → Store × Upserted → Type 0
IsOpened slug p d violation_id s (s', r) =
    ((c : Case) × (case_at r.case_id s' ≡ some c)
      × (is_open c ≡ true)
      × IsOf slug p d c
      × (includes c.violation_ids violation_id ≡ true))
    × Chosen slug p d s r.case_id (length s'.cases)

and_both : (a b : Bool) → (a && b) ≡ true → (a ≡ true) × (b ≡ true)
and_both a b h = ground arith

is_shut : (b : Bool) → not b ≡ true → b ≡ false
is_shut b h = ground arith

neither : (a b : Bool) → (a && b) ≡ false → (a && not b) ≡ false → a ≡ false
neither a b h k = ground (arith, h, k)

opt_eq-some : (a : Option String) (b : String) → opt_eq a (some b) ≡ true → a ≡ some b
opt_eq-some none b h = cc
opt_eq-some (some a) b h = ap some (str_eq-true a b h)

matching-IsOf :
    (slug : String) (p : CasePolicyRef) (d : CaseDeviceRef) (c : Case)
    → matching slug p d c ≡ true
    → IsOf slug p d c
matching-IsOf slug p d c h =
    let (ab, e) =
      and_both (str_eq c.workspace_slug slug && opt_eq c.policy_id (some p.id))
        (opt_eq c.device_id (some d.id)) h in
    let (a, b) = and_both (str_eq c.workspace_slug slug) (opt_eq c.policy_id (some p.id)) ab in
    (
      str_eq-true c.workspace_slug slug a,
      opt_eq-some c.policy_id p.id b,
      opt_eq-some c.device_id d.id e,
    )

module _ (slug : String) (p : CasePolicyRef) (d : CaseDeviceRef) (v : String) (now : ℕ)
    (s : Store) where
  linked-IsOpened :
      (c : Case) → open_match slug p d s ≡ some c → IsOpened slug p d v s (link v now c s)
  unfolding add_case_timeline_entry update_case_row
  linked-IsOpened c e =
      let t = λ (c : Case). matching slug p d c && is_open c in
      let (m, open_c) = and_both (matching slug p d c) (is_open c) (find-holds t s.cases e) in
      let of_it = matching-IsOf slug p d c m in
      (
        (
          linked c v now,
          case_at-update (linked c v now) s.cases
              (any-find t (λ x. x.id == c.id) s.cases e (==_self c.id)),
          open_c,
          of_it,
          includes-concat c.violation_ids v,
        ),
        subst (Chosen slug p d s c.id) (sym (length-set_case (linked c v now) s.cases))
            (the_open c (find-Memᴰ t s.cases e) of_it open_c),
      )

  reopened-IsOpened :
      (c : Case)
      → open_match slug p d s ≡ none
      → closed_match slug p d s ≡ some c
      → IsOpened slug p d v s (reopen p v now c s)
  unfolding add_case_timeline_entry update_case_row
  reopened-IsOpened c e e' =
      let u = λ (c : Case). matching slug p d c && is_open c in
      let t = λ (c : Case). matching slug p d c && not (is_open c) in
      let (there, held) = mem-keep t s.cases (latest-Memᴰ (keep t s.cases) e') in
      let (m, shut) = and_both (matching slug p d c) (not (is_open c)) held in
      let of_it = matching-IsOf slug p d c m in
      let all_closed = find-none u s.cases e in
      let no_later =
        All-both (λ x. u x ≡ false) (λ x. (t x ≡ false) ⊎ (x.updated_at ≤ c.updated_at))
          (λ x. (matching slug p d x ≡ false) ⊎ (x.updated_at ≤ c.updated_at)) s.cases
          (λ x h k. elim k [
            | inl n ↦ inl (neither (matching slug p d x) (is_open x) h n)
            | inr le ↦ inr le
          ])
          all_closed (keep-NoLater t c.updated_at s.cases (latest-NoLater (keep t s.cases) e')) in
      (
        (
          reopened_row c p v now,
          case_at-update (reopened_row c p v now) s.cases (
              any-keep t (λ x. x.id == c.id) s.cases
                (any-latest (λ x. x.id == c.id) (keep t s.cases) e' (==_self c.id))),
          refl,
          of_it,
          includes-concat c.violation_ids v,
        ),
        subst (Chosen slug p d s c.id) (sym (length-set_case (reopened_row c p v now) s.cases))
            (the_latest c all_closed there of_it (is_shut (is_open c) shut) no_later),
      )

  created-IsOpened :
      HasFreshId s
      → open_match slug p d s ≡ none
      → closed_match slug p d s ≡ none
      → IsOpened slug p d v s (create slug p d v now s)
  unfolding add_case_timeline_entry
  created-IsOpened f e e' =
      let u = λ (c : Case). matching slug p d c && is_open c in
      let t = λ (c : Case). matching slug p d c && not (is_open c) in
      let none_of_it =
        All-both (λ x. u x ≡ false) (λ x. t x ≡ false) (λ x. matching slug p d x ≡ false) s.cases
          (λ x h k. neither (matching slug p d x) (is_open x) h k) (find-none u s.cases e)
          (keep-empty t s.cases (latest-none (keep t s.cases) e')) in
      let new = new_row slug p d v now s.next_id in
      (
        (new, case_at-concat new s.cases f, refl, (refl, refl, refl), rw (str_eq_self v) refl),
        subst (Chosen slug p d s s.next_id) (sym (length-concat s.cases new))
            (a_new_one none_of_it),
      )

  upsert_with-IsOpened :
      (o k : Option Case)
      → HasFreshId s
      → open_match slug p d s ≡ o
      → closed_match slug p d s ≡ k
      → IsOpened slug p d v s (upsert_with slug p d v now s o k)
  upsert_with-IsOpened (some c) k f e e' = linked-IsOpened c e
  upsert_with-IsOpened none (some c) f e e' = reopened-IsOpened c e e'
  upsert_with-IsOpened none none f e e' = created-IsOpened f e e'

-- A violation always ends with an open case for its policy and device that lists the violation: one
-- that was open, if there is one; else the closed one that was updated last, reopened; else a new one,
-- which is then the only case that is added. No case may have the id that the database would give next.
pub upsert-IsOpened :
    (slug : String) (p : CasePolicyRef) (d : CaseDeviceRef) (v : String) (now : ℕ) (s : Store)
    → HasFreshId s
    → IsOpened slug p d v s (upsert_case_for_violation slug p d v now s)
unfolding upsert_case_for_violation
upsert-IsOpened slug p d v now s f =
    upsert_with-IsOpened slug p d v now s (open_match slug p d s) (closed_match slug p d s) f refl
      refl
