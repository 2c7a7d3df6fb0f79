-- ===== src/Cases/Violation/Latest.antt =====
-- The choice of the case that was updated last, and where rows stand in the table (cases.service.ts).
use applivery_soar.Common.{
  leb→le, if◌then◌else◌, ℕ, suc, ◌≤◌, ◌≡◌, ◌⊎◌, inl, inr, refl, sym, ap, subst, ◌∙◌, String, Bool,
  true, false, ◌||◌, none, some, List, [], ◌∷◌, ◌++◌, arith, leb, ◌==◌, ==_self, Bool-cases,
  Option-cases, str_eq, str_eq_self, includes, length, any, keep, find, All, length-append, All-map,
  Memᴰ,
}
use applivery_soar.Cases.Table.{Case, set_case}
use applivery_soar.Cases.Violation.{latest}

pub any-find :
    (t u : Case → Bool) (cs : List Case) {c : Case}
    → find t cs ≡ some c
    → u c ≡ true
    → any u cs ≡ true
any-find t u [] e h = cc
any-find t u (d ∷ ds) {c} e h = elim (Bool-cases (t d)) [
  | inl k ↦
      let same : some d ≡ some c = rw k at e in
      let eq : d ≡ c = cc in rw (subst (λ x. u x ≡ true) (sym eq) h)
  | inr k ↦ elim (Bool-cases (u d)) [ inl m ↦ rw m | inr m ↦ rw m (any-find t u ds (rw k at e) h) ]
]

pub not_at_most : (a b : ℕ) → leb a b ≡ false → b ≤ a
not_at_most a b h = ground (arith, h)

pub any-keep : (p u : Case → Bool) (cs : List Case) → any u (keep p cs) ≡ true → any u cs ≡ true
any-keep p u [] h = h
any-keep p u (d ∷ ds) h = elim (Bool-cases (u d)) [
  | inl m ↦ rw m
  | inr m ↦ rw m (
      any-keep p u ds (elim (Bool-cases (p d)) [
        | inl k ↦ let h' : u d || any u (keep p ds) ≡ true = rw k at h in rw m at h'
        | inr k ↦ rw k at h
      ]))
]

pub latest-cases :
    (d : Case) (ds : List Case) {c : Case}
    → latest (d ∷ ds) ≡ some c
    → (d ≡ c) ⊎ (latest ds ≡ some c)
latest-cases d ds {c} e = elim (Option-cases (latest ds)) [
  | inl k ↦ let same : some d ≡ some c = rw k at e in inl cc
  | inr (x, k) ↦
      let same : some (if leb x.updated_at d.updated_at then d else x) ≡ some c = rw k at e in
      elim (Bool-cases (leb x.updated_at d.updated_at)) [
        | inl m ↦ let eq : some d ≡ some c = rw m at same in inl cc
        | inr m ↦ let eq : some x ≡ some c = rw m at same in inr (k ∙ eq)
      ]
]

pub latest-Memᴰ : (cs : List Case) {c : Case} → latest cs ≡ some c → Memᴰ c cs
latest-Memᴰ [] e = cc
latest-Memᴰ (d ∷ ds) e = elim (latest-cases d ds e) [
  | inl eq ↦ Memᴰ.head (sym eq)
  | inr k ↦ Memᴰ.tail (latest-Memᴰ ds k)
]

pub latest-none : (cs : List Case) → latest cs ≡ none → cs ≡ []
latest-none [] e = refl
latest-none (d ∷ ds) e = cc

-- None of the cases was updated later than this one.
abbrev pub NoLater : ℕ → List Case → Type 0
NoLater n cs = All (λ c. c.updated_at ≤ n) cs

pub NoLater-weaken : (m n : ℕ) (cs : List Case) → m ≤ n → NoLater m cs → NoLater n cs
NoLater-weaken m n cs le h =
    All-map (λ c. c.updated_at ≤ m) (λ c. c.updated_at ≤ n) cs (λ c k. omega (arith, k, le)) h

pub latest-NoLater : (cs : List Case) {c : Case} → latest cs ≡ some c → NoLater c.updated_at cs
latest-NoLater [] e = cc
latest-NoLater (d ∷ ds) {c} e = elim (Option-cases (latest ds)) [
  | inl k ↦
      let same : some d ≡ some c = rw k at e in
      let eq : d ≡ c = cc in
      subst (λ x. NoLater x.updated_at (d ∷ ds)) eq
        (omega arith, subst (NoLater d.updated_at) (sym (latest-none ds k)) tt)
  | inr (x, k) ↦
      let same : some (if leb x.updated_at d.updated_at then d else x) ≡ some c = rw k at e in
      let rest = latest-NoLater ds k in
      elim (Bool-cases (leb x.updated_at d.updated_at)) [
        | inl m ↦
            let same' : some d ≡ some c = rw m at same in
            let eq : d ≡ c = cc in
            subst (λ y. NoLater y.updated_at (d ∷ ds)) eq
              (
                omega arith,
                NoLater-weaken x.updated_at d.updated_at ds (leb→le x.updated_at d.updated_at m)
                    rest,
              )
        | inr m ↦
            let same' : some x ≡ some c = rw m at same in
            let eq : x ≡ c = cc in
            subst (λ y. NoLater y.updated_at (d ∷ ds)) eq
              (not_at_most x.updated_at d.updated_at m, rest)
      ]
]

pub any-latest :
    (u : Case → Bool) (cs : List Case) {c : Case}
    → latest cs ≡ some c
    → u c ≡ true
    → any u cs ≡ true
any-latest u [] e h = cc
any-latest u (d ∷ ds) e h = elim (latest-cases d ds e) [
  | inl eq ↦ rw (subst (λ x. u x ≡ true) (sym eq) h)
  | inr k ↦ elim (Bool-cases (u d)) [ inl m ↦ rw m | inr m ↦ rw m (any-latest u ds k h) ]
]

-- The row that is written is the one found, if the table has a row of that id.
pub case_at-update :
    (new : Case) (cs : List Case)
    → any (λ c. c.id == new.id) cs ≡ true
    → find (λ c. c.id == new.id) (set_case new cs) ≡ some new
case_at-update new [] h = cc
case_at-update new (c ∷ cs) h = elim (Bool-cases (c.id == new.id)) [
  | inl k ↦ rw (k, ==_self new.id)
  | inr k ↦ rw (k, k) (case_at-update new cs (rw k at h))
]

pub includes-concat : (xs : List String) (x : String) → includes (xs ++ x ∷ []) x ≡ true
includes-concat [] x = rw (str_eq_self x)
includes-concat (y ∷ ys) x = elim (Bool-cases (str_eq y x)) [
  | inl e ↦ rw e
  | inr e ↦ rw e (includes-concat ys x)
]

pub case_at-concat :
    (new : Case) (cs : List Case)
    → any (λ c. c.id == new.id) cs ≡ false
    → find (λ c. c.id == new.id) (cs ++ new ∷ []) ≡ some new
case_at-concat new [] h = rw (==_self new.id)
case_at-concat new (c ∷ cs) h = elim (Bool-cases (c.id == new.id)) [
  | inl e ↦ cc (rw e at h)
  | inr e ↦ rw e (case_at-concat new cs (rw e at h))
]

pub length-set_case : (new : Case) (cs : List Case) → length (set_case new cs) ≡ length cs
length-set_case new [] = refl
length-set_case new (c ∷ cs) = elim (Bool-cases (c.id == new.id)) [
  | inl e ↦ rw e refl
  | inr e ↦ rw e (ap suc (length-set_case new cs))
]

pub keep-NoLater :
    (t : Case → Bool) (n : ℕ) (cs : List Case)
    → NoLater n (keep t cs)
    → All (λ x. (t x ≡ false) ⊎ (x.updated_at ≤ n)) cs
keep-NoLater t n [] h = tt
keep-NoLater t n (c ∷ cs) h = elim (Bool-cases (t c)) [
  | inl e ↦
      let held : NoLater n (c ∷ keep t cs) = rw e at h in (inr held.0, keep-NoLater t n cs held.1)
  | inr e ↦ (inl e, keep-NoLater t n cs (rw e at h))
]

pub keep-empty : (t : Case → Bool) (cs : List Case) → keep t cs ≡ [] → All (λ x. t x ≡ false) cs
keep-empty t [] h = tt
keep-empty t (c ∷ cs) h = elim (Bool-cases (t c)) [
  | inl e ↦ let no_way : c ∷ keep t cs ≡ [] = rw e at h in cc
  | inr e ↦ (e, keep-empty t cs (rw e at h))
]

pub length-concat : (cs : List Case) (c : Case) → length (cs ++ c ∷ []) ≡ suc (length cs)
length-concat cs c = omega (arith, length-append cs (c ∷ []))
