-- ===== src/Common/Lists.antt =====
-- Lists over the native numbers, under the library's names, with the array methods of the source
-- (`some`, `every`, `filter`, `find`) as functions on a Boolean test.
use Prim.Native.Nat.{ℕ, zero, suc, ◌+◌, ◌≤◌}
use mathlib.Core.Path.{◌≡◌, refl, sym, ap, subst}
use mathlib.Core.Logic.{inl, inr}
use mathlib.Core.Bool.{Bool, true, false, ◌&&◌, ◌||◌}
use mathlib.Core.List.{List, [], ◌∷◌, ◌++◌, Memᴰ}
use mathlib.Core.Option.{Option, none, some}
use native.Mathlib.Omega.{arith}
use applivery_soar.Common.Tests.{if◌then◌else◌, Bool-cases}

module _ {ℓ} {A : Type ℓ} where
  abbrev pub length : List A → ℕ
  length [] = 0
  length (x ∷ xs) = suc (length xs)

  abbrev pub take : ℕ → List A → List A
  take zero xs = []
  take (suc n) [] = []
  take (suc n) (x ∷ xs) = x ∷ take n xs

  abbrev pub drop : ℕ → List A → List A
  drop zero xs = xs
  drop (suc n) [] = []
  drop (suc n) (x ∷ xs) = drop n xs

  -- `xs.some(p)`
  abbrev pub any : (A → Bool) → List A → Bool
  any p [] = false
  any p (x ∷ xs) = p x || any p xs

  -- `xs.every(p)`
  abbrev pub all : (A → Bool) → List A → Bool
  all p [] = true
  all p (x ∷ xs) = p x && all p xs

  -- `xs.filter(p)`
  abbrev pub keep : (A → Bool) → List A → List A
  keep p [] = []
  keep p (x ∷ xs) = if p x then x ∷ keep p xs else keep p xs

  -- `xs.find(p)`
  abbrev pub find : (A → Bool) → List A → Option A
  find p [] = none
  find p (x ∷ xs) = if p x then some x else find p xs

  -- `xs.filter(p).length`
  abbrev pub count_if : (A → Bool) → List A → ℕ
  count_if p [] = 0
  count_if p (x ∷ xs) = if p x then suc (count_if p xs) else count_if p xs

  abbrev pub All {κ} : (A → Type κ) → List A → Type κ
  All P [] = Unit
  All P (x ∷ xs) = P x × All P xs

module _ {ℓ} {A : Type ℓ} where
  pub length-append : (xs ys : List A) → length (xs ++ ys) ≡ length xs + length ys
  length-append [] ys = omega arith
  length-append (x ∷ xs) ys = omega (arith, length-append xs ys)

  pub length-keep-le : (p : A → Bool) (xs : List A) → length (keep p xs) ≤ length xs
  length-keep-le p [] = omega arith
  length-keep-le p (x ∷ xs) = ground (arith, length-keep-le p xs)

  pub length-take-le : (n : ℕ) (xs : List A) → length (take n xs) ≤ n
  length-take-le zero xs = omega arith
  length-take-le (suc n) [] = omega arith
  length-take-le (suc n) (x ∷ xs) = omega (arith, length-take-le n xs)

  -- Every element of a filtered list passes the test.
  pub All-keep : (p : A → Bool) (xs : List A) → All (λ x. p x ≡ true) (keep p xs)
  All-keep p [] = tt
  All-keep p (x ∷ xs) = elim (Bool-cases (p x)) [
    | inl e ↦ rw e (e, All-keep p xs)
    | inr e ↦ rw e (All-keep p xs)
  ]

  pub keep-all : (p : A → Bool) (xs : List A) → length (keep p xs) ≡ length xs → all p xs ≡ true
  keep-all p [] h = refl
  keep-all p (x ∷ xs) h = elim (Bool-cases (p x)) [
    | inl e ↦ rw e (keep-all p xs (ground (arith, e)))
    | inr e ↦ absurd (ground (arith, e, length-keep-le p xs))
  ]

  pub all-keep : (p : A → Bool) (xs : List A) → all p xs ≡ true → keep p xs ≡ xs
  all-keep p [] h = refl
  all-keep p (x ∷ xs) h = elim (Bool-cases (p x)) [
    | inl e ↦ rw e (ap (λ t. x ∷ t) (all-keep p xs (ground (arith, e))))
    | inr e ↦ absurd (ground (arith, e))
  ]

  pub find-All {κ} :
      (P : A → Type κ) (t : A → Bool) (xs : List A) {x : A} → All P xs → find t xs ≡ some x → P x
  find-All P t [] h e = cc
  find-All P t (y ∷ ys) {x} h e = elim (Bool-cases (t y)) [
    | inl k ↦ let same : some y ≡ some x = rw k at e in let eq : y ≡ x = cc in subst P eq h.0
    | inr k ↦ find-All P t ys h.1 (rw k at e)
  ]

  pub find-holds : (t : A → Bool) (xs : List A) {x : A} → find t xs ≡ some x → t x ≡ true
  find-holds t [] e = cc
  find-holds t (y ∷ ys) {x} e = elim (Bool-cases (t y)) [
    | inl k ↦
        let same : some y ≡ some x = rw k at e in
        let eq : y ≡ x = cc in subst (λ z. t z ≡ true) eq k
    | inr k ↦ find-holds t ys (rw k at e)
  ]

  pub All-map {κ κ'} :
      (P : A → Type κ) (Q : A → Type κ') (xs : List A) → ((x : A) → P x → Q x) → All P xs → All Q xs
  All-map P Q [] f h = tt
  All-map P Q (x ∷ xs) f h = (f x h.0, All-map P Q xs f h.1)

  pub All-both {κ κ'} :
      (P Q : A → Type κ) (R : A → Type κ') (xs : List A)
      → ((x : A) → P x → Q x → R x)
      → All P xs
      → All Q xs
      → All R xs
  All-both P Q R [] f h k = tt
  All-both P Q R (x ∷ xs) f h k = (f x h.0 k.0, All-both P Q R xs f h.1 k.1)

  pub find-none : (t : A → Bool) (xs : List A) → find t xs ≡ none → All (λ x. t x ≡ false) xs
  find-none t [] e = tt
  find-none t (y ∷ ys) e = elim (Bool-cases (t y)) [
    | inl k ↦ let no_way : some y ≡ none = rw k at e in cc
    | inr k ↦ (k, find-none t ys (rw k at e))
  ]

  pub find-Memᴰ : (t : A → Bool) (xs : List A) {x : A} → find t xs ≡ some x → Memᴰ x xs
  find-Memᴰ t [] e = cc
  find-Memᴰ t (y ∷ ys) {x} e = elim (Bool-cases (t y)) [
    | inl k ↦ let same : some y ≡ some x = rw k at e in Memᴰ.head cc
    | inr k ↦ Memᴰ.tail (find-Memᴰ t ys (rw k at e))
  ]

  passed :
      (p : A → Bool) (y : A) (ys zs : List A) {x : A}
      → p y ≡ true
      → (Memᴰ x ys → Memᴰ x zs × (p x ≡ true))
      → Memᴰ x (y ∷ ys)
      → Memᴰ x (y ∷ zs) × (p x ≡ true)
  passed p y ys zs e rest (Memᴰ.head same) = (Memᴰ.head same, subst (λ z. p z ≡ true) (sym same) e)
  passed p y ys zs e rest (Memᴰ.tail k) = let (there, holds) = rest k in (Memᴰ.tail there, holds)

  -- What a filtered list holds: the elements that pass the test, and no others.
  pub mem-keep :
      (p : A → Bool) (xs : List A) {x : A} → Memᴰ x (keep p xs) → Memᴰ x xs × (p x ≡ true)
  mem-keep p [] m = elim m [ ]
  mem-keep p (y ∷ ys) {x} m = elim (Bool-cases (p y)) [
    | inl e ↦ passed p y (keep p ys) ys e (mem-keep p ys) (rw e at m)
    | inr e ↦ let (there, holds) = mem-keep p ys (rw e at m) in (Memᴰ.tail there, holds)
  ]

  pub keep-mem : (p : A → Bool) (xs : List A) {x : A} → p x ≡ true → Memᴰ x xs → Memᴰ x (keep p xs)
  keep-mem p [] h m = elim m [ ]
  keep-mem p (y ∷ ys) h (Memᴰ.head same) =
      let e : p y ≡ true = subst (λ z. p z ≡ true) same h in rw e (Memᴰ.head same)
  keep-mem p (y ∷ ys) h (Memᴰ.tail m) = elim (Bool-cases (p y)) [
    | inl e ↦ rw e (Memᴰ.tail (keep-mem p ys h m))
    | inr e ↦ rw e (keep-mem p ys h m)
  ]
