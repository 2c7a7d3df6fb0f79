-- ===== src/Common/Maps.antt =====
-- Maps as lists of entries, for JavaScript's `Map` and objects with string keys.
use mathlib.Core.Path.{◌≡◌, refl}
use mathlib.Core.Logic.{inl, inr}
use mathlib.Core.Bool.{Bool, true, false}
use mathlib.Core.List.{List, [], ◌∷◌}
use mathlib.Core.Option.{Option, none, some}
use Prim.Native.String.{String}
use applivery_soar.Common.Tests.{if◌then◌else◌, Bool-cases}
use applivery_soar.Common.Text.{str_eq, str_eq-true, str_eq_self}

abbrev pub lookup {ℓ} : {A : Type ℓ} → String → List (String × A) → Option A
lookup key [] = none
lookup key ((k, x) ∷ xs) = if str_eq k key then some x else lookup key xs

-- `Map.set`
abbrev pub insert {ℓ} : {A : Type ℓ} → String → A → List (String × A) → List (String × A)
insert key x [] = (key, x) ∷ []
insert key x ((k, y) ∷ ys) = if str_eq k key then (k, x) ∷ ys else (k, y) ∷ insert key x ys

-- `Map.delete`, of every key that passes a test
abbrev pub delete_keys {ℓ} : {A : Type ℓ} → (String → Bool) → List (String × A) → List (String × A)
delete_keys p [] = []
delete_keys p ((k, x) ∷ xs) = if p k then delete_keys p xs else (k, x) ∷ delete_keys p xs

merge {ℓ} :
    {A : Type ℓ} (b : Bool) (x y : A) (o : Option A)
    → (if b then some x else o) ≡ (if b then some x else if b then some y else o)
merge true x y o = refl
merge false x y o = refl

swap {ℓ} :
    {A : Type ℓ} (a b : Bool) (x y : A) (o : Option A)
    → ¬ ((a ≡ true) × (b ≡ true))
    → (if b then some y else if a then some x else o)
      ≡ (if a then some x else if b then some y else o)
swap true true x y o h = absurd (h (refl, refl))
swap true false x y o h = refl
swap false b x y o h = refl

-- What a map holds after one key is set: the new value there, and the old ones elsewhere.
pub lookup-insert {ℓ} :
    {A : Type ℓ} (key other : String) (x : A) (xs : List (String × A))
    → lookup other (insert key x xs) ≡ (if str_eq key other then some x else lookup other xs)
lookup-insert key other x [] = refl
lookup-insert key other x ((k, y) ∷ ys) = elim (Bool-cases (str_eq k key)) [
  | inl e ↦ rw (e, str_eq-true k key e) (merge (str_eq key other) x y (lookup other ys))
  | inr e ↦
      rw (e, lookup-insert key other x ys)
        (swap (str_eq key other) (str_eq k other) x y (lookup other ys)
          λ h. cc (str_eq-true key other h.0, str_eq-true k other h.1, str_eq_self key, e))
]

pub lookup-delete_keys {ℓ} :
    {A : Type ℓ} (p : String → Bool) (key : String) (xs : List (String × A))
    → lookup key (delete_keys p xs) ≡ (if p key then none else lookup key xs)
lookup-delete_keys p key [] = elim (Bool-cases (p key)) [ inl e ↦ rw e | inr e ↦ rw e ]
lookup-delete_keys p key ((k, x) ∷ xs) = elim (Bool-cases (p k)) [
  | inl e ↦ elim (Bool-cases (str_eq k key)) [
    | inl h ↦ rw (e, lookup-delete_keys p key xs, ← str_eq-true k key h, e)
    | inr h ↦ rw (e, h, lookup-delete_keys p key xs)
  ]
  | inr e ↦ elim (Bool-cases (str_eq k key)) [
    | inl h ↦ rw (e, h, ← str_eq-true k key h, e)
    | inr h ↦ rw (e, h, lookup-delete_keys p key xs)
  ]
]
