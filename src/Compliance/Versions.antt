-- ===== src/Compliance/Versions.antt =====
-- The comparison of versions, `compareVersionTuples` of modules/compliance/complianceEvaluate.ts, on
-- the tuples of whole numbers that `versionTuple` makes.
use applivery_soar.Common.{
  if◌then◌else◌, ℕ, ◌≡◌, inl, inr, refl, true, false, List, [], ◌∷◌, ◌++◌, arith, ltb, ◌==◌,
  Bool-cases,
}

-- The sign of the result: -1, 0 or 1.
pub data Sign : Type 0 where
  less same greater : Sign

-- What a part decides, or the rest of the tuples.
abbrev pub part_or : ℕ → ℕ → Sign → Sign
part_or av bv rest = if av == bv then rest else if ltb av bv then less else greater

-- `compareVersionTuples`: a part that is missing counts as 0.
abbrev pub compare_version_tuples : List ℕ → List ℕ → Sign
compare_version_tuples [] [] = same
compare_version_tuples [] (bv ∷ b) = part_or 0 bv (compare_version_tuples [] b)
compare_version_tuples (av ∷ a) [] = part_or av 0 (compare_version_tuples a [])
compare_version_tuples (av ∷ a) (bv ∷ b) = part_or av bv (compare_version_tuples a b)

abbrev pub flip : Sign → Sign
flip less = greater
flip same = same
flip greater = less

part_or-flip : (av bv : ℕ) (rest : Sign) → part_or bv av (flip rest) ≡ flip (part_or av bv rest)
part_or-flip av bv rest = elim (Bool-cases (av == bv)) [
  | inl e ↦ let back : (bv == av) ≡ true = ground (arith, e) in rw (e, back)
  | inr e ↦
      let back : (bv == av) ≡ false = ground (arith, e) in
      elim (Bool-cases (ltb av bv)) [
        | inl h ↦ let over : ltb bv av ≡ false = ground (arith, h) in rw (e, back, h, over)
        | inr h ↦ let over : ltb bv av ≡ true = ground (arith, e, h) in rw (e, back, h, over)
      ]
]

-- The comparison is antisymmetric: exchanging two versions exchanges "less" and "greater", and two
-- versions are the same either way.
pub compare_version_tuples-flip :
    (a b : List ℕ) → compare_version_tuples b a ≡ flip (compare_version_tuples a b)
compare_version_tuples-flip [] [] = refl
compare_version_tuples-flip [] (bv ∷ b) =
    rw (compare_version_tuples-flip [] b) (part_or-flip 0 bv (compare_version_tuples [] b))
compare_version_tuples-flip (av ∷ a) [] =
    rw (compare_version_tuples-flip a []) (part_or-flip av 0 (compare_version_tuples a []))
compare_version_tuples-flip (av ∷ a) (bv ∷ b) =
    rw (compare_version_tuples-flip a b) (part_or-flip av bv (compare_version_tuples a b))

-- Final zeros do not count: a version compares with any other as it does with a zero added, so that
-- 17.0 is neither before nor after 17.
pub compare_version_tuples-zero :
    (a b : List ℕ) → compare_version_tuples (a ++ 0 ∷ []) b ≡ compare_version_tuples a b
compare_version_tuples-zero [] [] = refl
compare_version_tuples-zero [] (bv ∷ b) = refl
compare_version_tuples-zero (av ∷ a) [] = rw (compare_version_tuples-zero a [])
compare_version_tuples-zero (av ∷ a) (bv ∷ b) = rw (compare_version_tuples-zero a b)
