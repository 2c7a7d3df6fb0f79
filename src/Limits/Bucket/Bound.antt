-- ===== src/Limits/Bucket/Bound.antt =====
-- What the bucket grants (utils/tokenBucket.ts).
use applivery_soar.Common.{
  if◌then◌else◌, ℕ, min, zero, suc, ◌+◌, ◌-◌, ◌*◌, ◌≤◌, ◌<◌, ◌≡◌, inl, inr, true, List, [], ◌∷◌,
  arith, leb, leb→le, Bool-cases, is_some,
}
use applivery_soar.Limits.Bucket.{TokenBucket, parts, refill, consume, wait_for_token}

-- The tokens that a sequence of calls, each with its time and its number, is granted.
abbrev pub granted : List (ℕ × ℕ) → TokenBucket → ℕ
granted [] b = 0
granted ((now, n) ∷ calls) b =
    let (after, ok) = consume now n b in
    let later = granted calls after in if ok then n + later else later

-- The times do not go back, and all lie between the two.
abbrev pub Chronological : ℕ → List (ℕ × ℕ) → ℕ → Type 0
Chronological start [] end = start ≤ end
Chronological start ((now, n) ∷ calls) end = (start ≤ now) × Chronological now calls end

split_time :
    (rate start now end : ℕ)
    → start ≤ now
    → now ≤ end
    → (now - start) * rate + (end - now) * rate ≡ (end - start) * rate
split_time rate start now end a b =
    let eq : end - start ≡ now - start + (end - now) = omega (arith, a, b) in rw eq (grind arith)

Chronological-le :
    (start : ℕ) (calls : List (ℕ × ℕ)) (end : ℕ) → Chronological start calls end → start ≤ end
Chronological-le start [] end h = h
Chronological-le start ((now, n) ∷ calls) end h =
    omega (arith, h.0, Chronological-le now calls end h.1)

spend :
    (tokens added later total cap n g : ℕ)
    → 1000 * n ≤ min cap (tokens + added)
    → 1000 * g ≤ min cap (tokens + added) - 1000 * n + later
    → added + later ≡ total
    → 1000 * (n + g) ≤ tokens + total
spend tokens added later total cap n g a b c = omega (arith, a, b, c)

-- Whatever is asked for and when, the calls are granted no more than what the bucket held and what
-- its rate adds from the last refill to the end.
pub granted_bound :
    (calls : List (ℕ × ℕ)) (b : TokenBucket) (end : ℕ)
    → Chronological b.last_refill calls end
    → parts (granted calls b) ≤ b.tokens + (end - b.last_refill) * b.refill_rate_per_sec
unfolding consume refill
granted_bound [] b end h = omega arith
granted_bound ((now, n) ∷ calls) b end (le, h) =
    let rate = b.refill_rate_per_sec in
    let split = split_time rate b.last_refill now end le (Chronological-le now calls end h) in
    elim (Bool-cases (leb (parts n) (refill now b).tokens)) [
      | inl e ↦
          let rest =
            granted_bound calls (record (refill now b) { tokens = (refill now b).tokens - parts n })
              end h in
          rw e (
            spend b.tokens ((now - b.last_refill) * rate) ((end - now) * rate)
              ((end - b.last_refill) * rate) (parts b.capacity) n
              (granted calls (record (refill now b) { tokens = (refill now b).tokens - parts n }))
              (leb→le (parts n) (refill now b).tokens e) rest split)
      | inr e ↦
          let rest = granted_bound calls (refill now b) end h in rw e (omega (arith, rest, split))
    ]

polled :
    (fuel now n : ℕ) (b : TokenBucket)
    → n ≤ b.capacity
    → 1 ≤ b.refill_rate_per_sec
    → b.last_refill + 100 ≤ now
    → b.tokens < parts n
    → parts n ≤ b.tokens + 100 * fuel
    → is_some (wait_for_token fuel now n b) ≡ true
unfolding wait_for_token consume refill
polled zero now n b cap rate later low h = absurd (omega (arith, low, h))
polled (suc fuel) now n b cap rate later low h =
    let gain : 100 ≤ (now - b.last_refill) * b.refill_rate_per_sec =
      one_hundred (now - b.last_refill) b.refill_rate_per_sec (omega (arith, later)) rate in
    elim (Bool-cases (leb (parts n) (refill now b).tokens)) [
      | inl e ↦ rw e
      | inr e ↦
          let low' : (refill now b).tokens < parts n = ground (arith, e) in
          rw e (
            polled fuel (now + 100) n (refill now b) cap rate (omega arith) low'
              (omega (arith, low', gain, h, cap)))
    ]
  where
    one_hundred : (d r : ℕ) → 100 ≤ d → 1 ≤ r → 100 ≤ d * r
    one_hundred d r a c = grind arith

-- Waiting ends: for no more tokens than the bucket can hold, and a rate that is not 0, ten polls a
-- token and one more are enough, whatever the bucket holds at first.
pub wait_for_token_ends :
    (now n : ℕ) (b : TokenBucket)
    → n ≤ b.capacity
    → 1 ≤ b.refill_rate_per_sec
    → is_some (wait_for_token (suc (10 * n)) now n b) ≡ true
unfolding wait_for_token consume refill
wait_for_token_ends now n b cap rate = elim (Bool-cases (leb (parts n) (refill now b).tokens)) [
  | inl e ↦ rw e
  | inr e ↦ rw e (
      polled (10 * n) (now + 100) n (refill now b) cap rate (omega arith) (ground (arith, e))
        (omega arith))
]
