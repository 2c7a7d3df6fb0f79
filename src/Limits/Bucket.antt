-- ===== src/Limits/Bucket.antt =====
-- The bucket of the calls to Applivery (utils/tokenBucket.ts). A token is a thousand parts, so that a
-- millisecond adds `refillRatePerSec` parts and no fraction is lost. The clock is taken not to go back.
pub mod Bound
use applivery_soar.Common.{
  min, if◌then◌else◌, ℕ, zero, suc, ◌+◌, ◌-◌, ◌*◌, Bool, true, false, Option, none, some, leb,
}

pub record TokenBucket : Type 0 where
  pub capacity : ℕ
  pub refill_rate_per_sec : ℕ
  pub tokens : ℕ  -- in parts
  pub last_refill : ℕ

-- A number of tokens, in parts.
abbrev pub parts : ℕ → ℕ
parts n = 1000 * n

-- The constructor.
abbrev pub new_bucket : ℕ → ℕ → ℕ → TokenBucket
new_bucket now capacity rate = record {
  capacity = capacity;
  refill_rate_per_sec = rate;
  tokens = parts capacity;
  last_refill = now;
}

-- `refill`
unfoldable pub refill : ℕ → TokenBucket → TokenBucket
refill now b = record b {
  tokens = min (parts b.capacity) (b.tokens + (now - b.last_refill) * b.refill_rate_per_sec);
  last_refill = now;
}

abbrev pub take_tokens : ℕ → TokenBucket → TokenBucket × Bool
take_tokens n b =
    if leb (parts n) b.tokens then (record b { tokens = b.tokens - parts n }, true) else (b, false)

-- `consume`
unfoldable pub consume : ℕ → ℕ → TokenBucket → TokenBucket × Bool
unfolding refill
consume now n b = take_tokens n (refill now b)

-- The polls of `waitForToken`, every 100 milliseconds from now on, until one succeeds: the time that
-- it took and the bucket, or nothing if the fuel runs out.
unfoldable pub wait_for_token : ℕ → ℕ → ℕ → TokenBucket → Option (ℕ × TokenBucket)
unfolding consume
wait_for_token zero now n b = none
wait_for_token (suc fuel) now n b =
    let (after, ok) = consume now n b in
    let rest = wait_for_token fuel (now + 100) n after in if ok then some (now, after) else rest
