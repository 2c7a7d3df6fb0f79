-- ===== src/Limits/Window.antt =====
-- The limiter of the routes (middleware/rateLimiter.middleware.ts). A time is a number of milliseconds.
pub mod Bound
use Prim.Native.String
use text.Mathlib.Text.{starts_with}
use applivery_soar.Common.{
  ◌/◌, if◌then◌else◌, ℕ, zero, suc, ◌+◌, ◌-◌, ◌*◌, ◌≤◌, ◌<◌, ◌≡◌, ◌≢◌, ◌↔◌, ◌⊎◌, inl, inr, refl,
  sym, ap, subst, ◌∙◌, String, Bool, true, false, not, ◌&&◌, ◌||◌, Option, none, some, List, [],
  ◌∷◌, ◌++◌, map, arith, ltb, leb, ◌==◌, ==_self, ==-eq, Bool-cases, Option-cases, or_else, is_some,
  or_string, join, str_eq, str_eq-true, str_eq_self, str_eq-false, truthy, includes, opt_eq, is_set,
  length, take, drop, any, all, keep, find, count_if, All, find-All, find-holds, All-keep, keep-all,
  all-keep, length-append, length-keep-le, lookup, insert, delete_keys, lookup-insert,
  lookup-delete_keys,
}

pub record Window : Type 0 where
  pub count : ℕ
  pub window_started_at : ℕ

-- `WINDOW_MS`
abbrev pub window_ms : ℕ
window_ms = 60000

abbrev pub Buckets : Type 0
Buckets = List (String × Window)

pub data Answer : Type 0 where
  passed : Answer
  too_many : ℕ → Answer  -- with `Retry-After`

abbrev pub is_passed : Answer → Bool
is_passed passed = true
is_passed (too_many n) = false

-- `!bucket || now - bucket.windowStartedAt >= WINDOW_MS`
abbrev pub starts_window : ℕ → Option Window → Bool
starts_window now none = true
starts_window now (some bucket) = leb window_ms (now - bucket.window_started_at)

abbrev pub first_request : String → ℕ → Buckets → Buckets × Answer
first_request key now buckets =
    (insert key (record { count = 1; window_started_at = now }) buckets, passed)

abbrev pub with_bucket : ℕ → String → ℕ → Buckets → Option Window → Buckets × Answer
with_bucket limit key now buckets none = first_request key now buckets
with_bucket limit key now buckets (some bucket) =
    if leb window_ms (now - bucket.window_started_at)
    then first_request key now buckets
    else if leb limit bucket.count
    then (buckets, too_many ((bucket.window_started_at + window_ms - now + 999) / 1000))
    else (insert key (record bucket { count = bucket.count + 1 }) buckets, passed)

-- What `makeLimiter` returns.
unfoldable pub limiter : ℕ → String → ℕ → Buckets → Buckets × Answer
limiter limit key now buckets = with_bucket limit key now buckets (lookup key buckets)

pub data Tier : Type 0 where
  login secret_path default_api unlimited : Tier

-- `rateLimiterMiddleware`
unfoldable pub tier_of : String → Tier
tier_of path =
    if str_eq path "/api/auth/login"
    then login
    else if starts_with path "/api/triggers/fire/"
        || starts_with path "/api/applivery-webhook/receive/"
    then secret_path
    else if starts_with path "/api/"
    then default_api
    else unlimited
