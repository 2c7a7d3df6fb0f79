-- ===== src/Limits/Tests.antt =====
-- The limits on small traffic (middleware/rateLimiter.middleware.ts, utils/tokenBucket.ts,
-- services/appliveryPaginate.ts, services/liveCache.ts).
use applivery_soar.Common.{
  if◌then◌else◌, ℕ, ◌+◌, ◌*◌, ◌≤◌, ◌≡◌, refl, true, not, some, [], ◌∷◌, arith, ◌==◌, is_some,
}
use applivery_soar.Limits.Window.Bound.{passes_of, limiter_quota}
use applivery_soar.Limits.Bucket.{TokenBucket, new_bucket, parts, wait_for_token}
use applivery_soar.Limits.Bucket.Bound.{granted, granted_bound, wait_for_token_ends}
use applivery_soar.Limits.Cache.{LiveCache, live_cache_get, live_cache_set}
use applivery_soar.Limits.Cache.Lifetime.{live_cache_get-live_cache_set}
use applivery_soar.Limits.Pages.{Page, fetched, fetch_all_pages}
use applivery_soar.Limits.Pages.Complete.{fetch_all_pages_complete}

-- Four requests of one client in a window of which two may pass, with another client's between.
limiter_quota_example :
    passes_of 2 "a" (("a", 100) ∷ ("b", 150) ∷ ("a", 200) ∷ ("a", 300) ∷ []) [] ≡ 2
limiter_quota_example =
    limiter_quota 2 "a" 100 (("b", 150) ∷ ("a", 200) ∷ ("a", 300) ∷ []) [] (omega arith) refl
      (λ h. omega arith, (λ h. omega arith, (λ h. omega arith, tt)))

abbrev bucket : TokenBucket
bucket = new_bucket 0 2 1

granted_bound_example : parts (granted ((10, 1) ∷ (20, 1) ∷ (30, 1) ∷ []) bucket) ≤ 2000 + 1000 * 1
granted_bound_example =
    granted_bound ((10, 1) ∷ (20, 1) ∷ (30, 1) ∷ []) bucket 1000
      (omega arith, (omega arith, (omega arith, omega arith)))

wait_for_token_ends_example : is_some (wait_for_token 21 5 2 bucket) ≡ true
wait_for_token_ends_example = wait_for_token_ends 5 2 bucket (omega arith) (omega arith)

abbrev pages : ℕ → Page ℕ
pages n = record {
  status = if n == 4 then 500 else 200;
  items = n ∷ n ∷ [];
  has_next_page = not (n == 2);
}

fetch_all_pages_complete_example : fetch_all_pages pages 100 ≡ fetched (1 ∷ 1 ∷ 2 ∷ 2 ∷ [])
fetch_all_pages_complete_example =
    fetch_all_pages_complete pages 1 100 (omega arith) (refl, refl, refl, tt) refl refl refl

abbrev live : LiveCache ℕ
live = live_cache_set 5000 "acme" "devices" 42 900 []

live_cache_get-live_cache_set_example : live_cache_get 7000 "acme" "devices" live ≡ some 42
live_cache_get-live_cache_set_example =
    live_cache_get-live_cache_set 5000 7000 900 "acme" "devices" "acme" "devices" 42 []
