-- ===== src/Limits/Cache.antt =====
-- The cache of Applivery's answers (services/liveCache.ts), for answers of any type.
pub mod Lifetime
use Prim.Native.String
use text.Mathlib.Text.{starts_with}
use applivery_soar.Common.{
  if◌then◌else◌, ℕ, min, max, zero, suc, ◌+◌, ◌-◌, ◌*◌, ◌≤◌, ◌<◌, ◌≡◌, ◌≢◌, ◌↔◌, ◌⊎◌, inl, inr,
  refl, sym, ap, subst, ◌∙◌, String, Bool, true, false, not, ◌&&◌, ◌||◌, Option, none, some, List,
  [], ◌∷◌, ◌++◌, map, arith, ltb, leb, ◌==◌, ==_self, ==-eq, Bool-cases, Option-cases, or_else,
  is_some, or_string, join, str_eq, str_eq-true, str_eq_self, str_eq-false, truthy, includes,
  opt_eq, is_set, length, take, drop, any, all, keep, find, count_if, All, find-All, find-holds,
  All-keep, keep-all, all-keep, length-append, length-keep-le, lookup, insert, delete_keys,
  lookup-insert, lookup-delete_keys,
}

pub record CacheEntry {ℓ} (A : Type ℓ) : Type ℓ where
  pub value : A
  pub expires_at_ms : ℕ

abbrev pub LiveCache {ℓ} : Type ℓ → Type ℓ
LiveCache A = List (String × CacheEntry A)

-- `LIVE_CACHE_TTL_SECONDS` and `DEVICES_CACHE_TTL_SECONDS`
abbrev pub live_cache_ttl_seconds : ℕ
live_cache_ttl_seconds = 300

abbrev pub devices_cache_ttl_seconds : ℕ
devices_cache_ttl_seconds = 900

-- The start of every key of a workspace.
abbrev pub key_prefix : String → String
key_prefix slug = join slug ":"

-- `cacheKey`
abbrev pub cache_key : String → String → String
cache_key slug source = join (key_prefix slug) source

abbrev pub if_live {ℓ} : {A : Type ℓ} → ℕ → Option (CacheEntry A) → Option A
if_live now none = none
if_live now (some entry) = if ltb now entry.expires_at_ms then some entry.value else none

-- `liveCacheGet`
unfoldable pub live_cache_get {ℓ} : {A : Type ℓ} → ℕ → String → String → LiveCache A → Option A
live_cache_get now slug source cache = if_live now (lookup (cache_key slug source) cache)

-- `liveCacheSet`
unfoldable pub live_cache_set {ℓ} :
    {A : Type ℓ} → ℕ → String → String → A → ℕ → LiveCache A → LiveCache A
live_cache_set now slug source x ttl_seconds cache =
    insert (cache_key slug source) (record { value = x; expires_at_ms = now + ttl_seconds * 1000 })
      cache

-- `liveCacheInvalidateSource`
unfoldable pub live_cache_invalidate_source {ℓ} :
    {A : Type ℓ} → String → String → LiveCache A → LiveCache A
live_cache_invalidate_source slug source cache =
    delete_keys (λ k. str_eq k (cache_key slug source)) cache

-- `liveCacheInvalidateWorkspace`
unfoldable pub live_cache_invalidate_workspace {ℓ} :
    {A : Type ℓ} → String → LiveCache A → LiveCache A
live_cache_invalidate_workspace slug cache =
    delete_keys (λ k. starts_with k (key_prefix slug)) cache
