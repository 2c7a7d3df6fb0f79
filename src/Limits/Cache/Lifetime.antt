-- ===== src/Limits/Cache/Lifetime.antt =====
-- How long an answer is served (services/liveCache.ts).
use text.Mathlib.Text.{starts_with}
use text.Mathlib.TextPositions.{starts_with-append}
use applivery_soar.Common.{
  if◌then◌else◌, ℕ, ◌+◌, ◌*◌, ◌≡◌, inl, inr, String, none, some, ltb, Bool-cases, str_eq,
  lookup-insert, lookup-delete_keys,
}
use applivery_soar.Limits.Cache.{
  starts_with, LiveCache, cache_key, key_prefix, live_cache_get, live_cache_set,
  live_cache_invalidate_workspace,
}

-- An answer is served from when it is stored until its lifetime is over, and not from then on; every
-- other key is served as before.
pub live_cache_get-live_cache_set {ℓ} :
    {A : Type ℓ} (at now ttl : ℕ) (slug source slug' source' : String) (x : A) (cache : LiveCache A)
    → live_cache_get now slug' source' (live_cache_set at slug source x ttl cache) ≡ (
        if str_eq (cache_key slug source) (cache_key slug' source')
        then (if ltb now (at + ttl * 1000) then some x else none)
        else live_cache_get now slug' source' cache)
unfolding live_cache_get live_cache_set
live_cache_get-live_cache_set at now ttl slug source slug' source' x cache =
    let key = cache_key slug source in
    let key' = cache_key slug' source' in
    rw (lookup-insert key key' (record { value = x; expires_at_ms = at + ttl * 1000 }) cache)
      (elim (Bool-cases (str_eq key key')) [ inl e ↦ rw e | inr e ↦ rw e ])

-- After a workspace is invalidated no source of it is served, whatever the time; a key that does not
-- begin with the workspace's name and a colon is served as before.
pub live_cache_invalidate_workspace-forgets {ℓ} :
    {A : Type ℓ} (now : ℕ) (slug slug' source : String) (cache : LiveCache A)
    → (live_cache_get now slug source (live_cache_invalidate_workspace slug cache) ≡ none)
      × (live_cache_get now slug' source (live_cache_invalidate_workspace slug cache) ≡ (
          if starts_with (cache_key slug' source) (key_prefix slug)
          then none
          else live_cache_get now slug' source cache))
unfolding live_cache_get live_cache_invalidate_workspace
live_cache_invalidate_workspace-forgets now slug slug' source cache =
    let test = λ (k : String). starts_with k (key_prefix slug) in
    let key' = cache_key slug' source in
    (
      rw (
        lookup-delete_keys test (cache_key slug source) cache,
        starts_with-append (key_prefix slug) source,
      ),
      rw (lookup-delete_keys test key' cache)
          (elim (Bool-cases (test key')) [ inl e ↦ rw e | inr e ↦ rw e ]),
    )
