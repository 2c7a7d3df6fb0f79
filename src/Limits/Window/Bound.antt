-- ===== src/Limits/Window/Bound.antt =====
-- How many requests the limiter lets through (middleware/rateLimiter.middleware.ts).
use applivery_soar.Common.{
  min, if◌then◌else◌, ℕ, suc, ◌+◌, ◌-◌, ◌≤◌, ◌<◌, ◌≡◌, ◌⊎◌, inl, inr, refl, ◌∙◌, String, true,
  false, ◌&&◌, Option, none, some, List, [], ◌∷◌, arith, leb, Bool-cases, str_eq, str_eq-true,
  str_eq_self, lookup, lookup-insert,
}
use applivery_soar.Limits.Window.{
  first_request, starts_window, Window, window_ms, Buckets, is_passed, with_bucket, limiter,
}

-- The requests of one client, and those of them that pass.
abbrev pub requests_of : String → List (String × ℕ) → ℕ
requests_of key [] = 0
requests_of key ((k, now) ∷ rest) =
    if str_eq k key then suc (requests_of key rest) else requests_of key rest

abbrev pub passes_of : ℕ → String → List (String × ℕ) → Buckets → ℕ
passes_of limit key [] buckets = 0
passes_of limit key ((k, now) ∷ rest) buckets =
    let (after, answer) = limiter limit k now buckets in
    let later = passes_of limit key rest after in
    if str_eq k key && is_passed answer then suc later else later

-- Every request of the client comes before the window ends.
abbrev pub Within : String → ℕ → List (String × ℕ) → Type 0
Within key start [] = Unit
Within key start ((k, now) ∷ rest) =
    (str_eq k key ≡ true → now - start < window_ms) × Within key start rest

other_keeps :
    (limit : ℕ) (key k : String) (now : ℕ) (buckets : Buckets)
    → str_eq k key ≡ false
    → lookup key (limiter limit k now buckets).0 ≡ lookup key buckets
unfolding limiter
other_keeps limit key k now buckets other = go (lookup k buckets)
  where
    go : (o : Option Window) → lookup key (with_bucket limit k now buckets o).0 ≡ lookup key buckets
    go none =
        rw (lookup-insert k key (record { count = 1; window_started_at = now }) buckets, other)
    go (some b) = elim (Bool-cases (leb window_ms (now - b.window_started_at))) [
      | inl e ↦
          rw (e, lookup-insert k key (record { count = 1; window_started_at = now }) buckets, other)
      | inr e ↦ elim (Bool-cases (leb limit b.count)) [
        | inl h ↦ rw (e, h)
        | inr h ↦ rw (e, h, lookup-insert k key (record b { count = b.count + 1 }) buckets, other)
      ]
    ]

-- What the limiter does within a window.
within_window :
    (limit : ℕ) (key : String) (now count start : ℕ) (buckets : Buckets)
    → lookup key buckets ≡ some (record { count = count; window_started_at = start })
    → now - start < window_ms
    → ((count < limit)
        × (is_passed (limiter limit key now buckets).1 ≡ true)
        × (lookup key (limiter limit key now buckets).0
            ≡ some (record { count = count + 1; window_started_at = start })))
      ⊎ ((limit ≤ count)
          × (is_passed (limiter limit key now buckets).1 ≡ false)
          × (lookup key (limiter limit key now buckets).0
              ≡ some (record { count = count; window_started_at = start })))
unfolding limiter
within_window limit key now count start buckets e lt =
    let early : leb window_ms (now - start) ≡ false = ground (arith, lt) in
    elim (Bool-cases (leb limit count)) [
      | inl h ↦ inr (ground (arith, h), rw (e, early, h), rw (e, early, h, e))
      | inr h ↦ inl (
        ground (arith, h),
        rw (e, early, h),
        rw (
          e,
          early,
          h,
          lookup-insert key key (record { count = count + 1; window_started_at = start }) buckets,
          str_eq_self key,
        ),
      )
    ]

count_passes :
    (limit : ℕ) (key : String) (reqs : List (String × ℕ)) (count start : ℕ) (buckets : Buckets)
    → lookup key buckets ≡ some (record { count = count; window_started_at = start })
    → Within key start reqs
    → passes_of limit key reqs buckets ≡ min (requests_of key reqs) (limit - count)
count_passes limit key [] count start buckets e w = omega arith
count_passes limit key ((k, now) ∷ rest) count start buckets e w =
    elim (Bool-cases (str_eq k key)) [
      | inl h ↦
          let same = str_eq-true k key h in
          elim (within_window limit key now count start buckets e (w.0 h)) [
            | inl (room, ok, next) ↦
                rw
                  (
                    h,
                    same,
                    ok,
                    count_passes limit key rest (count + 1) start (limiter limit key now buckets).0
                        next w.1,
                  )
                  (omega (arith, room))
            | inr (full, over, next) ↦
                rw
                  (
                    h,
                    same,
                    over,
                    count_passes limit key rest count start (limiter limit key now buckets).0 next
                        w.1,
                  )
                  (omega (arith, full))
          ]
      | inr h ↦ rw (h) (
          count_passes limit key rest count start (limiter limit k now buckets).0
            (other_keeps limit key k now buckets h ∙ e) w.1)
    ]

opens_window :
    (limit : ℕ) (key : String) (now : ℕ) (buckets : Buckets) (o : Option Window)
    → starts_window now o ≡ true
    → with_bucket limit key now buckets o ≡ first_request key now buckets
opens_window limit key now buckets none e = refl
opens_window limit key now buckets (some b) e = rw e

opened :
    (key : String) (now : ℕ) (buckets : Buckets)
    → lookup key (first_request key now buckets).0
      ≡ some (record { count = 1; window_started_at = now })
opened key now buckets =
    rw (
      lookup-insert key key (record { count = 1; window_started_at = now }) buckets,
      str_eq_self key,
    )

-- The quota is exact: of the requests that a client sends within a minute of the request that opened
-- its window, that one included, exactly the first `limit` pass, whatever the other clients send in
-- between; with no open window, or one that is a minute old, a request always opens one.
pub limiter_quota :
    (limit : ℕ) (key : String) (now : ℕ) (rest : List (String × ℕ)) (buckets : Buckets)
    → 1 ≤ limit
    → starts_window now (lookup key buckets) ≡ true
    → Within key now rest
    → passes_of limit key ((key, now) ∷ rest) buckets ≡ min (suc (requests_of key rest)) limit
unfolding limiter
limiter_quota limit key now rest buckets one opens w =
    rw
      (
        str_eq_self key,
        opens_window limit key now buckets (lookup key buckets) opens,
        count_passes limit key rest 1 now (first_request key now buckets).0 (opened key now buckets)
            w,
      )
      (omega (arith, one))
