-- ===== src/Cases/Sla/Clocks.antt =====
-- The clocks of a case (cases.service.ts): when they breach, and what the thresholds are.
use applivery_soar.Common.{
  if◌then◌else◌, ℕ, ◌≤◌, ◌≡◌, refl, sym, ap, ◌∙◌, String, Bool, true, false, not, ◌&&◌, Option,
  none, some, inl, inr, List, [], ◌∷◌, ◌++◌, arith, ltb, Bool-cases, Option-cases, is_some, or_else,
  str_eq, str_eq-true, includes,
}
use applivery_soar.Cases.Table.{Case, is_open_case_status}
use applivery_soar.Cases.Sla.{
  minutes, Thresholds, Threshold, threshold_at, default_thresholds, default_of, sla_of,
  case_sla_status, ack_due, resolve_due, backfill_from, backfill_thresholds, cleaned,
  clean_thresholds,
}

clock_lasts :
    (runs : Bool) (due now later : ℕ)
    → now ≤ later
    → ((runs && ltb due now) && (runs && ltb due later)) ≡ (runs && ltb due now)
clock_lasts runs due now later le = ground arith

-- A breach lasts: once a clock has run out, every later reading of the same case says so, for both
-- clocks.
pub breach_lasts :
    (now later : ℕ) (ts : Thresholds) (c : Case)
    → now ≤ later
    → (((case_sla_status now ts c).ack_breached && (case_sla_status later ts c).ack_breached)
        ≡ (case_sla_status now ts c).ack_breached)
      × (((case_sla_status now ts c).resolve_breached
            && (case_sla_status later ts c).resolve_breached)
          ≡ (case_sla_status now ts c).resolve_breached)
unfolding case_sla_status
breach_lasts now later ts c le = (
  clock_lasts (not (is_some c.acknowledged_at)) (ack_due ts c) now later le,
  clock_lasts (is_open_case_status c.status) (resolve_due ts c) now later le,
)

-- The first of two lookups that finds.
abbrev or_first : Option Threshold → Option Threshold → Option Threshold
or_first none b = b
or_first (some a) b = some a

threshold_at-append :
    (severity : String) (ts us : Thresholds)
    → threshold_at severity (ts ++ us)
      ≡ or_first (threshold_at severity ts) (threshold_at severity us)
threshold_at-append severity [] us = refl
threshold_at-append severity ((k, t) ∷ ts) us = elim (Bool-cases (str_eq k severity)) [
  | inl e ↦ rw e
  | inr e ↦ rw e (threshold_at-append severity ts us)
]

or_first-none : (o : Option Threshold) → or_first o none ≡ o
or_first-none none = refl
or_first-none (some t) = refl

threshold_at-backfill :
    (severity : String) (ds ts : Thresholds)
    → threshold_at severity (backfill_from ds ts)
      ≡ or_first (threshold_at severity ts) (threshold_at severity ds)
unfolding backfill_from
threshold_at-backfill severity [] ts = sym (or_first-none (threshold_at severity ts))
threshold_at-backfill severity ((k, t) ∷ ds) ts = elim (Option-cases (threshold_at k ts)) [
  | inl e ↦ rw e (
      threshold_at-backfill severity ds (ts ++ (k, t) ∷ [])
      ∙ rw (threshold_at-append severity ts ((k, t) ∷ []))
          (regroup (threshold_at severity ts) (str_eq k severity) t (threshold_at severity ds)))
  | inr (u, e) ↦ rw e (
      threshold_at-backfill severity ds ts
      ∙ known (threshold_at severity ts) (str_eq k severity) t (threshold_at severity ds) u
          (λ h. rw (← str_eq-true k severity h) e))
]
  where
    regroup :
        (o : Option Threshold) (b : Bool) (t : Threshold) (p : Option Threshold)
        → or_first (or_first o (if b then some t else none)) p
          ≡ or_first o (if b then some t else p)
    regroup none true t p = refl
    regroup none false t p = refl
    regroup (some x) b t p = refl

    known :
        (o : Option Threshold) (b : Bool) (t : Threshold) (p : Option Threshold) (u : Threshold)
        → (b ≡ true → o ≡ some u)
        → or_first o p ≡ or_first o (if b then some t else p)
    known (some x) b t p u h = refl
    known none true t p u h = cc (h refl)
    known none false t p u h = refl

default_known :
    (severity : String) (o : Option Threshold)
    → or_else (or_first o (threshold_at severity default_thresholds)) (default_of severity)
      ≡ or_else o (default_of severity)
default_known severity (some t) = refl
default_known severity none = go (threshold_at severity default_thresholds)
  where
    go :
        (d : Option Threshold)
        → or_else d (or_else d (minutes 240 1440)) ≡ or_else d (minutes 240 1440)
    go none = refl
    go (some t) = refl

-- Filling in the defaults changes no clock: for every severity, known or not, the thresholds that count
-- are the same before and after, and the default of a known severity is stored.
pub sla_of-backfill :
    (ts : Thresholds) (severity : String)
    → (sla_of (backfill_thresholds ts) severity ≡ sla_of ts severity)
      × (threshold_at severity (backfill_thresholds ts)
          ≡ or_first (threshold_at severity ts) (threshold_at severity default_thresholds))
unfolding backfill_thresholds
sla_of-backfill ts severity =
    let found = threshold_at-backfill severity default_thresholds ts in
    (rw found (default_known severity (threshold_at severity ts)), found)

-- Both clocks have at least a minute.
pub record IsPositive (t : Threshold) : Type 0 where
  pub acknowledges : 1 ≤ t.acknowledge_minutes
  pub resolves : 1 ≤ t.resolve_minutes

default-IsPositive : (severity : String) → IsPositive (default_of severity)
default-IsPositive severity =
    go (str_eq "low" severity) (str_eq "medium" severity) (str_eq "high" severity)
      (str_eq "critical" severity)
  where
    go :
        (a b c d : Bool)
        → IsPositive (
            or_else
              (if a
                then some (minutes 480 4320)
                else if b
                then some (minutes 240 1440)
                else if c
                then some (minutes 60 480)
                else if d
                then some (minutes 15 240)
                else none)
              (minutes 240 1440))
    go true b c d = omega arith
    go false true c d = omega arith
    go false false true d = omega arith
    go false false false true = omega arith
    go false false false false = omega arith

cleaned-IsPositive : (severity : String) (t : Option Threshold) → IsPositive (cleaned severity t)
cleaned-IsPositive severity none = default-IsPositive severity
cleaned-IsPositive severity (some t) = omega arith

-- What the settings store for every severity of the list: a threshold of a minute at least for both
-- clocks, whatever was given, the defaults where nothing was given.
pub clean-IsPositive :
    (severities : List String) (given : Thresholds) (severity : String)
    → includes severities severity ≡ true
    → (threshold_at severity (clean_thresholds severities given)
        ≡ some (cleaned severity (threshold_at severity given)))
      × IsPositive (cleaned severity (threshold_at severity given))
unfolding clean_thresholds
clean-IsPositive [] given severity h = cc
clean-IsPositive (x ∷ xs) given severity h = elim (Bool-cases (str_eq x severity)) [
  | inl e ↦ (
    rw e (ap (λ k. some (cleaned k (threshold_at k given))) (str_eq-true x severity e)),
    cleaned-IsPositive severity (threshold_at severity given),
  )
  | inr e ↦ rw e (clean-IsPositive xs given severity (rw e at h))
]
