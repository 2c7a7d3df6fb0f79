-- ===== src/Compliance/Forced/Cooldown.antt =====
-- The cooldowns of forced evaluations (modules/compliance/compliance.service.ts, `forceEvaluateNow`).
use applivery_soar.Compliance.Forced.{
  Cooldowns, Call, thrown, force_evaluate_now, is_cooling, device_cooling, cooldown_key,
  forced_device_evaluation_cooldown_ms,
}
use applivery_soar.Common.{
  ℕ, ◌+◌, ◌≤◌, ◌<◌, ◌≡◌, inl, inr, refl, ap, ◌∙◌, String, true, false, List, [], ◌∷◌, arith,
  Bool-cases, or_else, str_eq, str_eq_self, is_set, All, lookup, insert, lookup-insert,
}

-- The states after a sequence of calls.
abbrev pub after_calls : List Call → Cooldowns → Cooldowns
after_calls [] s = s
after_calls (c ∷ cs) s = after_calls cs ((force_evaluate_now c s).0)

abbrev device_time : String → Cooldowns → ℕ
device_time key s = or_else (lookup key s.last_forced_device_evaluation_at) 0

later_insert :
    (key other : String) (n now : ℕ) (times : List (String × ℕ))
    → n ≤ now
    → n ≤ or_else (lookup other times) 0
    → n ≤ or_else (lookup other (insert key now times)) 0
later_insert key other n now times h k = elim (Bool-cases (str_eq key other)) [
  | inl e ↦ rw (lookup-insert key other now times, e) h
  | inr e ↦ rw (lookup-insert key other now times, e) k
]

-- A call that is not earlier leaves no earlier time.
force-device_time :
    (c : Call) (s : Cooldowns) (key : String) (n : ℕ)
    → n ≤ c.now
    → n ≤ device_time key s
    → n ≤ device_time key ((force_evaluate_now c s).0)
unfolding force_evaluate_now
force-device_time c s key n h k = elim (Bool-cases (is_set c.only_device_serial)) [
  | inl e ↦
      elim (Bool-cases
        (is_cooling 15000 (cooldown_key c) c.now s.last_forced_device_evaluation_at)) [
          | inl f ↦ rw (e, f) k
          | inr f ↦
              rw (e, f)
                (later_insert (cooldown_key c) key n c.now s.last_forced_device_evaluation_at h k)
        ]
  | inr e ↦ elim (Bool-cases (is_cooling 60000 c.slug c.now s.last_forced_evaluation_at)) [
    | inl f ↦ rw (e, f) k
    | inr f ↦ rw (e, f) k
  ]
]

after_calls-device_time :
    (cs : List Call) (s : Cooldowns) (key : String) (n : ℕ)
    → All (λ c. n ≤ c.now) cs
    → n ≤ device_time key s
    → n ≤ device_time key (after_calls cs s)
after_calls-device_time [] s key n h k = k
after_calls-device_time (c ∷ cs) s key n h k =
    after_calls-device_time cs ((force_evaluate_now c s).0) key n h.1
      (force-device_time c s key n h.0 k)

-- After a call for a device the time of its last call is that of the call, or later than the cooldown
-- allows.
called_device :
    (c : Call) (s : Cooldowns)
    → is_set c.only_device_serial ≡ true
    → is_cooling 15000 (cooldown_key c) c.now s.last_forced_device_evaluation_at ≡ false
    → c.now ≤ device_time (cooldown_key c) ((force_evaluate_now c s).0)
unfolding force_evaluate_now
called_device c s h k =
    rw
      (
        h,
        k,
        lookup-insert (cooldown_key c) (cooldown_key c) c.now s.last_forced_device_evaluation_at,
        str_eq_self (cooldown_key c),
      )
      (omega arith)

-- When a call for a device has passed the cooldown, with a credential or without one, every call for
-- the device less than 15 seconds after it is refused with 429, whatever calls come in between.
pub force_evaluate_now-cooldown :
    (c d : Call) (s : Cooldowns) (between : List Call)
    → is_set c.only_device_serial ≡ true
    → is_cooling forced_device_evaluation_cooldown_ms
        (cooldown_key c)
        c.now
        s.last_forced_device_evaluation_at
      ≡ false
    → All (λ x. c.now ≤ x.now) between
    → d.slug ≡ c.slug
    → d.only_device_serial ≡ c.only_device_serial
    → d.now < c.now + 15000
    → force_evaluate_now d (after_calls between ((force_evaluate_now c s).0))
      ≡ (after_calls between ((force_evaluate_now c s).0), thrown device_cooling)
unfolding force_evaluate_now
force_evaluate_now-cooldown c d s between h k later e e' soon =
    let t = after_calls between ((force_evaluate_now c s).0) in
    let recent =
      after_calls-device_time between ((force_evaluate_now c s).0) (cooldown_key c) c.now later
        (called_device c s h k) in
    let same : cooldown_key d ≡ cooldown_key c = rw (e, e') refl in
    let cooling : is_cooling 15000 (cooldown_key d) d.now t.last_forced_device_evaluation_at
        ≡ true =
      rw same (ground (arith, recent, soon)) in
    rw (ap is_set e' ∙ h, cooling) refl
