-- ===== src/Compliance/Alert/Daily.antt =====
-- The daily limits of the alerts of a policy (modules/compliance/compliance.service.ts).
use applivery_soar.Compliance.Alert.{
  alerts, email_sent_today, webhook_sent_today, fire_policy_violation_alert, AlertSettings, Senders,
  Channel, send_webhook, limit_reached, url_of, webhook_channel, email_channel, trimmed,
}
use applivery_soar.Common.{
  if◌then◌else◌, ℕ, suc, ◌+◌, ◌≤◌, ◌≡◌, inl, inr, refl, subst, ◌∙◌, String, false, not, Option,
  none, some, List, [], ◌∷◌, arith, Bool-cases, is_some, str_eq_self, opt_eq, length, All,
}

-- A channel counts what it sends, and stays within a limit that it has kept.
record IsCounted (limit : Option ℕ) (sent : ℕ) (c : Channel) : Type 0 where
  counts : c.sent_today ≡ sent + length c.messages
  within : (n : ℕ) → limit ≡ some n → sent ≤ n → c.sent_today ≤ n

not_reached :
    (limit : Option ℕ) (sent n : ℕ)
    → limit_reached limit sent ≡ false
    → limit ≡ some n
    → suc sent ≤ n
not_reached none sent n h e = cc
not_reached (some m) sent n h e =
    let same : m ≡ n = cc in subst (λ k. suc sent ≤ k) same (ground (arith, h))

send_webhook-IsCounted :
    (o : Senders) (limit : Option ℕ) (url : Option String) (sent : ℕ)
    → limit_reached limit sent ≡ false
    → IsCounted limit sent (send_webhook o url sent)
send_webhook-IsCounted o limit none sent h = record { counts = omega arith; within = λ n e k. k }
send_webhook-IsCounted o limit (some url) sent h = elim (Bool-cases (o.send_chat_text url)) [
  | inl e ↦ rw e (record { counts = omega arith; within = λ n e k. not_reached limit sent n h e })
  | inr e ↦ rw e (record { counts = omega arith; within = λ n e k. k })
]

webhook_channel-IsCounted :
    (o : Senders) (a : AlertSettings) (sent : ℕ)
    → IsCounted a.alert_webhook_max_per_day sent (webhook_channel o a sent)
webhook_channel-IsCounted o a sent = elim (Bool-cases a.alert_via_webhook) [
  | inr e ↦ rw e (record { counts = omega arith; within = λ n e k. k })
  | inl e ↦ elim (Bool-cases (limit_reached a.alert_webhook_max_per_day sent)) [
    | inl h ↦ rw (e, h) (record { counts = omega arith; within = λ n e k. k })
    | inr h ↦ rw (e, h) (send_webhook-IsCounted o _ (url_of o a) sent h)
  ]
]

email_channel-IsCounted :
    (o : Senders) (a : AlertSettings) (sent : ℕ)
    → IsCounted a.alert_email_max_per_day sent (email_channel o a sent)
email_channel-IsCounted o a sent = elim (Bool-cases a.alert_via_email) [
  | inr e ↦ rw e (record { counts = omega arith; within = λ n e k. k })
  | inl e ↦ elim (Bool-cases (limit_reached a.alert_email_max_per_day sent)) [
    | inl h ↦ rw (e, h) (record { counts = omega arith; within = λ n e k. k })
    | inr h ↦ elim (Bool-cases (is_some (trimmed o a.alert_email_recipients))) [
      | inl k ↦
          rw (e, h, k) (record { counts = omega arith; within = λ n e k. not_reached _ sent n h e })
      | inr k ↦ rw (e, h, k) (record { counts = omega arith; within = λ n e k. k })
    ]
  ]
]

abbrev pub Firing : Type 0
Firing = Senders × ℕ

-- The messages of a sequence of alerts, each with the settings that the one before has written.
abbrev pub webhooks_of : List Firing → AlertSettings → ℕ
webhooks_of [] a = 0
webhooks_of ((o, new) ∷ fs) a =
    length ((fire_policy_violation_alert o a new).1).webhooks
    + webhooks_of fs ((fire_policy_violation_alert o a new).0)

abbrev pub emails_of : List Firing → AlertSettings → ℕ
emails_of [] a = 0
emails_of ((o, new) ∷ fs) a =
    length ((fire_policy_violation_alert o a new).1).emails
    + emails_of fs ((fire_policy_violation_alert o a new).0)

-- What one alert keeps true of a limit: the messages count, and the limit stays.
record IsLimited (limit : Option ℕ) (used used' sent : ℕ) (limit' : Option ℕ) : Type 0 where
  counted : used' ≡ used + sent
  bounded : (n : ℕ) → limit ≡ some n → used ≤ n → used' ≤ n
  same : limit' ≡ limit

webhook_alert-IsLimited :
    (o : Senders) (a : AlertSettings) (new : ℕ)
    → IsLimited a.alert_webhook_max_per_day
        (webhook_sent_today o a)
        (webhook_sent_today o ((fire_policy_violation_alert o a new).0))
        (length ((fire_policy_violation_alert o a new).1).webhooks)
        ((fire_policy_violation_alert o a new).0).alert_webhook_max_per_day
unfolding fire_policy_violation_alert
webhook_alert-IsLimited o a new = elim (Bool-cases (alerts a new)) [
  | inr e ↦ rw e (record { counted = omega arith; bounded = λ n h k. k; same = refl })
  | inl e ↦
      let c = webhook_channel-IsCounted o a (webhook_sent_today o a) in
      rw (e, str_eq_self o.today_key)
        (record { counted = c.counts; bounded = c.within; same = refl })
]

email_alert-IsLimited :
    (o : Senders) (a : AlertSettings) (new : ℕ)
    → IsLimited a.alert_email_max_per_day
        (email_sent_today o a)
        (email_sent_today o ((fire_policy_violation_alert o a new).0))
        (length ((fire_policy_violation_alert o a new).1).emails)
        ((fire_policy_violation_alert o a new).0).alert_email_max_per_day
unfolding fire_policy_violation_alert
email_alert-IsLimited o a new = elim (Bool-cases (alerts a new)) [
  | inr e ↦ rw e (record { counted = omega arith; bounded = λ n h k. k; same = refl })
  | inl e ↦
      let c = email_channel-IsCounted o a (email_sent_today o a) in
      rw (e, str_eq_self o.today_key)
        (record { counted = c.counts; bounded = c.within; same = refl })
]

-- The count that an alert of that day starts from.
abbrev webhooks_used : String → AlertSettings → ℕ
webhooks_used day a =
    if not (opt_eq a.alert_counters_date (some day)) then 0 else a.alert_webhook_sent_today

abbrev emails_used : String → AlertSettings → ℕ
emails_used day a =
    if not (opt_eq a.alert_counters_date (some day)) then 0 else a.alert_email_sent_today

webhooks_of_day :
    (day : String) (n : ℕ) (fs : List Firing) (a : AlertSettings)
    → All (λ f. f.0.today_key ≡ day) fs
    → a.alert_webhook_max_per_day ≡ some n
    → webhooks_used day a ≤ n
    → webhooks_of fs a + webhooks_used day a ≤ n
webhooks_of_day day n [] a on_day e h = omega (arith, h)
webhooks_of_day day n ((o, new) ∷ fs) a on_day e h =
    let k : IsLimited a.alert_webhook_max_per_day (webhooks_used day a)
        (webhooks_used day ((fire_policy_violation_alert o a new).0))
        (length ((fire_policy_violation_alert o a new).1).webhooks)
        ((fire_policy_violation_alert o a new).0).alert_webhook_max_per_day =
      subst
        (λ t.
          IsLimited a.alert_webhook_max_per_day (webhooks_used t a)
            (webhooks_used t ((fire_policy_violation_alert o a new).0))
            (length ((fire_policy_violation_alert o a new).1).webhooks)
            ((fire_policy_violation_alert o a new).0).alert_webhook_max_per_day)
        on_day.0 (webhook_alert-IsLimited o a new) in
    let rest =
      webhooks_of_day day n fs ((fire_policy_violation_alert o a new).0) on_day.1 (k.same ∙ e)
        (k.bounded n e h) in
    omega (arith, rest, k.counted)

emails_of_day :
    (day : String) (n : ℕ) (fs : List Firing) (a : AlertSettings)
    → All (λ f. f.0.today_key ≡ day) fs
    → a.alert_email_max_per_day ≡ some n
    → emails_used day a ≤ n
    → emails_of fs a + emails_used day a ≤ n
emails_of_day day n [] a on_day e h = omega (arith, h)
emails_of_day day n ((o, new) ∷ fs) a on_day e h =
    let k : IsLimited a.alert_email_max_per_day (emails_used day a)
        (emails_used day ((fire_policy_violation_alert o a new).0))
        (length ((fire_policy_violation_alert o a new).1).emails)
        ((fire_policy_violation_alert o a new).0).alert_email_max_per_day =
      subst
        (λ t.
          IsLimited a.alert_email_max_per_day (emails_used t a)
            (emails_used t ((fire_policy_violation_alert o a new).0))
            (length ((fire_policy_violation_alert o a new).1).emails)
            ((fire_policy_violation_alert o a new).0).alert_email_max_per_day)
        on_day.0 (email_alert-IsLimited o a new) in
    let rest =
      emails_of_day day n fs ((fire_policy_violation_alert o a new).0) on_day.1 (k.same ∙ e)
        (k.bounded n e h) in
    omega (arith, rest, k.counted)

-- On a day for which nothing has been counted yet, all the alerts of the day together send no more
-- webhook messages than the limit for webhooks, and no more emails than the limit for emails, however
-- many violations they tell of.
pub alerts_of_day-bounded :
    (day : String) (n m : ℕ) (fs : List Firing) (a : AlertSettings)
    → All (λ f. f.0.today_key ≡ day) fs
    → a.alert_webhook_max_per_day ≡ some n
    → a.alert_email_max_per_day ≡ some m
    → opt_eq a.alert_counters_date (some day) ≡ false
    → (webhooks_of fs a ≤ n) × (emails_of fs a ≤ m)
alerts_of_day-bounded day n m fs a on_day e e' stale =
    let w : webhooks_used day a ≤ n = rw stale (omega arith) in
    let u : emails_used day a ≤ m = rw stale (omega arith) in
    (
      omega (arith, webhooks_of_day day n fs a on_day e w),
      omega (arith, emails_of_day day m fs a on_day e' u),
    )
