-- ===== src/Compliance/Alert.antt =====
-- The alert of a policy that has found new violations: `firePolicyViolationAlert` of
-- modules/compliance/compliance.service.ts. The trimming of a text, the clock and the two senders come
-- from outside; the texts of the messages and of the errors are not modelled.
pub mod Daily
mod Tests
use applivery_soar.Common.{
  if◌then◌else◌, ℕ, min, max, zero, suc, ◌+◌, ◌-◌, ◌*◌, ◌≤◌, ◌<◌, ◌≡◌, ◌≢◌, ◌↔◌, ◌⊎◌, inl, inr,
  refl, sym, ap, subst, ◌∙◌, String, Bool, true, false, not, ◌&&◌, ◌||◌, Option, none, some, List,
  [], ◌∷◌, ◌++◌, map, arith, ltb, leb, ◌==◌, ==_self, ==-eq, Bool-cases, Option-cases, or_else,
  is_some, or_string, join, str_eq, str_eq-true, str_eq_self, str_eq_comm, str_eq-false, truthy,
  includes, opt_eq, is_set, length, take, drop, any, all, keep, find, count_if, All, find-All,
  find-holds, All-keep, keep-all, all-keep, length-append, length-keep-le, lookup, insert,
  delete_keys, lookup-insert, lookup-delete_keys,
}

pub data AlertError : Type 0 where
  daily_limit_reached no_webhook_url webhook_failed no_recipients : AlertError

pub record AlertSettings : Type 0 where
  pub alert_on_violation : Bool
  pub alert_via_webhook : Bool
  pub alert_via_email : Bool
  pub alert_webhook_url : Option String
  pub alert_email_recipients : Option String
  pub alert_webhook_max_per_day : Option ℕ
  pub alert_email_max_per_day : Option ℕ
  pub alert_webhook_sent_today : ℕ
  pub alert_email_sent_today : ℕ
  pub alert_counters_date : Option String
  pub last_alert_sent_at : Option ℕ
  pub last_alert_error : List AlertError  -- `null` if there is none

pub record Senders : Type 0 where
  pub trim : String → String
  pub global_webhook_url : Option String
  pub send_chat_text : String → Bool  -- whether it did not throw
  pub now : ℕ
  pub today_key : String

-- The messages of one alert.
pub record Messages : Type 0 where
  pub webhooks : List String  -- by URL
  pub emails : List String  -- by recipients

-- `url?.trim() || …`
abbrev pub trimmed : Senders → Option String → Option String
trimmed o none = none
trimmed o (some s) = if truthy (o.trim s) then some (o.trim s) else none

abbrev pub url_of : Senders → AlertSettings → Option String
url_of o a = elim (trimmed o a.alert_webhook_url) [
  | none ↦ trimmed o o.global_webhook_url
  | some url ↦ some url
]

abbrev pub limit_reached : Option ℕ → ℕ → Bool
limit_reached none sent = false
limit_reached (some limit) sent = leb limit sent

-- What a channel has sent, how many it has sent today, and what went wrong.
pub record Channel : Type 0 where
  pub messages : List String
  pub sent_today : ℕ
  pub errors : List AlertError

abbrev pub failed_with : AlertError → ℕ → Channel
failed_with e sent = record { messages = []; sent_today = sent; errors = e ∷ [] }

abbrev pub sent_to : String → ℕ → Channel
sent_to target sent = record { messages = target ∷ []; sent_today = suc sent; errors = [] }

abbrev pub quiet_channel : ℕ → Channel
quiet_channel sent = record { messages = []; sent_today = sent; errors = [] }

abbrev pub send_webhook : Senders → Option String → ℕ → Channel
send_webhook o none sent = failed_with no_webhook_url sent
send_webhook o (some url) sent =
    if o.send_chat_text url then sent_to url sent else failed_with webhook_failed sent

abbrev pub webhook_channel : Senders → AlertSettings → ℕ → Channel
webhook_channel o a sent =
    if a.alert_via_webhook
    then (if limit_reached a.alert_webhook_max_per_day sent
        then failed_with daily_limit_reached sent
        else send_webhook o (url_of o a) sent)
    else quiet_channel sent

abbrev pub email_channel : Senders → AlertSettings → ℕ → Channel
email_channel o a sent =
    if a.alert_via_email
    then (if limit_reached a.alert_email_max_per_day sent
        then failed_with daily_limit_reached sent
        else if is_some (trimmed o a.alert_email_recipients)
        then sent_to (or_else a.alert_email_recipients "") sent
        else failed_with no_recipients sent)
    else quiet_channel sent

-- `countersStale`
abbrev pub counters_stale : Senders → AlertSettings → Bool
counters_stale o a = not (opt_eq a.alert_counters_date (some o.today_key))

abbrev pub webhook_sent_today : Senders → AlertSettings → ℕ
webhook_sent_today o a = if counters_stale o a then 0 else a.alert_webhook_sent_today

abbrev pub email_sent_today : Senders → AlertSettings → ℕ
email_sent_today o a = if counters_stale o a then 0 else a.alert_email_sent_today

abbrev pub alert_with : Senders → AlertSettings → Channel → Channel → AlertSettings × Messages
alert_with o a webhook email = (
  record a {
    last_alert_sent_at = some o.now;
    last_alert_error = webhook.errors ++ email.errors;
    alert_webhook_sent_today = webhook.sent_today;
    alert_email_sent_today = email.sent_today;
    alert_counters_date = some o.today_key;
  },
  record { webhooks = webhook.messages; emails = email.messages },
)

abbrev pub no_messages : Messages
no_messages = record { webhooks = []; emails = [] }

-- Neither of the two early returns is taken.
abbrev pub alerts : AlertSettings → ℕ → Bool
alerts a new_violations =
    a.alert_on_violation && ltb 0 new_violations && (a.alert_via_webhook || a.alert_via_email)

-- `firePolicyViolationAlert`, for so many new violations
unfoldable pub fire_policy_violation_alert : Senders → AlertSettings → ℕ → AlertSettings × Messages
fire_policy_violation_alert o a new_violations =
    if alerts a new_violations
    then alert_with o a (webhook_channel o a (webhook_sent_today o a))
        (email_channel o a (email_sent_today o a))
    else (a, no_messages)
