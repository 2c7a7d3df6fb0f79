-- ===== src/Compliance/Alert/Tests.antt =====
-- Two alerts of one day (modules/compliance/compliance.service.ts).
use applivery_soar.Compliance.Alert.{AlertSettings, Senders}
use applivery_soar.Compliance.Alert.Daily.{webhooks_of, emails_of, alerts_of_day-bounded, Firing}
use applivery_soar.Common.{◌≤◌, refl, true, none, some, List, [], ◌∷◌}

abbrev settings : AlertSettings
settings = record {
  alert_on_violation = true;
  alert_via_webhook = true;
  alert_via_email = true;
  alert_webhook_url = some "https://chat";
  alert_email_recipients = some "team@acme.com";
  alert_webhook_max_per_day = some 1;
  alert_email_max_per_day = some 2;
  alert_webhook_sent_today = 1;
  alert_email_sent_today = 2;
  alert_counters_date = some "2026-01-01";
  last_alert_sent_at = none;
  last_alert_error = [];
}

abbrev next_day : Senders
next_day = record {
  trim = λ s. s;
  global_webhook_url = none;
  send_chat_text = λ url. true;
  now = 7;
  today_key = "2026-01-02";
}

abbrev firings : List Firing
firings = (next_day, 3) ∷ (next_day, 1) ∷ (next_day, 2) ∷ []

alerts_of_day-bounded_example :
    (webhooks_of firings settings ≤ 1) × (emails_of firings settings ≤ 2)
alerts_of_day-bounded_example =
    alerts_of_day-bounded "2026-01-02" 1 2 firings settings (refl, (refl, (refl, tt))) refl refl
      refl
