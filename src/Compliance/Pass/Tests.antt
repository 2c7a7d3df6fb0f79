-- ===== src/Compliance/Pass/Tests.antt =====
-- One pass on a small fleet (modules/compliance/compliance.service.ts).
use applivery_soar.Compliance.Policy.{policy_violated}
use applivery_soar.Compliance.Alert.{AlertSettings, Senders}
use applivery_soar.Compliance.Pass.Table.{Violation, auto_fired, Workflow, Device, Policy}
use applivery_soar.Compliance.Pass.Breaker.{
  autorun_circuit_breaker_check, autorun_circuit_breaker_check-all_failed, run_fully_failed,
  resolve_auto_run_batch_cap,
}
use applivery_soar.Compliance.Pass.Plan.{Outside}
use applivery_soar.Compliance.Pass.Visit.Flag.{flagged}
use applivery_soar.Compliance.Pass.Run.{run_policy, scoped_devices}
use applivery_soar.Compliance.Pass.Run.Cap.{run_policy-launches_cap}
use applivery_soar.Compliance.Pass.Run.Allowed.{IsAllowed}
use applivery_soar.Compliance.Pass.Run.Once.{IsOnce}
use applivery_soar.Compliance.Pass.Run.Quiet.{Agrees, effects}
use applivery_soar.Compliance.Pass.Evaluation.{
  Tables, Request, evaluate, run_compliance_evaluation, start_pass,
}
use applivery_soar.Compliance.Pass.Evaluation.Flags.{
  evaluate-quiet, visits_of, run_compliance_evaluation-flagged,
}
use applivery_soar.Compliance.Pass.Evaluation.Runs.{evaluate-IsAllowed, evaluate-IsOnce}
use applivery_soar.Cases.Table.{Store, Dispatch}
use applivery_soar.Common.{
  if◌then◌else◌, ℕ, ◌≤◌, ◌≡◌, inl, inr, refl, subst, String, true, false, none, some, List, [], ◌∷◌,
  ◌==◌, Bool-cases, is_some, str_eq, truthy, length, All,
}

abbrev phone : Device
phone = record {
  id = "d1";
  display_name = "Phone";
  serial_number = "S1";
  platform = "apple";
  risk_tier = some "high";
  device_audiences = "a" ∷ [];
}

abbrev laptop : Device
laptop = record phone { id = "d2"; display_name = "Laptop"; serial_number = "S2" }

abbrev tablet : Device
tablet = record phone { id = "d3"; serial_number = "S3"; platform = "android" }

abbrev fleet : List Device
fleet = phone ∷ laptop ∷ tablet ∷ []

abbrev lock : Workflow
lock = record {
  id = "w1";
  name = "Lock";
  steps = record { type = "mdm_action"; action = some "lock" } ∷ [];
}

abbrev no_alerts : AlertSettings
no_alerts = record {
  alert_on_violation = true;
  alert_via_webhook = true;
  alert_via_email = false;
  alert_webhook_url = some "https://chat";
  alert_email_recipients = none;
  alert_webhook_max_per_day = some 1;
  alert_email_max_per_day = none;
  alert_webhook_sent_today = 0;
  alert_email_sent_today = 0;
  alert_counters_date = none;
  last_alert_sent_at = none;
  last_alert_error = [];
}

-- A condition is the name of a platform that is not allowed.
abbrev no_apple : Policy String
no_apple = record {
  id = "p1";
  name = "No Apple";
  enabled = true;
  rules = record { conditions = "apple" ∷ []; condition_logic = none };
  severity = "high";
  mitre_techniques = [];
  workflow_id = some "w1";
  escalated_workflow_id = none;
  escalated_workflow_min_risk_tier = none;
  target_device_audience_id = some "a";
  target_platform = none;
  target_deployment_model = none;
  segment_id = none;
  non_compliance_tag = some "bad";
  non_compliance_smart_attribute_id = none;
  open_case_on_violation = true;
  auto_resolve_case_on_recovery = true;
  case_assignee = none;
  auto_run = true;
  auto_run_batch_cap = some 1;
  auto_run_destructive_ack = false;
  auto_run_tripped = false;
  auto_run_tripped_reason = none;
  evaluation_interval_minutes = 60;
  alert_settings = no_alerts;
  last_evaluated_at = none;
}

-- Another policy that shares the workflow.
abbrev apple_again : Policy String
apple_again = record no_apple { id = "p2"; name = "Apple again" }

abbrev no_cases : Store
no_cases = record { cases = []; timeline = []; sent = []; removals = []; next_id = 1 }

abbrev outside : Outside String
outside = record {
  slug = "acme";
  now = 5000;
  matches = λ d c. str_eq d.platform c;
  uuid = λ n. if n == 0 then "v0" else if n == 1 then "v1" else "v2";
  launch = λ n w d. some (if n == 0 then "run-1" else "run-2");
  lookup_run = λ id. some (record { status = "completed"; results = "failed" ∷ [] });
  destructive = λ a. str_eq a "wipe";
}

abbrev tables : Tables String
tables = record {
  policies = no_apple ∷ apple_again ∷ [];
  violations = [];
  state =
      ("p1:d3", record { violation_id = "old"; status = auto_fired; last_detected_at = 1 }) ∷ [];
  store = no_cases;
  messages = [];
}

abbrev everything : Request
everything = record { policy_ids = none; only_device_serial = none }

abbrev senders : Senders
senders = record {
  trim = λ s. s;
  global_webhook_url = none;
  send_chat_text = λ url. true;
  now = 5000;
  today_key = "2026-01-01";
}

abbrev quiet_dispatch : Dispatch
quiet_dispatch = λ c e. []

-- The phone is flagged, the laptop too, and the tablet has recovered.
run_compliance_evaluation-flagged_example :
    flagged
      ((run_compliance_evaluation outside senders quiet_dispatch
          (lock ∷ [])
          fleet
          everything
          tables).0
        ).state
      "p1:d3"
    ≡ false
unfolding scoped_devices policy_violated
run_compliance_evaluation-flagged_example =
    run_compliance_evaluation-flagged outside senders quiet_dispatch (lock ∷ []) fleet everything
      tables "p1:d3"

evaluate-IsAllowed_example :
    All
      (λ l. IsAllowed outside [] l.policy l.workflow l.device)
      (evaluate outside (lock ∷ []) fleet everything tables).launches
    × All (λ l. true ≡ true) (evaluate outside (lock ∷ []) fleet everything tables).launches
evaluate-IsAllowed_example = evaluate-IsAllowed outside (lock ∷ []) fleet everything tables

has_run_ids :
    (n : ℕ) (w : Workflow) (d : Device) (run : String)
    → outside.launch n w d ≡ some run
    → truthy run ≡ true
has_run_ids n w d run e = elim (Bool-cases (n == 0)) [
  | inl h ↦
      let f : some "run-1" ≡ some run = rw h at e in
      let same : "run-1" ≡ run = cc in subst (λ s. truthy s ≡ true) same refl
  | inr h ↦
      let f : some "run-2" ≡ some run = rw h at e in
      let same : "run-2" ≡ run = cc in subst (λ s. truthy s ≡ true) same refl
]

evaluate-IsOnce_example : IsOnce (evaluate outside (lock ∷ []) fleet everything tables).launches
evaluate-IsOnce_example = evaluate-IsOnce outside (lock ∷ []) fleet everything tables has_run_ids

run_policy-launches_cap_example :
    length (run_policy outside (lock ∷ []) [] fleet no_apple (start_pass 1 [] no_cases)).launches
    ≤ 1
unfolding resolve_auto_run_batch_cap
run_policy-launches_cap_example =
    run_policy-launches_cap outside (lock ∷ []) [] fleet no_apple (start_pass 1 [] no_cases) 1 refl

abbrev fired_violation : String → Violation String
fired_violation run_id = record {
  id = "v";
  policy_id = "p1";
  policy_name = "No Apple";
  workflow_id = some "w1";
  workflow_name = some "Lock";
  workflow_run_id = some run_id;
  escalated = false;
  device_id = "d1";
  device_name = "Phone";
  platform = "apple";
  matched_conditions = "apple" ∷ [];
  detected_at = 1;
  resolved_at = none;
  status = auto_fired;
  severity = "high";
  case_id = none;
}

autorun_circuit_breaker_check-all_failed_example :
    is_some (
      autorun_circuit_breaker_check outside.lookup_run "p1"
        (fired_violation "r3" ∷ fired_violation "r2" ∷ fired_violation "r1" ∷ []))
    ≡ true
unfolding run_fully_failed
autorun_circuit_breaker_check-all_failed_example =
    autorun_circuit_breaker_check-all_failed outside.lookup_run "p1"
      (fired_violation "r3" ∷ fired_violation "r2" ∷ fired_violation "r1" ∷ [])

-- The tables that the pass leaves, with the same policies.
abbrev tables_after : Tables String
tables_after = record tables {
  state =
      ((run_compliance_evaluation outside senders quiet_dispatch (lock ∷ []) fleet everything
        tables).0
      ).state;
}

evaluate-quiet_example :
    Agrees tables_after.state (visits_of outside fleet everything tables_after)
    × (effects (evaluate outside (lock ∷ []) fleet everything tables_after)
        ≡ effects (start_pass 2 tables_after.state no_cases))
unfolding scoped_devices policy_violated
evaluate-quiet_example =
    evaluate-quiet outside senders quiet_dispatch (lock ∷ []) fleet everything tables tables_after
      (refl, (refl, (refl, (refl, (refl, (refl, tt)))))) refl refl
