-- ===== src/Compliance/Scheduler/Tests.antt =====
-- A tick in a workspace with one policy (modules/compliance/complianceJobs.ts).
use applivery_soar.Compliance.Pass.Table.{Policy}
use applivery_soar.Compliance.Pass.Evaluation.{Tables}
use applivery_soar.Compliance.Manage.{fresh_alerts}
use applivery_soar.Compliance.Scheduler.{Surroundings, tick_workspace, due_policy_ids}
use applivery_soar.Compliance.Scheduler.Stamped.{is_early, tick_workspace-is_early}
use applivery_soar.Common.{◌≡◌, refl, String, true, false, none, some, [], ◌∷◌, All}

abbrev hourly : Policy String
hourly = record {
  id = "p1";
  name = "Hourly";
  enabled = true;
  rules = record { conditions = []; condition_logic = none };
  severity = "high";
  mitre_techniques = [];
  workflow_id = none;
  escalated_workflow_id = none;
  escalated_workflow_min_risk_tier = none;
  target_device_audience_id = none;
  target_platform = none;
  target_deployment_model = none;
  segment_id = none;
  non_compliance_tag = none;
  non_compliance_smart_attribute_id = none;
  open_case_on_violation = false;
  auto_resolve_case_on_recovery = false;
  case_assignee = none;
  auto_run = false;
  auto_run_batch_cap = none;
  auto_run_destructive_ack = false;
  auto_run_tripped = false;
  auto_run_tripped_reason = none;
  evaluation_interval_minutes = 60;
  alert_settings = fresh_alerts;
  last_evaluated_at = some 1000;
}

abbrev tables : Tables String
tables = record {
  policies = hourly ∷ record hourly { id = "p2"; last_evaluated_at = some 3600000 } ∷ [];
  violations = [];
  state = [];
  store = record { cases = []; timeline = []; sent = []; removals = []; next_id = 1 };
  messages = [];
}

abbrev around : Surroundings String
around = record {
  outside = record {
    slug = "acme";
    now = 3601000;
    matches = λ d c. false;
    uuid = λ n. "v";
    launch = λ n w d. none;
    lookup_run = λ id. none;
    destructive = λ a. false;
  };
  senders = record {
    trim = λ s. s;
    global_webhook_url = none;
    send_chat_text = λ url. true;
    now = 3601000;
    today_key = "1970-01-01";
  };
  dispatch = λ c e. [];
  workflows = [];
  devices = some [];
  has_automation = true;
  bearer = some "token";
}

tick_workspace-is_early_example :
    All
      (λ p. is_early (due_policy_ids 3601000 tables) 3601000 4000000 p ≡ false)
      ((tick_workspace around tables).0).policies
unfolding tick_workspace
tick_workspace-is_early_example = tick_workspace-is_early around tables 4000000 refl
