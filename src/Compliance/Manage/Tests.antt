-- ===== src/Compliance/Manage/Tests.antt =====
-- A policy that is saved and deleted (modules/compliance/compliance.service.ts).
use text.Mathlib.Text.{starts_with}
use text.Mathlib.TextPositions.{starts_with-append}
use applivery_soar.Compliance.Pass.Table.{Violation, pending, Workflow, Policy, auto_fired}
use applivery_soar.Compliance.Pass.Plan.{Outside}
use applivery_soar.Compliance.Pass.Visit.Flag.{flagged}
use applivery_soar.Compliance.Pass.Evaluation.{Tables}
use applivery_soar.Compliance.Payload.{CompliancePolicyPayload, Saver, missing, written}
use applivery_soar.Compliance.Manage.{Updated, blank_policy, fresh_alerts, delete_compliance_policy}
use applivery_soar.Compliance.Manage.Deleted.{delete_compliance_policy-Clears}
use applivery_soar.Common.{
  ◌≡◌, ◌≢◌, ◌↔◌, refl, sym, subst, String, true, false, none, some, [], ◌∷◌, join, str_eq, Memᴰ,
  lookup,
}

abbrev wipe : Workflow
wipe = record {
  id = "w1";
  name = "Wipe";
  steps = record { type = "mdm_action"; action = some "wipe" } ∷ [];
}

abbrev payload : CompliancePolicyPayload String
payload = record {
  name = "No Apple";
  enabled = true;
  auto_run = true;
  severity = "high";
  rules = record { conditions = "apple" ∷ []; condition_logic = some "any" };
  target_platform = none;
  target_deployment_model = none;
  segment_id = none;
  workflow_id = some "w1";
  non_compliance_tag = none;
  non_compliance_smart_attribute_id = none;
  open_case_on_violation = true;
  auto_resolve_case_on_recovery = false;
  case_assignee = none;
  mitre_techniques = [];
  target_device_audience_id = none;
  evaluation_interval_minutes = some 1;
  auto_run_batch_cap = missing;
  auto_run_destructive_ack = true;
  escalated_workflow_id = none;
  escalated_workflow_min_risk_tier = "high";
  alert_on_violation = false;
  alert_via_webhook = false;
  alert_via_email = false;
  alert_webhook_url = none;
  alert_email_recipients = none;
  alert_webhook_max_per_day = none;
  alert_email_max_per_day = none;
}

abbrev saver : Saver String
saver = record {
  workflows = wipe ∷ [];
  destructive = λ a. str_eq a "wipe";
  trim = λ s. s;
  same_conditions = λ xs ys. true;
}

-- A policy that has tripped.
abbrev old_policy : Policy String
old_policy = record (blank_policy "p1" payload fresh_alerts) {
  auto_run_tripped = true;
  auto_run_tripped_reason = some "three failures";
}

abbrev tables : Tables String
tables = record {
  policies = old_policy ∷ [];
  violations = [];
  state = ("p1:d1", record { violation_id = "v1"; status = auto_fired; last_detected_at = 1 }) ∷ [];
  store = record { cases = []; timeline = []; sent = []; removals = []; next_id = 1 };
  messages = [];
}

abbrev finding : Violation String
finding = record {
  id = "v1";
  policy_id = "p1";
  policy_name = "No Apple";
  workflow_id = some "w1";
  workflow_name = some "Wipe";
  workflow_run_id = none;
  escalated = false;
  device_id = "d1";
  device_name = "Phone";
  platform = "apple";
  matched_conditions = "apple" ∷ [];
  detected_at = 1;
  resolved_at = none;
  status = pending;
  severity = "high";
  case_id = none;
}

abbrev outside : Outside String
outside = record {
  slug = "acme";
  now = 1;
  matches = λ d c. false;
  uuid = λ n. "v";
  launch = λ n w d. none;
  lookup_run = λ id. none;
  destructive = λ a. str_eq a "wipe";
}

abbrev answer : Updated String
answer = record {
  updated = written saver payload old_policy;
  just_enabled = false;
  scope_changed = false;
}

-- The policies, one of them to be deleted.
abbrev other_policy : Policy String
other_policy = record old_policy { id = "p2" }

abbrev full_tables : Tables String
full_tables = record tables { policies = old_policy ∷ other_policy ∷ []; violations = finding ∷ [] }

other_key : (rest : String) → "p2:d1" ≢ join (join "p1" ":") rest
other_key rest e =
    let starts : starts_with "p2:d1" "p1:" ≡ true =
      subst (λ key. starts_with key "p1:" ≡ true) (sym e) (starts_with-append "p1:" rest) in
    cc

delete_compliance_policy-Clears_example :
    (flagged (delete_compliance_policy "p1" full_tables).state "p1:d1" ≡ false)
    × (lookup "p2:d1" (delete_compliance_policy "p1" full_tables).state
        ≡ lookup "p2:d1" full_tables.state)
    × (Memᴰ finding (delete_compliance_policy "p1" full_tables).violations
        ↔ (Memᴰ finding full_tables.violations × (finding.policy_id ≢ "p1")))
    × (Memᴰ other_policy (delete_compliance_policy "p1" full_tables).policies
        ↔ (Memᴰ other_policy full_tables.policies × (other_policy.id ≢ "p1")))
delete_compliance_policy-Clears_example =
    delete_compliance_policy-Clears "p1" full_tables "d1" "p2:d1" finding other_policy refl
      other_key
