-- ===== src/Compliance/Manage.antt =====
-- How policies are saved and deleted: `createCompliancePolicy`, `updateCompliancePolicy` and
-- `deleteCompliancePolicy` of modules/compliance/compliance.service.ts. The audit log is left out.
pub mod Ready
pub mod Deleted
mod Tests
use applivery_soar.Compliance.Payload.{
  Given, missing, null, given, CompliancePolicyPayload, Saver, clamp_eval_interval,
  resolve_auto_run_batch_cap_on_save, has_id, blank_to_null, ack_message, refuse_linked,
  assert_destructive_ack_if_needed, written_alerts, written,
}
use text.Mathlib.Text.{starts_with}
use applivery_soar.Compliance.Policy.{CompliancePolicy}
use applivery_soar.Compliance.Alert.{AlertSettings}
use applivery_soar.Compliance.Pass.Table.{Workflow, Policy, workflow_has_destructive_step}
use applivery_soar.Compliance.Pass.Evaluation.{Tables, update_policy}
use applivery_soar.Cases.Table.{HttpError, http_error}
use applivery_soar.Common.{
  if◌then◌else◌, ℕ, min, max, zero, suc, ◌+◌, ◌-◌, ◌*◌, ◌≤◌, ◌<◌, ◌≡◌, ◌≢◌, ◌↔◌, ◌⊎◌, inl, inr,
  refl, sym, ap, subst, ◌∙◌, String, Bool, true, false, not, ◌&&◌, ◌||◌, Option, none, some, List,
  [], ◌∷◌, ◌++◌, map, arith, ltb, leb, ◌==◌, ==_self, ==-eq, Bool-cases, Option-cases, or_else,
  is_some, or_string, join, str_eq, str_eq-true, str_eq_self, str_eq_comm, str_eq-false, truthy,
  includes, opt_eq, is_set, length, take, drop, any, all, keep, find, count_if, All, find-All,
  find-holds, All-keep, keep-all, all-keep, length-append, length-keep-le, lookup, insert,
  delete_keys, lookup-insert, lookup-delete_keys,
}

pub data Saved {ℓ} (A : Type ℓ) : Type ℓ where
  saved : A → Saved A
  rejected : HttpError → Saved A

-- The settings that a new row starts from: the defaults of the schema.
abbrev pub fresh_alerts : AlertSettings
fresh_alerts = record {
  alert_on_violation = false;
  alert_via_webhook = false;
  alert_via_email = false;
  alert_webhook_url = none;
  alert_email_recipients = none;
  alert_webhook_max_per_day = none;
  alert_email_max_per_day = none;
  alert_webhook_sent_today = 0;
  alert_email_sent_today = 0;
  alert_counters_date = none;
  last_alert_sent_at = none;
  last_alert_error = [];
}

-- What an update answers.
pub record Updated {ℓ} (Condition : Type ℓ) : Type ℓ where
  pub updated : Policy Condition
  pub just_enabled : Bool
  pub scope_changed : Bool

-- Whether the key starts with `${policyId}:`.
abbrev pub is_key_of : String → String → Bool
is_key_of policy_id key = starts_with key (join policy_id ":")

module _ {ℓ} {Condition : Type ℓ} where
  -- The row before the data of `create` are written: the defaults of the schema.
  abbrev pub blank_policy :
      String → CompliancePolicyPayload Condition → AlertSettings → Policy Condition
  blank_policy id p a = record {
    id = id;
    name = p.name;
    enabled = true;
    rules = p.rules;
    severity = "medium";
    mitre_techniques = [];
    workflow_id = none;
    escalated_workflow_id = none;
    escalated_workflow_min_risk_tier = some "high";
    target_device_audience_id = none;
    target_platform = none;
    target_deployment_model = none;
    segment_id = none;
    non_compliance_tag = none;
    non_compliance_smart_attribute_id = none;
    open_case_on_violation = true;
    auto_resolve_case_on_recovery = false;
    case_assignee = none;
    auto_run = false;
    auto_run_batch_cap = some 15;
    auto_run_destructive_ack = false;
    auto_run_tripped = false;
    auto_run_tripped_reason = none;
    evaluation_interval_minutes = 60;
    alert_settings = a;
    last_evaluated_at = none;
  }

  -- `createCompliancePolicy`, with the id that the row gets
  unfoldable pub create_compliance_policy :
      Saver Condition
      → String
      → CompliancePolicyPayload Condition
      → Tables Condition
      → Saved (Tables Condition × Policy Condition)
  unfolding assert_destructive_ack_if_needed clamp_eval_interval resolve_auto_run_batch_cap_on_save
  create_compliance_policy o id p t = elim (assert_destructive_ack_if_needed o p) [
    | some e ↦ rejected e
    | none ↦
        let row = written o p (blank_policy id p fresh_alerts) in
        saved (record t { policies = t.policies ++ row ∷ [] }, row)
  ]

  abbrev pub policy_at : String → Tables Condition → Option (Policy Condition)
  policy_at id t = find (λ p. str_eq p.id id) t.policies

  -- `scopeChanged`, before it is checked that the policy is enabled
  abbrev pub scope_differs :
      Saver Condition → Policy Condition → CompliancePolicyPayload Condition → Bool
  scope_differs o old p =
      not (opt_eq old.target_device_audience_id p.target_device_audience_id)
      || not (opt_eq old.target_platform p.target_platform)
      || not (opt_eq old.target_deployment_model p.target_deployment_model)
      || not (opt_eq old.segment_id p.segment_id)
      || not (opt_eq old.rules.condition_logic p.rules.condition_logic)
      || not (o.same_conditions old.rules.conditions p.rules.conditions)

  -- By the error of `assertDestructiveAckIfNeeded`
  abbrev pub update_checked :
      Saver Condition
      → String
      → CompliancePolicyPayload Condition
      → Tables Condition
      → Policy Condition
      → Option HttpError
      → Saved (Tables Condition × Updated Condition)
  update_checked o id p t old (some e) = rejected e
  update_checked o id p t old none = saved (
    record t { policies = update_policy id (written o p) t.policies },
    record {
      updated = written o p old;
      just_enabled = p.enabled && not old.enabled;
      scope_changed = p.enabled && scope_differs o old p;
    },
  )

  abbrev pub update_found :
      Saver Condition
      → String
      → CompliancePolicyPayload Condition
      → Tables Condition
      → Option (Policy Condition)
      → Saved (Tables Condition × Updated Condition)
  update_found o id p t none = rejected (http_error 404 "Compliance policy not found")
  update_found o id p t (some old) =
      update_checked o id p t old (assert_destructive_ack_if_needed o p)

  -- `updateCompliancePolicy`
  unfoldable pub update_compliance_policy :
      Saver Condition
      → String
      → CompliancePolicyPayload Condition
      → Tables Condition
      → Saved (Tables Condition × Updated Condition)
  unfolding assert_destructive_ack_if_needed clamp_eval_interval resolve_auto_run_batch_cap_on_save
  update_compliance_policy o id p t = update_found o id p t (policy_at id t)

  abbrev pub without : String → Tables Condition → Tables Condition
  without id t = record t {
    policies = keep (λ p. not (str_eq p.id id)) t.policies;
    violations = keep (λ v. not (str_eq v.policy_id id)) t.violations;
    state = delete_keys (is_key_of id) t.state;
  }

  -- `deleteCompliancePolicy`
  unfoldable pub delete_compliance_policy : String → Tables Condition → Tables Condition
  delete_compliance_policy id t = if is_some (policy_at id t) then without id t else t
