-- ===== src/Compliance/Payload.antt =====
-- What a policy is saved as: the payload, its checks and the data that are written
-- (modules/compliance/compliance.service.ts and compliance.schemas.ts). The descriptive fields
-- (description, framework, controlRef) are left out. The trimming of a text and the comparison of two
-- lists of conditions by their JSON come from outside.
use applivery_soar.Compliance.Policy.{CompliancePolicy}
use applivery_soar.Compliance.Alert.{AlertSettings}
use applivery_soar.Compliance.Pass.Table.{Workflow, Policy, workflow_has_destructive_step}
use applivery_soar.Cases.Table.{HttpError, http_error}
use applivery_soar.Common.{
  if◌then◌else◌, ℕ, min, max, String, Bool, false, not, ◌&&◌, ◌||◌, Option, none, some, List, [],
  ◌∷◌, or_else, join, str_eq, truthy, is_set,
}

-- A field of a payload that may be missing, or `null`.
pub data Given {ℓ} (A : Type ℓ) : Type ℓ where
  missing : Given A
  null : Given A
  given : A → Given A

pub record CompliancePolicyPayload {ℓ} (Condition : Type ℓ) : Type ℓ where
  pub name : String
  pub enabled : Bool
  pub auto_run : Bool
  pub severity : String
  pub rules : CompliancePolicy Condition
  pub target_platform : Option String
  pub target_deployment_model : Option String
  pub segment_id : Option String
  pub workflow_id : Option String
  pub non_compliance_tag : Option String
  pub non_compliance_smart_attribute_id : Option String
  pub open_case_on_violation : Bool
  pub auto_resolve_case_on_recovery : Bool
  pub case_assignee : Option String
  pub mitre_techniques : List String
  pub target_device_audience_id : Option String
  pub evaluation_interval_minutes : Option ℕ
  pub auto_run_batch_cap : Given ℕ
  pub auto_run_destructive_ack : Bool
  pub escalated_workflow_id : Option String
  pub escalated_workflow_min_risk_tier : String
  pub alert_on_violation : Bool
  pub alert_via_webhook : Bool
  pub alert_via_email : Bool
  pub alert_webhook_url : Option String
  pub alert_email_recipients : Option String
  pub alert_webhook_max_per_day : Option ℕ
  pub alert_email_max_per_day : Option ℕ

pub record Saver {ℓ} (Condition : Type ℓ) : Type ℓ where
  pub workflows : List Workflow
  pub destructive : String → Bool
  pub trim : String → String
  pub same_conditions : List Condition → List Condition → Bool

-- `clampEvalInterval`, in minutes
unfoldable pub clamp_eval_interval : Option ℕ → Option ℕ
clamp_eval_interval none = none
clamp_eval_interval (some minutes) = some (max 5 (min 1440 minutes))

-- `resolveAutoRunBatchCapOnSave`
unfoldable pub resolve_auto_run_batch_cap_on_save : Given ℕ → Option ℕ
resolve_auto_run_batch_cap_on_save missing = some 15
resolve_auto_run_batch_cap_on_save null = none
resolve_auto_run_batch_cap_on_save (given n) = some n

abbrev pub has_id : Option String → Workflow → Bool
has_id none w = false
has_id (some id) w = truthy id && str_eq w.id id

abbrev pub blank_to_null : (String → String) → Option String → Option String
blank_to_null trim none = none
blank_to_null trim (some s) = if truthy (trim s) then some (trim s) else none

abbrev pub ack_message : Workflow → String
ack_message w =
    join (join "Workflow \"" w.name)
      "\" contains a destructive action (wipe, unenroll, disable, etc.) — enabling autoRun with it requires explicit acknowledgment."

module _ {ℓ} {Condition : Type ℓ} where
  -- The loop over the workflows that are linked.
  abbrev pub refuse_linked :
      Saver Condition → CompliancePolicyPayload Condition → List Workflow → Option HttpError
  refuse_linked o p [] = none
  refuse_linked o p (w ∷ ws) =
      if (has_id p.workflow_id w || has_id p.escalated_workflow_id w)
        && workflow_has_destructive_step o.destructive (some w)
        && not p.auto_run_destructive_ack
      then some (http_error 400 (ack_message w))
      else refuse_linked o p ws

  -- `assertDestructiveAckIfNeeded`: the error that it throws
  unfoldable pub assert_destructive_ack_if_needed :
      Saver Condition → CompliancePolicyPayload Condition → Option HttpError
  unfolding workflow_has_destructive_step
  assert_destructive_ack_if_needed o p =
      if not p.auto_run || (not (is_set p.workflow_id) && not (is_set p.escalated_workflow_id))
      then none
      else refuse_linked o p o.workflows

  abbrev pub written_alerts :
      Saver Condition → CompliancePolicyPayload Condition → AlertSettings → AlertSettings
  written_alerts o p a = record a {
    alert_on_violation = p.alert_on_violation;
    alert_via_webhook = p.alert_via_webhook;
    alert_via_email = p.alert_via_email;
    alert_webhook_url = blank_to_null o.trim p.alert_webhook_url;
    alert_email_recipients = blank_to_null o.trim p.alert_email_recipients;
    alert_webhook_max_per_day = p.alert_webhook_max_per_day;
    alert_email_max_per_day = p.alert_email_max_per_day;
  }

  -- The data of `update`, on the row as it was.
  abbrev pub written :
      Saver Condition → CompliancePolicyPayload Condition → Policy Condition → Policy Condition
  written o p old = record old {
    name = p.name;
    enabled = p.enabled;
    rules = p.rules;
    severity = p.severity;
    mitre_techniques = p.mitre_techniques;
    workflow_id = p.workflow_id;
    escalated_workflow_id = p.escalated_workflow_id;
    escalated_workflow_min_risk_tier = some p.escalated_workflow_min_risk_tier;
    target_device_audience_id = p.target_device_audience_id;
    target_platform = p.target_platform;
    target_deployment_model = p.target_deployment_model;
    segment_id = p.segment_id;
    non_compliance_tag = p.non_compliance_tag;
    non_compliance_smart_attribute_id = p.non_compliance_smart_attribute_id;
    open_case_on_violation = p.open_case_on_violation;
    auto_resolve_case_on_recovery = p.auto_resolve_case_on_recovery;
    case_assignee = blank_to_null o.trim p.case_assignee;
    auto_run = p.auto_run;
    auto_run_batch_cap = resolve_auto_run_batch_cap_on_save p.auto_run_batch_cap;
    auto_run_destructive_ack = p.auto_run_destructive_ack;
    auto_run_tripped = false;
    auto_run_tripped_reason = none;
    evaluation_interval_minutes = or_else (clamp_eval_interval p.evaluation_interval_minutes) 60;
    alert_settings = written_alerts o p old.alert_settings;
  }
