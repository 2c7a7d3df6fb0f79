-- ===== src/Compliance/Pass/Table.antt =====
-- The rows that the evaluation of the compliance policies reads and writes
-- (modules/compliance/compliance.service.ts): policies, devices, workflows, violations and the
-- suppression state. A time is a number of milliseconds.
use applivery_soar.Compliance.Alert.{AlertSettings}
use applivery_soar.Compliance.Policy.{CompliancePolicy}
use applivery_soar.Common.{
  ℕ, String, Bool, false, ◌&&◌, ◌||◌, Option, none, some, List, [], ◌∷◌, or_else, join, str_eq,
  is_set,
}

pub record WorkflowStep : Type 0 where
  pub type : String
  pub action : Option String

pub record Workflow : Type 0 where
  pub id : String
  pub name : String
  pub steps : List WorkflowStep

-- The part of `NormalizedDevice` that the pass reads, but for what conditions look at.
pub record Device : Type 0 where
  pub id : String
  pub display_name : String
  pub serial_number : String
  pub platform : String
  pub risk_tier : Option String
  pub device_audiences : List String

pub record Policy {ℓ} (Condition : Type ℓ) : Type ℓ where
  pub id : String
  pub name : String
  pub enabled : Bool
  pub rules : CompliancePolicy Condition  -- `conditions` and `conditionLogic`
  pub severity : String
  pub mitre_techniques : List String
  pub workflow_id : Option String
  pub escalated_workflow_id : Option String
  pub escalated_workflow_min_risk_tier : Option String
  pub target_device_audience_id : Option String
  pub target_platform : Option String
  pub target_deployment_model : Option String
  pub segment_id : Option String
  pub non_compliance_tag : Option String
  pub non_compliance_smart_attribute_id : Option String
  pub open_case_on_violation : Bool
  pub auto_resolve_case_on_recovery : Bool
  pub case_assignee : Option String
  pub auto_run : Bool
  pub auto_run_batch_cap : Option ℕ
  pub auto_run_destructive_ack : Bool
  pub auto_run_tripped : Bool
  pub auto_run_tripped_reason : Option String
  pub evaluation_interval_minutes : ℕ
  pub alert_settings : AlertSettings
  pub last_evaluated_at : Option ℕ

pub data ViolationStatus : Type 0 where
  pending no_workflow auto_fired autorun_blocked autorun_capped workflow_unavailable :
      ViolationStatus
  approved dismissed : ViolationStatus

pub record Violation {ℓ} (Condition : Type ℓ) : Type ℓ where
  pub id : String
  pub policy_id : String
  pub policy_name : String
  pub workflow_id : Option String
  pub workflow_name : Option String
  pub workflow_run_id : Option String
  pub escalated : Bool
  pub device_id : String
  pub device_name : String
  pub platform : String
  pub matched_conditions : List Condition
  pub detected_at : ℕ
  pub resolved_at : Option ℕ
  pub status : ViolationStatus
  pub severity : String
  pub case_id : Option ℕ

pub record SuppressionEntry : Type 0 where
  pub violation_id : String
  pub status : ViolationStatus
  pub last_detected_at : ℕ

-- The suppression state: an object with a key for each flagged pair.
abbrev pub State : Type 0
State = List (String × SuppressionEntry)

pub record MarkerAction : Type 0 where
  pub device_id : String
  pub tag : Option String
  pub smart_attr_id : Option String
  pub present : Bool

-- A run of a workflow, as `getWorkflowRun` shows it.
pub record Run : Type 0 where
  pub status : String
  pub results : List String  -- `finalStatus`

-- `${policy.id}:${device.id}`, and `${workflow.id}:${device.id}`
abbrev pub pair_key : String → String → String
pair_key a b = join (join a ":") b

abbrev pub risk_tier_rank : List (String × ℕ)
risk_tier_rank = ("low", 0) ∷ ("medium", 1) ∷ ("high", 2) ∷ ("critical", 3) ∷ []

-- The steps `mdm_action` with an action that the catalog `MDM_ACTIONS` calls destructive.
abbrev pub has_destructive_step : (String → Bool) → List WorkflowStep → Bool
has_destructive_step destructive [] = false
has_destructive_step destructive (s ∷ ss) =
    (str_eq s.type "mdm_action" && is_set s.action && destructive (or_else s.action ""))
    || has_destructive_step destructive ss

-- `workflowHasDestructiveStep`
unfoldable pub workflow_has_destructive_step : (String → Bool) → Option Workflow → Bool
workflow_has_destructive_step destructive none = false
workflow_has_destructive_step destructive (some w) = has_destructive_step destructive w.steps
