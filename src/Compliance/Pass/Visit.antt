-- ===== src/Compliance/Pass/Visit.antt =====
-- What one pass does with one device under one policy: the body of the inner loop of
-- `runComplianceEvaluation` (modules/compliance/compliance.service.ts).
pub mod Core
pub mod Flag
pub mod Launching
use applivery_soar.Compliance.Pass.Settle.{tell, Settled, settle}
use applivery_soar.Compliance.Pass.Table.{
  Workflow, Device, Policy, Violation, SuppressionEntry, MarkerAction, pair_key,
}
use applivery_soar.Compliance.Pass.Plan.{
  violation_recovered, Pass, Outside, Plan, decide, is_escalated, effective_workflow,
}
use applivery_soar.Compliance.Policy.{policy_violated, has_some}
use applivery_soar.Cases.Table.{Event, Store}
use applivery_soar.Cases.Violation.{
  CasePolicyRef, CaseDeviceRef, Upserted, upsert_case_for_violation, mark_case_recovered,
}
use applivery_soar.Common.{
  if◌then◌else◌, ℕ, suc, String, Bool, true, false, Option, none, some, List, [], ◌∷◌, ◌++◌,
  or_string, str_eq, is_set, lookup, insert, delete_keys,
}

abbrev pub device_ref : Device → CaseDeviceRef
device_ref device = record { id = device.id; display_name = some device.display_name }

abbrev pub workflow_id_of : Option Workflow → Option String → Option String
workflow_id_of none d = d
workflow_id_of (some w) d = some w.id

abbrev pub workflow_name_of : Option Workflow → Option String
workflow_name_of none = none
workflow_name_of (some w) = some w.name

module _ {ℓ} {Condition : Type ℓ} where
  -- The two `markerActions.push`, each if the policy names a marker of that kind.
  abbrev pub tag_actions : Policy Condition → Device → Bool → List MarkerAction
  tag_actions p device present =
      if is_set p.non_compliance_tag
      then record {
        device_id = device.id;
        tag = p.non_compliance_tag;
        smart_attr_id = none;
        present = present;
      }
        ∷ []
      else []

  abbrev pub attribute_actions : Policy Condition → Device → Bool → List MarkerAction
  attribute_actions p device present =
      if is_set p.non_compliance_smart_attribute_id
      then record {
        device_id = device.id;
        tag = none;
        smart_attr_id = p.non_compliance_smart_attribute_id;
        present = present;
      }
        ∷ []
      else []

  abbrev pub mark : Policy Condition → Device → Bool → Pass Condition → Pass Condition
  mark p device present s = record s {
    marker_actions =
        s.marker_actions ++ tag_actions p device present ++ attribute_actions p device present;
  }

  abbrev pub key_of : Policy Condition → Device → String
  key_of p device = pair_key p.id device.id

  -- The events of the cases that are put off to the end of the pass.
  abbrev pub put_off : ℕ → Option Event → Pass Condition → Pass Condition
  put_off case_id none s = s
  put_off case_id (some event) s = record s {
    case_notify_events = s.case_notify_events ++ (case_id, event) ∷ [];
  }

  abbrev pub with_recovery : Store × Option Upserted → Pass Condition → Pass Condition
  with_recovery (store, none) s = record s { store = store }
  with_recovery (store, some u) s = put_off u.case_id u.notify_event (record s { store = store })

  abbrev pub count_recovered : Pass Condition → Pass Condition
  count_recovered s = record s {
    summary = record s.summary { recovered = suc s.summary.recovered };
    policy_recovered = suc s.policy_recovered;
  }

  -- The device was flagged, and does not violate the policy any more.
  unfoldable pub recover :
      Outside Condition
      → Policy Condition
      → Device
      → SuppressionEntry
      → Pass Condition
      → Pass Condition
  recover o p device entry s =
      let s' = tell (violation_recovered device.display_name p.name) (
        mark p device false (
          count_recovered
            (record s { state = delete_keys (λ k. str_eq (key_of p device) k) s.state }))) in
      with_recovery
        (mark_case_recovered o.slug entry.violation_id p.auto_resolve_case_on_recovery o.now
          s'.store)
        s'

  abbrev pub policy_ref : Policy Condition → CasePolicyRef
  policy_ref p = record {
    id = p.id;
    name = p.name;
    severity = some p.severity;
    mitre_techniques = p.mitre_techniques;
    case_assignee = p.case_assignee;
  }

  abbrev pub with_case : Store × Upserted → Pass Condition → Pass Condition × Option ℕ
  with_case (store, u) s =
      (put_off u.case_id u.notify_event (record s { store = store }), some u.case_id)

  -- The case of a new violation, if the policy opens one.
  unfoldable pub open_case :
      Outside Condition
      → Policy Condition
      → Device
      → String
      → Pass Condition
      → Pass Condition × Option ℕ
  open_case o p device violation_id s =
      if p.open_case_on_violation
      then with_case
          (upsert_case_for_violation o.slug (policy_ref p) (device_ref device) violation_id o.now
            s.store)
          s
      else (s, none)

  abbrev pub row_of :
      Outside Condition
      → Plan Condition
      → Device
      → List Condition
      → String
      → Option ℕ
      → Settled Condition
      → Violation Condition
  row_of o plan device matched violation_id case_id settled = record {
    id = violation_id;
    policy_id = plan.policy.id;
    policy_name = plan.policy.name;
    workflow_id = workflow_id_of (effective_workflow plan device) plan.policy.workflow_id;
    workflow_name = workflow_name_of (effective_workflow plan device);
    workflow_run_id = settled.workflow_run_id;
    escalated = is_escalated plan device;
    device_id = device.id;
    device_name = device.display_name;
    platform = device.platform;
    matched_conditions = matched;
    detected_at = o.now;
    resolved_at = none;
    status = settled.status;
    severity = or_string (some plan.policy.severity) "medium";
    case_id = case_id;
  }

  -- The new row, and the entry that keeps the next passes from another one.
  abbrev pub flag :
      Outside Condition
      → Plan Condition
      → Device
      → List Condition
      → String
      → Option ℕ
      → Settled Condition
      → Pass Condition
  flag o plan device matched violation_id case_id settled = record settled.after {
    new_violation_rows =
        settled.after.new_violation_rows
        ++ row_of o plan device matched violation_id case_id settled ∷ [];
    state =
        insert (key_of plan.policy device)
          (record {
            violation_id = violation_id;
            status = settled.status;
            last_detected_at = o.now;
          })
          settled.after.state;
  }

  abbrev pub count_violation : Pass Condition → Pass Condition
  count_violation s = record s {
    summary = record s.summary { violations_found = suc s.summary.violations_found };
    policy_new_violations = suc s.policy_new_violations;
    drawn = suc s.drawn;
  }

  abbrev pub settled_in :
      Outside Condition
      → Plan Condition
      → Device
      → List Condition
      → String
      → Pass Condition × Option ℕ
      → Pass Condition
  settled_in o plan device matched violation_id (s, case_id) =
      flag o plan device matched violation_id case_id
        (settle o plan device case_id (decide plan device s.policy_autofired_count) s)

  -- The device violates the policy, and was not flagged.
  unfoldable pub detect :
      Outside Condition → Plan Condition → Device → List Condition → Pass Condition → Pass Condition
  unfolding settle
  detect o plan device matched s = settled_in o plan device matched (o.uuid s.drawn) (
      open_case o plan.policy device (o.uuid s.drawn)
        (mark plan.policy device true (count_violation s)))

  -- The conditions of the policy that match.
  abbrev pub matched_by : Outside Condition → Policy Condition → Device → List Condition
  matched_by o p device = policy_violated (o.matches device) p.rules

  abbrev pub visit_known :
      Outside Condition
      → Plan Condition
      → Device
      → List Condition
      → Option SuppressionEntry
      → Pass Condition
      → Pass Condition
  visit_known o plan device matched known s =
      if has_some matched
      then elim known [ none ↦ detect o plan device matched s | some _ ↦ s ]
      else elim known [ none ↦ s | some entry ↦ recover o plan.policy device entry s ]

  -- One round of the inner loop
  unfoldable pub visit :
      Outside Condition → Plan Condition → Device → Pass Condition → Pass Condition
  visit o plan device s =
      visit_known o plan device (matched_by o plan.policy device)
        (lookup (key_of plan.policy device) s.state) s
