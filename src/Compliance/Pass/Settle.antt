-- ===== src/Compliance/Pass/Settle.antt =====
-- What becomes of a new violation: the chain of branches in the inner loop of
-- `runComplianceEvaluation` (modules/compliance/compliance.service.ts).
use applivery_soar.Compliance.Pass.Table.{
  Workflow, Device, ViolationStatus, pending, no_workflow, auto_fired, autorun_blocked,
  autorun_capped, workflow_unavailable, pair_key,
}
use applivery_soar.Compliance.Pass.Plan.{
  Notice, run_blocked, run_capped, run_reused, run_unavailable, run_fired, nothing_linked, queued,
  Pass, Outside, Plan, Decision, blocked, capped, fire, unlinked, review, is_escalated,
}
use applivery_soar.Cases.Table.{Entry, link_run, run_shared, run_started, system}
use applivery_soar.Common.{
  if◌then◌else◌, ℕ, suc, String, Option, none, some, [], ◌∷◌, ◌++◌, or_else, is_set, lookup, insert,
}

-- What became of a new violation.
pub record Settled {ℓ} (Condition : Type ℓ) : Type ℓ where
  pub after : Pass Condition
  pub status : ViolationStatus
  pub workflow_run_id : Option String

module _ {ℓ} {Condition : Type ℓ} where
  abbrev pub tell : Notice → Pass Condition → Pass Condition
  tell notice s = record s { audit_events = s.audit_events ++ notice ∷ [] }

  abbrev pub link_case :
      Outside Condition → Option ℕ → String → Entry → Pass Condition → Pass Condition
  link_case o none run_id entry s = s
  link_case o (some case_id) run_id entry s = record s {
    store = link_run case_id run_id entry system o.now s.store;
  }

  abbrev pub as_review : ViolationStatus → Notice → Pass Condition → Settled Condition
  as_review status notice s = record {
    after = tell notice (record s {
      summary = record s.summary { queued_for_review = suc s.summary.queued_for_review };
    });
    status = status;
    workflow_run_id = none;
  }

  abbrev pub as_safety_blocked : ViolationStatus → Notice → Pass Condition → Settled Condition
  as_safety_blocked status notice s = as_review status notice (record s {
    summary = record s.summary { auto_run_safety_blocked = suc s.summary.auto_run_safety_blocked };
  })

  -- The risk tier that the texts name, of an escalated device.
  abbrev pub escalation_note : Plan Condition → Device → Option String
  escalation_note plan device =
      if is_escalated plan device then some (or_else device.risk_tier "low") else none

  -- The run of another policy of this pass is reused.
  abbrev pub reuse :
      Outside Condition
      → Plan Condition
      → Device
      → Workflow
      → Option ℕ
      → String
      → Pass Condition
      → Settled Condition
  reuse o plan device w case_id run_id s = record {
    after =
        link_case o case_id run_id (run_shared w.name (escalation_note plan device))
          (tell (run_reused device.display_name plan.policy.name w.name) s);
    status = auto_fired;
    workflow_run_id = some run_id;
  }

  abbrev pub launched :
      Outside Condition
      → Plan Condition
      → Device
      → Workflow
      → Option ℕ
      → Option String
      → Pass Condition
      → Settled Condition
  launched o plan device w case_id none s = record {
    after = tell (run_unavailable device.display_name plan.policy.name w.name) s;
    status = workflow_unavailable;
    workflow_run_id = none;
  }
  launched o plan device w case_id (some run_id) s = record {
    after = link_case o case_id run_id (run_started w.name (escalation_note plan device)) (
        tell (run_fired device.display_name plan.policy.name w.name) (record s {
          fired_workflow_this_pass =
              insert (pair_key w.id device.id) run_id s.fired_workflow_this_pass;
          launches =
              s.launches
              ++ record { policy = plan.policy; workflow = w; device = device; run_id = run_id }
                ∷ [];
          summary = record s.summary { auto_fired = suc s.summary.auto_fired };
        }));
    status = auto_fired;
    workflow_run_id = some run_id;
  }

  -- By the run that the pass has already started for the workflow and the device.
  abbrev pub fire_once :
      Outside Condition
      → Plan Condition
      → Device
      → Workflow
      → Option ℕ
      → Option String
      → Pass Condition
      → Settled Condition
  fire_once o plan device w case_id already s =
      if is_set already
      then reuse o plan device w case_id (or_else already "") s
      else launched o plan device w case_id (o.launch s.attempts w device)
          (record s { attempts = suc s.attempts })

  abbrev pub count_fired : Pass Condition → Pass Condition
  count_fired s = record s { policy_autofired_count = suc s.policy_autofired_count }

  -- The chain of branches, by the choice between them.
  unfoldable pub settle :
      Outside Condition
      → Plan Condition
      → Device
      → Option ℕ
      → Decision
      → Pass Condition
      → Settled Condition
  settle o plan device case_id (blocked reason) s =
      as_safety_blocked autorun_blocked (run_blocked device.display_name plan.policy.name reason) s
  settle o plan device case_id capped s =
      as_safety_blocked autorun_capped
        (run_capped device.display_name plan.policy.name plan.policy.auto_run_batch_cap) s
  settle o plan device case_id (fire w) s =
      fire_once o plan device w case_id
        (lookup (pair_key w.id device.id) s.fired_workflow_this_pass) (count_fired s)
  settle o plan device case_id unlinked s = record {
    after = tell (nothing_linked device.display_name plan.policy.name) s;
    status = no_workflow;
    workflow_run_id = none;
  }
  settle o plan device case_id review s =
      as_review pending (queued device.display_name plan.policy.name) s
