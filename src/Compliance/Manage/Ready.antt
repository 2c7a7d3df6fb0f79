-- ===== src/Compliance/Manage/Ready.antt =====
-- What a saved policy is like (modules/compliance/compliance.service.ts, `updateCompliancePolicy`).
use applivery_soar.Compliance.Pass.Table.{Workflow, Policy, workflow_has_destructive_step}
use applivery_soar.Compliance.Pass.Plan.{Outside}
use applivery_soar.Compliance.Pass.Run.{workflow_by_id, escalated_of, lacks_ack}
use applivery_soar.Compliance.Pass.Evaluation.{Tables}
use applivery_soar.Compliance.Payload.{CompliancePolicyPayload, Saver, has_id}
use applivery_soar.Compliance.Manage.{Saved, saved, rejected, Updated, policy_at}
use applivery_soar.Common.{◌≤◌, ◌≡◌, String, Bool, false, not, ◌&&◌, ◌||◌, some}

abbrev updated_of {ℓ} :
    {Condition : Type ℓ}
    → Policy Condition
    → Saved (Tables Condition × Updated Condition)
    → Policy Condition
updated_of d (rejected e) = d
updated_of d (saved (t, u)) = u.updated

module _ {ℓ} {Condition : Type ℓ} where
  abbrev lacks : Saver Condition → CompliancePolicyPayload Condition → Workflow → Bool
  lacks o p w =
      (has_id p.workflow_id w || has_id p.escalated_workflow_id w)
      && workflow_has_destructive_step o.destructive (some w)
      && not p.auto_run_destructive_ack

  -- What is true of a policy that has just been saved.
  pub record IsReady (o : Saver Condition) (x : Outside Condition) (p : Policy Condition)
      : Type 0 where
    pub not_tripped : p.auto_run_tripped ≡ false
    pub acknowledged :
        (p.auto_run
          && lacks_ack x p
              (workflow_by_id o.workflows p.workflow_id)
              (escalated_of o.workflows p (workflow_by_id o.workflows p.workflow_id)))
        ≡ false
    pub interval : (5 ≤ p.evaluation_interval_minutes) × (p.evaluation_interval_minutes ≤ 1440)

  -- The answer of an update is the policy that is found afterwards under the id.
  abbrev IsStored : String → Saved (Tables Condition × Updated Condition) → Type ℓ
  IsStored id (rejected e) = Unit
  IsStored id (saved (t, u)) = policy_at id t ≡ some u.updated
