-- ===== src/Compliance/Pass/Plan.antt =====
-- The variables of a pass of the compliance evaluation, and the choice of what to do about a new
-- violation (modules/compliance/compliance.service.ts). What a condition says of a device, the
-- identifiers that are drawn, and the launch of a run come from outside.
use applivery_soar.Compliance.Pass.Breaker.{resolve_auto_run_batch_cap}
use applivery_soar.Compliance.Pass.Table.{
  MarkerAction, Run, Violation, Device, Policy, State, risk_tier_rank, Workflow,
}
use applivery_soar.Cases.Table.{Event, Store}
use applivery_soar.Common.{
  if◌then◌else◌, ℕ, ◌≡◌, refl, String, Bool, true, false, ◌&&◌, Option, none, some, List, leb,
  or_else, is_some, or_string, lookup,
}

-- The audit events, with a constructor for each template of the source.
pub data Notice : Type 0 where
  violation_recovered : String → String → Notice
  run_blocked : String → String → String → Notice
  run_capped : String → String → Option ℕ → Notice
  run_reused : String → String → String → Notice
  run_unavailable : String → String → String → Notice
  run_fired : String → String → String → Notice
  nothing_linked : String → String → Notice
  queued : String → String → Notice
  autorun_tripped : String → String → Notice
  policy_evaluated : String → ℕ → ℕ → ℕ → Notice

pub record EvaluationSummary : Type 0 where
  pub evaluated_policies : ℕ
  pub devices_checked : ℕ
  pub violations_found : ℕ
  pub auto_fired : ℕ
  pub queued_for_review : ℕ
  pub recovered : ℕ
  pub auto_run_safety_blocked : ℕ

-- A run that the pass started, with the policy that it was started for.
pub record Launch {ℓ} (Condition : Type ℓ) : Type ℓ where
  pub policy : Policy Condition
  pub workflow : Workflow
  pub device : Device
  pub run_id : String

-- The variables of the pass. `attempts` and `drawn` count the calls of the launcher and the
-- identifiers drawn.
pub record Pass {ℓ} (Condition : Type ℓ) : Type ℓ where
  pub state : State
  pub store : Store
  pub summary : EvaluationSummary
  pub new_violation_rows : List (Violation Condition)
  pub marker_actions : List MarkerAction
  pub audit_events : List Notice
  pub case_notify_events : List (ℕ × Event)
  pub policy_alert_events : List (Policy Condition × (ℕ × ℕ))
  pub tripped : List (String × String)
  pub fired_workflow_this_pass : List (String × String)
  pub launches : List (Launch Condition)
  pub attempts : ℕ
  pub drawn : ℕ
  pub policy_autofired_count : ℕ
  pub policy_new_violations : ℕ
  pub policy_recovered : ℕ

pub record Outside {ℓ} (Condition : Type ℓ) : Type ℓ where
  pub slug : String
  pub now : ℕ
  pub matches : Device → Condition → Bool  -- `evaluateCondition`
  pub uuid : ℕ → String
  pub launch : ℕ → Workflow → Device → Option String  -- by the number of calls before
  pub lookup_run : String → Option Run
  pub destructive : String → Bool  -- of the catalog of actions

-- What is resolved once for each policy.
pub record Plan {ℓ} (Condition : Type ℓ) : Type ℓ where
  pub policy : Policy Condition
  pub workflow : Option Workflow
  pub escalated_workflow : Option Workflow
  pub block_reason : Option String

-- What to do about a new violation.
pub data Decision : Type 0 where
  blocked : String → Decision
  capped : Decision
  fire : Workflow → Decision
  unlinked : Decision
  review : Decision

abbrev pub rank_of : String → ℕ → ℕ
rank_of tier d = or_else (lookup tier risk_tier_rank) d

-- `autorunBatchCap !== null && policyAutofiredCount >= autorunBatchCap`
abbrev pub cap_reached : Option ℕ → ℕ → Bool
cap_reached none count = false
cap_reached (some limit) count = leb limit count

-- The chain of branches: by the workflow of the policy, `autoRun`, the reason that blocks it, whether
-- the cap is reached, and the effective workflow.
abbrev pub choose : Option Workflow → Bool → Option String → Bool → Option Workflow → Decision
choose none automatic reason full effective = unlinked
choose (some w) false reason full effective = review
choose (some w) true (some reason) full effective = blocked reason
choose (some w) true none true effective = capped
choose (some w) true none false none = review
choose (some w) true none false (some e) = fire e

choose-fire :
    (linked : Option Workflow) (automatic : Bool) (reason : Option String) (full : Bool)
    (effective : Option Workflow) (w : Workflow)
    → choose linked automatic reason full effective ≡ fire w
    → (is_some linked ≡ true)
      × (automatic ≡ true)
      × (reason ≡ none)
      × (full ≡ false)
      × (effective ≡ some w)
choose-fire none automatic reason full effective w h = cc
choose-fire (some x) false reason full effective w h = cc
choose-fire (some x) true (some reason) full effective w h = cc
choose-fire (some x) true none true effective w h = cc
choose-fire (some x) true none false none w h = cc
choose-fire (some x) true none false (some e) w h = (refl, refl, refl, refl, cc)

module _ {ℓ} {Condition : Type ℓ} where
  -- `escalated`, of a device that violates the policy
  abbrev pub is_escalated : Plan Condition → Device → Bool
  is_escalated plan device =
      is_some plan.escalated_workflow
      && leb (rank_of (or_string plan.policy.escalated_workflow_min_risk_tier "high") 2)
          (rank_of (or_else device.risk_tier "low") 0)

  -- `effectiveWorkflow`
  abbrev pub effective_workflow : Plan Condition → Device → Option Workflow
  effective_workflow plan device =
      if is_escalated plan device then plan.escalated_workflow else plan.workflow

  -- The choice for one violation, when so many of the policy have had a run.
  unfoldable pub decide : Plan Condition → Device → ℕ → Decision
  unfolding resolve_auto_run_batch_cap
  decide plan device count =
      choose plan.workflow plan.policy.auto_run plan.block_reason
        (cap_reached (resolve_auto_run_batch_cap plan.policy.auto_run_batch_cap) count)
        (effective_workflow plan device)

  -- What is known where a run is due.
  pub record IsFired (plan : Plan Condition) (device : Device) (count : ℕ) (w : Workflow)
      : Type 0 where
    pub linked : is_some plan.workflow ≡ true
    pub auto_run : plan.policy.auto_run ≡ true
    pub unblocked : plan.block_reason ≡ none
    pub below :
        cap_reached (resolve_auto_run_batch_cap plan.policy.auto_run_batch_cap) count ≡ false
    pub effective : effective_workflow plan device ≡ some w

  pub decide-IsFired :
      (plan : Plan Condition) (device : Device) (count : ℕ) (w : Workflow)
      → decide plan device count ≡ fire w
      → IsFired plan device count w
  unfolding decide
  decide-IsFired plan device count w h =
      let k =
        choose-fire plan.workflow plan.policy.auto_run plan.block_reason
          (cap_reached (resolve_auto_run_batch_cap plan.policy.auto_run_batch_cap) count)
          (effective_workflow plan device) w h in
      record { linked = k.0; auto_run = k.1; unblocked = k.2; below = k.3; effective = k.4 }
