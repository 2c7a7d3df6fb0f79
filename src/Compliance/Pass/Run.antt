-- ===== src/Compliance/Pass/Run.antt =====
-- One pass over the policies: the loops of `runComplianceEvaluation`, and what is resolved once for
-- each policy (modules/compliance/compliance.service.ts).
pub mod Flags
pub mod Launches
pub mod Cap
pub mod Once
pub mod Allowed
pub mod Quiet
use applivery_soar.Compliance.Pass.Table.{
  Workflow, Device, Policy, Violation, State, workflow_has_destructive_step,
}
use applivery_soar.Compliance.Pass.Plan.{
  Outside, Plan, Pass, EvaluationSummary, autorun_tripped, policy_evaluated,
}
use applivery_soar.Compliance.Pass.Breaker.{autorun_circuit_breaker_check}
use applivery_soar.Compliance.Pass.Settle.{tell}
use applivery_soar.Compliance.Pass.Visit.{visit}
use applivery_soar.Cases.Table.{Store}
use applivery_soar.Common.{
  if◌then◌else◌, ℕ, min, max, zero, suc, ◌+◌, ◌-◌, ◌*◌, ◌≤◌, ◌<◌, ◌≡◌, ◌≢◌, ◌↔◌, ◌⊎◌, inl, inr,
  refl, sym, ap, subst, ◌∙◌, String, Bool, true, false, not, ◌&&◌, ◌||◌, Option, none, some, List,
  [], ◌∷◌, ◌++◌, map, arith, ltb, leb, ◌==◌, ==_self, ==-eq, Bool-cases, Option-cases, or_else,
  is_some, or_string, join, str_eq, str_eq-true, str_eq_self, str_eq-false, truthy, includes,
  opt_eq, is_set, length, take, drop, any, all, keep, find, count_if, All, find-All, find-holds,
  All-keep, keep-all, all-keep, length-append, length-keep-le, lookup, insert, delete_keys,
  lookup-insert, lookup-delete_keys,
}

-- `workflowsById.get(id) ?? null`, if there is an id
abbrev pub workflow_by_id : List Workflow → Option String → Option Workflow
workflow_by_id workflows none = none
workflow_by_id workflows (some id) =
    if truthy id then find (λ w. str_eq w.id id) workflows else none

abbrev pub name_of : Option Workflow → String
name_of none = "undefined"
name_of (some w) = w.name

abbrev pub in_audience : Option String → Device → Bool
in_audience none d = true
in_audience (some audience) d =
    if truthy audience then any (λ a. str_eq a audience) d.device_audiences else true

abbrev pub on_platform : Option String → Device → Bool
on_platform none d = true
on_platform (some platform) d = not (truthy platform) || str_eq d.platform platform

module _ {ℓ} {Condition : Type ℓ} where
  -- `scopedDevices`
  unfoldable pub scoped_devices : Policy Condition → List Device → List Device
  scoped_devices p devices =
      keep (on_platform p.target_platform) (keep (in_audience p.target_device_audience_id) devices)

  abbrev pub escalated_of : List Workflow → Policy Condition → Option Workflow → Option Workflow
  escalated_of workflows p none = none
  escalated_of workflows p (some w) = workflow_by_id workflows p.escalated_workflow_id

  -- One of the two workflows has a destructive step, and nobody has acknowledged that.
  abbrev pub lacks_ack :
      Outside Condition → Policy Condition → Option Workflow → Option Workflow → Bool
  lacks_ack o p workflow escalated =
      (workflow_has_destructive_step o.destructive workflow
        || workflow_has_destructive_step o.destructive escalated)
      && not p.auto_run_destructive_ack

  abbrev pub ack_reason : Outside Condition → Option Workflow → Option Workflow → String
  ack_reason o workflow escalated = join "Linked workflow \"" (
      join
        (name_of
          (if workflow_has_destructive_step o.destructive workflow then workflow else escalated))
        "\" now contains a destructive action — re-save this policy to acknowledge it before autoRun can fire again")

  abbrev pub tripped_reason : Policy Condition → String
  tripped_reason p =
      or_string p.auto_run_tripped_reason
        "autoRun previously tripped — re-save the policy to re-arm it"

  -- Whether the pass asks the circuit breaker at all.
  abbrev pub asks_breaker :
      Outside Condition → Policy Condition → Option Workflow → Option Workflow → Bool
  asks_breaker o p workflow escalated =
      p.auto_run
      && is_some workflow
      && not p.auto_run_tripped
      && not (lacks_ack o p workflow escalated)

  -- `freshTripReason`
  abbrev pub fresh_trip :
      Outside Condition
      → Policy Condition
      → Option Workflow
      → Option Workflow
      → List (Violation Condition)
      → Option String
  fresh_trip o p workflow escalated violations =
      if asks_breaker o p workflow escalated
      then autorun_circuit_breaker_check o.lookup_run p.id violations
      else none

  -- `autorunBlockReason`
  abbrev pub block_reason_of :
      Outside Condition
      → Policy Condition
      → Option Workflow
      → Option Workflow
      → List (Violation Condition)
      → Option String
  block_reason_of o p workflow escalated violations =
      if p.auto_run && is_some workflow
      then (if p.auto_run_tripped
          then some (tripped_reason p)
          else if lacks_ack o p workflow escalated
          then some (ack_reason o workflow escalated)
          else fresh_trip o p workflow escalated violations)
      else none

  -- What is resolved once for the policy.
  unfoldable pub plan_of :
      Outside Condition
      → List Workflow
      → List (Violation Condition)
      → Policy Condition
      → Plan Condition
  unfolding workflow_has_destructive_step autorun_circuit_breaker_check
  plan_of o workflows violations p =
      let w = workflow_by_id workflows p.workflow_id in
      let e = escalated_of workflows p w in
      record {
        policy = p;
        workflow = w;
        escalated_workflow = e;
        block_reason = block_reason_of o p w e violations;
      }

  abbrev pub trip : Policy Condition → Option String → Pass Condition → Pass Condition
  trip p none s = s
  trip p (some reason) s =
      tell (autorun_tripped p.name reason) (record s { tripped = s.tripped ++ (p.id, reason) ∷ [] })

  -- The counters of the policy start at zero.
  abbrev pub begin_policy : ℕ → Pass Condition → Pass Condition
  begin_policy count s = record s {
    summary = record s.summary { devices_checked = s.summary.devices_checked + count };
    policy_autofired_count = 0;
    policy_new_violations = 0;
    policy_recovered = 0;
  }

  abbrev pub alert_if_new : Policy Condition → ℕ → Pass Condition → Pass Condition
  alert_if_new p count s =
      if ltb 0 s.policy_new_violations
      then record s {
        policy_alert_events = s.policy_alert_events ++ (p, (s.policy_new_violations, count)) ∷ [];
      }
      else s

  abbrev pub end_policy : Policy Condition → ℕ → Pass Condition → Pass Condition
  end_policy p count s =
      alert_if_new p count
        (tell (policy_evaluated p.name s.policy_new_violations s.policy_recovered count) s)

  abbrev pub visits :
      Outside Condition → Plan Condition → List Device → Pass Condition → Pass Condition
  visits o plan [] s = s
  visits o plan (d ∷ ds) s = visits o plan ds (visit o plan d s)

  abbrev pub fresh_trip_of :
      Outside Condition → Plan Condition → List (Violation Condition) → Option String
  fresh_trip_of o plan violations =
      fresh_trip o plan.policy plan.workflow plan.escalated_workflow violations

  -- One round of the outer loop
  unfoldable pub run_policy :
      Outside Condition
      → List Workflow
      → List (Violation Condition)
      → List Device
      → Policy Condition
      → Pass Condition
      → Pass Condition
  unfolding workflow_has_destructive_step autorun_circuit_breaker_check
  run_policy o workflows violations devices p s =
      let plan = plan_of o workflows violations p in
      let scoped = scoped_devices p devices in
      end_policy p (length scoped) (
        visits o plan scoped
          (trip p (fresh_trip_of o plan violations) (begin_policy (length scoped) s)))

  abbrev pub run_policies :
      Outside Condition
      → List Workflow
      → List (Violation Condition)
      → List Device
      → List (Policy Condition)
      → Pass Condition
      → Pass Condition
  run_policies o workflows violations devices [] s = s
  run_policies o workflows violations devices (p ∷ ps) s =
      run_policies o workflows violations devices ps (run_policy o workflows violations devices p s)
