-- ===== src/Compliance/Pass/Evaluation.antt =====
-- The whole of `runComplianceEvaluation` (modules/compliance/compliance.service.ts): the policies and
-- devices of a pass, the loops, and what is written when they have ended. The devices and the
-- workflows have been fetched before; the writes of markers on the devices are in Compliance/Markers.
pub mod Flags
pub mod Runs
use applivery_soar.Compliance.Alert.{Senders, Messages, fire_policy_violation_alert}
use applivery_soar.Compliance.Pass.Table.{Device, Policy, Violation, Workflow, State}
use applivery_soar.Compliance.Pass.Plan.{Outside, Pass, EvaluationSummary}
use applivery_soar.Compliance.Pass.Run.{run_policies}
use applivery_soar.Cases.Table.{Store, Event, Dispatch, dispatch_and_attach_case_event}
use applivery_soar.Common.{
  if◌then◌else◌, ℕ, String, Bool, true, ◌&&◌, Option, none, some, List, [], ◌∷◌, ◌++◌, ◌==◌,
  is_some, str_eq, includes, length, keep,
}

-- The tables, with the latest violations first.
pub record Tables {ℓ} (Condition : Type ℓ) : Type ℓ where
  pub policies : List (Policy Condition)
  pub violations : List (Violation Condition)
  pub state : State
  pub store : Store
  pub messages : List Messages  -- of the alerts

-- Which policies and devices a pass is for; `none` is all of them.
pub record Request : Type 0 where
  pub policy_ids : Option (List String)
  pub only_device_serial : Option (List String)

abbrev pub allows : Option (List String) → String → Bool
allows none id = true
allows (some ids) id = includes ids id

abbrev pub empty_summary : ℕ → EvaluationSummary
empty_summary count = record {
  evaluated_policies = count;
  devices_checked = 0;
  violations_found = 0;
  auto_fired = 0;
  queued_for_review = 0;
  recovered = 0;
  auto_run_safety_blocked = 0;
}

-- `devices`
abbrev pub narrowed : Request → List Device → List Device
narrowed request devices = keep (λ d. allows request.only_device_serial d.serial_number) devices

-- The deferred dispatch of the events of cases.
abbrev pub dispatch_all : Dispatch → ℕ → List (ℕ × Event) → Store → Store
dispatch_all dispatch now [] s = s
dispatch_all dispatch now ((case_id, event) ∷ es) s =
    dispatch_all dispatch now es (dispatch_and_attach_case_event dispatch now case_id event s)

module _ {ℓ} {Condition : Type ℓ} where
  -- `policies`
  abbrev pub selected : Request → List (Policy Condition) → List (Policy Condition)
  selected request ps = keep (λ p. p.enabled && allows request.policy_ids p.id) ps

  abbrev pub start_pass : ℕ → State → Store → Pass Condition
  start_pass count state store = record {
    state = state;
    store = store;
    summary = empty_summary count;
    new_violation_rows = [];
    marker_actions = [];
    audit_events = [];
    case_notify_events = [];
    policy_alert_events = [];
    tripped = [];
    fired_workflow_this_pass = [];
    launches = [];
    attempts = 0;
    drawn = 0;
    policy_autofired_count = 0;
    policy_new_violations = 0;
    policy_recovered = 0;
  }

  -- The two loops.
  unfoldable pub evaluate :
      Outside Condition → List Workflow → List Device → Request → Tables Condition → Pass Condition
  evaluate o workflows devices request t =
      run_policies o workflows t.violations (narrowed request devices) (selected request t.policies)
        (start_pass (length (selected request t.policies)) t.state t.store)

  -- `prisma.compliancePolicy.update`, by id
  abbrev pub update_policy :
      String
      → (Policy Condition → Policy Condition)
      → List (Policy Condition)
      → List (Policy Condition)
  update_policy id f [] = []
  update_policy id f (p ∷ ps) = if str_eq p.id id then f p ∷ ps else p ∷ update_policy id f ps

  abbrev pub trip_policy : String → Policy Condition → Policy Condition
  trip_policy reason p = record p { auto_run_tripped = true; auto_run_tripped_reason = some reason }

  abbrev pub trip_all : List (String × String) → List (Policy Condition) → List (Policy Condition)
  trip_all [] ps = ps
  trip_all ((id, reason) ∷ ts) ps = trip_all ts (update_policy id (trip_policy reason) ps)

  -- The alerts of the pass, one for each policy with new violations.
  abbrev pub alert_all :
      Senders
      → List (Policy Condition × (ℕ × ℕ))
      → List (Policy Condition)
      → List (Policy Condition) × List Messages
  alert_all o [] ps = (ps, [])
  alert_all o ((p, (new, count)) ∷ es) ps =
      let fired = fire_policy_violation_alert o p.alert_settings new in
      let rest =
        alert_all o es (update_policy p.id (λ q. record q { alert_settings = fired.0 }) ps) in
      (rest.0, fired.1 ∷ rest.1)

  abbrev pub stamp : Request → ℕ → List (Policy Condition) → List (Policy Condition)
  stamp request now [] = []
  stamp request now (p ∷ ps) =
      (if p.enabled && allows request.policy_ids p.id
        then record p { last_evaluated_at = some now }
        else p)
      ∷ stamp request now ps

  -- Only a pass over all the devices counts as an evaluation.
  abbrev pub stamp_if_full : Request → ℕ → List (Policy Condition) → List (Policy Condition)
  stamp_if_full request now ps =
      if is_some request.only_device_serial then ps else stamp request now ps

  abbrev pub finish :
      Outside Condition
      → Senders
      → Dispatch
      → Request
      → Tables Condition
      → Pass Condition
      → Tables Condition
  finish o senders dispatch request t s =
      let alerted = alert_all senders s.policy_alert_events (trip_all s.tripped t.policies) in
      record {
        policies = stamp_if_full request o.now alerted.0;
        violations = s.new_violation_rows ++ t.violations;
        state = s.state;
        store = dispatch_all dispatch o.now s.case_notify_events s.store;
        messages = t.messages ++ alerted.1;
      }

  -- `runComplianceEvaluation`
  unfoldable pub run_compliance_evaluation :
      Outside Condition
      → Senders
      → Dispatch
      → List Workflow
      → List Device
      → Request
      → Tables Condition
      → Tables Condition × EvaluationSummary
  unfolding fire_policy_violation_alert dispatch_and_attach_case_event evaluate
  run_compliance_evaluation o senders dispatch workflows devices request t =
      if length (selected request t.policies) == 0 then (t, empty_summary 0) else (
        finish o senders dispatch request t (evaluate o workflows devices request t),
        (evaluate o workflows devices request t).summary,
      )
