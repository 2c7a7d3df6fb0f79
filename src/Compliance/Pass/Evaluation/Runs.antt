-- ===== src/Compliance/Pass/Evaluation/Runs.antt =====
-- The runs that `runComplianceEvaluation` (modules/compliance/compliance.service.ts) starts.
use applivery_soar.Compliance.Pass.Table.{Device, Policy, Violation, Workflow}
use applivery_soar.Compliance.Pass.Plan.{Outside, Pass}
use applivery_soar.Compliance.Pass.Visit.Launching.{Ran, Step, idle, tried, started}
use applivery_soar.Compliance.Pass.Run.{run_policy, run_policies, plan_of, scoped_devices}
use applivery_soar.Compliance.Pass.Run.Launches.{run_policy-Keeps}
use applivery_soar.Compliance.Pass.Run.Allowed.{IsAllowed, All-append, run_policies-AreAllowed}
use applivery_soar.Compliance.Pass.Run.Once.{HasRunIds, IsOnce, run_policies-IsRecorded}
use applivery_soar.Compliance.Pass.Evaluation.{
  Tables, Request, narrowed, selected, start_pass, evaluate, allows,
}
use applivery_soar.Common.{
  ◌≡◌, inl, inr, Bool, true, List, [], ◌∷◌, Bool-cases, length, keep, All, All-keep,
}

All-keep_of {ℓ κ} :
    {A : Type ℓ} (P : A → Type κ) (p : A → Bool) (xs : List A) → All P xs → All P (keep p xs)
All-keep_of P p [] h = tt
All-keep_of P p (x ∷ xs) h = elim (Bool-cases (p x)) [
  | inl e ↦ rw e (h.0, All-keep_of P p xs h.1)
  | inr e ↦ rw e (All-keep_of P p xs h.1)
]

module _ {ℓ} {Condition : Type ℓ} where
  Step-devices :
      (Q : Device → Type 0) (o : Outside Condition) (ws : List Workflow)
      (vs : List (Violation Condition)) (p : Policy Condition) (d : Device) (r r' : Ran Condition)
      → Q d
      → Step o (plan_of o ws vs p) d r r'
      → All (λ l. Q l.device) r.launches
      → All (λ l. Q l.device) r'.launches
  Step-devices Q o ws vs p d r r' q idle h = h
  Step-devices Q o ws vs p d r r' q (tried w k) h = h
  Step-devices Q o ws vs p d r r' q (started w run n k free e v) h =
      All-append (λ l. Q l.device) r.launches _ h q

  scoped-All :
      (Q : Device → Type 0) (p : Policy Condition) (ds : List Device)
      → All Q ds
      → All Q (scoped_devices p ds)
  unfolding scoped_devices
  scoped-All Q p ds h = All-keep_of Q _ _ (All-keep_of Q _ ds h)

  run_policies-devices :
      (Q : Device → Type 0) (o : Outside Condition) (ws : List Workflow)
      (vs : List (Violation Condition)) (devices : List Device) (ps : List (Policy Condition))
      (s : Pass Condition)
      → All Q devices
      → All (λ l. Q l.device) s.launches
      → All (λ l. Q l.device) (run_policies o ws vs devices ps s).launches
  run_policies-devices Q o ws vs devices [] s q h = h
  run_policies-devices Q o ws vs devices (p ∷ ps) s q h =
      run_policies-devices Q o ws vs devices ps (run_policy o ws vs devices p s) q (
        run_policy-Keeps (λ r. All (λ l. Q l.device) r.launches) Q o ws vs devices p s
          (Step-devices Q o ws vs p) (scoped-All Q p devices q) h)

  -- Every run that an evaluation starts is for a device that it was asked for, and belongs to a policy
  -- that runs automatically and has not been tripped, whose last runs do not trip it now, that has been
  -- acknowledged if the workflow has a destructive step, and that covers the device and is violated
  -- by it.
  pub evaluate-IsAllowed :
      (o : Outside Condition) (ws : List Workflow) (devices : List Device) (request : Request)
      (t : Tables Condition)
      → All
          (λ l. IsAllowed o t.violations l.policy l.workflow l.device)
          (evaluate o ws devices request t).launches
        × All
            (λ l. allows request.only_device_serial l.device.serial_number ≡ true)
            (evaluate o ws devices request t).launches
  unfolding evaluate
  evaluate-IsAllowed o ws devices request t =
      let wanted = λ (d : Device). allows request.only_device_serial d.serial_number in
      let s = start_pass (length (selected request t.policies)) t.state t.store in
      (
        run_policies-AreAllowed o ws t.violations (narrowed request devices)
            (selected request t.policies) s tt,
        run_policies-devices (λ d. allows request.only_device_serial d.serial_number ≡ true) o ws
            t.violations (narrowed request devices) (selected request t.policies) s
            (All-keep (λ d. allows request.only_device_serial d.serial_number) devices) tt,
      )

  -- Where run ids are not empty, an evaluation starts no workflow twice for the same device, however
  -- many policies share the workflow.
  pub evaluate-IsOnce :
      (o : Outside Condition) (ws : List Workflow) (devices : List Device) (request : Request)
      (t : Tables Condition)
      → HasRunIds o
      → IsOnce (evaluate o ws devices request t).launches
  unfolding evaluate
  evaluate-IsOnce o ws devices request t ids =
      (run_policies-IsRecorded o ws t.violations (narrowed request devices)
        (selected request t.policies)
        (start_pass (length (selected request t.policies)) t.state t.store) ids
        (tt, λ key is. cc)).0
