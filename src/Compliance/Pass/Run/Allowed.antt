-- ===== src/Compliance/Pass/Run/Allowed.antt =====
-- The conditions under which a pass starts a run on its own (modules/compliance/compliance.service.ts).
use applivery_soar.Compliance.Pass.Table.{
  Device, Policy, Violation, Workflow, workflow_has_destructive_step,
}
use applivery_soar.Compliance.Pass.Breaker.{autorun_circuit_breaker_check}
use applivery_soar.Compliance.Pass.Plan.{Outside, Pass, decide, fire, decide-IsFired, is_escalated}
use applivery_soar.Compliance.Pass.Visit.Flag.{violates}
use applivery_soar.Compliance.Pass.Visit.Launching.{Ran, ran, Step, idle, tried, started}
use applivery_soar.Compliance.Pass.Run.{
  run_policy, run_policies, plan_of, scoped_devices, in_audience, on_platform, block_reason_of,
  lacks_ack,
}
use applivery_soar.Compliance.Pass.Run.Launches.{run_policy-Keeps}
use applivery_soar.Common.{
  if◌then◌else◌, ℕ, ◌≡◌, inl, inr, refl, subst, String, Bool, true, false, not, ◌&&◌, Option, none,
  some, List, [], ◌∷◌, ◌++◌, arith, Bool-cases, is_some, keep, All,
}

pub record IsAllowed {ℓ} {Condition : Type ℓ} (o : Outside Condition)
    (vs : List (Violation Condition)) (p : Policy Condition) (w : Workflow) (d : Device)
    : Type 0 where
  pub automatic : p.auto_run ≡ true
  pub not_tripped : p.auto_run_tripped ≡ false
  pub acknowledged :
      (workflow_has_destructive_step o.destructive (some w) && not p.auto_run_destructive_ack)
      ≡ false
  pub breaker_closed : autorun_circuit_breaker_check o.lookup_run p.id vs ≡ none
  pub violated : violates o p d ≡ true
  pub in_scope :
      (in_audience p.target_device_audience_id d && on_platform p.target_platform d) ≡ true

no_reason :
    (automatic linked tripped lacking : Bool) (r1 r2 : String) (fresh : Option String)
    → automatic ≡ true
    → linked ≡ true
    → (if automatic && linked
        then (if tripped
            then some r1
            else if lacking
            then some r2
            else if automatic && linked && not tripped && not lacking
            then fresh
            else none)
        else none)
      ≡ none
    → (tripped ≡ false) × (lacking ≡ false) × (fresh ≡ none)
no_reason true true true lacking r1 r2 fresh a l e = cc
no_reason true true false true r1 r2 fresh a l e = cc
no_reason true true false false r1 r2 fresh a l e = (refl, refl, e)
no_reason true false tripped lacking r1 r2 fresh a l e = cc
no_reason false linked tripped lacking r1 r2 fresh a l e = cc

pub All-append {ℓ κ} :
    {A : Type ℓ} (P : A → Type κ) (xs : List A) (x : A) → All P xs → P x → All P (xs ++ x ∷ [])
All-append P [] x h k = (k, tt)
All-append P (y ∷ xs) x h k = (h.0, All-append P xs x h.1 k)

All-keep_both {ℓ} :
    {A : Type ℓ} (p q : A → Bool) (xs : List A)
    → All (λ x. (p x && q x) ≡ true) (keep q (keep p xs))
All-keep_both p q [] = tt
All-keep_both p q (x ∷ xs) = elim (Bool-cases (p x)) [
  | inr e ↦ rw e (All-keep_both p q xs)
  | inl e ↦ elim (Bool-cases (q x)) [
    | inr k ↦ rw (e, k) (All-keep_both p q xs)
    | inl k ↦ rw (e, k) (rw (e, k) refl, All-keep_both p q xs)
  ]
]

module _ {ℓ} {Condition : Type ℓ} where
  unblocked :
      (o : Outside Condition) (vs : List (Violation Condition)) (p : Policy Condition)
      (linked escalated : Option Workflow)
      → p.auto_run ≡ true
      → is_some linked ≡ true
      → block_reason_of o p linked escalated vs ≡ none
      → (p.auto_run_tripped ≡ false)
        × (lacks_ack o p linked escalated ≡ false)
        × (autorun_circuit_breaker_check o.lookup_run p.id vs ≡ none)
  unblocked o vs p linked escalated a l e =
      no_reason p.auto_run (is_some linked) p.auto_run_tripped (lacks_ack o p linked escalated) _ _
        _ a l e

  -- Of a workflow that is one of the two.
  acknowledged_by :
      (o : Outside Condition) (p : Policy Condition) (linked escalated : Option Workflow)
      (w : Workflow) (b : Bool)
      → lacks_ack o p linked escalated ≡ false
      → (if b then escalated else linked) ≡ some w
      → (workflow_has_destructive_step o.destructive (some w) && not p.auto_run_destructive_ack)
        ≡ false
  acknowledged_by o p linked escalated w true h e =
      subst
        (λ x.
          (workflow_has_destructive_step o.destructive x && not p.auto_run_destructive_ack) ≡ false)
        e (ground (arith, h))
  acknowledged_by o p linked escalated w false h e =
      subst
        (λ x.
          (workflow_has_destructive_step o.destructive x && not p.auto_run_destructive_ack) ≡ false)
        e (ground (arith, h))

  -- The runs that have been started so far.
  abbrev pub AreAllowed : Outside Condition → List (Violation Condition) → Ran Condition → Type 0
  AreAllowed o vs r = All (λ l. IsAllowed o vs l.policy l.workflow l.device) r.launches

  abbrev pub is_scoped : Policy Condition → Device → Bool
  is_scoped p d = in_audience p.target_device_audience_id d && on_platform p.target_platform d

  fired-IsAllowed :
      (o : Outside Condition) (ws : List Workflow) (vs : List (Violation Condition))
      (p : Policy Condition) (d : Device) (count : ℕ) (w : Workflow)
      → is_scoped p d ≡ true
      → decide (plan_of o ws vs p) d count ≡ fire w
      → violates o p d ≡ true
      → IsAllowed o vs p w d
  unfolding plan_of
  fired-IsAllowed o ws vs p d count w scoped h v =
      let plan = plan_of o ws vs p in
      let f = decide-IsFired plan d count w h in
      let u =
        unblocked o vs p plan.workflow plan.escalated_workflow f.auto_run f.linked f.unblocked in
      record {
        automatic = f.auto_run;
        not_tripped = u.0;
        acknowledged =
            acknowledged_by o p plan.workflow plan.escalated_workflow w (is_escalated plan d) u.1
              f.effective;
        breaker_closed = u.2;
        violated = v;
        in_scope = scoped;
      }

  Step-AreAllowed :
      (o : Outside Condition) (ws : List Workflow) (vs : List (Violation Condition))
      (p : Policy Condition) (d : Device) (r r' : Ran Condition)
      → is_scoped p d ≡ true
      → Step o (plan_of o ws vs p) d r r'
      → AreAllowed o vs r
      → AreAllowed o vs r'
  unfolding plan_of
  Step-AreAllowed o ws vs p d r r' q idle h = h
  Step-AreAllowed o ws vs p d r r' q (tried w k) h = h
  Step-AreAllowed o ws vs p d r r' q (started w run n k free e v) h =
      All-append _ r.launches _ h (fired-IsAllowed o ws vs p d r.count w q k v)

  scoped_devices-is_scoped :
      (p : Policy Condition) (ds : List Device)
      → All (λ d. is_scoped p d ≡ true) (scoped_devices p ds)
  unfolding scoped_devices
  scoped_devices-is_scoped p ds =
      All-keep_both (in_audience p.target_device_audience_id) (on_platform p.target_platform) ds

  -- Every run that a pass starts belongs to a policy that runs automatically and has not been tripped,
  -- whose last runs do not trip it now, that has been acknowledged if the workflow has a destructive
  -- step, and that covers the device and is violated by it.
  pub run_policies-AreAllowed :
      (o : Outside Condition) (ws : List Workflow) (vs : List (Violation Condition))
      (devices : List Device) (ps : List (Policy Condition)) (s : Pass Condition)
      → AreAllowed o vs (ran s)
      → AreAllowed o vs (ran (run_policies o ws vs devices ps s))
  run_policies-AreAllowed o ws vs devices [] s h = h
  run_policies-AreAllowed o ws vs devices (p ∷ ps) s h =
      run_policies-AreAllowed o ws vs devices ps (run_policy o ws vs devices p s) (
        run_policy-Keeps (AreAllowed o vs) (λ d. is_scoped p d ≡ true) o ws vs devices p s
          (Step-AreAllowed o ws vs p) (scoped_devices-is_scoped p devices) h)
