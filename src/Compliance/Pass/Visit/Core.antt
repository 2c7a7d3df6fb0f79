-- ===== src/Compliance/Pass/Visit/Core.antt =====
-- How the steps of the inner loop of `runComplianceEvaluation`
-- (modules/compliance/compliance.service.ts) change the variables that decide what the pass does.
use applivery_soar.Compliance.Pass.Table.{
  pair_key, Device, Policy, State, SuppressionEntry, Workflow,
}
use applivery_soar.Compliance.Pass.Plan.{
  Launch, Outside, Plan, Pass, Decision, blocked, capped, fire, unlinked, review,
}
use applivery_soar.Compliance.Pass.Settle.{link_case, count_fired, fire_once, launched, settle}
use applivery_soar.Compliance.Pass.Visit.{
  with_recovery, with_case, open_case, put_off, key_of, recover,
}
use applivery_soar.Cases.Table.{Event, Entry, Store}
use applivery_soar.Cases.Violation.{Upserted}
use applivery_soar.Common.{
  ℕ, ◌≡◌, inl, inr, refl, ap, String, Option, none, some, List, Bool-cases, str_eq, is_set, lookup,
  delete_keys,
}

-- The part of the variables of a pass that decides what it does next.
abbrev pub core {ℓ} :
    {Condition : Type ℓ}
    → Pass Condition
    → State × (List (String × String) × (List (Launch Condition) × ℕ))
core s = (s.state, (s.fired_workflow_this_pass, (s.launches, s.policy_autofired_count)))

module _ {ℓ} {Condition : Type ℓ} where
  put_off-core :
      (case_id : ℕ) (event : Option Event) (s : Pass Condition)
      → core (put_off case_id event s) ≡ core s
  put_off-core case_id none s = refl
  put_off-core case_id (some event) s = refl

  with_recovery-core :
      (r : Store × Option Upserted) (s : Pass Condition) → core (with_recovery r s) ≡ core s
  with_recovery-core (store, none) s = refl
  with_recovery-core (store, some u) s =
      put_off-core u.case_id u.notify_event (record s { store = store })

  pub link_case-core :
      (o : Outside Condition) (case_id : Option ℕ) (run_id : String) (entry : Entry)
      (s : Pass Condition)
      → core (link_case o case_id run_id entry s) ≡ core s
  link_case-core o none run_id entry s = refl
  link_case-core o (some case_id) run_id entry s = refl

  pub recover-core :
      (o : Outside Condition) (p : Policy Condition) (d : Device) (e : SuppressionEntry)
      (s : Pass Condition)
      → core (recover o p d e s)
        ≡ core (record s { state = delete_keys (λ k. str_eq (key_of p d) k) s.state })
  unfolding recover
  recover-core o p d e s = with_recovery-core _ _

  with_case-core : (r : Store × Upserted) (s : Pass Condition) → core ((with_case r s).0) ≡ core s
  with_case-core (store, u) s = put_off-core u.case_id u.notify_event (record s { store = store })

  pub open_case-core :
      (o : Outside Condition) (p : Policy Condition) (d : Device) (id : String) (s : Pass Condition)
      → core ((open_case o p d id s).0) ≡ core s
  unfolding open_case
  open_case-core o p d id s = elim (Bool-cases p.open_case_on_violation) [
    | inl e ↦ rw e (with_case-core _ s)
    | inr e ↦ rw e refl
  ]

  launched-state :
      (o : Outside Condition) (plan : Plan Condition) (d : Device) (w : Workflow)
      (case_id : Option ℕ) (run : Option String) (s : Pass Condition)
      → (launched o plan d w case_id run s).after.state ≡ s.state
  launched-state o plan d w case_id none s = refl
  launched-state o plan d w none (some run) s = refl
  launched-state o plan d w (some case_id) (some run) s = refl

  fire_once-state :
      (o : Outside Condition) (plan : Plan Condition) (d : Device) (w : Workflow)
      (case_id : Option ℕ) (already : Option String) (s : Pass Condition)
      → (fire_once o plan d w case_id already s).after.state ≡ s.state
  fire_once-state o plan d w case_id already s = elim (Bool-cases (is_set already)) [
    | inl e ↦ rw e (ap (λ c. c.0) (link_case-core o case_id _ _ _))
    | inr e ↦ rw e (launched-state o plan d w case_id _ _)
  ]

  pub settle-state :
      (o : Outside Condition) (plan : Plan Condition) (d : Device) (case_id : Option ℕ)
      (choice : Decision) (s : Pass Condition)
      → (settle o plan d case_id choice s).after.state ≡ s.state
  unfolding settle
  settle-state o plan d case_id (blocked reason) s = refl
  settle-state o plan d case_id capped s = refl
  settle-state o plan d case_id (fire w) s =
      fire_once-state o plan d w case_id (lookup (pair_key w.id d.id) s.fired_workflow_this_pass)
        (count_fired s)
  settle-state o plan d case_id unlinked s = refl
  settle-state o plan d case_id review s = refl
