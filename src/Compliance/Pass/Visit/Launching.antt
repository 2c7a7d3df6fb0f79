-- ===== src/Compliance/Pass/Visit/Launching.antt =====
-- What one round of the inner loop of `runComplianceEvaluation`
-- (modules/compliance/compliance.service.ts) does to the runs of the pass, as a step relation.
use applivery_soar.Compliance.Policy.{has_some}
use applivery_soar.Compliance.Pass.Table.{Device, Policy, SuppressionEntry, Workflow, pair_key}
use applivery_soar.Compliance.Pass.Plan.{
  run_reused, Outside, Plan, Pass, Launch, decide, Decision, blocked, capped, fire, unlinked,
  review,
}
use applivery_soar.Compliance.Pass.Settle.{
  escalation_note, settle, fire_once, launched, count_fired, link_case, tell,
}
use applivery_soar.Compliance.Pass.Visit.{
  visit, recover, detect, open_case, key_of, matched_by, visit_known, mark, count_violation,
}
use applivery_soar.Compliance.Pass.Visit.Core.{core, recover-core, open_case-core, link_case-core}
use applivery_soar.Compliance.Pass.Visit.Flag.{violates}
use applivery_soar.Cases.Table.{run_shared, Entry}
use applivery_soar.Common.{
  ℕ, suc, ◌≡◌, inl, inr, refl, sym, ap, subst, ◌∙◌, String, true, false, Option, none, some, List,
  [], ◌∷◌, ◌++◌, Bool-cases, or_else, str_eq, is_set, lookup, insert, delete_keys,
}

-- The runs of a pass: those that can be reused, those that were started, and how many violations of
-- the policy have had one.
pub record Ran {ℓ} (Condition : Type ℓ) : Type ℓ where
  pub fired : List (String × String)
  pub launches : List (Launch Condition)
  pub count : ℕ

abbrev pub ran {ℓ} : {Condition : Type ℓ} → Pass Condition → Ran Condition
ran s = record {
  fired = s.fired_workflow_this_pass;
  launches = s.launches;
  count = s.policy_autofired_count;
}

abbrev pub counted {ℓ} : {Condition : Type ℓ} → Ran Condition → Ran Condition
counted r = record r { count = suc r.count }

abbrev pub with_launch {ℓ} :
    {Condition : Type ℓ}
    → Plan Condition
    → Device
    → Workflow
    → String
    → Ran Condition
    → Ran Condition
with_launch plan d w run r = record {
  fired = insert (pair_key w.id d.id) run r.fired;
  launches =
      r.launches ++ record { policy = plan.policy; workflow = w; device = d; run_id = run } ∷ [];
  count = r.count;
}

-- Nothing is run; or a run is due but another one is used, or it cannot be started; or it is started.
pub data Step {ℓ} {Condition : Type ℓ} (o : Outside Condition) (plan : Plan Condition) (d : Device)
    (r : Ran Condition) : Ran Condition → Type ℓ where
  idle : Step o plan d r r
  tried : (w : Workflow) → decide plan d r.count ≡ fire w → Step o plan d r (counted r)
  started :
      (w : Workflow) (run : String) (n : ℕ)
      → decide plan d r.count ≡ fire w
      → is_set (lookup (pair_key w.id d.id) r.fired) ≡ false
      → o.launch n w d ≡ some run
      → violates o plan.policy d ≡ true
      → Step o plan d r (with_launch plan d w run (counted r))

module _ {ℓ} {Condition : Type ℓ} where
  core-ran : (s t : Pass Condition) → core s ≡ core t → ran s ≡ ran t
  core-ran s t e = ap (λ c. record { fired = c.1.0; launches = c.1.1.0; count = c.1.1.1 }) e

  link_case-ran :
      (o : Outside Condition) (case_id : Option ℕ) (run_id : String) (entry : Entry)
      (s : Pass Condition)
      → ran (link_case o case_id run_id entry s) ≡ ran s
  link_case-ran o case_id run_id entry s =
      core-ran (link_case o case_id run_id entry s) s (link_case-core o case_id run_id entry s)

  recover-ran :
      (o : Outside Condition) (p : Policy Condition) (d : Device) (e : SuppressionEntry)
      (s : Pass Condition)
      → ran (recover o p d e s) ≡ ran s
  recover-ran o p d e s =
      core-ran (recover o p d e s)
        (record s { state = delete_keys (λ k. str_eq (key_of p d) k) s.state })
        (recover-core o p d e s)

  launched-Step :
      (o : Outside Condition) (plan : Plan Condition) (d : Device) (w : Workflow)
      (case_id : Option ℕ) (n : ℕ) (s : Pass Condition)
      → decide plan d s.policy_autofired_count ≡ fire w
      → is_set (lookup (pair_key w.id d.id) s.fired_workflow_this_pass) ≡ false
      → violates o plan.policy d ≡ true
      → (result : Option String) → o.launch n w d ≡ result
      → (t : Pass Condition) → ran t ≡ counted (ran s)
      → Step o plan d (ran s) (ran (launched o plan d w case_id result t).after)
  launched-Step o plan d w case_id n s h k v none e t same =
      subst (λ r. Step o plan d (ran s) r) (sym same) (tried w h)
  launched-Step o plan d w none n s h k v (some run) e t same =
      subst (λ r. Step o plan d (ran s) r) (sym (ap (with_launch plan d w run) same))
        (started w run n h k e v)
  launched-Step o plan d w (some case_id) n s h k v (some run) e t same =
      subst (λ r. Step o plan d (ran s) r) (sym (ap (with_launch plan d w run) same))
        (started w run n h k e v)

  fire_once-Step :
      (o : Outside Condition) (plan : Plan Condition) (d : Device) (w : Workflow)
      (case_id : Option ℕ) (s : Pass Condition)
      → decide plan d s.policy_autofired_count ≡ fire w
      → violates o plan.policy d ≡ true
      → (already : Option String) → lookup (pair_key w.id d.id) s.fired_workflow_this_pass ≡ already
      → Step o plan d (ran s) (ran (fire_once o plan d w case_id already (count_fired s)).after)
  fire_once-Step o plan d w case_id s h v already e = elim (Bool-cases (is_set already)) [
    | inl k ↦ rw k (
        subst (λ r. Step o plan d (ran s) r)
          (sym (
            link_case-ran o case_id (or_else already "")
              (run_shared w.name (escalation_note plan d))
              (tell (run_reused d.display_name plan.policy.name w.name) (count_fired s))))
          (tried w h))
    | inr k ↦ rw k (
        launched-Step o plan d w case_id s.attempts s h (ap is_set e ∙ k) v
          (o.launch s.attempts w d) refl (record (count_fired s) { attempts = suc s.attempts })
          refl)
  ]

  settle-Step :
      (o : Outside Condition) (plan : Plan Condition) (d : Device) (case_id : Option ℕ)
      (s : Pass Condition)
      → violates o plan.policy d ≡ true
      → (choice : Decision) → decide plan d s.policy_autofired_count ≡ choice
      → Step o plan d (ran s) (ran (settle o plan d case_id choice s).after)
  unfolding settle
  settle-Step o plan d case_id s v (blocked reason) e = idle
  settle-Step o plan d case_id s v capped e = idle
  settle-Step o plan d case_id s v (fire w) e = fire_once-Step o plan d w case_id s e v _ refl
  settle-Step o plan d case_id s v unlinked e = idle
  settle-Step o plan d case_id s v review e = idle

  detect-Step :
      (o : Outside Condition) (plan : Plan Condition) (d : Device) (matched : List Condition)
      (s : Pass Condition)
      → violates o plan.policy d ≡ true
      → Step o plan d (ran s) (ran (detect o plan d matched s))
  unfolding detect
  detect-Step o plan d matched s v =
      let marked = mark plan.policy d true (count_violation s) in
      let opened = open_case o plan.policy d (o.uuid s.drawn) marked in
      subst
        (λ r. Step o plan d r (
          ran
            (settle o plan d opened.1 (decide plan d opened.0.policy_autofired_count)
              opened.0).after))
        (core-ran opened.0 marked (open_case-core o plan.policy d (o.uuid s.drawn) marked))
        (settle-Step o plan d opened.1 opened.0 v (decide plan d opened.0.policy_autofired_count)
          refl)

  -- Every visit is such a step.
  pub visit-Step :
      (o : Outside Condition) (plan : Plan Condition) (d : Device) (s : Pass Condition)
      → Step o plan d (ran s) (ran (visit o plan d s))
  unfolding visit
  visit-Step o plan d s =
      go (matched_by o plan.policy d) refl (lookup (key_of plan.policy d) s.state)
    where
      go :
          (matched : List Condition)
          → matched_by o plan.policy d ≡ matched
          → (known : Option SuppressionEntry)
          → Step o plan d (ran s) (ran (visit_known o plan d matched known s))
      go matched e none = elim (Bool-cases (has_some matched)) [
        | inl h ↦ rw h (detect-Step o plan d matched s (ap has_some e ∙ h))
        | inr h ↦ rw h idle
      ]
      go matched e (some entry) = elim (Bool-cases (has_some matched)) [
        | inl h ↦ rw h idle
        | inr h ↦
            rw h (
              subst (λ r. Step o plan d (ran s) r) (sym (recover-ran o plan.policy d entry s)) idle)
      ]
