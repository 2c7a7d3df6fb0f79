-- ===== src/Compliance/Pass/Run/Once.antt =====
-- A pass starts each workflow at most once for each device (modules/compliance/compliance.service.ts,
-- `firedWorkflowThisPass`).
use applivery_soar.Compliance.Pass.Table.{Device, Policy, Violation, Workflow, pair_key}
use applivery_soar.Compliance.Pass.Plan.{Outside, Plan, Pass, Launch}
use applivery_soar.Compliance.Pass.Visit.Launching.{Ran, ran, Step, idle, tried, started}
use applivery_soar.Compliance.Pass.Run.{scoped_devices, run_policy, run_policies, plan_of}
use applivery_soar.Compliance.Pass.Run.Launches.{All-anything, run_policy-Keeps}
use applivery_soar.Common.{
  ℕ, ◌≡◌, inl, inr, refl, sym, ◌∙◌, String, Bool, true, false, ◌||◌, some, List, [], ◌∷◌, ◌++◌,
  arith, Bool-cases, str_eq, str_eq_comm, truthy, is_set, any, lookup, insert, lookup-insert,
}

-- Every run has an id that is not empty.
abbrev pub HasRunIds {ℓ} : {Condition : Type ℓ} → Outside Condition → Type 0
HasRunIds o =
    (n : ℕ) (w : Workflow) (d : Device) (run : String)
    → o.launch n w d ≡ some run
    → truthy run ≡ true

module _ {ℓ} {Condition : Type ℓ} where
  abbrev pub launch_key : Launch Condition → String
  launch_key l = pair_key l.workflow.id l.device.id

  abbrev pub has_launched : String → List (Launch Condition) → Bool
  has_launched key ls = any (λ l. str_eq (launch_key l) key) ls

  -- No two launches are of the same workflow for the same device.
  abbrev pub IsOnce : List (Launch Condition) → Type 0
  IsOnce [] = Unit
  IsOnce (l ∷ ls) = (has_launched (launch_key l) ls ≡ false) × IsOnce ls

  has_launched-append :
      (key : String) (ls : List (Launch Condition)) (l : Launch Condition)
      → has_launched key (ls ++ l ∷ []) ≡ (has_launched key ls || str_eq (launch_key l) key)
  has_launched-append key [] l = ground arith
  has_launched-append key (x ∷ ls) l = elim (Bool-cases (str_eq (launch_key x) key)) [
    | inl e ↦ rw e refl
    | inr e ↦ rw e (has_launched-append key ls l)
  ]

  IsOnce-append :
      (ls : List (Launch Condition)) (l : Launch Condition)
      → IsOnce ls
      → has_launched (launch_key l) ls ≡ false
      → IsOnce (ls ++ l ∷ [])
  IsOnce-append [] l h k = (refl, tt)
  IsOnce-append (x ∷ ls) l h k =
      let rest : has_launched (launch_key l) ls ≡ false = ground (arith, k) in
      let apart : str_eq (launch_key x) (launch_key l) ≡ false = ground (arith, k) in
      (
        rw (has_launched-append (launch_key x) ls l, h.0, str_eq_comm (launch_key l) (launch_key x))
            apart,
        IsOnce-append ls l h.1 rest,
      )

  -- What has been started can be reused.
  abbrev pub IsRecorded : Ran Condition → Type 0
  IsRecorded r =
      IsOnce r.launches
      × ((key : String) → has_launched key r.launches ≡ true → is_set (lookup key r.fired) ≡ true)

  Step-IsRecorded :
      (o : Outside Condition) (plan : Plan Condition)
      → HasRunIds o
      → (d : Device) (r r' : Ran Condition) → Step o plan d r r'
      → IsRecorded r
      → IsRecorded r'
  Step-IsRecorded o plan ids d r r' idle h = h
  Step-IsRecorded o plan ids d r r' (tried w k) h = h
  Step-IsRecorded o plan ids d r r' (started w run n k free e v) h =
      (IsOnce-append r.launches _ h.0 fresh, recorded)
    where
      fresh : has_launched (pair_key w.id d.id) r.launches ≡ false
      fresh = elim (Bool-cases (has_launched (pair_key w.id d.id) r.launches)) [
        | inl is ↦ absurd (cc (h.1 (pair_key w.id d.id) is, free))
        | inr not_yet ↦ not_yet
      ]

      earlier :
          (key : String)
          → str_eq (pair_key w.id d.id) key ≡ false
          → has_launched key (
              r.launches
              ++ record { policy = plan.policy; workflow = w; device = d; run_id = run } ∷ [])
            ≡ true
          → has_launched key r.launches ≡ true
      earlier key other is =
          let both = sym (has_launched-append key r.launches _) ∙ is in ground (arith, other, both)

      recorded :
          (key : String)
          → has_launched key (
              r.launches
              ++ record { policy = plan.policy; workflow = w; device = d; run_id = run } ∷ [])
            ≡ true
          → is_set (lookup key (insert (pair_key w.id d.id) run r.fired)) ≡ true
      recorded key is = elim (Bool-cases (str_eq (pair_key w.id d.id) key)) [
        | inl same ↦ rw (lookup-insert (pair_key w.id d.id) key run r.fired, same) (ids n w d run e)
        | inr other ↦
            rw (lookup-insert (pair_key w.id d.id) key run r.fired, other)
              (h.1 key (earlier key other is))
      ]

  pub run_policies-IsRecorded :
      (o : Outside Condition) (ws : List Workflow) (vs : List (Violation Condition))
      (devices : List Device) (ps : List (Policy Condition)) (s : Pass Condition)
      → HasRunIds o
      → IsRecorded (ran s)
      → IsRecorded (ran (run_policies o ws vs devices ps s))
  unfolding plan_of
  run_policies-IsRecorded o ws vs devices [] s ids h = h
  run_policies-IsRecorded o ws vs devices (p ∷ ps) s ids h =
      run_policies-IsRecorded o ws vs devices ps (run_policy o ws vs devices p s) ids (
        run_policy-Keeps IsRecorded (λ d. Unit) o ws vs devices p s
          (λ d r r' q. Step-IsRecorded o (plan_of o ws vs p) ids d r r')
          (All-anything (scoped_devices p devices)) h)
