-- ===== src/Compliance/Pass/Run/Flags.antt =====
-- What the loops of `runComplianceEvaluation` (modules/compliance/compliance.service.ts) do to the
-- flags, against a description by the list of the visits.
use applivery_soar.Compliance.Pass.Table.{Device, Policy, Violation, Workflow}
use applivery_soar.Compliance.Pass.Plan.{Outside, Plan, Pass}
use applivery_soar.Compliance.Pass.Visit.{visit, key_of}
use applivery_soar.Compliance.Pass.Visit.Flag.{flagged, violates, visit-flagged}
use applivery_soar.Compliance.Pass.Run.{
  visits, run_policy, run_policies, plan_of, scoped_devices, trip, begin_policy, alert_if_new,
  fresh_trip_of,
}
use applivery_soar.Common.{
  if◌then◌else◌, ℕ, ◌≡◌, inl, inr, refl, String, Bool, true, false, Option, none, some, List, [],
  ◌∷◌, ◌++◌, ltb, Bool-cases, Option-cases, or_else, str_eq, length,
}

-- The pairs that are visited, in order, with the verdicts.
abbrev pub Visits : Type 0
Visits = List (String × Bool)

abbrev pub first_of {ℓ} : {A : Type ℓ} → Option A → Option A → Option A
first_of none y = y
first_of (some x) y = some x

-- The verdict of the last visit of a pair.
abbrev pub last_verdict : String → Visits → Option Bool
last_verdict key [] = none
last_verdict key ((k, b) ∷ vs) =
    first_of (last_verdict key vs) (if str_eq k key then some b else none)

last_verdict-append :
    (key : String) (xs ys : Visits)
    → last_verdict key (xs ++ ys) ≡ first_of (last_verdict key ys) (last_verdict key xs)
last_verdict-append key [] ys = elim (Option-cases (last_verdict key ys)) [
  | inl e ↦ rw e refl
  | inr (b, e) ↦ rw e refl
]
last_verdict-append key ((k, b) ∷ xs) ys =
    rw (last_verdict-append key xs ys)
      (first_of-assoc (last_verdict key ys) (last_verdict key xs) _)
  where
    first_of-assoc : (x y z : Option Bool) → first_of (first_of x y) z ≡ first_of x (first_of y z)
    first_of-assoc none y z = refl
    first_of-assoc (some x) y z = refl

pub or_else-first_of :
    (x y : Option Bool) (b : Bool) → or_else x (or_else y b) ≡ or_else (first_of x y) b
or_else-first_of none y b = refl
or_else-first_of (some x) y b = refl

pub or_else-if :
    (b v old : Bool) → (if b then v else old) ≡ or_else (if b then some v else none) old
or_else-if true v old = refl
or_else-if false v old = refl

module _ {ℓ} {Condition : Type ℓ} where
  abbrev pub visited : Outside Condition → Policy Condition → List Device → Visits
  visited o p [] = []
  visited o p (d ∷ ds) = (key_of p d, violates o p d) ∷ visited o p ds

  abbrev pub all_visited : Outside Condition → List Device → List (Policy Condition) → Visits
  all_visited o devices [] = []
  all_visited o devices (p ∷ ps) =
      visited o p (scoped_devices p devices) ++ all_visited o devices ps

  visits-flagged :
      (o : Outside Condition) (plan : Plan Condition) (ds : List Device) (s : Pass Condition)
      (key : String)
      → flagged (visits o plan ds s).state key
        ≡ or_else (last_verdict key (visited o plan.policy ds)) (flagged s.state key)
  visits-flagged o plan [] s key = refl
  visits-flagged o plan (d ∷ ds) s key =
      rw
        (
          visits-flagged o plan ds (visit o plan d s) key,
          visit-flagged o plan d s key,
          or_else-if (str_eq (key_of plan.policy d) key) (violates o plan.policy d)
              (flagged s.state key),
        )
        (or_else-first_of (last_verdict key (visited o plan.policy ds)) _ _)

  trip-state :
      (p : Policy Condition) (reason : Option String) (s : Pass Condition)
      → (trip p reason s).state ≡ s.state
  trip-state p none s = refl
  trip-state p (some reason) s = refl

  alert_if_new-state :
      (p : Policy Condition) (count : ℕ) (s : Pass Condition)
      → (alert_if_new p count s).state ≡ s.state
  alert_if_new-state p count s = elim (Bool-cases (ltb 0 s.policy_new_violations)) [
    | inl e ↦ rw e refl
    | inr e ↦ rw e refl
  ]

  run_policy-flagged :
      (o : Outside Condition) (ws : List Workflow) (vs : List (Violation Condition))
      (devices : List Device) (p : Policy Condition) (s : Pass Condition) (key : String)
      → flagged (run_policy o ws vs devices p s).state key
        ≡ or_else (last_verdict key (visited o p (scoped_devices p devices))) (flagged s.state key)
  unfolding run_policy plan_of
  run_policy-flagged o ws vs devices p s key =
      let plan = plan_of o ws vs p in
      let scoped = scoped_devices p devices in
      let started = trip p (fresh_trip_of o plan vs) (begin_policy (length scoped) s) in
      rw
        (
          alert_if_new-state p (length scoped) _,
          visits-flagged o plan scoped started key,
          trip-state p (fresh_trip_of o plan vs) (begin_policy (length scoped) s),
        )
        refl

  -- The suppression state of a pass implements the replay of its visits: afterwards a pair is flagged
  -- exactly if its last visit found a violation, and a pair that was not visited is as before.
  pub run_policies-flagged :
      (o : Outside Condition) (ws : List Workflow) (vs : List (Violation Condition))
      (devices : List Device) (ps : List (Policy Condition)) (s : Pass Condition) (key : String)
      → flagged (run_policies o ws vs devices ps s).state key
        ≡ or_else (last_verdict key (all_visited o devices ps)) (flagged s.state key)
  run_policies-flagged o ws vs devices [] s key = refl
  run_policies-flagged o ws vs devices (p ∷ ps) s key =
      rw
        (
          run_policies-flagged o ws vs devices ps (run_policy o ws vs devices p s) key,
          run_policy-flagged o ws vs devices p s key,
          last_verdict-append key (visited o p (scoped_devices p devices))
              (all_visited o devices ps),
        )
        (or_else-first_of (last_verdict key (all_visited o devices ps)) _ _)
