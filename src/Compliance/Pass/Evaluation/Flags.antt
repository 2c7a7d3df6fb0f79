-- ===== src/Compliance/Pass/Evaluation/Flags.antt =====
-- The suppression state before and after `runComplianceEvaluation`
-- (modules/compliance/compliance.service.ts).
use applivery_soar.Compliance.Alert.{Senders}
use applivery_soar.Compliance.Pass.Table.{Device, Workflow}
use applivery_soar.Compliance.Pass.Plan.{Outside}
use applivery_soar.Compliance.Pass.Visit.Flag.{flagged}
use applivery_soar.Compliance.Pass.Run.Flags.{
  Visits, last_verdict, all_visited, run_policies-flagged, or_else-first_of,
}
use applivery_soar.Compliance.Pass.Run.Quiet.{Agrees, effects, run_policies-quiet}
use applivery_soar.Compliance.Pass.Evaluation.{
  Tables, Request, narrowed, selected, start_pass, evaluate, run_compliance_evaluation,
}
use applivery_soar.Cases.Table.{Dispatch}
use applivery_soar.Common.{
  if◌then◌else◌, ◌≡◌, inl, inr, refl, sym, ◌∙◌, String, Bool, true, false, none, some, List, [],
  ◌∷◌, arith, ◌==◌, Bool-cases, or_else, str_eq, str_eq_self, length, any, All,
}

abbrev pub is_visited : String → Visits → Bool
is_visited key vs = any (λ v. str_eq v.0 key) vs

-- No pair is visited twice.
abbrev pub IsDistinct : Visits → Type 0
IsDistinct [] = Unit
IsDistinct ((k, b) ∷ vs) = (is_visited k vs ≡ false) × IsDistinct vs

last_verdict-none :
    (key : String) (vs : Visits) → is_visited key vs ≡ false → last_verdict key vs ≡ none
last_verdict-none key [] h = refl
last_verdict-none key ((k, b) ∷ vs) h =
    let apart : str_eq k key ≡ false = ground (arith, h) in
    let rest : is_visited key vs ≡ false = ground (arith, h) in
    rw (apart, last_verdict-none key vs rest) refl

-- A replay of distinct visits ends with every verdict.
replay-agrees :
    (vs : Visits) (f g : String → Bool)
    → ((key : String) → f key ≡ or_else (last_verdict key vs) (g key))
    → IsDistinct vs
    → All (λ v. f v.0 ≡ v.1) vs
replay-agrees [] f g h d = tt
replay-agrees ((k, b) ∷ vs) f g h d = (
  h k ∙ rw (last_verdict-none k vs d.0, str_eq_self k) refl,
  replay-agrees vs f (λ key. or_else (if str_eq k key then some b else none) (g key))
      (λ key. h key ∙ sym (or_else-first_of (last_verdict key vs) _ _)) d.1,
)

pub no_length {ℓ} : {A : Type ℓ} (xs : List A) → (length xs == 0) ≡ true → xs ≡ []
no_length [] h = refl
no_length (x ∷ xs) h = absurd (ground (arith, h))

module _ {ℓ} {Condition : Type ℓ} where
  -- The visits of a pass.
  abbrev pub visits_of : Outside Condition → List Device → Request → Tables Condition → Visits
  visits_of o devices request t =
      all_visited o (narrowed request devices) (selected request t.policies)

  -- The suppression state that the evaluation leaves implements a replay of its visits: a pair is
  -- flagged afterwards exactly if the last visit of the pair found a violation, and a pair that is not
  -- visited, one of another device or another policy, is flagged exactly if it was before.
  pub run_compliance_evaluation-flagged :
      (o : Outside Condition) (senders : Senders) (dispatch : Dispatch) (ws : List Workflow)
      (devices : List Device) (request : Request) (t : Tables Condition) (key : String)
      → flagged ((run_compliance_evaluation o senders dispatch ws devices request t).0).state key
        ≡ or_else (last_verdict key (visits_of o devices request t)) (flagged t.state key)
  unfolding run_compliance_evaluation evaluate
  run_compliance_evaluation-flagged o senders dispatch ws devices request t key =
      elim (Bool-cases (length (selected request t.policies) == 0)) [
        | inl e ↦ rw (e, no_length (selected request t.policies) e) refl
        | inr e ↦ rw e (
            run_policies-flagged o ws t.violations (narrowed request devices)
              (selected request t.policies)
              (start_pass (length (selected request t.policies)) t.state t.store) key)
      ]

  -- After an evaluation that visits no pair twice, every visited pair is flagged exactly if it is
  -- violated; and where the pairs are flagged like that, a further evaluation of the same policies
  -- and devices changes neither the flags nor a case, and it adds no violation, starts no run, writes
  -- no marker and sends no alert and no event.
  pub evaluate-quiet :
      (o : Outside Condition) (senders : Senders) (dispatch : Dispatch) (ws : List Workflow)
      (devices : List Device) (request : Request) (t t' : Tables Condition)
      → IsDistinct (visits_of o devices request t)
      → t'.state ≡ ((run_compliance_evaluation o senders dispatch ws devices request t).0).state
      → visits_of o devices request t' ≡ visits_of o devices request t
      → Agrees t'.state (visits_of o devices request t')
        × (effects (evaluate o ws devices request t')
            ≡ effects (start_pass (length (selected request t'.policies)) t'.state t'.store))
  unfolding evaluate
  evaluate-quiet o senders dispatch ws devices request t t' distinct same_state same_visits = (
    agrees,
    run_policies-quiet o ws t'.violations (narrowed request devices) (selected request t'.policies)
        _ agrees,
  )
    where
      agrees : Agrees t'.state (visits_of o devices request t')
      agrees =
          rw (same_visits, same_state)
            (replay-agrees (visits_of o devices request t) (flagged _) (flagged t.state)
              (run_compliance_evaluation-flagged o senders dispatch ws devices request t) distinct)
