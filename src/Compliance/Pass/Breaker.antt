-- ===== src/Compliance/Pass/Breaker.antt =====
-- What stops the automatic runs of a policy: the circuit breaker, the acknowledgement of destructive
-- actions and the cap of a pass (modules/compliance/compliance.service.ts). The lookup of a run is an
-- argument.
use applivery_soar.Compliance.Pass.Table.{auto_fired, Run, Violation, ViolationStatus}
use applivery_soar.Common.{
  le→leb, if◌then◌else◌, ℕ, zero, suc, ◌+◌, ◌≡◌, inl, inr, refl, String, Bool, true, false, not,
  ◌&&◌, ◌||◌, Option, none, some, List, [], ◌∷◌, arith, ltb, leb, ◌==◌, Bool-cases, or_else,
  is_some, str_eq, is_set, length, take, any, all,
}

-- `resolveAutoRunBatchCap`. A cap below zero is treated like zero, so that zero stands for it.
unfoldable pub resolve_auto_run_batch_cap : Option ℕ → Option ℕ
resolve_auto_run_batch_cap none = none
resolve_auto_run_batch_cap (some raw) = if ltb 0 raw then some raw else some 15

-- `AUTORUN_CIRCUIT_BREAKER_THRESHOLD`
abbrev pub autorun_circuit_breaker_threshold : ℕ
autorun_circuit_breaker_threshold = 3

-- `runFullyFailed`
unfoldable pub run_fully_failed : Run → Bool
run_fully_failed run =
    not (length run.results == 0)
    && not (any (λ r. str_eq r "success" || str_eq r "partial") run.results)

abbrev pub is_over : Run → Bool
is_over run = not (str_eq run.status "running" || str_eq run.status "waiting")

abbrev pub is_auto_fired : ViolationStatus → Bool
is_auto_fired auto_fired = true
is_auto_fired _ = false

abbrev pub trip_reason : String
trip_reason = "Last 3 auto-run workflow executions for this policy failed on every targeted device"

-- There are at least n, and the first n all failed on every device.
abbrev pub all_failed : ℕ → List Run → Bool
all_failed n runs = leb n (length runs) && all run_fully_failed (take n runs)

and_false : (b : Bool) → false ≡ (b && false)
and_false true = refl
and_false false = refl

leb-suc : (n m : ℕ) → leb (suc n) (suc m) ≡ leb n m
leb-suc n m = ground arith

-- One round of the loop, with the rounds to come by the runs checked before them.
abbrev pub after_run : ℕ → (ℕ → Option String) → Option Run → Option String
after_run checked rest none = rest checked
after_run checked rest (some run) =
    if run_fully_failed run
    then (if leb autorun_circuit_breaker_threshold (suc checked)
        then some trip_reason
        else rest (suc checked))
    else none

abbrev pub with_run : Option Run → List Run → List Run
with_run none runs = runs
with_run (some run) runs = run ∷ runs

after_run-all_failed :
    (n checked : ℕ) (rest : ℕ → Option String) (runs : List Run)
    → checked + suc n ≡ 3
    → ((m k : ℕ) → k + suc m ≡ 3 → is_some (rest k) ≡ all_failed (suc m) runs)
    → (counted : Option Run)
    → is_some (after_run checked rest counted) ≡ all_failed (suc n) (with_run counted runs)
after_run-all_failed n checked rest runs h k none = k n checked h
after_run-all_failed n checked rest runs h k (some run) = elim (Bool-cases (run_fully_failed run)) [
  | inr f ↦ rw f (and_false (leb (suc n) (suc (length runs))))
  | inl f ↦ rw (f, leb-suc n (length runs)) (go n h)
]
  where
    go :
        (m : ℕ)
        → checked + suc m ≡ 3
        → is_some (if leb 3 (suc checked) then some trip_reason else rest (suc checked))
          ≡ all_failed m runs
    go zero e = rw (le→leb 3 (suc checked) (omega (arith, e))) (ground arith)
    go (suc m) e =
        let more : leb 3 (suc checked) ≡ false = ground (arith, e) in
        rw more (k m (suc checked) (omega (arith, e)))

module _ {ℓ} {Condition : Type ℓ} where
  -- None of the conditions of the `continue` on a violation holds.
  abbrev pub counts : String → Violation Condition → Bool
  counts policy_id v =
      str_eq v.policy_id policy_id && is_auto_fired v.status && is_set v.workflow_run_id

  -- The run that a violation counts for: none if the loop goes on without it.
  abbrev pub counted_run : (String → Option Run) → String → Violation Condition → Option Run
  counted_run lookup_run policy_id v =
      if counts policy_id v
      then elim (lookup_run (or_else v.workflow_run_id "")) [
        | none ↦ none
        | some run ↦ if is_over run then some run else none
      ]
      else none

  -- The loop, from the runs checked so far.
  abbrev pub check_from :
      (String → Option Run) → String → List (Violation Condition) → ℕ → Option String
  check_from lookup_run policy_id [] checked = none
  check_from lookup_run policy_id (v ∷ vs) checked =
      after_run checked (check_from lookup_run policy_id vs) (counted_run lookup_run policy_id v)

  -- `autorunCircuitBreakerCheck`, of violations with the latest first
  unfoldable pub autorun_circuit_breaker_check :
      (String → Option Run) → String → List (Violation Condition) → Option String
  autorun_circuit_breaker_check lookup_run policy_id vs = check_from lookup_run policy_id vs 0

  -- The finished runs that the policy started, latest first.
  abbrev pub finished_runs : (String → Option Run) → String → List (Violation Condition) → List Run
  finished_runs lookup_run policy_id [] = []
  finished_runs lookup_run policy_id (v ∷ vs) =
      with_run (counted_run lookup_run policy_id v) (finished_runs lookup_run policy_id vs)

  check_from-all_failed :
      (lookup_run : String → Option Run) (policy_id : String) (vs : List (Violation Condition))
      (n checked : ℕ)
      → checked + suc n ≡ 3
      → is_some (check_from lookup_run policy_id vs checked)
        ≡ all_failed (suc n) (finished_runs lookup_run policy_id vs)
  check_from-all_failed lookup_run policy_id [] n checked h = ground arith
  check_from-all_failed lookup_run policy_id (v ∷ vs) n checked h =
      after_run-all_failed n checked (check_from lookup_run policy_id vs)
        (finished_runs lookup_run policy_id vs) h (check_from-all_failed lookup_run policy_id vs)
        (counted_run lookup_run policy_id v)

  -- The breaker trips exactly if the policy has started three runs that are over, and the latest
  -- three of them failed on every device.
  pub autorun_circuit_breaker_check-all_failed :
      (lookup_run : String → Option Run) (policy_id : String) (vs : List (Violation Condition))
      → is_some (autorun_circuit_breaker_check lookup_run policy_id vs)
        ≡ all_failed 3 (finished_runs lookup_run policy_id vs)
  unfolding autorun_circuit_breaker_check
  autorun_circuit_breaker_check-all_failed lookup_run policy_id vs =
      check_from-all_failed lookup_run policy_id vs 2 0 refl
