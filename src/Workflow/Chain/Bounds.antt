-- ===== src/Workflow/Chain/Bounds.antt =====
-- How long the loop of `runDeviceStepChain` runs (durableEngine.ts): what a round and the whole loop
-- do to the length of the log.
use applivery_soar.Common.{
  none, some, Option, refl, ℕ, zero, suc, ◌+◌, ◌≤◌, ◌<◌, ◌≡◌, subst, String, List, [], ◌∷◌, true,
  false, inl, inr, arith, length, length-append, Bool-cases, Option-cases, str_eq, truthy,
  or_string, ltb,
}
use applivery_soar.Workflow.Store.{LogEntry, Pending, StepKind}
use applivery_soar.Workflow.Steps.{
  pending_step, Amount, whole, Step, Reply, replied, threw, Check, not_recovered, recovered,
  check_threw, Exit, parked, finished, crashed, out_of_fuel, Next, continue, leave, Context, push,
  find_step,
}
use applivery_soar.Workflow.Chain.{
  last_date, resume_time, script_timeout, follow, wait_round, timeout_or_default, script_dispatched,
  script_reply, script_round, run_action, after_action, run_step, checked, goes_on, round, loop,
  max_rounds,
}

-- A token is one that the chain drew.
abbrev pub IsToken : (ℕ → String) → Option String → Type 0
IsToken draw none = Unit
IsToken draw (some t) = (n : ℕ) × (t ≡ draw n)

-- A parked step names the run, the device and the workflow that it came from.
pub record IsOwn (c : Context) (p : Pending) : Type 0 where
  pub of_run : p.run_id ≡ c.run_id
  pub of_device : p.device ≡ c.device
  pub of_workflow : p.workflow_id ≡ c.workflow.id
  pub of_slug : p.slug_key ≡ c.slug_key
  pub of_token : IsToken c.env.token p.pending_token

-- What an exit says of a loop that began with `n` entries in its log.
abbrev pub Ends : Context → ℕ → Exit → Type 0
Ends c n (parked p) = (n < length p.log) × (length p.log ≤ max_rounds) × IsOwn c p
Ends c n (finished log) = n ≤ length log
Ends c n (crashed log message) = n ≤ length log
Ends c n out_of_fuel = ⊥

abbrev Fits : Context → ℕ → Next → Type 0
Fits c n (continue id log) = (length log ≡ suc n) × (n < max_rounds)
Fits c n (leave x) = Ends c n x

length-push : (log : List LogEntry) (e : LogEntry) → length (push log e) ≡ suc (length log)
length-push log e = omega (arith, length-append log (e ∷ []))

-- A round that goes on after one more entry.
continue-Fits :
    (log : List LogEntry) (e : LogEntry)
    → length log < max_rounds
    → (length (push log e) ≡ suc (length log)) × (length log < max_rounds)
continue-Fits log e h = (length-push log e, h)

-- A round that parks after one more entry.
parked-Ends :
    (c : Context) (log : List LogEntry) (e : LogEntry) (next : String) (at : ℕ) (kind : StepKind)
    (on_failure token : Option String)
    → IsToken c.env.token token
    → length log < max_rounds
    → Ends c (length log) (parked (pending_step c next (push log e) at kind on_failure token))
parked-Ends c log e next at kind on_failure token drawn h = (
  omega (arith, length-push log e),
  omega (arith, length-push log e),
  record { of_run = refl; of_device = refl; of_workflow = refl; of_slug = refl; of_token = drawn },
)

wait_round-Fits :
    (c : Context) (n : ℕ) (step : Step) (id : String) (log : List LogEntry) (a : Amount)
    → length log < max_rounds
    → Fits c (length log) (wait_round c n step id log a)
unfolding wait_round
wait_round-Fits c n step id log (whole zero) h = continue-Fits log _ h
wait_round-Fits c n step id log (whole (suc k)) h =
    elim (Bool-cases (ltb last_date (resume_time c n step (suc k)))) [
      | inl e ↦ rw e (omega arith)
      | inr e ↦ rw e (parked-Ends c log _ _ _ _ _ none tt h)
    ]
wait_round-Fits c n step id log _ h = continue-Fits log _ h

script_dispatched-Fits :
    (c : Context) (n : ℕ) (step : Step) (id : String) (log : List LogEntry) (a : Amount)
    → length log < max_rounds
    → Fits c (length log) (script_dispatched c n step id log a)
unfolding script_dispatched
script_dispatched-Fits c n step id log (whole k) h =
    elim (Bool-cases (ltb last_date (script_timeout c n k))) [
      | inl e ↦ rw e (omega (arith, length-push log))
      | inr e ↦ rw e (parked-Ends c log _ _ _ _ _ (some (c.env.token n)) (n, refl) h)
    ]
script_dispatched-Fits c n step id log _ h = omega (arith, length-push log)

script_reply-Fits :
    (c : Context) (n : ℕ) (step : Step) (id : String) (log : List LogEntry) (r : Reply)
    → length log < max_rounds
    → Fits c (length log) (script_reply c n step id log r)
unfolding script_reply
script_reply-Fits c n step id log (replied true d) h =
    script_dispatched-Fits c n step id log (timeout_or_default step.timeout_minutes) h
script_reply-Fits c n step id log (replied false d) h = continue-Fits log _ h
script_reply-Fits c n step id log (threw m) h = omega arith

script_round-Fits :
    (c : Context) (n : ℕ) (step : Step) (id : String) (log : List LogEntry)
    → length log < max_rounds
    → Fits c (length log) (script_round c n step id log)
unfolding script_round
script_round-Fits c n step id log h = elim (Bool-cases (truthy (or_string step.library_id ""))) [
  | inl e ↦ rw e (script_reply-Fits c n step id log (c.env.execute n step) h)
  | inr e ↦ rw e (continue-Fits log _ h)
]

after_action-Fits :
    (c : Context) (step : Step) (id : String) (log : List LogEntry) (r : Reply)
    → length log < max_rounds
    → Fits c (length log) (after_action c step id log r)
unfolding after_action
after_action-Fits c step id log (replied true d) h = continue-Fits log _ h
after_action-Fits c step id log (replied false d) h = continue-Fits log _ h
after_action-Fits c step id log (threw m) h = omega arith

run_step-Fits :
    (c : Context) (n : ℕ) (step : Step) (id : String) (log : List LogEntry)
    → length log < max_rounds
    → Fits c (length log) (run_step c n step id log)
unfolding run_step
run_step-Fits c n step id log h = elim (Bool-cases (str_eq step.type "wait")) [
  | inl e ↦ rw e (wait_round-Fits c n step id log step.amount h)
  | inr e ↦ rw e (elim (Bool-cases (str_eq step.type "run_script_wait")) [
    | inl k ↦ rw k (script_round-Fits c n step id log h)
    | inr k ↦ rw k (after_action-Fits c step id log (run_action c n step) h)
  ])
]

checked-Fits :
    (c : Context) (n : ℕ) (step : Step) (id : String) (log : List LogEntry) (k : Check)
    → length log < max_rounds
    → Fits c (length log) (checked c n step id log k)
unfolding checked
checked-Fits c n step id log not_recovered h = run_step-Fits c n step id log h
checked-Fits c n step id log (recovered es) h = omega (arith, length-append log es)
checked-Fits c n step id log (check_threw m) h = omega arith

goes_on_bound : (guard : ℕ) (id : String) → goes_on guard id ≡ true → guard < max_rounds
goes_on_bound guard id h = ground arith

round-Fits :
    (c : Context) (id : String) (log : List LogEntry)
    → Fits c (length log) (round c (length log) id log)
unfolding round
round-Fits c id log = elim (Bool-cases (goes_on (length log) id)) [
  | inl e ↦ rw e (elim (Option-cases (find_step id c.workflow.steps)) [
    | inl k ↦ rw k (omega arith)
    | inr (step, k) ↦ rw k (
        checked-Fits c (suc (length log)) step id log (c.env.check (suc (length log)))
          (goes_on_bound (length log) id e))
  ])
  | inr e ↦ rw e (omega arith)
]

-- A larger log at the start of the rest says as much of the start.
Ends-weaken : (c : Context) (n : ℕ) (x : Exit) → Ends c (suc n) x → Ends c n x
Ends-weaken c n (parked p) (lt, le, own) = (omega arith, le, own)
Ends-weaken c n (finished log) h = omega arith
Ends-weaken c n (crashed log m) h = omega arith
Ends-weaken c n out_of_fuel h = h

follow-Ends :
    (c : Context) (fuel guard : ℕ) (x : Next)
    → Fits c guard x
    → ((id : String) (log : List LogEntry)
        → length log ≡ suc guard
        → guard < max_rounds
        → Ends c (suc guard) (loop c fuel (suc guard) id log))
    → Ends c guard (follow x (loop c fuel (suc guard)))
follow-Ends c fuel guard (continue id log) (e, h) ih =
    Ends-weaken c guard (loop c fuel (suc guard) id log) (ih id log e h)
follow-Ends c fuel guard (leave x) h ih = h

pub loop-Ends :
    (c : Context) (fuel guard : ℕ) (id : String) (log : List LogEntry)
    → length log ≡ guard
    → 0 < fuel
    → max_rounds < fuel + guard
    → Ends c guard (loop c fuel guard id log)
unfolding loop
loop-Ends c zero guard id log e p h = elim p [ ]
loop-Ends c (suc fuel) guard id log e p h =
    follow-Ends c fuel guard (round c guard id log)
      (subst (λ g. Fits c g (round c g id log)) e (round-Fits c id log))
      (λ id' log' e' k. loop-Ends c fuel (suc guard) id' log' e' (omega arith) (omega arith))
