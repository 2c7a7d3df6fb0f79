-- ===== src/Workflow/Resume/Replay.antt =====
-- A token resumes its chain once (`resumeWorkflowPendingStepByToken` of durableEngine.ts).
use applivery_soar.Common.{
  length, ℕ, ◌≡◌, refl, String, Bool, true, false, Option, none, some, inl, inr, List, [], ◌∷◌,
  ◌++◌, find, Bool-cases, Option-cases, str_eq, opt_eq, truthy,
}
use applivery_soar.Workflow.Store.{Store, Pending}
use applivery_soar.Workflow.Chain.Bounds.{IsToken}
use applivery_soar.Workflow.Resume.{
  Outside, has_token, resume_by_token, resume_found, resume_at_step, delete_token, outcome_target,
  result_log,
}
use applivery_soar.Workflow.Resume.Progress.{Advances, resume_at_step-Advances}
use applivery_soar.Workflow.Resume.Claim.{find-without_token}

find-concat :
    (token : String) (ps : List Pending) (p : Pending)
    → find (has_token token) ps ≡ none
    → has_token token p ≡ false
    → find (has_token token) (ps ++ p ∷ []) ≡ none
find-concat token [] p h k = rw k
find-concat token (q ∷ qs) p h k = elim (Bool-cases (has_token token q)) [
  | inl e ↦ cc (rw e at h)
  | inr e ↦ rw e (find-concat token qs p (rw e at h) k)
]

drawn_other :
    (draw : ℕ → String) (token : String) (drawn : Option String)
    → ((n : ℕ) → str_eq (draw n) token ≡ false)
    → IsToken draw drawn
    → opt_eq drawn (some token) ≡ false
drawn_other draw token none fresh h = refl
drawn_other draw token (some t) fresh (n, e) = rw e (fresh n)

Advances-none :
    (o : Outside) (row : Pending) (token : String) (n : ℕ) (before after : List Pending)
    → ((n : ℕ) → str_eq ((o.env row).token n) token ≡ false)
    → find (has_token token) before ≡ none
    → Advances o row n before after
    → find (has_token token) after ≡ none
Advances-none o row token n before after fresh h (inl e) = rw e h
Advances-none o row token n before after fresh h (inr (p, e, heir)) = rw e (
    find-concat token before p h
      (drawn_other (o.env row).token token p.pending_token fresh heir.drawn))

absent_token :
    (o : Outside) (token : String) (ok : Bool) (extra : String) (s : Store)
    → find (has_token token) s.pending ≡ none
    → resume_by_token o token ok extra s ≡ s
unfolding resume_by_token
absent_token o token ok extra s h = elim (Bool-cases (truthy token)) [
  | inl e ↦ rw (e, resume_by_token, h)
  | inr e ↦ rw e
]

empty_token :
    (o : Outside) (token : String) (ok : Bool) (extra : String) (s : Store)
    → truthy token ≡ false
    → resume_by_token o token ok extra s ≡ s
unfolding resume_by_token
empty_token o token ok extra s e = rw e

resume_found-none :
    (o : Outside) (token : String) (ok : Bool) (extra : String) (row : Pending) (s : Store)
    → ((n : ℕ) → str_eq ((o.env row).token n) token ≡ false)
    → find (has_token token) (resume_found o ok extra row (delete_token token s)).pending ≡ none
unfolding resume_found
resume_found-none o token ok extra row s fresh =
    let log = result_log row ok extra in
    let w = o.workflow_of row.slug_key row.workflow_id in
    let rest = delete_token token s in
    let target = outcome_target row ok in
    Advances-none o row token (length log) rest.pending
      (resume_at_step o row "run_script_wait" target log log w rest).0.pending fresh
      (find-without_token token s.pending)
      (resume_at_step-Advances o row "run_script_wait" target log log w rest)

token_spent :
    (o : Outside) (token : String) (ok : Bool) (extra : String) (s : Store)
    → ((row : Pending) (n : ℕ) → str_eq ((o.env row).token n) token ≡ false)
    → truthy token ≡ true
    → find (has_token token) (resume_by_token o token ok extra s).pending ≡ none
unfolding resume_by_token
token_spent o token ok extra s fresh t = elim (Option-cases (find (has_token token) s.pending)) [
  | inl e ↦ rw (t, resume_by_token, e) e
  | inr (row, e) ↦ rw (t, resume_by_token, e) (resume_found-none o token ok extra row s (fresh row))
]

-- Reporting the result of a script a second time changes nothing, whatever the second report says, if
-- the tokens that the resumed chain draws are other than this one.
pub resume_by_token_once :
    (o o' : Outside) (token : String) (ok ok' : Bool) (extra extra' : String) (s : Store)
    → ((row : Pending) (n : ℕ) → str_eq ((o.env row).token n) token ≡ false)
    → resume_by_token o' token ok' extra' (resume_by_token o token ok extra s)
      ≡ resume_by_token o token ok extra s
resume_by_token_once o o' token ok ok' extra extra' s fresh =
    let s' = resume_by_token o token ok extra s in
    elim (Bool-cases (truthy token)) [
      | inl e ↦ absent_token o' token ok' extra' s' (token_spent o token ok extra s fresh e)
      | inr e ↦ empty_token o' token ok' extra' s' e
    ]
