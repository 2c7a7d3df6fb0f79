-- ===== src/Compliance/Review/Approve.antt =====
-- What an approval does, and that it is done once (modules/compliance/compliance.service.ts,
-- `approveViolationCore` and `bulkApproveViolations`).
use applivery_soar.Compliance.Pass.Table.{
  SuppressionEntry, Workflow, Violation, ViolationStatus, approved, State, pair_key,
}
use applivery_soar.Compliance.Pass.Visit.Flag.{is_some-if, flagged, kept}
use applivery_soar.Compliance.Review.{
  set_entry, approve_with, Desk, Reviewer, Started, ReviewOutcome, accepted, refused, is_pending,
  violation_at, set_violation, set_status, linked_workflow, approved_row, approve_launched,
  approve_pending, approve_found, approve_violation_core, bulk_review, note_reviewed,
  bulk_approve_violations, BulkResult,
}
use applivery_soar.Cases.Table.{http_error, HttpError}
use applivery_soar.Common.{
  suc, ◌+◌, ◌≡◌, inl, inr, refl, sym, ap, subst, ◌∙◌, String, true, Option, none, some, List, [],
  ◌∷◌, ◌++◌, arith, Bool-cases, is_some, str_eq, str_eq-true, str_eq_self, length, find, find-holds,
  length-append, lookup, lookup-insert,
}

set_entry-flagged :
    (key : String) (status : ViolationStatus) (known : Option SuppressionEntry) (state : State)
    (k : String)
    → lookup key state ≡ known
    → flagged (set_entry key status known state) k ≡ flagged state k
set_entry-flagged key status none state k e = refl
set_entry-flagged key status (some entry) state k e =
    rw (lookup-insert key k (record entry { status = status }) state)
      (is_some-if (str_eq key k) _ _ ∙ sym (kept key k state true (ap is_some e)))

-- The status of an entry changes no flag.
pub set_status-flagged :
    (key : String) (status : ViolationStatus) (state : State) (k : String)
    → flagged (set_status key status state) k ≡ flagged state k
set_status-flagged key status state k = set_entry-flagged key status (lookup key state) state k refl

count_runs : (xs : List Started) (x : Started) → length (xs ++ x ∷ []) ≡ suc (length xs)
count_runs xs x = omega (arith, length-append xs (x ∷ []))

module _ {ℓ} {Condition : Type ℓ} where
  find-set_violation :
      (id : String) (new : Violation Condition) (vs : List (Violation Condition))
      (v : Violation Condition)
      → new.id ≡ id
      → find (λ x. str_eq x.id id) vs ≡ some v
      → find (λ x. str_eq x.id id) (set_violation new vs) ≡ some new
  find-set_violation id new [] v h e = cc
  find-set_violation id new (x ∷ xs) v h e = elim (Bool-cases (str_eq x.id id)) [
    | inl k ↦ rw (ap (str_eq x.id) h ∙ k, ap (λ z. str_eq z id) h ∙ str_eq_self id) refl
    | inr k ↦ rw (ap (str_eq x.id) h ∙ k, k) (find-set_violation id new xs v h (rw k at e))
  ]

  -- What an approval of a violation has found, and what it leaves.
  pub record IsApproval (r : Reviewer) (id : String) (t t' : Desk Condition) : Type ℓ where
    pub violation : Violation Condition
    pub workflow : Workflow
    pub run_id : String
    pub found : violation_at id t ≡ some violation
    pub was_pending : is_pending violation.status ≡ true
    pub linked : linked_workflow r.workflows violation.workflow_id ≡ some workflow
    pub launched : r.launch t.attempts workflow violation.device_id ≡ some run_id
    pub written :
        violation_at id t'
        ≡ some (record violation {
          status = approved;
          resolved_at = some r.now;
          workflow_run_id = some run_id;
        })
    pub one_run :
        t'.runs
        ≡ t.runs
          ++ record { workflow_id = workflow.id; device_id = violation.device_id; run_id = run_id }
            ∷ []
    pub same_flags : (key : String) → flagged t'.state key ≡ flagged t.state key
    pub cleaned : t'.cleanups ≡ t.cleanups ++ (violation.policy_id, violation.device_id) ∷ []

  approve_launched-IsApproval :
      (r : Reviewer) (id : String) (t t' : Desk Condition) (v : Violation Condition) (w : Workflow)
      → violation_at id t ≡ some v
      → is_pending v.status ≡ true
      → linked_workflow r.workflows v.workflow_id ≡ some w
      → (run : Option String) → r.launch t.attempts w v.device_id ≡ run
      → approve_launched r v w run t ≡ accepted t'
      → IsApproval r id t t'
  approve_launched-IsApproval r id t t' v w f p l none e h = cc
  approve_launched-IsApproval r id t t' v w f p l (some run) e h =
      let same : approve_with r v w run t ≡ t' = cc in
      let named = str_eq-true v.id id (find-holds (λ x. str_eq x.id id) t.violations f) in
      subst (IsApproval r id t) same (record {
        violation = v;
        workflow = w;
        run_id = run;
        found = f;
        was_pending = p;
        linked = l;
        launched = e;
        written = find-set_violation id (approved_row r run v) t.violations v named f;
        one_run = refl;
        same_flags = set_status-flagged (pair_key v.policy_id v.device_id) approved t.state;
        cleaned = refl;
      })

  approve_pending-IsApproval :
      (r : Reviewer) (id : String) (t t' : Desk Condition) (v : Violation Condition)
      → violation_at id t ≡ some v
      → is_pending v.status ≡ true
      → (linked : Option Workflow) → linked_workflow r.workflows v.workflow_id ≡ linked
      → approve_pending r v linked t ≡ accepted t'
      → IsApproval r id t t'
  approve_pending-IsApproval r id t t' v f p none l h = cc
  approve_pending-IsApproval r id t t' v f p (some w) l h =
      approve_launched-IsApproval r id t t' v w f p l (r.launch t.attempts w v.device_id) refl h

  approve_found-IsApproval :
      (r : Reviewer) (id : String) (t t' : Desk Condition) (found : Option (Violation Condition))
      → violation_at id t ≡ found
      → approve_found r found t ≡ accepted t'
      → IsApproval r id t t'
  approve_found-IsApproval r id t t' none f h = cc
  approve_found-IsApproval r id t t' (some v) f h = elim (Bool-cases (is_pending v.status)) [
    | inl p ↦
        approve_pending-IsApproval r id t t' v f p (linked_workflow r.workflows v.workflow_id) refl
          (rw p at h)
    | inr p ↦ let no_way : refused _ ≡ accepted t' = rw p at h in cc
  ]

  -- An approval that succeeds has found a pending violation whose workflow exists, and has started
  -- exactly one run of that workflow for the device; it stores the violation as
  -- approved, resolved at the time of the call and with the id of the run, and as it was in every other
  -- field; it asks for the removal of the markers, and leaves every pair flagged as it was.
  pub approve_violation_core-IsApproval :
      (r : Reviewer) (id : String) (t t' : Desk Condition)
      → approve_violation_core r id t ≡ accepted t'
      → IsApproval r id t t'
  unfolding approve_violation_core
  approve_violation_core-IsApproval r id t t' h =
      approve_found-IsApproval r id t t' (violation_at id t) refl h

  -- A violation that has been approved is refused to every later reviewer, who starts no run for it.
  pub approve_violation_core_once :
      (r r' : Reviewer) (id : String) (t t' : Desk Condition)
      → approve_violation_core r id t ≡ accepted t'
      → approve_violation_core r' id t' ≡ refused (http_error 400 "Violation already 'approved'")
  unfolding approve_violation_core
  approve_violation_core_once r r' id t t' h =
      let k = approve_found-IsApproval r id t t' (violation_at id t) refl h in
      ap (λ found. approve_found r' found t') k.written

  -- How the ids of a bulk approval are answered, one after the other: an id that is approved is listed
  -- as done and the next one is tried on the desk that the approval left; an id that is refused is
  -- listed with the error of its refusal and leaves the desk as it was.
  pub data Answered (r : Reviewer)
      : List String
        → Desk Condition
        → List String
        → List (String × HttpError)
        → Desk Condition
        → Type ℓ where
    all_answered : {t : Desk Condition} → Answered r [] t [] [] t
    did :
        {id : String} {ids done : List String} {errors : List (String × HttpError)}
        {t u t' : Desk Condition}
        → approve_violation_core r id t ≡ accepted u
        → Answered r ids u done errors t'
        → Answered r (id ∷ ids) t (id ∷ done) errors t'
    did_not :
        {id : String} {e : HttpError} {ids done : List String} {errors : List (String × HttpError)}
        {t t' : Desk Condition}
        → approve_violation_core r id t ≡ refused e
        → Answered r ids t done errors t'
        → Answered r (id ∷ ids) t done ((id, e) ∷ errors) t'

  -- The lists of the answer are those of the ids that were approved and of those that were refused,
  -- and the runs started are as many as the approvals.
  abbrev pub IsCounted : Reviewer → List String → Desk Condition → BulkResult Condition → Type ℓ
  IsCounted r ids t b =
      Answered r ids t b.succeeded b.not_done b.desk
      × (length b.succeeded + length b.not_done ≡ length ids)
      × (length b.desk.runs ≡ length t.runs + length b.succeeded)

  note_reviewed-IsCounted :
      (r : Reviewer) (id : String) (ids : List String) (t : Desk Condition)
      → ((u : Desk Condition) → IsCounted r ids u (bulk_review (approve_violation_core r) ids u))
      → (answer : ReviewOutcome (Desk Condition)) → approve_violation_core r id t ≡ answer
      → IsCounted r
          (id ∷ ids)
          t
          (note_reviewed id answer t (bulk_review (approve_violation_core r) ids))
  note_reviewed-IsCounted r id ids t rest (accepted u) e =
      let a = approve_violation_core-IsApproval r id t u e in
      let more : length u.runs ≡ suc (length t.runs) = ap length a.one_run ∙ count_runs t.runs _ in
      let (answered, all_ids, runs) = rest u in
      (did e answered, omega (arith, all_ids), omega (arith, runs, more))
  note_reviewed-IsCounted r id ids t rest (refused x) e =
      let (answered, all_ids, runs) = rest t in
      (did_not e answered, omega (arith, all_ids), omega (arith, runs))

  bulk_review-IsCounted :
      (r : Reviewer) (ids : List String) (t : Desk Condition)
      → IsCounted r ids t (bulk_review (approve_violation_core r) ids t)
  bulk_review-IsCounted r [] t = (all_answered, omega arith, omega arith)
  bulk_review-IsCounted r (id ∷ ids) t =
      note_reviewed-IsCounted r id ids t (bulk_review-IsCounted r ids)
        (approve_violation_core r id t) refl

  -- Every id of a bulk approval is answered in its turn: it is listed among the approved ones, or with
  -- the very error of its refusal, and a refusal changes nothing for the ids that follow. The
  -- runs started are as many as the approvals.
  pub bulk_approve_violations-IsCounted :
      (r : Reviewer) (ids : List String) (t : Desk Condition)
      → IsCounted r ids t (bulk_approve_violations r ids t)
  unfolding bulk_approve_violations
  bulk_approve_violations-IsCounted r ids t = bulk_review-IsCounted r ids t
