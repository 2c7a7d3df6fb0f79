-- ===== src/Workflow/Resume/Claim.antt =====
-- What a tick claims, and what a token takes (`resumeDueWorkflowSteps` and
-- `resumeWorkflowPendingStepByToken` of durableEngine.ts).
use mathlib.Core.Option
use applivery_soar.Common.{
  ℕ, zero, suc, ◌≤◌, ◌≡◌, refl, ap, String, Bool, true, false, not, none, some, inl, inr, List, [],
  ◌∷◌, map, arith, length, take, keep, find, All, All-keep, length-take-le, Bool-cases, leb,
}
use applivery_soar.Workflow.Store.{Store, Pending}
use applivery_soar.Workflow.Resume.{
  is_due, sort_by_time, insert_by_time, due_rows, has_row_id, stamp, claim, has_token,
}

module _ (P : Pending → Type 0) where
  All-insert : (p : Pending) (qs : List Pending) → P p → All P qs → All P (insert_by_time p qs)
  All-insert p [] h hs = (h, tt)
  All-insert p (q ∷ qs) h hs = elim (Bool-cases (leb p.resume_at q.resume_at)) [
    | inl e ↦ rw e (h, hs)
    | inr e ↦ rw e (hs.0, All-insert p qs h hs.1)
  ]

  All-sort : (ps : List Pending) → All P ps → All P (sort_by_time ps)
  All-sort [] h = tt
  All-sort (p ∷ ps) h = All-insert p (sort_by_time ps) h.0 (All-sort ps h.1)

  All-take : (n : ℕ) (ps : List Pending) → All P ps → All P (take n ps)
  All-take zero ps h = tt
  All-take (suc n) [] h = tt
  All-take (suc n) (p ∷ ps) h = (h.0, All-take n ps h.1)

  -- What holds of the elements that pass a test holds of all that are kept.
  All-kept :
      (t : Pending → Bool) (ps : List Pending) → All (λ p. t p ≡ true → P p) ps → All P (keep t ps)
  All-kept t [] h = tt
  All-kept t (p ∷ ps) h = elim (Bool-cases (t p)) [
    | inl e ↦ rw e (h.0 e, All-kept t ps h.1)
    | inr e ↦ rw e (All-kept t ps h.1)
  ]

-- A tick claims rows that are due and unclaimed, and no more of them than its limit.
pub claim-due :
    (now limit : ℕ) (s : Store)
    → All (λ p. is_due now p ≡ true) (due_rows now limit s)
      × (length (due_rows now limit s) ≤ limit)
unfolding due_rows
claim-due now limit s =
    let due = keep (is_due now) s.pending in
    (
      All-take (λ p. is_due now p ≡ true) limit (sort_by_time due)
          (All-sort (λ p. is_due now p ≡ true) due (All-keep (is_due now) s.pending)),
      length-take-le limit (sort_by_time due),
    )

stamped_not_due :
    (now later : ℕ) (rows : List Pending) (p : Pending)
    → is_due later (stamp now rows p) ≡ true
    → has_row_id rows (stamp now rows p).id ≡ false
stamped_not_due now later rows p h = elim (Bool-cases (has_row_id rows p.id)) [
  | inl e ↦ absurd (ground (arith, e, h))
  | inr e ↦ rw (e, e)
]

stamped-All :
    (now later : ℕ) (rows ps : List Pending)
    → All (λ p. is_due later p ≡ true → has_row_id rows p.id ≡ false) (map (stamp now rows) ps)
stamped-All now later rows [] = tt
stamped-All now later rows (p ∷ ps) =
    (stamped_not_due now later rows p, stamped-All now later rows ps)

due_rows-stamped :
    (now later limit : ℕ) (rows : List Pending) (s : Store)
    → All
        (λ p. has_row_id rows p.id ≡ false)
        (due_rows later limit (record s { pending = map (stamp now rows) s.pending }))
unfolding due_rows
due_rows-stamped now later limit rows s =
    let fresh = λ (p : Pending). has_row_id rows p.id ≡ false in
    let due = keep (is_due later) (map (stamp now rows) s.pending) in
    All-take fresh limit (sort_by_time due) (
      All-sort fresh due (
        All-kept fresh (is_due later) (map (stamp now rows) s.pending)
          (stamped-All now later rows s.pending)))

-- No row is claimed by two ticks: what a later tick claims, at any time and with any limit, has none of
-- the ids that the first tick claimed.
pub claim_exclusive :
    (now later limit limit' : ℕ) (s : Store)
    → All
        (λ p. has_row_id (due_rows now limit s) p.id ≡ false)
        (due_rows later limit' (claim now limit s).0)
unfolding claim
claim_exclusive now later limit limit' s =
    due_rows-stamped now later limit' (due_rows now limit s) s

has_token-stamp :
    (now : ℕ) (rows : List Pending) (token : String) (p : Pending)
    → has_token token (stamp now rows p) ≡ has_token token p
has_token-stamp now rows token p = elim (Bool-cases (has_row_id rows p.id)) [
  | inl e ↦ rw e
  | inr e ↦ rw e
]

find-stamped :
    (now : ℕ) (rows ps : List Pending) (token : String) (row : Pending)
    → find (has_token token) ps ≡ some row
    → find (has_token token) (map (stamp now rows) ps) ≡ some (stamp now rows row)
find-stamped now rows [] token row h = cc
find-stamped now rows (p ∷ ps) token row h = elim (Bool-cases (has_token token p)) [
  | inl e ↦
      let same : some p ≡ some row = rw e at h in
      rw (has_token-stamp now rows token p, e) (ap (Option.map (stamp now rows)) same)
  | inr e ↦
      let later : find (has_token token) ps ≡ some row = rw e at h in
      rw (has_token-stamp now rows token p, e) (find-stamped now rows ps token row later)
]

-- A claim does not keep a token from its row: after a tick has claimed its due rows, the lookup by a
-- token finds the same row as before, with only the mark of the claim, claimed or not.
pub claimed_row_found_by_token :
    (now limit : ℕ) (s : Store) (token : String) (row : Pending)
    → find (has_token token) s.pending ≡ some row
    → find (has_token token) (claim now limit s).0.pending
      ≡ some (stamp now (due_rows now limit s) row)
unfolding claim
claimed_row_found_by_token now limit s token row h =
    find-stamped now (due_rows now limit s) s.pending token row h

pub find-without_token :
    (token : String) (ps : List Pending)
    → find (has_token token) (keep (λ p. not (has_token token p)) ps) ≡ none
find-without_token token [] = refl
find-without_token token (p ∷ ps) = elim (Bool-cases (has_token token p)) [
  | inl e ↦ rw e (find-without_token token ps)
  | inr e ↦ rw (e, e) (find-without_token token ps)
]
