-- ===== src/Cases/Update/Result.antt =====
-- The whole of `updateCase` (cases.service.ts): the invariant of the table, the refusals, and the
-- events that are sent.
use mathlib.Core.List.{append-nil}
use applivery_soar.Common.{
  ap, subst, ◌∙◌, ◌∷◌, ==-eq, find-holds, arith, sym, find, ◌++◌, ℕ, ◌≡◌, refl, String, Bool, ◌&&◌,
  Option, none, some, inl, inr, All, find-All, Bool-cases, Option-cases, is_set, ◌==◌, str_eq,
}
use applivery_soar.Cases.Table.{
  is_open_case_status, set_case, case_at, Case, Store, Event, closed, HttpError, case_of,
  update_case_row, dispatch_and_attach_case_event,
}
use applivery_soar.Cases.Table.Sound.{
  case_at-set_case, dispatch-sent, dispatch-StillThere, IsSound, All-set_case, dispatch-IsSound,
}
use applivery_soar.Cases.Update.{
  [], List, updated, Request, Draft, Stage, proceed, refuse, Acknowledged, untouched, cleared, at,
  stages, acknowledge, final_row, remove_markers, notify_event, failed, commit, update_case,
}
use applivery_soar.Cases.Update.Stages.{transition, SameRows, IsReady, Holds, stages-Holds}

final_row-IsSound :
    (now : ℕ) (kase : Case) (s : Store) (d : Draft)
    → IsReady kase s d
    → IsSound kase
    → IsSound (final_row now d)
final_row-IsSound now kase s d h q = go d.acknowledged
  where
    go : (k : Acknowledged) → IsSound (record (acknowledge k d.next) { updated_at = now })
    go untouched = record {
      status_known = h.status_known q;
      severity_known = h.severity_known q;
      closing = h.closing q;
    }
    go cleared = record {
      status_known = h.status_known q;
      severity_known = h.severity_known q;
      closing = h.closing q;
    }
    go (at t) = record {
      status_known = h.status_known q;
      severity_known = h.severity_known q;
      closing = h.closing q;
    }

final_row-id : (now : ℕ) (d : Draft) → (final_row now d).id ≡ d.next.id
final_row-id now d = go d.acknowledged
  where
    go : (k : Acknowledged) → (acknowledge k d.next).id ≡ d.next.id
    go untouched = refl
    go cleared = refl
    go (at t) = refl

final_row-status : (now : ℕ) (d : Draft) → (final_row now d).status ≡ d.next.status
final_row-status now d = go d.acknowledged
  where
    go : (k : Acknowledged) → (acknowledge k d.next).status ≡ d.next.status
    go untouched = refl
    go cleared = refl
    go (at t) = refl

remove_markers-cases :
    (r : Request) (kase : Case) (e : Event) (s : Store)
    → (remove_markers r kase e s).cases ≡ s.cases
remove_markers-cases r kase closed s =
    elim (Bool-cases (is_set kase.policy_id && is_set kase.device_id && is_set r.authorization)) [
      | inl e ↦ rw e
      | inr e ↦ rw e
    ]
remove_markers-cases r kase _ s = refl

remove_markers-sent :
    (r : Request) (kase : Case) (e : Event) (s : Store) → (remove_markers r kase e s).sent ≡ s.sent
remove_markers-sent r kase closed s =
    elim (Bool-cases (is_set kase.policy_id && is_set kase.device_id && is_set r.authorization)) [
      | inl e ↦ rw e
      | inr e ↦ rw e
    ]
remove_markers-sent r kase _ s = refl

notify_event-IsSound :
    (r : Request) (kase : Case) (e : Option Event) (s : Store)
    → All IsSound s.cases
    → All IsSound (notify_event r kase e s).cases
notify_event-IsSound r kase none s h = h
notify_event-IsSound r kase (some e) s h =
    rw (remove_markers-cases r kase e (dispatch_and_attach_case_event r.dispatch r.now kase.id e s))
      (dispatch-IsSound r.dispatch r.now kase.id e s h)

commit-IsSound :
    (r : Request) (kase : Case) (s : Store) (x : Stage)
    → Holds (IsReady kase s) s x
    → IsSound kase
    → All IsSound s.cases
    → All IsSound (commit r kase x).0.cases
unfolding commit update_case_row
commit-IsSound r kase s (proceed d) h q k =
    notify_event-IsSound r kase d.notify (update_case_row (final_row r.now d) d.store) (
      All-set_case IsSound (final_row r.now d) d.store.cases (final_row-IsSound r.now kase s d h q)
        (rw h.rows.same_cases k))
commit-IsSound r kase s (refuse s' e) h q k = rw h.same_cases k

abbrev in_workspace : String → ℕ → Case → Bool
in_workspace slug id c = str_eq c.workspace_slug slug && c.id == id

-- Every update, accepted or refused, keeps the table sound: the statuses and severities are known ones,
-- and a case has a closing time exactly if its status is not an open one.
pub update_case-IsSound :
    (r : Request) (slug : String) (id : ℕ) (s : Store)
    → All IsSound s.cases
    → All IsSound (update_case r slug id s).0.cases
unfolding update_case
update_case-IsSound r slug id s h = elim (Option-cases (case_of slug id s)) [
  | inl e ↦ rw (e, update_case) h
  | inr (kase, e) ↦
      rw (e, update_case)
        (commit-IsSound r kase s (stages r kase s) (stages-Holds r kase s)
          (find-All IsSound (in_workspace slug id) s.cases h e) h)
]

commit_failed :
    (r : Request) (kase : Case) (s : Store) (x : Stage) {e : HttpError}
    → Holds (IsReady kase s) s x
    → (commit r kase x).1 ≡ failed e
    → SameRows s (commit r kase x).0
unfolding commit
commit_failed r kase s (proceed d) h k = cc
commit_failed r kase s (refuse s' e) h k = h

-- A refused update leaves every case as it was, and sends and removes nothing. (It may have written
-- to the timeline.)
pub update_case_failed :
    (r : Request) (slug : String) (id : ℕ) (s : Store) (error : HttpError)
    → (update_case r slug id s).1 ≡ failed error
    → SameRows s (update_case r slug id s).0
unfolding update_case
update_case_failed r slug id s error k = elim (Option-cases (case_of slug id s)) [
  | inl e ↦
      rw (e, update_case)
        (record { same_cases = refl; same_sent = refl; same_removals = refl; same_next_id = refl })
  | inr (kase, e) ↦
      rw (e, update_case)
        (commit_failed r kase s (stages r kase s) (stages-Holds r kase s)
          (rw (e, update_case) at k))
]

-- The events that a change of status sends.
abbrev pub events_for : ℕ → Option Event → List (ℕ × Event)
events_for id none = []
events_for id (some event) = (id, event) ∷ []

-- The row that is found after an update, and what was sent, by the rows before and after.
abbrev pub Announces : Case → Store → Store → Type 0
Announces kase s s' =
    (row : Case) × (case_at kase.id s' ≡ some row)
    × (s'.sent
        ≡ s.sent
          ++ events_for kase.id
              (transition (is_open_case_status kase.status) (is_open_case_status row.status)))

notify_event-Announces :
    (r : Request) (kase new : Case) (s : Store) (e : Option Event)
    → case_at kase.id s ≡ some new
    → e ≡ transition (is_open_case_status kase.status) (is_open_case_status new.status)
    → Announces kase s (notify_event r kase e s)
notify_event-Announces r kase new s none h t = (new, h, rw (← t) (sym (append-nil s.sent)))
notify_event-Announces r kase new s (some e) h t =
    let s' = dispatch_and_attach_case_event r.dispatch r.now kase.id e s in
    let (row, there, same) = dispatch-StillThere r.dispatch r.now kase.id e s h in
    (
      row,
      rw (remove_markers-cases r kase e s') there,
      rw (remove_markers-sent r kase e s', same, ← t)
          (dispatch-sent r.dispatch r.now kase.id e s h),
    )

written :
    (slug : String) (id : ℕ) (cs : List Case) (kase new : Case)
    → new.id ≡ kase.id
    → find (in_workspace slug id) cs ≡ some kase
    → find (λ c. c.id == kase.id) (set_case new cs) ≡ some new
written slug id cs kase new e h =
    let own : kase.id ≡ id =
      ground (arith, find-holds (in_workspace slug id) cs h, ==-eq kase.id id) in
    subst (λ k. find (λ c. c.id == k) (set_case new cs) ≡ some new) e
      (case_at-set_case new cs (in_workspace slug id)
        (λ c k. ground (arith, k, ==-eq c.id id, own, e)) h)

commit-Announces :
    (r : Request) (slug : String) (id : ℕ) (kase : Case) (s : Store) (x : Stage)
    → Holds (IsReady kase s) s x
    → case_of slug id s ≡ some kase
    → (commit r kase x).1 ≡ updated
    → Announces kase s (commit r kase x).0
unfolding commit update_case_row
commit-Announces r slug id kase s (proceed d) h e k =
    let new = final_row r.now d in
    let base = update_case_row new d.store in
    let there =
      written slug id d.store.cases kase new (final_row-id r.now d ∙ h.same_id)
        (rw h.rows.same_cases e) in
    let told =
      h.notified
      ∙ ap (λ status. transition (is_open_case_status kase.status) (is_open_case_status status))
          (sym (final_row-status r.now d)) in
    let (row, found, sent) = notify_event-Announces r kase new base d.notify there told in
    (
      row,
      found,
      sent
          ∙ ap
              (λ before.
                before
                ++ events_for kase.id
                    (transition (is_open_case_status kase.status) (is_open_case_status row.status)))
              h.rows.same_sent,
    )
commit-Announces r slug id kase s (refuse s' err) h e k = cc

-- An accepted update sends "closed" exactly if it takes the case from an open status to a closed one,
-- "reopened" exactly if it does the reverse, and nothing otherwise.
pub update_case-Announces :
    (r : Request) (slug : String) (id : ℕ) (s : Store) (kase : Case)
    → case_of slug id s ≡ some kase
    → (update_case r slug id s).1 ≡ updated
    → Announces kase s (update_case r slug id s).0
unfolding update_case
update_case-Announces r slug id s kase e k =
    rw (e, update_case)
      (commit-Announces r slug id kase s (stages r kase s) (stages-Holds r kase s) e
        (rw (e, update_case) at k))
