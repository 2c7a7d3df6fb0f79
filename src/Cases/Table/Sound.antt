-- ===== src/Cases/Table/Sound.antt =====
-- What holds of every case in the table (cases.schemas.ts), and how the operations on one row act on
-- the whole table (cases.service.ts).
use applivery_soar.Common.{
  find-holds, ==-eq, sym, find-All, subst, ◌++◌, Option-cases, ==_self, ℕ, ◌≡◌, refl, Bool, true,
  false, not, some, inl, inr, List, [], ◌∷◌, All, find, Bool-cases, is_some, includes, ◌==◌,
}
use applivery_soar.Cases.Table.{
  String, Event, case_at, Dispatch, attach, attach_external_refs, attach_some,
  dispatch_and_attach_case_event, update_case_row, Case, Store, ExternalRef, is_open_case_status,
  case_statuses, case_severities, set_case, add_case_timeline_entry, note_tickets,
}

-- The status and the severity are known ones, and a case has a closing time exactly if it is closed.
pub record IsSound (c : Case) : Type 0 where
  pub status_known : includes case_statuses c.status ≡ true
  pub severity_known : includes case_severities c.severity ≡ true
  pub closing : is_some c.closed_at ≡ not (is_open_case_status c.status)

pub All-set_case :
    (P : Case → Type 0) (new : Case) (cs : List Case) → P new → All P cs → All P (set_case new cs)
All-set_case P new [] h k = tt
All-set_case P new (c ∷ cs) h k = elim (Bool-cases (c.id == new.id)) [
  | inl e ↦ rw e (h, k.1)
  | inr e ↦ rw e (k.0, All-set_case P new cs h k.1)
]

-- The row that was written is found.
-- A test that implies the id fails where the id differs.
fails : (a b : Bool) → (a ≡ true → b ≡ true) → b ≡ false → a ≡ false
fails true b h k = cc (h refl)
fails false b h k = refl

pub case_at-set_case :
    (new : Case) (cs : List Case) {c : Case} (t : Case → Bool)
    → ((d : Case) → t d ≡ true → (d.id == new.id) ≡ true)
    → find t cs ≡ some c
    → find (λ d. d.id == new.id) (set_case new cs) ≡ some new
case_at-set_case new [] t imp e = cc
case_at-set_case new (d ∷ ds) t imp e = elim (Bool-cases (d.id == new.id)) [
  | inl k ↦ rw (k, ==_self new.id)
  | inr k ↦
      rw (k, k) (case_at-set_case new ds t imp (rw (fails (t d) (d.id == new.id) (imp d) k) at e))
]

note_tickets-cases :
    (id : ℕ) (refs : List ExternalRef) (s : Store) → (note_tickets id refs s).cases ≡ s.cases
unfolding add_case_timeline_entry
note_tickets-cases id [] s = refl
note_tickets-cases id (r ∷ rs) s = note_tickets-cases id rs _

note_tickets-sent :
    (id : ℕ) (refs : List ExternalRef) (s : Store) → (note_tickets id refs s).sent ≡ s.sent
unfolding add_case_timeline_entry
note_tickets-sent id [] s = refl
note_tickets-sent id (r ∷ rs) s = note_tickets-sent id rs _

-- Tickets and the time of the update leave a case sound.
with_refs-IsSound :
    (c : Case) (refs : List ExternalRef) (now : ℕ)
    → IsSound c
    → IsSound (record c { external_refs = refs; updated_at = now })
with_refs-IsSound c refs now h = record {
  status_known = h.status_known;
  severity_known = h.severity_known;
  closing = h.closing;
}

attach-IsSound :
    (now : ℕ) (c : Case) (refs : List ExternalRef) (s : Store)
    → IsSound c
    → All IsSound s.cases
    → All IsSound (attach now c refs s).cases
unfolding update_case_row
attach-IsSound now c refs s h k =
    let c' = record c { external_refs = c.external_refs ++ refs; updated_at = now } in
    subst (All IsSound) (sym (note_tickets-cases c.id refs (update_case_row c' s)))
      (All-set_case IsSound c' s.cases (with_refs-IsSound c (c.external_refs ++ refs) now h) k)

attach_external_refs-IsSound :
    (now id : ℕ) (refs : List ExternalRef) (s : Store)
    → All IsSound s.cases
    → All IsSound (attach_external_refs now id refs s).cases
unfolding attach_external_refs
attach_external_refs-IsSound now id refs s h = elim (Option-cases (case_at id s)) [
  | inl e ↦ rw (e, attach_external_refs) h
  | inr (c, e) ↦
      rw (e, attach_external_refs)
        (attach-IsSound now c refs s (find-All IsSound (λ c. c.id == id) s.cases h e) h)
]

attach_some-IsSound :
    (now id : ℕ) (refs : List ExternalRef) (s : Store)
    → All IsSound s.cases
    → All IsSound (attach_some now id refs s).cases
attach_some-IsSound now id [] s h = h
attach_some-IsSound now id (r ∷ rs) s h = attach_external_refs-IsSound now id (r ∷ rs) s h

pub dispatch-IsSound :
    (dispatch : Dispatch) (now id : ℕ) (event : Event) (s : Store)
    → All IsSound s.cases
    → All IsSound (dispatch_and_attach_case_event dispatch now id event s).cases
unfolding dispatch_and_attach_case_event
dispatch-IsSound dispatch now id event s h = elim (Option-cases (case_at id s)) [
  | inl e ↦ rw (e, dispatch_and_attach_case_event) h
  | inr (c, e) ↦
      rw (e, dispatch_and_attach_case_event)
        (attach_some-IsSound now id (dispatch c event)
          (record s { sent = s.sent ++ (id, event) ∷ [] }) h)
]

attach_external_refs-sent :
    (now id : ℕ) (refs : List ExternalRef) (s : Store)
    → (attach_external_refs now id refs s).sent ≡ s.sent
unfolding attach_external_refs update_case_row
attach_external_refs-sent now id refs s = elim (Option-cases (case_at id s)) [
  | inl e ↦ rw (e, attach_external_refs)
  | inr (c, e) ↦
      let c' = record c { external_refs = c.external_refs ++ refs; updated_at = now } in
      rw (e, attach_external_refs) (note_tickets-sent c.id refs (update_case_row c' s))
]

attach_some-sent :
    (now id : ℕ) (refs : List ExternalRef) (s : Store) → (attach_some now id refs s).sent ≡ s.sent
attach_some-sent now id [] s = refl
attach_some-sent now id (r ∷ rs) s = attach_external_refs-sent now id (r ∷ rs) s

-- One event is sent for a case that the table has.
pub dispatch-sent :
    (dispatch : Dispatch) (now id : ℕ) (event : Event) (s : Store) {c : Case}
    → case_at id s ≡ some c
    → (dispatch_and_attach_case_event dispatch now id event s).sent ≡ s.sent ++ (id, event) ∷ []
unfolding dispatch_and_attach_case_event
dispatch-sent dispatch now id event s {c} e =
    rw (e, dispatch_and_attach_case_event)
      (attach_some-sent now id (dispatch c event) (record s { sent = s.sent ++ (id, event) ∷ [] }))

-- A case that the table has is there after the dispatch, with the status that it had.
abbrev pub StillThere : ℕ → String → Store → Type 0
StillThere id status s = (c : Case) × (case_at id s ≡ some c) × (c.status ≡ status)

attach_some-StillThere :
    (now id : ℕ) (refs : List ExternalRef) (s : Store) {c : Case}
    → case_at id s ≡ some c
    → StillThere id c.status (attach_some now id refs s)
unfolding attach_external_refs update_case_row
attach_some-StillThere now id [] s {c} e = (c, e, refl)
attach_some-StillThere now id (r ∷ rs) s {c} e =
    let c' = record c { external_refs = c.external_refs ++ r ∷ rs; updated_at = now } in
    let same : c.id ≡ id = ==-eq c.id id (find-holds (λ d. d.id == id) s.cases e) in
    (
      c',
      rw (e, attach_external_refs)
          (rw (note_tickets-cases c.id (r ∷ rs) (update_case_row c' s)) (
            subst (λ k. find (λ d. d.id == k) (set_case c' s.cases) ≡ some c') same
              (case_at-set_case c' s.cases (λ d. d.id == c.id) (λ d h. h)
                (subst (λ k. find (λ d. d.id == k) s.cases ≡ some c) (sym same) e)))),
      refl,
    )

pub dispatch-StillThere :
    (dispatch : Dispatch) (now id : ℕ) (event : Event) (s : Store) {c : Case}
    → case_at id s ≡ some c
    → StillThere id c.status (dispatch_and_attach_case_event dispatch now id event s)
unfolding dispatch_and_attach_case_event
dispatch-StillThere dispatch now id event s {c} e =
    rw (e, dispatch_and_attach_case_event)
      (attach_some-StillThere now id (dispatch c event)
        (record s { sent = s.sent ++ (id, event) ∷ [] }) e)
