-- ===== src/Cases/Create/Sound.antt =====
-- What opening cases and updating many keep (cases.service.ts).
use applivery_soar.Common.{
  ℕ, suc, ◌+◌, ◌≡◌, inl, inr, refl, ap, ◌∙◌, String, Bool, true, Option, List, [], ◌∷◌, ◌++◌, arith,
  Bool-cases, includes, length, keep, All,
}
use applivery_soar.Cases.Table.{
  Case, Event, Entry, Store, case_severities, add_case_timeline_entry, Dispatch,
}
use applivery_soar.Cases.Table.Sound.{IsSound, dispatch-IsSound}
use applivery_soar.Cases.Update.{Request, Outcome, updated, failed, update_case}
use applivery_soar.Cases.Update.Result.{update_case-IsSound}
use applivery_soar.Cases.Create.{
  CaseCreatePayload, opened_row, open_case, create_case, BulkResult, note_outcome, bulk_loop,
}

opened_row-IsSound :
    (slug : String) (id now : ℕ) (title severity : String) (device : Option String)
    (techniques : List String)
    → includes case_severities severity ≡ true
    → IsSound (opened_row slug id now title severity device techniques)
opened_row-IsSound slug id now title severity device techniques h = record {
  status_known = refl;
  severity_known = h;
  closing = refl;
}

All-concat :
    (P : Case → Type 0) (kase : Case) (cs : List Case) → P kase → All P cs → All P (cs ++ kase ∷ [])
All-concat P kase [] h k = (h, tt)
All-concat P kase (c ∷ cs) h k = (k.0, All-concat P kase cs h k.1)

open_case-IsSound :
    (dispatch : Dispatch) (now : ℕ) (actor : String) (kase : Case) (s : Store)
    → IsSound kase
    → All IsSound s.cases
    → All IsSound (open_case dispatch now actor kase s).cases
unfolding open_case add_case_timeline_entry
open_case-IsSound dispatch now actor kase s h k =
    dispatch-IsSound dispatch now kase.id Event.created
      (add_case_timeline_entry kase.id Entry.created actor
        (record s { cases = s.cases ++ kase ∷ []; next_id = suc s.next_id }))
      (All-concat IsSound kase s.cases h k)

-- A case that is created by hand keeps the table sound, whatever the payload holds.
pub create_case-IsSound :
    (dispatch : Dispatch) (is_known : String → Bool) (now : ℕ) (slug actor : String)
    (p : CaseCreatePayload) (s : Store)
    → All IsSound s.cases
    → All IsSound (create_case dispatch is_known now slug actor p s).0.cases
unfolding create_case
create_case-IsSound dispatch is_known now slug actor p s h =
    elim (Bool-cases (includes case_severities p.severity)) [
      | inl e ↦ rw e (
          open_case-IsSound dispatch now actor
            (opened_row slug s.next_id now p.title p.severity p.device_id
              (keep is_known p.mitre_techniques))
            s
            (opened_row-IsSound slug s.next_id now p.title p.severity p.device_id
              (keep is_known p.mitre_techniques) e)
            h)
      | inr e ↦ rw e h
    ]

-- The ids that a bulk update reports.
abbrev pub reported : BulkResult → ℕ
reported r = length r.updated_ids + length r.failed_ids

note_outcome-reported :
    (id : ℕ) (o : Outcome) (r : BulkResult) → reported (note_outcome id o r) ≡ suc (reported r)
note_outcome-reported id updated r = omega arith
note_outcome-reported id (failed e) r = omega arith

note_outcome-store : (id : ℕ) (o : Outcome) (r : BulkResult) → (note_outcome id o r).store ≡ r.store
note_outcome-store id updated r = refl
note_outcome-store id (failed e) r = refl

-- A bulk update keeps the table sound and answers for every id that it was given, with an update or an
-- error: a case that is refused stops none of the others.
pub bulk_loop-IsSound :
    (r : Request) (slug : String) (ids : List ℕ) (s : Store)
    → All IsSound s.cases
    → All IsSound (bulk_loop r slug ids s).store.cases
      × (reported (bulk_loop r slug ids s) ≡ length ids)
unfolding bulk_loop
bulk_loop-IsSound r slug [] s h = (h, omega arith)
bulk_loop-IsSound r slug (id ∷ ids) s h =
    let (sound, count) =
      bulk_loop-IsSound r slug ids (update_case r slug id s).0
        (update_case-IsSound r slug id s h) in
    let rest = bulk_loop r slug ids (update_case r slug id s).0 in
    (
      rw (note_outcome-store id (update_case r slug id s).1 rest) sound,
      note_outcome-reported id (update_case r slug id s).1 rest ∙ ap suc count,
    )
