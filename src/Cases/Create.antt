-- ===== src/Cases/Create.antt =====
-- Cases that are opened by hand or by a trigger, and updates of many at once: `createCase`,
-- `openCaseForTrigger` and `bulkUpdateCases` of cases.service.ts. The notes of a case, its enrichment
-- from them, the ids of its workflow runs and its source are not part of the model's row.
pub mod Sound
use applivery_soar.Common.{
  if◌then◌else◌, ℕ, min, max, zero, suc, ◌+◌, ◌-◌, ◌*◌, ◌≤◌, ◌<◌, ◌≡◌, ◌≢◌, ◌↔◌, ◌⊎◌, inl, inr,
  refl, sym, ap, subst, ◌∙◌, String, Bool, true, false, not, ◌&&◌, ◌||◌, Option, none, some, List,
  [], ◌∷◌, ◌++◌, map, arith, ltb, leb, ◌==◌, ==_self, ==-eq, Bool-cases, Option-cases, or_else,
  is_some, or_string, join, str_eq, str_eq-true, str_eq_self, str_eq-false, truthy, includes,
  opt_eq, is_set, length, take, drop, any, all, keep, find, count_if, All, find-All, find-holds,
  All-keep, keep-all, all-keep, length-append, length-keep-le, lookup, insert, delete_keys,
  lookup-insert, lookup-delete_keys,
}
use applivery_soar.Cases.Table.{
  Case, Entry, created, Event, Store, case_severities, add_case_timeline_entry, Dispatch,
  dispatch_and_attach_case_event, HttpError, http_error, system,
}
use applivery_soar.Cases.Update.{Request, CaseUpdatePayload, Outcome, updated, failed, update_case}

pub record CaseCreatePayload : Type 0 where
  pub title : String
  pub severity : String
  pub device_id : Option String
  pub mitre_techniques : List String

abbrev pub opened_row : String → ℕ → ℕ → String → String → Option String → List String → Case
opened_row slug id now title severity device_id techniques = record {
  id = id;
  workspace_slug = slug;
  title = title;
  status = "open";
  severity = severity;
  device_id = device_id;
  policy_id = none;
  violation_ids = [];
  assignee = none;
  created_at = now;
  updated_at = now;
  closed_at = none;
  acknowledged_at = none;
  sla_clock_started_at = some now;
  sla_ack_breach_notified_at = none;
  sla_resolve_breach_notified_at = none;
  mitre_techniques = techniques;
  external_refs = [];
  workflow_run_ids = [];
}

-- The row is written, the timeline says so, and the integrations are told.
unfoldable pub open_case : Dispatch → ℕ → String → Case → Store → Store
unfolding add_case_timeline_entry dispatch_and_attach_case_event
open_case dispatch now actor kase s =
    dispatch_and_attach_case_event dispatch now kase.id Event.created (
      add_case_timeline_entry kase.id Entry.created actor
        (record s { cases = s.cases ++ kase ∷ []; next_id = suc s.next_id }))

-- `createCase`, up to the enrichment and the auto-run
unfoldable pub create_case :
    Dispatch → (String → Bool) → ℕ → String → String → CaseCreatePayload → Store → Store × Outcome
unfolding open_case
create_case dispatch is_known now slug actor p s =
    if includes case_severities p.severity
    then (
      open_case dispatch now actor
          (opened_row slug s.next_id now p.title p.severity p.device_id
            (keep is_known p.mitre_techniques))
          s,
      updated,
    )
    else (
      s,
      failed (http_error 400 "severity must be one of [\"low\",\"medium\",\"high\",\"critical\"]"),
    )

abbrev pub trigger_title : String → Option (String × String) → String
trigger_title name none = join "Trigger: " name
trigger_title name (some (id, display_name)) =
    join "Trigger: " (join name (join " — " display_name))

abbrev pub device_id_of : Option (String × String) → Option String
device_id_of none = none
device_id_of (some (id, display_name)) = some id

-- `openCaseForTrigger`; a device is its id and its display name
unfoldable pub open_case_for_trigger :
    Dispatch → ℕ → String → String → String → Option (String × String) → Store → Store × ℕ
unfolding open_case
open_case_for_trigger dispatch now slug name severity device s = (
  open_case dispatch now system
      (opened_row slug s.next_id now (trigger_title name device)
        (if truthy severity then severity else "medium") (device_id_of device) [])
      s,
  s.next_id,
)

pub record BulkResult : Type 0 where
  pub store : Store
  pub updated_ids : List ℕ
  pub failed_ids : List (ℕ × HttpError)

abbrev pub note_outcome : ℕ → Outcome → BulkResult → BulkResult
note_outcome id updated r = record r { updated_ids = id ∷ r.updated_ids }
note_outcome id (failed e) r = record r { failed_ids = (id, e) ∷ r.failed_ids }

-- The loop over the ids.
unfoldable pub bulk_loop : Request → String → List ℕ → Store → BulkResult
bulk_loop r slug [] s = record { store = s; updated_ids = []; failed_ids = [] }
bulk_loop r slug (id ∷ ids) s =
    let (after, outcome) = update_case r slug id s in
    note_outcome id outcome (bulk_loop r slug ids after)

pub data Bulk : Type 0 where
  refused : HttpError → Bulk
  done : BulkResult → Bulk

abbrev pub bulk_payload : Option String → Option String → CaseUpdatePayload
bulk_payload status assignee = record {
  title = none;
  status = status;
  severity = none;
  assignee = assignee;
  mitre_techniques = none;
}

-- `bulkUpdateCases`
unfoldable pub bulk_update_cases :
    Request → String → Option String → Option String → List ℕ → Store → Bulk
unfolding bulk_loop
bulk_update_cases r slug status assignee ids s =
    if not (is_some status) && not (is_some assignee)
    then refused (http_error 400 "Provide at least one of status or assignee")
    else done (bulk_loop (record r { payload = bulk_payload status assignee }) slug ids s)
