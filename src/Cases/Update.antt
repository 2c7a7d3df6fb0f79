-- ===== src/Cases/Update.antt =====
-- `updateCase` of cases.service.ts: its stages in order, with the writes that each makes before the
-- next one may refuse the request.
pub mod Stages
pub mod Result
use applivery_soar.Common.{
  is_set, ℕ, String, Bool, true, false, not, ◌&&◌, Option, none, some, List, [], ◌∷◌, ◌++◌, str_eq,
  truthy, includes, if◌then◌else◌, keep, opt_eq, is_some,
}
use applivery_soar.Cases.Table.{
  Case, Entry, severity_changed, assigned, unassigned, mitre_updated, status_changed, Event, closed,
  reopened, Store, case_statuses, case_severities, is_open_case_status, add_case_timeline_entry,
  update_case_row, case_of, Dispatch, dispatch_and_attach_case_event, HttpError, http_error,
}

-- A field that is undefined or null is `none`.
pub record CaseUpdatePayload : Type 0 where
  pub title : Option String
  pub status : Option String
  pub severity : Option String
  pub assignee : Option String
  pub mitre_techniques : Option (List String)

-- The request beside its payload.
pub record Request : Type 0 where
  pub payload : CaseUpdatePayload
  pub actor : String
  pub authorization : Option String
  pub now : ℕ
  pub is_known : String → Bool  -- `isKnownMitreTechnique`
  pub dispatch : Dispatch

-- `newAcknowledgedAt`: undefined, null or a time.
pub data Acknowledged : Type 0 where
  untouched : Acknowledged
  cleared : Acknowledged
  at : ℕ → Acknowledged

-- The row as it will be written, the acknowledgement, the event to send, and the tables.
pub record Draft : Type 0 where
  pub next : Case
  pub acknowledged : Acknowledged
  pub notify : Option Event
  pub store : Store

pub data Stage : Type 0 where
  proceed : Draft → Stage
  refuse : Store → HttpError → Stage

abbrev pub then_stage : Stage → (Draft → Stage) → Stage
then_stage (proceed d) f = f d
then_stage (refuse s e) f = refuse s e

abbrev pub log_entry : Request → Case → Entry → Store → Store
log_entry r kase entry s = add_case_timeline_entry kase.id entry r.actor s

abbrev pub changed : Option String → String → Bool
changed none old = false
changed (some new) old = not (str_eq new old)

abbrev pub title_stage : Request → Case → Store → Draft
title_stage r kase s = record {
  next = elim r.payload.title [ some t ↦ record kase { title = t } | none ↦ kase ];
  acknowledged = untouched;
  notify = none;
  store = s;
}

set_severity : Request → Case → String → Draft → Stage
set_severity r kase severity d =
    if str_eq severity kase.severity
    then proceed d
    else if includes case_severities severity
    then proceed (record d {
      next = record d.next { severity = severity };
      store = log_entry r kase (severity_changed kase.severity severity) d.store;
    })
    else refuse d.store
        (http_error 400 "severity must be one of [\"low\",\"medium\",\"high\",\"critical\"]")

severity_stage : Request → Case → Option String → Draft → Stage
unfolding set_severity
severity_stage r kase none d = proceed d
severity_stage r kase (some severity) d = set_severity r kase severity d

abbrev pub assigned_entry : String → Entry
assigned_entry a = if truthy a then assigned a else unassigned

abbrev pub assignee_value : String → Option String
assignee_value a = if truthy a then some a else none

-- The first assignee acknowledges the case.
abbrev pub acknowledged_by : Case → ℕ → String → Acknowledged → Acknowledged
acknowledged_by kase now a k = if not (is_some kase.acknowledged_at) && truthy a then at now else k

assignee_stage : Request → Case → Option String → Draft → Stage
assignee_stage r kase none d = proceed d
assignee_stage r kase (some a) d =
    if opt_eq (some a) kase.assignee
    then proceed d
    else proceed (record d {
      next = record d.next { assignee = assignee_value a };
      acknowledged = acknowledged_by kase r.now a d.acknowledged;
      store = log_entry r kase (assigned_entry a) d.store;
    })

abbrev pub list_eq : List String → List String → Bool
list_eq [] [] = true
list_eq [] (y ∷ ys) = false
list_eq (x ∷ xs) [] = false
list_eq (x ∷ xs) (y ∷ ys) = str_eq x y && list_eq xs ys

mitre_stage : Request → Case → Option (List String) → Draft → Stage
mitre_stage r kase none d = proceed d
mitre_stage r kase (some techniques) d =
    if list_eq (keep r.is_known techniques) kase.mitre_techniques
    then proceed d
    else proceed (record d {
      next = record d.next { mitre_techniques = keep r.is_known techniques };
      store = log_entry r kase mitre_updated d.store;
    })

-- `!kase.acknowledgedAt && newAcknowledgedAt === undefined && status === "investigating"`
abbrev pub acknowledged_by_status : Case → ℕ → String → Acknowledged → Acknowledged
acknowledged_by_status kase now status untouched =
    if not (is_some kase.acknowledged_at) && str_eq status "investigating"
    then at now
    else untouched
acknowledged_by_status kase now status cleared = cleared
acknowledged_by_status kase now status (at t) = at t

-- What a change of status does to the row, by whether the case was and is closed.
move : ℕ → Bool → Bool → Draft → Draft
move now false true d = record d {
  next = record d.next { closed_at = some now };
  notify = some closed;
}
move now true false d = record d {
  next = record d.next {
    closed_at = none;
    sla_clock_started_at = some now;
    sla_ack_breach_notified_at = none;
    sla_resolve_breach_notified_at = none;
  };
  acknowledged = cleared;
  notify = some reopened;
}
move now _ _ d = d

set_status : Request → Case → String → Draft → Stage
unfolding move
set_status r kase status d =
    if str_eq status kase.status
    then proceed d
    else if includes case_statuses status
    then proceed (
        move r.now (not (is_open_case_status kase.status)) (not (is_open_case_status status))
          (record d {
            next = record d.next { status = status };
            acknowledged = acknowledged_by_status kase r.now status d.acknowledged;
            store = log_entry r kase (status_changed kase.status status) d.store;
          }))
    else refuse d.store (
        http_error 400
          "status must be one of [\"open\",\"investigating\",\"resolved\",\"closed\",\"false_positive\"]")

status_stage : Request → Case → Option String → Draft → Stage
unfolding set_status
status_stage r kase none d = proceed d
status_stage r kase (some status) d = set_status r kase status d

-- All that may refuse the request.
unfoldable pub stages : Request → Case → Store → Stage
unfolding severity_stage assignee_stage mitre_stage status_stage
stages r kase s = then_stage (severity_stage r kase r.payload.severity (title_stage r kase s)) λ d.
    then_stage (assignee_stage r kase r.payload.assignee d) λ d.
      then_stage (mitre_stage r kase r.payload.mitre_techniques d)
        λ d. status_stage r kase r.payload.status d

abbrev pub acknowledge : Acknowledged → Case → Case
acknowledge untouched c = c
acknowledge cleared c = record c { acknowledged_at = none }
acknowledge (at t) c = record c { acknowledged_at = some t }

-- The row that is written.
abbrev pub final_row : ℕ → Draft → Case
final_row now d = record (acknowledge d.acknowledged d.next) { updated_at = now }

-- A closed case of a policy on a device takes the compliance markers off the device.
abbrev pub remove_markers : Request → Case → Event → Store → Store
remove_markers r kase closed s =
    if is_set kase.policy_id && is_set kase.device_id && is_set r.authorization
    then record s { removals = s.removals ++ kase.id ∷ [] }
    else s
remove_markers r kase _ s = s

abbrev pub notify_event : Request → Case → Option Event → Store → Store
notify_event r kase none s = s
notify_event r kase (some event) s =
    remove_markers r kase event (dispatch_and_attach_case_event r.dispatch r.now kase.id event s)

pub data Outcome : Type 0 where
  updated : Outcome
  failed : HttpError → Outcome

unfoldable pub commit : Request → Case → Stage → Store × Outcome
unfolding update_case_row dispatch_and_attach_case_event
commit r kase (proceed d) =
    (notify_event r kase d.notify (update_case_row (final_row r.now d) d.store), updated)
commit r kase (refuse s e) = (s, failed e)

-- `updateCase`
unfoldable pub update_case : Request → String → ℕ → Store → Store × Outcome
unfolding stages commit
update_case r slug id s = elim (case_of slug id s) [
  | none ↦ (s, failed (http_error 404 "Case not found"))
  | some kase ↦ commit r kase (stages r kase s)
]
