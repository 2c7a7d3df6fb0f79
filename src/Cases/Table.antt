-- ===== src/Cases/Table.antt =====
-- The tables of the cases module (cases.schemas.ts, and the database calls of cases.service.ts): cases
-- and their timeline, with the events that go to the integrations. A time is a number of
-- milliseconds; the database calls are taken to succeed. The messages of the timeline are values of
-- `Entry`, with a constructor for each template of the source.
pub mod Sound
use applivery_soar.Common.{
  ◌==◌, ℕ, String, Bool, ◌&&◌, Option, none, some, List, [], ◌∷◌, ◌++◌, str_eq, includes,
  if◌then◌else◌, find,
}

-- `CASE_STATUSES`, `CASE_OPEN_STATUSES` and `CASE_SEVERITIES`
abbrev pub case_statuses : List String
case_statuses = "open" ∷ "investigating" ∷ "resolved" ∷ "closed" ∷ "false_positive" ∷ []

abbrev pub case_open_statuses : List String
case_open_statuses = "open" ∷ "investigating" ∷ []

abbrev pub case_severities : List String
case_severities = "low" ∷ "medium" ∷ "high" ∷ "critical" ∷ []

-- `isOpenCaseStatus`
abbrev pub is_open_case_status : String → Bool
is_open_case_status status = includes case_open_statuses status

pub record ExternalRef : Type 0 where
  pub type : String
  pub id : String

pub record Case : Type 0 where
  pub id : ℕ
  pub workspace_slug : String
  pub title : String
  pub status : String
  pub severity : String
  pub device_id : Option String
  pub policy_id : Option String
  pub violation_ids : List String
  pub assignee : Option String
  pub created_at : ℕ
  pub updated_at : ℕ
  pub closed_at : Option ℕ
  pub acknowledged_at : Option ℕ
  pub sla_clock_started_at : Option ℕ
  pub sla_ack_breach_notified_at : Option ℕ
  pub sla_resolve_breach_notified_at : Option ℕ
  pub mitre_techniques : List String
  pub external_refs : List ExternalRef
  pub workflow_run_ids : List String

pub data Entry : Type 0 where
  created : Entry
  severity_changed : String → String → Entry
  assigned : String → Entry
  unassigned : Entry
  mitre_updated : Entry
  status_changed : String → String → Entry
  violation_linked : Entry
  reopened : Entry
  auto_resolved : Entry
  device_recovered : Entry
  ticket_created : ExternalRef → Entry
  ack_sla_breached : Entry
  resolve_sla_breached : Entry
  run_shared : String → Option String → Entry  -- the workflow, and the escalated risk tier
  run_started : String → Option String → Entry
  violation_approved : String → String → Entry  -- by whom, and the workflow
  violation_dismissed : String → Entry

pub data Event : Type 0 where
  created closed reopened : Event

pub record Timeline : Type 0 where
  pub case_id : ℕ
  pub entry : Entry
  pub actor : String

-- `removals` lists the cases for which the compliance markers of the device were to be removed.
pub record Store : Type 0 where
  pub cases : List Case
  pub timeline : List Timeline
  pub sent : List (ℕ × Event)
  pub removals : List ℕ
  pub next_id : ℕ

-- `addCaseTimelineEntry`
unfoldable pub add_case_timeline_entry : ℕ → Entry → String → Store → Store
add_case_timeline_entry case_id entry actor s = record s {
  timeline = s.timeline ++ record { case_id = case_id; entry = entry; actor = actor } ∷ [];
}

abbrev pub system : String
system = "system"

abbrev pub set_case : Case → List Case → List Case
set_case new [] = []
set_case new (c ∷ cs) = if c.id == new.id then new ∷ cs else c ∷ set_case new cs

-- `prisma.case.update`
unfoldable pub update_case_row : Case → Store → Store
update_case_row new s = record s { cases = set_case new s.cases }

-- `findUnique({ where: { id } })`, and `findFirst({ where: { workspaceSlug, id } })`
abbrev pub case_at : ℕ → Store → Option Case
case_at id s = find (λ c. c.id == id) s.cases

abbrev pub case_of : String → ℕ → Store → Option Case
case_of slug id s = find (λ c. str_eq c.workspace_slug slug && c.id == id) s.cases

abbrev pub note_tickets : ℕ → List ExternalRef → Store → Store
note_tickets id [] s = s
note_tickets id (r ∷ rs) s =
    note_tickets id rs (add_case_timeline_entry id (ticket_created r) system s)

abbrev pub attach : ℕ → Case → List ExternalRef → Store → Store
attach now c refs s =
    note_tickets c.id refs
      (update_case_row (record c { external_refs = c.external_refs ++ refs; updated_at = now }) s)

-- `attachExternalRefs`
unfoldable pub attach_external_refs : ℕ → ℕ → List ExternalRef → Store → Store
unfolding update_case_row add_case_timeline_entry
attach_external_refs now id refs s = elim (case_at id s) [ none ↦ s | some c ↦ attach now c refs s ]

-- `workflowRunIds: { push: runId }` of a case, and the entry that tells of it
unfoldable pub link_run : ℕ → String → Entry → String → ℕ → Store → Store
unfolding update_case_row add_case_timeline_entry
link_run case_id run_id entry actor now s = elim (case_at case_id s) [
  | none ↦ s
  | some c ↦ add_case_timeline_entry case_id entry actor (
      update_case_row
        (record c { workflow_run_ids = c.workflow_run_ids ++ run_id ∷ []; updated_at = now }) s)
]

-- What the integrations answer: the tickets that they opened (`dispatchCaseIntegrations`).
abbrev pub Dispatch : Type 0
Dispatch = Case → Event → List ExternalRef

abbrev pub attach_some : ℕ → ℕ → List ExternalRef → Store → Store
attach_some now id [] s = s
attach_some now id (r ∷ rs) s = attach_external_refs now id (r ∷ rs) s

-- `dispatchAndAttachCaseEvent`
unfoldable pub dispatch_and_attach_case_event : Dispatch → ℕ → ℕ → Event → Store → Store
unfolding attach_external_refs
dispatch_and_attach_case_event dispatch now id event s = elim (case_at id s) [
  | none ↦ s
  | some c ↦ attach_some now id (dispatch c event) (record s { sent = s.sent ++ (id, event) ∷ [] })
]

pub data HttpError : Type 0 where
  http_error : ℕ → String → HttpError
