-- ===== src/Cases/Violation.antt =====
-- Cases that the compliance evaluation opens and closes: `upsertCaseForViolation` and
-- `markCaseRecovered` of cases.service.ts.
pub mod Latest
pub mod Opened
use applivery_soar.Common.{
  join, ℕ, suc, String, Bool, true, false, not, ◌&&◌, Option, none, some, List, [], ◌∷◌, ◌++◌,
  str_eq, truthy, includes, if◌then◌else◌, find, keep, or_else, is_set, opt_eq, leb,
}
use applivery_soar.Cases.Table.{
  Case, Entry, violation_linked, auto_resolved, device_recovered, Event, closed, reopened, created,
  Store, is_open_case_status, add_case_timeline_entry, update_case_row, system,
}

-- `CasePolicyRef` and `CaseDeviceRef`
pub record CasePolicyRef : Type 0 where
  pub id : String
  pub name : String
  pub severity : Option String
  pub mitre_techniques : List String
  pub case_assignee : Option String

pub record CaseDeviceRef : Type 0 where
  pub id : String
  pub display_name : Option String

-- The cases of one policy on one device.
abbrev pub concerns : String → String → String → Case → Bool
concerns slug policy_id device_id c =
    str_eq c.workspace_slug slug
    && opt_eq c.policy_id (some policy_id)
    && opt_eq c.device_id (some device_id)

abbrev pub is_open : Case → Bool
is_open c = is_open_case_status c.status

-- `findFirst({ orderBy: { updatedAt: "desc" } })`: the first of those that were updated last.
abbrev pub later_of : Case → Option Case → Case
later_of c none = c
later_of c (some d) = if leb d.updated_at c.updated_at then c else d

abbrev pub latest : List Case → Option Case
latest [] = none
latest (c ∷ cs) = some (later_of c (latest cs))

-- `policy.caseAssignee || null`, and the acknowledgement that comes with it.
abbrev pub assignee_of : CasePolicyRef → Option String
assignee_of p = if is_set p.case_assignee then p.case_assignee else none

abbrev pub acknowledged_of : CasePolicyRef → ℕ → Option ℕ
acknowledged_of p now = if is_set p.case_assignee then some now else none

abbrev pub linked : Case → String → ℕ → Case
linked c violation_id now = record c {
  violation_ids = c.violation_ids ++ violation_id ∷ [];
  updated_at = now;
}

abbrev pub reopened_row : Case → CasePolicyRef → String → ℕ → Case
reopened_row c p violation_id now = record c {
  status = "open";
  closed_at = none;
  updated_at = now;
  violation_ids = c.violation_ids ++ violation_id ∷ [];
  assignee = assignee_of p;
  acknowledged_at = acknowledged_of p now;
  sla_clock_started_at = some now;
  sla_ack_breach_notified_at = none;
  sla_resolve_breach_notified_at = none;
  mitre_techniques = p.mitre_techniques;
}

-- `${device.displayName ?? device.id} — ${policy.name}`
abbrev pub title_of : CasePolicyRef → CaseDeviceRef → String
title_of p d = join (or_else d.display_name d.id) (join " — " p.name)

abbrev pub new_row : String → CasePolicyRef → CaseDeviceRef → String → ℕ → ℕ → Case
new_row slug p d violation_id now id = record {
  id = id;
  workspace_slug = slug;
  title = title_of p d;
  status = "open";
  severity = or_else p.severity "medium";
  device_id = some d.id;
  policy_id = some p.id;
  violation_ids = violation_id ∷ [];
  assignee = assignee_of p;
  created_at = now;
  updated_at = now;
  closed_at = none;
  acknowledged_at = acknowledged_of p now;
  sla_clock_started_at = some now;
  sla_ack_breach_notified_at = none;
  sla_resolve_breach_notified_at = none;
  mitre_techniques = p.mitre_techniques;
  external_refs = [];
  workflow_run_ids = [];
}

pub record Upserted : Type 0 where
  pub case_id : ℕ
  pub notify_event : Option Event

abbrev pub link : String → ℕ → Case → Store → Store × Upserted
link violation_id now c s = (
  add_case_timeline_entry c.id violation_linked system
      (update_case_row (linked c violation_id now) s),
  record { case_id = c.id; notify_event = none },
)

abbrev pub reopen : CasePolicyRef → String → ℕ → Case → Store → Store × Upserted
reopen p violation_id now c s = (
  add_case_timeline_entry c.id Entry.reopened system
      (update_case_row (reopened_row c p violation_id now) s),
  record { case_id = c.id; notify_event = some Event.reopened },
)

abbrev pub create : String → CasePolicyRef → CaseDeviceRef → String → ℕ → Store → Store × Upserted
create slug p d violation_id now s = (
  add_case_timeline_entry s.next_id Entry.created system (record s {
    cases = s.cases ++ new_row slug p d violation_id now s.next_id ∷ [];
    next_id = suc s.next_id;
  }),
  record { case_id = s.next_id; notify_event = some Event.created },
)

abbrev pub matching : String → CasePolicyRef → CaseDeviceRef → Case → Bool
matching slug p d = concerns slug p.id d.id

-- By the open case of the policy on the device, and the latest closed one.
abbrev pub upsert_with :
    String
    → CasePolicyRef
    → CaseDeviceRef
    → String
    → ℕ
    → Store
    → Option Case
    → Option Case
    → Store × Upserted
upsert_with slug p d violation_id now s (some c) _ = link violation_id now c s
upsert_with slug p d violation_id now s none (some c) = reopen p violation_id now c s
upsert_with slug p d violation_id now s none none = create slug p d violation_id now s

abbrev pub open_match : String → CasePolicyRef → CaseDeviceRef → Store → Option Case
open_match slug p d s = find (λ c. matching slug p d c && is_open c) s.cases

abbrev pub closed_match : String → CasePolicyRef → CaseDeviceRef → Store → Option Case
closed_match slug p d s = latest (keep (λ c. matching slug p d c && not (is_open c)) s.cases)

-- `upsertCaseForViolation`
unfoldable pub upsert_case_for_violation :
    String → CasePolicyRef → CaseDeviceRef → String → ℕ → Store → Store × Upserted
unfolding add_case_timeline_entry update_case_row
upsert_case_for_violation slug p d violation_id now s =
    upsert_with slug p d violation_id now s (open_match slug p d s) (closed_match slug p d s)

abbrev pub resolved_row : Case → ℕ → Case
resolved_row c now = record c { status = "resolved"; closed_at = some now; updated_at = now }

abbrev pub recover : Case → Bool → ℕ → Store → Store × Option Upserted
recover c true now s = (
  add_case_timeline_entry c.id auto_resolved system (update_case_row (resolved_row c now) s),
  some (record { case_id = c.id; notify_event = some closed }),
)
recover c false now s = (
  add_case_timeline_entry c.id device_recovered system
      (update_case_row (record c { updated_at = now }) s),
  some (record { case_id = c.id; notify_event = none }),
)

abbrev pub has_violation : String → String → Case → Bool
has_violation slug violation_id c =
    str_eq c.workspace_slug slug && includes c.violation_ids violation_id && is_open c

-- `markCaseRecovered`; no violation id is "".
unfoldable pub mark_case_recovered : String → String → Bool → ℕ → Store → Store × Option Upserted
unfolding add_case_timeline_entry update_case_row
mark_case_recovered slug violation_id auto_resolve now s =
    if truthy violation_id
    then elim (find (has_violation slug violation_id) s.cases) [
      | none ↦ (s, none)
      | some c ↦ recover c auto_resolve now s
    ]
    else (s, none)
