-- ===== src/Cases/Sla.antt =====
-- The clocks of a case (cases.service.ts and caseJobs.ts): `caseSlaStatus`, the settings, and
-- `runCaseSlaMonitorTick` for one workspace.
pub mod Clocks
use applivery_soar.Common.{
  ℕ, ◌+◌, ◌*◌, max, String, Bool, true, false, not, ◌&&◌, Option, none, some, List, [], ◌∷◌, ◌++◌,
  str_eq, if◌then◌else◌, keep, or_else, is_some, ltb,
}
use applivery_soar.Cases.Table.{
  Case, ack_sla_breached, resolve_sla_breached, Store, is_open_case_status, case_severities,
  add_case_timeline_entry, update_case_row, case_at, system,
}

pub record Threshold : Type 0 where
  pub acknowledge_minutes : ℕ
  pub resolve_minutes : ℕ

-- A record from severities to thresholds.
abbrev pub Thresholds : Type 0
Thresholds = List (String × Threshold)

abbrev pub threshold_at : String → Thresholds → Option Threshold
threshold_at severity [] = none
threshold_at severity ((k, t) ∷ ts) = if str_eq k severity then some t else threshold_at severity ts

abbrev pub minutes : ℕ → ℕ → Threshold
minutes a r = record { acknowledge_minutes = a; resolve_minutes = r }

-- `DEFAULT_CASE_SLA_THRESHOLDS`
abbrev pub default_thresholds : Thresholds
default_thresholds =
    ("low", minutes 480 4320)
    ∷ ("medium", minutes 240 1440)
    ∷ ("high", minutes 60 480)
    ∷ ("critical", minutes 15 240)
    ∷ []

abbrev pub default_of : String → Threshold
default_of severity = or_else (threshold_at severity default_thresholds) (minutes 240 1440)

-- `thresholds[severity] ?? DEFAULT[severity] ?? DEFAULT.medium`
abbrev pub sla_of : Thresholds → String → Threshold
sla_of ts severity = or_else (threshold_at severity ts) (default_of severity)

pub record CaseSlaStatus : Type 0 where
  pub ack_due_at : Option ℕ
  pub ack_breached : Bool
  pub resolve_due_at : Option ℕ
  pub resolve_breached : Bool

-- `kase.slaClockStartedAt ?? kase.createdAt`
abbrev pub anchor_of : Case → ℕ
anchor_of c = or_else c.sla_clock_started_at c.created_at

abbrev pub ack_due : Thresholds → Case → ℕ
ack_due ts c = anchor_of c + (sla_of ts c.severity).acknowledge_minutes * 60000

abbrev pub resolve_due : Thresholds → Case → ℕ
resolve_due ts c = anchor_of c + (sla_of ts c.severity).resolve_minutes * 60000

-- `caseSlaStatus`
unfoldable pub case_sla_status : ℕ → Thresholds → Case → CaseSlaStatus
case_sla_status now ts c = record {
  ack_due_at = if is_some c.acknowledged_at then none else some (ack_due ts c);
  ack_breached = not (is_some c.acknowledged_at) && ltb (ack_due ts c) now;
  resolve_due_at = if is_open_case_status c.status then some (resolve_due ts c) else none;
  resolve_breached = is_open_case_status c.status && ltb (resolve_due ts c) now;
}

-- `backfillThresholds`
backfill_from : Thresholds → Thresholds → Thresholds
backfill_from [] ts = ts
backfill_from ((k, t) ∷ ds) ts =
    backfill_from ds (if is_some (threshold_at k ts) then ts else ts ++ (k, t) ∷ [])

unfoldable pub backfill_thresholds : Thresholds → Thresholds
unfolding backfill_from
backfill_thresholds ts = backfill_from default_thresholds ts

-- One severity of `updateCaseSlaSettings`: `t ? Math.max(1, …) : default`.
abbrev pub cleaned : String → Option Threshold → Threshold
cleaned severity none = default_of severity
cleaned severity (some t) = minutes (max 1 t.acknowledge_minutes) (max 1 t.resolve_minutes)

-- The thresholds that `updateCaseSlaSettings` stores.
unfoldable pub clean_thresholds : List String → Thresholds → Thresholds
clean_thresholds [] given = []
clean_thresholds (severity ∷ rest) given =
    (severity, cleaned severity (threshold_at severity given)) ∷ clean_thresholds rest given

pub record CaseSlaSettings : Type 0 where
  pub enabled : Bool
  pub notify_on_breach : Bool
  pub thresholds : Thresholds

pub data Breach : Type 0 where
  acknowledge resolve : Breach

-- The tables and the breaches that were sent to the integrations.
pub record MonitorState : Type 0 where
  pub store : Store
  pub breaches : List (ℕ × Breach)

abbrev pub send : Bool → ℕ → Breach → List (ℕ × Breach) → List (ℕ × Breach)
send true id b bs = bs ++ (id, b) ∷ []
send false id b bs = bs

-- The row with the time of the notice, by the breach.
abbrev pub stamped : ℕ → Breach → Case → Case
stamped now acknowledge c = record c { sla_ack_breach_notified_at = some now }
stamped now resolve c = record c { sla_resolve_breach_notified_at = some now }

-- One breach that has not been told: the row is stamped as it stands in the table.
abbrev pub stamp_row : ℕ → ℕ → Breach → Store → Store
stamp_row now id b s = elim (case_at id s) [
  | none ↦ s
  | some c ↦ update_case_row (stamped now b c) s
]

abbrev pub tell : ℕ → Bool → ℕ → Breach → MonitorState → MonitorState
tell now notify id acknowledge m = record {
  store = add_case_timeline_entry id ack_sla_breached system (stamp_row now id acknowledge m.store);
  breaches = send notify id acknowledge m.breaches;
}
tell now notify id resolve m = record {
  store = add_case_timeline_entry id resolve_sla_breached system (stamp_row now id resolve m.store);
  breaches = send notify id resolve m.breaches;
}

abbrev pub due_ack : ℕ → Thresholds → Case → Bool
due_ack now ts c =
    (case_sla_status now ts c).ack_breached && not (is_some c.sla_ack_breach_notified_at)

abbrev pub due_resolve : ℕ → Thresholds → Case → Bool
due_resolve now ts c =
    (case_sla_status now ts c).resolve_breached && not (is_some c.sla_resolve_breach_notified_at)

abbrev pub tell_if : Bool → ℕ → Bool → ℕ → Breach → MonitorState → MonitorState
tell_if true now notify id b m = tell now notify id b m
tell_if false now notify id b m = m

-- What the tick does with one open case.
abbrev pub monitor_case : ℕ → CaseSlaSettings → Case → MonitorState → MonitorState
monitor_case now settings c m =
    tell_if (due_resolve now settings.thresholds c) now settings.notify_on_breach c.id resolve
      (tell_if (due_ack now settings.thresholds c) now settings.notify_on_breach c.id acknowledge m)

unfoldable pub monitor_cases : ℕ → CaseSlaSettings → List Case → MonitorState → MonitorState
unfolding case_sla_status add_case_timeline_entry update_case_row
monitor_cases now settings [] m = m
monitor_cases now settings (c ∷ cs) m =
    monitor_cases now settings cs (monitor_case now settings c m)

abbrev pub open_cases : String → Store → List Case
open_cases slug s = keep (λ c. str_eq c.workspace_slug slug && is_open_case_status c.status) s.cases

-- `runCaseSlaMonitorTick`, for one workspace
unfoldable pub run_case_sla_monitor_tick :
    ℕ → String → CaseSlaSettings → MonitorState → MonitorState
unfolding monitor_cases
run_case_sla_monitor_tick now slug settings m =
    if settings.enabled then monitor_cases now settings (open_cases slug m.store) m else m
