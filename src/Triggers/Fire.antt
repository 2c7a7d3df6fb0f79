-- ===== src/Triggers/Fire.antt =====
-- The two inbound URLs: `fireTrigger` and `resolveTrigger` (modules/workflows/triggers.service.ts).
-- The workflows, the automation credential, the devices, the launch of a run and the id of an opened
-- case come from outside, and so do `toLowerCase` and `trim`.
pub mod Guarded
pub mod Lifecycle
pub mod Rotated
use applivery_soar.Common.{
  if◌then◌else◌, ℕ, min, max, zero, suc, ◌+◌, ◌-◌, ◌*◌, ◌≤◌, ◌<◌, ◌≡◌, ◌≢◌, ◌↔◌, ◌⊎◌, inl, inr,
  refl, sym, ap, subst, ◌∙◌, String, Bool, true, false, not, ◌&&◌, ◌||◌, Option, none, some, List,
  [], ◌∷◌, ◌++◌, map, arith, ltb, leb, ◌==◌, ==_self, ==-eq, Bool-cases, Option-cases, or_else,
  is_some, or_string, join, str_eq, str_eq-true, str_eq_self, str_eq-false, truthy, includes,
  opt_eq, is_set, length, take, drop, any, all, keep, find, count_if, All, find-All, find-holds,
  All-keep, keep-all, all-keep, length-append, length-keep-le, lookup, insert, delete_keys,
  lookup-insert, lookup-delete_keys,
}
use applivery_soar.Cases.Table.{HttpError, http_error}
use applivery_soar.Triggers.Table.{
  Trigger, active, resolved, FireState, Store, Outcome, ok, failed, find_trigger_by_id, set_trigger,
}

-- A field that is missing is "", as the source reads it.
pub record Device : Type 0 where
  pub id : String
  pub display_name : String
  pub serial_number : String
  pub user_email : String

pub record Outside : Type 0 where
  pub lower : String → String
  pub trim : String → String
  pub has_workflow : String → String → Bool  -- by workspace and id
  pub credential : String → String  -- the automation bearer of a workspace, or ""
  pub devices : String → List Device
  pub launch : String → Option String → Option String  -- the run, by workflow and device
  pub case_id : String
  pub now : ℕ

-- The body of the request; a field that is null is missing.
abbrev pub Body : Type 0
Body = List (String × String)

abbrev pub normal : Outside → String → String
normal o s = o.lower (o.trim s)

abbrev pub is_named : Outside → String → Device → Bool
is_named o value d =
    str_eq (normal o d.serial_number) value
    || str_eq (normal o d.id) value
    || str_eq (normal o d.user_email) value

abbrev pub named_by : Outside → Option String → List Device → Option Device
named_by o none devices = none
named_by o (some raw) devices =
    if truthy (normal o raw) then find (is_named o (normal o raw)) devices else none

-- `resolveTriggerDevice`
unfoldable pub resolve_trigger_device : Outside → Option String → Body → List Device → Option Device
resolve_trigger_device o none body devices = none
resolve_trigger_device o (some field) body devices =
    if truthy field then named_by o (lookup field body) devices else none

abbrev pub is_pair : String → String → String → FireState → Bool
is_pair slug trigger_id device_id f =
    str_eq f.workspace_slug slug && str_eq f.trigger_id trigger_id && str_eq f.device_id device_id

abbrev pub upsert_state :
    (FireState → Bool) → FireState → (FireState → FireState) → List FireState → List FireState
upsert_state p new f [] = new ∷ []
upsert_state p new f (x ∷ xs) = if p x then f x ∷ xs else x ∷ upsert_state p new f xs

abbrev pub first_fire : ℕ → Trigger → Device → FireState
first_fire now t d = record {
  workspace_slug = t.workspace_slug;
  trigger_id = t.id;
  device_id = d.id;
  status = active;
  last_fired_at = now;
  resolved_at = none;
  fire_count = 1;
}

abbrev pub fire_again : ℕ → FireState → FireState
fire_again now f = record f {
  status = active;
  last_fired_at = now;
  resolved_at = none;
  fire_count = suc f.fire_count;
}

abbrev pub never_fired : ℕ → Trigger → Device → FireState
never_fired now t d = record {
  workspace_slug = t.workspace_slug;
  trigger_id = t.id;
  device_id = d.id;
  status = resolved;
  last_fired_at = 0;
  resolved_at = some now;
  fire_count = 0;
}

abbrev pub resolve_state : ℕ → FireState → FireState
resolve_state now f = record f { status = resolved; resolved_at = some now }

abbrev pub record_fire : ℕ → Trigger → Option Device → Store → Store
record_fire now t none s = s
record_fire now t (some d) s = record s {
  fire_states =
      upsert_state (is_pair t.workspace_slug t.id d.id) (first_fire now t d) (fire_again now)
        s.fire_states;
}

abbrev pub id_of : Option Device → Option String
id_of none = none
id_of (some d) = some d.id

abbrev pub severity_or_medium : String → String
severity_or_medium s = if truthy s then s else "medium"

abbrev pub open_case_if : Trigger → String → Option Device → Store → Store
open_case_if t run_id device s =
    if t.open_case
    then record s {
      opened =
          s.opened
          ++ record {
            workspace_slug = t.workspace_slug;
            trigger_name = t.name;
            run_id = run_id;
            severity = severity_or_medium t.case_severity;
            device_id = id_of device;
          }
            ∷ [];
    }
    else s

pub record FireTriggerResult : Type 0 where
  pub workflow_run_id : String
  pub case_id : Option String
  pub matched_device : Option String

-- After the run is launched.
abbrev pub fired :
    Outside → Trigger → Option Device → Store → Option String → Store × Outcome FireTriggerResult
fired o t device s none = (
  s,
  failed (
      http_error 400
        "This workflow includes a 'wait' step, which requires durable storage (DATABASE_URL) not configured on this server."),
)
fired o t device s (some run_id) = (
  open_case_if t run_id device (
      record_fire o.now t device (record s {
        launched =
            s.launched
            ++ record { run_id = run_id; workflow_id = t.workflow_id; device_id = id_of device }
              ∷ [];
        triggers =
            set_trigger (record t { last_fired_at = some o.now; fire_count = suc t.fire_count })
              s.triggers;
      })),
  ok (record {
    workflow_run_id = run_id;
    case_id = if t.open_case then some o.case_id else none;
    matched_device = elim device [ none ↦ none | some d ↦ some d.display_name ];
  }),
)

abbrev pub no_device : Option String → HttpError
no_device field = http_error 404 (join "No device matched on field '" (join (or_else field "") "'"))

abbrev pub fire_matched :
    Outside → Trigger → Store → Option Device → Store × Outcome FireTriggerResult
fire_matched o t s (some d) = fired o t (some d) s (o.launch t.workflow_id (some d.id))
fire_matched o t s none =
    if is_set t.device_lookup_field
    then (s, failed (no_device t.device_lookup_field))
    else fired o t none s (o.launch t.workflow_id none)

-- The device that a trigger's call is about.
abbrev pub device_of : Outside → Trigger → Body → Option Device
device_of o t body =
    resolve_trigger_device o t.device_lookup_field body (o.devices t.workspace_slug)

abbrev pub no_credential : HttpError
no_credential =
    http_error 503
      "No automation credential configured for this workspace — set one in Settings > Workspace Automation so unattended triggers can run workflows."

abbrev pub no_credential_to_resolve : HttpError
no_credential_to_resolve =
    http_error 503
      "No automation credential configured for this workspace — set one in Settings > Workspace Automation."

-- Why a call is refused before the device is looked up, for either URL.
abbrev pub refusal : Trigger → String → Option HttpError
refusal t secret =
    if not (str_eq secret t.secret)
    then some (http_error 401 "Invalid trigger secret")
    else if not t.enabled
    then some (http_error 403 "This trigger is disabled")
    else none

abbrev pub fire_allowed :
    Outside → Trigger → Body → Store → Option HttpError → Store × Outcome FireTriggerResult
fire_allowed o t body s (some e) = (s, failed e)
fire_allowed o t body s none =
    if not (o.has_workflow t.workspace_slug t.workflow_id)
    then (s, failed (http_error 400 "Linked workflow no longer exists"))
    else if not (truthy (o.credential t.workspace_slug))
    then (s, failed no_credential)
    else fire_matched o t s (device_of o t body)

abbrev pub fire_found :
    Outside → String → Body → Store → Option Trigger → Store × Outcome FireTriggerResult
fire_found o secret body s none = (s, failed (http_error 404 "Unknown trigger"))
fire_found o secret body s (some t) = fire_allowed o t body s (refusal t secret)

-- `fireTrigger`
unfoldable pub fire_trigger :
    Outside → String → String → Body → Store → Store × Outcome FireTriggerResult
unfolding resolve_trigger_device
fire_trigger o id secret body s = fire_found o secret body s (find_trigger_by_id id s)

abbrev pub resolve_matched : Outside → Trigger → Store → Option Device → Store × Outcome String
resolve_matched o t s none = (s, failed (no_device t.device_lookup_field))
resolve_matched o t s (some d) = (
  record s {
    fire_states =
        upsert_state (is_pair t.workspace_slug t.id d.id) (never_fired o.now t d)
          (resolve_state o.now) s.fire_states;
  },
  ok d.display_name,
)

abbrev pub resolve_allowed :
    Outside → Trigger → Body → Store → Option HttpError → Store × Outcome String
resolve_allowed o t body s (some e) = (s, failed e)
resolve_allowed o t body s none =
    if not (is_set t.device_lookup_field)
    then (
      s,
      failed (
          http_error 400
            "This trigger has no Device lookup field configured — set one (Settings > Inbound Webhooks) so a Resolved call knows which device's state to clear."),
    )
    else if not (truthy (o.credential t.workspace_slug))
    then (s, failed no_credential_to_resolve)
    else resolve_matched o t s (device_of o t body)

abbrev pub resolve_found : Outside → String → Body → Store → Option Trigger → Store × Outcome String
resolve_found o secret body s none = (s, failed (http_error 404 "Unknown trigger"))
resolve_found o secret body s (some t) = resolve_allowed o t body s (refusal t secret)

-- `resolveTrigger`
unfoldable pub resolve_trigger : Outside → String → String → Body → Store → Store × Outcome String
unfolding resolve_trigger_device
resolve_trigger o id secret body s = resolve_found o secret body s (find_trigger_by_id id s)
