-- ===== src/Triggers/Table.antt =====
-- The triggers, the state of each trigger on each device, and what the admin does with them
-- (modules/workflows/triggers.service.ts). The audit log and the payload that is kept for the admin
-- to see are not modelled. A time is a number of milliseconds; the database calls are taken to succeed.
use applivery_soar.Common.{
  if◌then◌else◌, ℕ, String, Bool, true, false, not, ◌&&◌, Option, none, some, List, [], ◌∷◌, ◌++◌,
  or_else, str_eq, keep, find,
}
use applivery_soar.Cases.Table.{HttpError, http_error}

pub record Trigger : Type 0 where
  pub id : String
  pub workspace_slug : String
  pub name : String
  pub workflow_id : String
  pub enabled : Bool
  pub open_case : Bool
  pub case_severity : String
  pub device_lookup_field : Option String
  pub secret : String
  pub last_fired_at : Option ℕ
  pub fire_count : ℕ

pub record TriggerPayload : Type 0 where
  pub name : String
  pub workflow_id : String
  pub enabled : Option Bool
  pub open_case : Option Bool
  pub case_severity : Option String
  pub device_lookup_field : Option String

pub data FireStatus : Type 0 where
  active resolved : FireStatus

-- `TriggerFireState`
pub record FireState : Type 0 where
  pub workspace_slug : String
  pub trigger_id : String
  pub device_id : String
  pub status : FireStatus
  pub last_fired_at : ℕ
  pub resolved_at : Option ℕ
  pub fire_count : ℕ

-- A run that was launched, with its device.
pub record Launched : Type 0 where
  pub run_id : String
  pub workflow_id : String
  pub device_id : Option String

-- What `openCaseForTrigger` was called with.
pub record OpenedCase : Type 0 where
  pub workspace_slug : String
  pub trigger_name : String
  pub run_id : String
  pub severity : String
  pub device_id : Option String

pub record Store : Type 0 where
  pub triggers : List Trigger
  pub fire_states : List FireState
  pub launched : List Launched
  pub opened : List OpenedCase

pub data Outcome (A : Type 0) : Type 0 where
  ok : A → Outcome A
  failed : HttpError → Outcome A

abbrev pub has_id : String → Trigger → Bool
has_id id t = str_eq t.id id

-- `findTriggerById`
abbrev pub find_trigger_by_id : String → Store → Option Trigger
find_trigger_by_id id s = find (has_id id) s.triggers

-- `findFirst({ where: { workspaceSlug, id } })`
abbrev pub find_trigger : String → String → Store → Option Trigger
find_trigger slug id s = find (λ t. str_eq t.workspace_slug slug && has_id id t) s.triggers

abbrev pub set_trigger : Trigger → List Trigger → List Trigger
set_trigger new [] = []
set_trigger new (t ∷ ts) = if has_id new.id t then new ∷ ts else t ∷ set_trigger new ts

abbrev pub drop_trigger : String → List Trigger → List Trigger
drop_trigger id ts = keep (λ t. not (has_id id t)) ts

abbrev pub with_payload : TriggerPayload → Trigger → Trigger
with_payload p t = record t {
  name = p.name;
  workflow_id = p.workflow_id;
  enabled = or_else p.enabled true;
  open_case = or_else p.open_case false;
  case_severity = or_else p.case_severity "medium";
  device_lookup_field = p.device_lookup_field;
}

abbrev pub new_trigger : String → String → String → TriggerPayload → Trigger
new_trigger slug id secret p = with_payload p (record {
  id = id;
  workspace_slug = slug;
  name = p.name;
  workflow_id = p.workflow_id;
  enabled = true;
  open_case = false;
  case_severity = "medium";
  device_lookup_field = none;
  secret = secret;
  last_fired_at = none;
  fire_count = 0;
})

abbrev pub trigger_not_found : HttpError
trigger_not_found = http_error 404 "Trigger not found"

-- `createTrigger`, with the id of the database and the secret; `known` is the lookup of the workflow.
unfoldable pub create_trigger :
    Bool → String → String → String → TriggerPayload → Store → Store × Outcome Trigger
create_trigger known slug id secret p s =
    if known
    then (
      record s { triggers = s.triggers ++ new_trigger slug id secret p ∷ [] },
      ok (new_trigger slug id secret p),
    )
    else (s, failed (http_error 400 "Linked workflow not found"))

abbrev pub replace : Store → Option Trigger → (Trigger → Trigger) → Store × Outcome Trigger
replace s none f = (s, failed trigger_not_found)
replace s (some t) f = (record s { triggers = set_trigger (f t) s.triggers }, ok (f t))

-- `updateTrigger`
unfoldable pub update_trigger :
    Bool → String → String → TriggerPayload → Store → Store × Outcome Trigger
update_trigger known slug id p s =
    if known
    then replace s (find_trigger slug id s) (with_payload p)
    else (s, failed (http_error 400 "Linked workflow not found"))

abbrev pub remove : Store → String → Option Trigger → Store × Outcome Unit
remove s id none = (s, failed trigger_not_found)
remove s id (some t) = (record s { triggers = drop_trigger id s.triggers }, ok tt)

-- `deleteTrigger`
unfoldable pub delete_trigger : String → String → Store → Store × Outcome Unit
delete_trigger slug id s = remove s id (find_trigger slug id s)

-- `rotateTriggerSecret`, with the new secret
unfoldable pub rotate_trigger_secret : String → String → String → Store → Store × Outcome Trigger
rotate_trigger_secret slug id secret s =
    replace s (find_trigger slug id s) (λ t. record t { secret = secret })
