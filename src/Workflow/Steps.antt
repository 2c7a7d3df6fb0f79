-- ===== src/Workflow/Steps.antt =====
-- The configuration of a workflow, the answers from outside, and where a step leads next
-- (`runDeviceStepChain` of durableEngine.ts, and the types of its arguments). Step ids and texts are
-- strings, and a missing id is "". Amounts of time are whole numbers.
use applivery_soar.Common.{
  ℕ, String, Bool, Option, none, some, List, [], ◌∷◌, ◌++◌, str_eq, or_string, if◌then◌else◌, any,
}
use applivery_soar.Workflow.Store.{Detail, LogEntry, Device, Pending, StepKind}

-- `Number(x)` for the whole numbers, NaN and the infinities of a step's configuration.
pub data Amount : Type 0 where
  nan : Amount
  infinite : Amount
  negative : ℕ → Amount  -- -(n + 1)
  whole : ℕ → Amount

pub record Step : Type 0 where
  pub id : String
  pub name : String
  pub type : String
  pub amount : Amount  -- cfg.amount
  pub unit : Option String  -- cfg.unit
  pub library_id : Option String  -- cfg.libraryId
  pub timeout_minutes : Amount  -- cfg.timeoutMinutes
  pub on_success : Option String
  pub on_failure : Option String

pub record Workflow : Type 0 where
  pub id : String
  pub steps : List Step

pub data Reply : Type 0 where
  replied : Bool → Detail → Reply
  threw : String → Reply

-- The recovery policy of a workflow, looked at before each step: there is none or the device still
-- violates it; the device has recovered, with the log of the recovery steps; or the check threw.
pub data Check : Type 0 where
  not_recovered : Check
  recovered : List LogEntry → Check
  check_threw : String → Check

-- The answers from outside, by the number of the round.
pub record Env : Type 0 where
  pub now : ℕ → ℕ
  pub setup_error : Option String
  pub check : ℕ → Check
  pub execute : ℕ → Step → Reply
  pub token : ℕ → String

-- How the loop is left: parked at a wait, at its end, or by an exception.
pub data Exit : Type 0 where
  parked : Pending → Exit
  finished : List LogEntry → Exit
  crashed : List LogEntry → String → Exit
  out_of_fuel : Exit

pub data Next : Type 0 where
  continue : String → List LogEntry → Next
  leave : Exit → Next

-- What the loop reads and never writes.
pub record Context : Type 0 where
  pub env : Env
  pub workflow : Workflow
  pub run_id : String
  pub device : Device
  pub slug_key : String

-- `new Map(steps.map((s) => [s.id, s])).get(id)`: the last step of that id.
abbrev pub find_step : String → List Step → Option Step
find_step id [] = none
find_step id (s ∷ ss) =
    let later = find_step id ss in
    elim later [ some t ↦ some t | none ↦ if str_eq s.id id then some s else none ]

abbrev pub first_id : List Step → String
first_id [] = "end"
first_id (s ∷ ss) = s.id

-- The id behind the first step of that id, or "end".
abbrev pub id_after : String → List Step → String
id_after id [] = "end"
id_after id (s ∷ ss) = if str_eq s.id id then first_id ss else id_after id ss

abbrev pub has_step : String → List Step → Bool
has_step id steps = any (λ s. str_eq s.id id) steps

-- `idx + 1 < stepOrder.length ? stepOrder[idx + 1] : "end"`, where `idx` may be -1.
abbrev pub next_in_order : String → List Step → String
next_in_order id steps = if has_step id steps then id_after id steps else first_id steps

-- `step.onSuccess ?? next in order`
abbrev pub success_id : Step → String → List Step → String
success_id step id steps = elim step.on_success [ some next ↦ next | none ↦ next_in_order id steps ]

abbrev pub failure_id : Step → String
failure_id step = or_string step.on_failure "end"

abbrev pub entry : Step → Bool → Detail → LogEntry
entry step ok detail = record {
  step_id = some step.id;
  name = step.name;
  type = step.type;
  ok = ok;
  detail = detail;
}

abbrev pub push {ℓ} : {A : Type ℓ} → List A → A → List A
push xs x = xs ++ x ∷ []

abbrev pub seconds_per_unit : String → ℕ
seconds_per_unit unit =
    if str_eq unit "hours" then 3600 else if str_eq unit "days" then 86400 else 60

-- What a parked chain leaves behind; the database gives the row its id and its claim.
abbrev pub pending_step :
    Context → String → List LogEntry → ℕ → StepKind → Option String → Option String → Pending
pending_step c next log resume_at kind on_failure token = record {
  id = 0;
  run_id = c.run_id;
  device = c.device;
  workflow_id = c.workflow.id;
  slug_key = c.slug_key;
  next_step_id = next;
  log = log;
  resume_at = resume_at;
  step_kind = kind;
  on_failure_step_id = on_failure;
  pending_token = token;
  claimed_at = none;
}
