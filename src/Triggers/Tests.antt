-- ===== src/Triggers/Tests.antt =====
-- A trigger of a small workspace, fired and resolved (modules/workflows/triggers.service.ts).
use applivery_soar.Common.{◌≡◌, refl, true, none, some, [], ◌∷◌}
use applivery_soar.Cases.Table.{http_error}
use applivery_soar.Triggers.Table.{
  rotate_trigger_secret, Trigger, Store, FireState, active, resolved, ok, failed,
  find_trigger_by_id,
}
use applivery_soar.Triggers.Fire.{
  Device, Outside, Body, FireTriggerResult, fire_trigger, resolve_trigger, resolve_trigger_device,
}
use applivery_soar.Triggers.Fire.Guarded.{IsAllowed, fire_trigger-IsAllowed}
use applivery_soar.Triggers.Fire.Rotated.{rotate_trigger_secret-fire_trigger}
use applivery_soar.Triggers.Fire.Lifecycle.{IsFiring, fire_trigger-state}

abbrev alarm : Trigger
alarm = record {
  id = "t1";
  workspace_slug = "acme";
  name = "EDR";
  workflow_id = "w1";
  enabled = true;
  open_case = true;
  case_severity = "high";
  device_lookup_field = some "serial";
  secret = "s3cret";
  last_fired_at = none;
  fire_count = 0;
}

abbrev laptop : Device
laptop = record {
  id = "d1";
  display_name = "Laptop";
  serial_number = "SN-02";
  user_email = "ana@acme.io";
}

abbrev outside : Outside
outside = record {
  lower = λ s. s;
  trim = λ s. s;
  has_workflow = λ slug id. true;
  credential = λ slug. "Bearer x";
  devices = λ slug. laptop ∷ [];
  launch = λ workflow device. some "r1";
  case_id = "c1";
  now = 5000;
}

abbrev body : Body
body = ("serial", "SN-02") ∷ []

abbrev store : Store
store = record { triggers = alarm ∷ []; fire_states = []; launched = []; opened = [] }

abbrev accepted : FireTriggerResult
accepted = record { workflow_run_id = "r1"; case_id = some "c1"; matched_device = some "Laptop" }

abbrev active_row : FireState
active_row = record {
  workspace_slug = "acme";
  trigger_id = "t1";
  device_id = "d1";
  status = active;
  last_fired_at = 5000;
  resolved_at = none;
  fire_count = 1;
}

abbrev fired_store : Store
fired_store = record store { fire_states = active_row ∷ [] }

is_accepted : (fire_trigger outside "t1" "s3cret" body store).1 ≡ ok accepted
unfolding fire_trigger resolve_trigger_device
is_accepted = refl

is_refused :
    (fire_trigger outside "t1" "guess" body store).1
    ≡ failed (http_error 401 "Invalid trigger secret")
unfolding fire_trigger
is_refused = refl

is_resolved : (resolve_trigger outside "t1" "s3cret" body fired_store).1 ≡ ok "Laptop"
unfolding resolve_trigger resolve_trigger_device
is_resolved = refl

fire_trigger-IsAllowed_example :
    (t : Trigger) × (find_trigger_by_id "t1" store ≡ some t) × IsAllowed outside "s3cret" t
fire_trigger-IsAllowed_example =
    fire_trigger-IsAllowed outside "t1" "s3cret" body store accepted is_accepted

-- Fired twice, and resolved since.
abbrev resolved_store : Store
resolved_store = record store {
  fire_states =
      record active_row { status = resolved; resolved_at = some 4000; fire_count = 2 } ∷ [];
}

is_accepted_again : (fire_trigger outside "t1" "s3cret" body resolved_store).1 ≡ ok accepted
unfolding fire_trigger resolve_trigger_device
is_accepted_again = refl

fire_trigger-state_example :
    IsFiring alarm laptop 5000 3 (fire_trigger outside "t1" "s3cret" body resolved_store).0
unfolding resolve_trigger_device
fire_trigger-state_example =
    fire_trigger-state outside "t1" "s3cret" body resolved_store alarm laptop accepted refl refl
      is_accepted_again

rotate_trigger_secret-fire_trigger_example :
    (fire_trigger outside "t1" "s3cret" body (rotate_trigger_secret "acme" "t1" "fresh" store).0)
    ≡ (
      (rotate_trigger_secret "acme" "t1" "fresh" store).0,
      failed (http_error 401 "Invalid trigger secret"),
    )
rotate_trigger_secret-fire_trigger_example =
    rotate_trigger_secret-fire_trigger outside "acme" "t1" "fresh" "s3cret" body store alarm refl
      (λ e. cc)
