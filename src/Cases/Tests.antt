-- ===== src/Cases/Tests.antt =====
-- The cases of a small table (cases.service.ts).
use applivery_soar.Common.{
  ◌≤◌, ◌≡◌, refl, String, true, false, Option, none, some, [], ◌∷◌, length, All,
}
use applivery_soar.Cases.Table.{Dispatch, Case, Store, HttpError, http_error}
use applivery_soar.Cases.Table.Sound.{IsSound}
use applivery_soar.Cases.Update.{Request, CaseUpdatePayload, update_case, failed, updated}
use applivery_soar.Cases.Update.Stages.{SameRows}
use applivery_soar.Cases.Update.Result.{
  update_case-IsSound, update_case_failed, update_case-Announces, Announces,
}
use applivery_soar.Cases.Violation.{CasePolicyRef, CaseDeviceRef, upsert_case_for_violation}
use applivery_soar.Cases.Violation.Opened.{IsOpened, upsert-IsOpened}
use applivery_soar.Cases.AutoRun.{CaseAutoRunRule, CaseAutorunTarget, Outside, try_rules, fire_rule}
use applivery_soar.Cases.AutoRun.Cap.{IsLatest, MayFire, try_rules-find, fire_rule-MayFire}

abbrev kase : Case
kase = record {
  id = 1;
  workspace_slug = "acme";
  title = "Screen lock off";
  status = "open";
  severity = "high";
  device_id = some "d1";
  policy_id = some "p1";
  violation_ids = [];
  assignee = none;
  created_at = 1000;
  updated_at = 1000;
  closed_at = none;
  acknowledged_at = none;
  sla_clock_started_at = none;
  sla_ack_breach_notified_at = none;
  sla_resolve_breach_notified_at = none;
  mitre_techniques = [];
  external_refs = [];
  workflow_run_ids = [];
}

abbrev store : Store
store = record { cases = kase ∷ []; timeline = []; sent = []; removals = []; next_id = 2 }

kase-IsSound : All IsSound store.cases
kase-IsSound = (record { status_known = refl; severity_known = refl; closing = refl }, tt)

abbrev payload : Option String → Option String → CaseUpdatePayload
payload status severity = record {
  title = none;
  status = status;
  severity = severity;
  assignee = none;
  mitre_techniques = none;
}

abbrev request : CaseUpdatePayload → Request
request p = record {
  payload = p;
  actor = "ana@acme.io";
  authorization = none;
  now = 5000;
  is_known = λ technique. true;
  dispatch = λ c event. [];
}

abbrev resolve_it : Request
resolve_it = request (payload (some "resolved") (some "low"))

abbrev bad_status : Request
bad_status = request (payload (some "lost") (some "low"))

update_case-IsSound_example : All IsSound (update_case resolve_it "acme" 1 store).0.cases
update_case-IsSound_example = update_case-IsSound resolve_it "acme" 1 store kase-IsSound

abbrev refusal : HttpError
refusal =
    http_error 400
      "status must be one of [\"open\",\"investigating\",\"resolved\",\"closed\",\"false_positive\"]"

is_refused : (update_case bad_status "acme" 1 store).1 ≡ failed refusal
unfolding update_case
is_refused = refl

update_case_failed_example : SameRows store (update_case bad_status "acme" 1 store).0
update_case_failed_example = update_case_failed bad_status "acme" 1 store refusal is_refused

is_resolved : (update_case resolve_it "acme" 1 store).1 ≡ updated
unfolding update_case
is_resolved = refl

update_case-Announces_example : Announces kase store (update_case resolve_it "acme" 1 store).0
update_case-Announces_example =
    update_case-Announces resolve_it "acme" 1 store kase refl is_resolved

-- The refused request has left an entry for the severity that was not changed.
refused_entry : length (update_case bad_status "acme" 1 store).0.timeline ≡ 1
unfolding update_case
refused_entry = refl

abbrev policy : CasePolicyRef
policy = record {
  id = "p1";
  name = "Screen lock";
  severity = some "high";
  mitre_techniques = [];
  case_assignee = none;
}

abbrev device : CaseDeviceRef
device = record { id = "d1"; display_name = some "Laptop" }

-- Two closed cases of the policy on the device, the second one updated last.
abbrev closed_cases : Store
closed_cases = record store {
  cases =
      record kase { id = 3; status = "closed"; closed_at = some 2000; updated_at = 2000 }
      ∷ record kase { id = 4; status = "resolved"; closed_at = some 3000; updated_at = 3000 }
      ∷ [];
  next_id = 5;
}

upsert-IsOpened_example :
    IsOpened "acme" policy device "v1" closed_cases
      (upsert_case_for_violation "acme" policy device "v1" 9000 closed_cases)
upsert-IsOpened_example = upsert-IsOpened "acme" policy device "v1" 9000 closed_cases refl

abbrev rule : CaseAutoRunRule
rule = record {
  id = "r1";
  enabled = true;
  min_severity = "high";
  mitre_techniques = [];
  workflow_id = "w1";
  auto_run_destructive_ack = false;
  max_fires_per_hour = 2;
  recent_fires = 1000 ∷ 4000000 ∷ [];
}

abbrev target : CaseAutorunTarget
target = record { id = "1"; device_id = some "d1"; severity = "critical"; mitre_techniques = [] }

abbrev outside : Outside
outside = record {
  workflow = λ id. some false;
  has_device = λ id. true;
  launch = λ workflow device. some "run";
  now = 5000000;
}

abbrev weaker_rule : CaseAutoRunRule
weaker_rule = record rule { id = "r2"; min_severity = "low" }

try_rules-find_example :
    try_rules outside target "d1" (rule ∷ weaker_rule ∷ []) ≡ fire_rule outside "d1" rule
try_rules-find_example = try_rules-find outside target "d1" (rule ∷ weaker_rule ∷ [])

abbrev after_fire : CaseAutoRunRule
after_fire = record rule { recent_fires = 4000000 ∷ 5000000 ∷ [] }

fire_rule-MayFire_example :
    MayFire outside "d1" rule
    × IsLatest (4000000 ∷ 5000000 ∷ []) after_fire.recent_fires
    × (length after_fire.recent_fires ≤ 2)
fire_rule-MayFire_example = fire_rule-MayFire outside "d1" rule after_fire "run" refl

abbrev dispatch : Dispatch
dispatch c event = []
