-- ===== src/Triggers/Fire/Guarded.antt =====
-- What it takes to fire a trigger (modules/workflows/triggers.service.ts).
use applivery_soar.Common.{
  ◌≡◌, inl, inr, refl, String, true, Option, none, some, Bool-cases, str_eq, str_eq-true, truthy,
  is_set,
}
use applivery_soar.Cases.Table.{HttpError}
use applivery_soar.Triggers.Table.{Trigger, Store, ok, failed, find_trigger_by_id}
use applivery_soar.Triggers.Fire.{
  Device, Outside, Body, fired, fire_matched, fire_allowed, fire_found, fire_trigger, refusal,
  FireTriggerResult, device_of, resolve_trigger_device,
}

fired_failed :
    (o : Outside) (t : Trigger) (d : Option Device) (s : Store) (run : Option String)
    (e : HttpError)
    → (fired o t d s run).1 ≡ failed e
    → (fired o t d s run).0 ≡ s
fired_failed o t d s none e h = refl
fired_failed o t d s (some r) e h = cc

fire_matched_failed :
    (o : Outside) (t : Trigger) (s : Store) (d : Option Device) (e : HttpError)
    → (fire_matched o t s d).1 ≡ failed e
    → (fire_matched o t s d).0 ≡ s
fire_matched_failed o t s (some d) e h =
    fired_failed o t (some d) s (o.launch t.workflow_id (some d.id)) e h
fire_matched_failed o t s none e h = elim (Bool-cases (is_set t.device_lookup_field)) [
  | inl k ↦ rw k
  | inr k ↦ rw k (fired_failed o t none s (o.launch t.workflow_id none) e (rw k at h))
]

fire_allowed_failed :
    (o : Outside) (t : Trigger) (body : Body) (s : Store) (r : Option HttpError) (e : HttpError)
    → (fire_allowed o t body s r).1 ≡ failed e
    → (fire_allowed o t body s r).0 ≡ s
fire_allowed_failed o t body s (some r) e h = refl
fire_allowed_failed o t body s none e h =
    elim (Bool-cases (o.has_workflow t.workspace_slug t.workflow_id)) [
      | inr k ↦ rw k
      | inl k ↦ elim (Bool-cases (truthy (o.credential t.workspace_slug))) [
        | inr m ↦ rw (k, m)
        | inl m ↦ rw (k, m) (fire_matched_failed o t s (device_of o t body) e (rw (k, m) at h))
      ]
    ]

-- A refused call changes nothing, whatever the reason: no run is launched, no case opened, no count
-- and no state of a device written.
pub fire_trigger_failed :
    (o : Outside) (id secret : String) (body : Body) (s : Store) (e : HttpError)
    → (fire_trigger o id secret body s).1 ≡ failed e
    → (fire_trigger o id secret body s).0 ≡ s
unfolding fire_trigger resolve_trigger_device
fire_trigger_failed o id secret body s e h = go (find_trigger_by_id id s) h
  where
    go :
        (t : Option Trigger)
        → (fire_found o secret body s t).1 ≡ failed e
        → (fire_found o secret body s t).0 ≡ s
    go none k = refl
    go (some t) k = fire_allowed_failed o t body s (refusal t secret) e k

-- What holds of a trigger that a call with the secret fires.
pub record IsAllowed (o : Outside) (secret : String) (t : Trigger) : Type 0 where
  pub same_secret : secret ≡ t.secret
  pub is_enabled : t.enabled ≡ true
  pub has_workflow : o.has_workflow t.workspace_slug t.workflow_id ≡ true
  pub has_credential : truthy (o.credential t.workspace_slug) ≡ true

refusal-none :
    (t : Trigger) (secret : String)
    → refusal t secret ≡ none
    → (secret ≡ t.secret) × (t.enabled ≡ true)
refusal-none t secret h = elim (Bool-cases (str_eq secret t.secret)) [
  | inr k ↦ cc (rw k at h)
  | inl k ↦ elim (Bool-cases t.enabled) [
    | inr m ↦ cc (rw (k, m) at h)
    | inl m ↦ (str_eq-true secret t.secret k, m)
  ]
]

fire_allowed-IsAllowed :
    (o : Outside) (t : Trigger) (secret : String) (body : Body) (s : Store) (r : Option HttpError)
    (x : FireTriggerResult)
    → refusal t secret ≡ r
    → (fire_allowed o t body s r).1 ≡ ok x
    → IsAllowed o secret t
fire_allowed-IsAllowed o t secret body s (some r) x e h = cc
fire_allowed-IsAllowed o t secret body s none x e h =
    let (same, enabled) = refusal-none t secret e in
    elim (Bool-cases (o.has_workflow t.workspace_slug t.workflow_id)) [
      | inr k ↦ cc (rw k at h)
      | inl k ↦ elim (Bool-cases (truthy (o.credential t.workspace_slug))) [
        | inr m ↦ cc (rw (k, m) at h)
        | inl m ↦ record {
          same_secret = same;
          is_enabled = enabled;
          has_workflow = k;
          has_credential = m;
        }
      ]
    ]

-- A call that is accepted names a trigger of the table by its id and knows its secret, and the trigger
-- is enabled, its workflow exists, and its workspace has a credential.
pub fire_trigger-IsAllowed :
    (o : Outside) (id secret : String) (body : Body) (s : Store) (x : FireTriggerResult)
    → (fire_trigger o id secret body s).1 ≡ ok x
    → (t : Trigger) × (find_trigger_by_id id s ≡ some t) × IsAllowed o secret t
unfolding fire_trigger resolve_trigger_device
fire_trigger-IsAllowed o id secret body s x h = go (find_trigger_by_id id s) refl h
  where
    go :
        (found : Option Trigger)
        → find_trigger_by_id id s ≡ found
        → (fire_found o secret body s found).1 ≡ ok x
        → (t : Trigger) × (find_trigger_by_id id s ≡ some t) × IsAllowed o secret t
    go none e k = cc
    go (some t) e k = (t, e, fire_allowed-IsAllowed o t secret body s (refusal t secret) x refl k)
