-- ===== src/Triggers/Fire/Lifecycle.antt =====
-- The state of a trigger on a device, from firing to resolving (modules/workflows/triggers.service.ts).
use applivery_soar.Common.{
  arith, ℕ, suc, ◌≡◌, refl, inl, inr, String, Bool, true, ◌&&◌, Option, none, some, List, [], ◌∷◌,
  ◌++◌, Bool-cases, str_eq, str_eq-true, find-holds, str_eq_self, truthy, is_set, find,
}
use applivery_soar.Cases.Table.{HttpError}
use applivery_soar.Triggers.Table.{set_trigger, Trigger, Store, FireState, active}
use applivery_soar.Triggers.Fire.{
  record_fire, refusal, fire_again, resolve_state, first_fire, never_fired, fire_allowed, ok,
  resolve_allowed, device_of, find_trigger_by_id, fired, Body, FireTriggerResult,
  resolve_trigger_device, Outside, fire_trigger, resolve_trigger, Device, is_pair, upsert_state,
  open_case_if,
}

-- The row of a trigger on a device.
abbrev pub state_at : Trigger → Device → Store → Option FireState
state_at t d s = find (is_pair t.workspace_slug t.id d.id) s.fire_states

-- The row after an upsert: made anew, or changed.
abbrev pub upserted : FireState → (FireState → FireState) → Option FireState → FireState
upserted new f none = new
upserted new f (some old) = f old

find-upsert_state :
    (p : FireState → Bool) (new : FireState) (f : FireState → FireState) (xs : List FireState)
    → p new ≡ true
    → ((x : FireState) → p x ≡ true → p (f x) ≡ true)
    → find p (upsert_state p new f xs) ≡ some (upserted new f (find p xs))
find-upsert_state p new f [] e keeps = rw e
find-upsert_state p new f (x ∷ xs) e keeps = elim (Bool-cases (p x)) [
  | inl k ↦ rw (k, keeps x k)
  | inr k ↦ rw (k, k) (find-upsert_state p new f xs e keeps)
]

is_pair_self : (a b c : String) → (str_eq a a && str_eq b b && str_eq c c) ≡ true
is_pair_self a b c = rw (str_eq_self a, str_eq_self b, str_eq_self c)

open_case_if-states :
    (t : Trigger) (run : String) (d : Option Device) (s : Store)
    → (open_case_if t run d s).fire_states ≡ s.fire_states
open_case_if-states t run d s = elim (Bool-cases t.open_case) [ inl e ↦ rw e | inr e ↦ rw e ]

-- The tables when the case is opened.
abbrev after_launch : Outside → Trigger → Device → String → Store → Store
after_launch o t d run s = record_fire o.now t (some d) (record s {
  launched =
      s.launched
      ++ record { run_id = run; workflow_id = t.workflow_id; device_id = some d.id } ∷ [];
  triggers =
      set_trigger (record t { last_fired_at = some o.now; fire_count = suc t.fire_count })
        s.triggers;
})

fired-state :
    (o : Outside) (t : Trigger) (d : Device) (s : Store) (run : Option String)
    (x : FireTriggerResult)
    → (fired o t (some d) s run).1 ≡ ok x
    → state_at t d (fired o t (some d) s run).0
      ≡ some (upserted (first_fire o.now t d) (fire_again o.now) (state_at t d s))
fired-state o t d s none x h = cc
fired-state o t d s (some run) x h =
    rw (open_case_if-states t run (some d) (after_launch o t d run s)) (
      find-upsert_state (is_pair t.workspace_slug t.id d.id) (first_fire o.now t d)
        (fire_again o.now) s.fire_states (is_pair_self t.workspace_slug t.id d.id) (λ y k. k))

fire_allowed-state :
    (o : Outside) (t : Trigger) (d : Device) (body : Body) (s : Store) (r : Option HttpError)
    (x : FireTriggerResult)
    → device_of o t body ≡ some d
    → (fire_allowed o t body s r).1 ≡ ok x
    → state_at t d (fire_allowed o t body s r).0
      ≡ some (upserted (first_fire o.now t d) (fire_again o.now) (state_at t d s))
fire_allowed-state o t d body s (some r) x e h = cc
fire_allowed-state o t d body s none x e h =
    elim (Bool-cases (o.has_workflow t.workspace_slug t.workflow_id)) [
      | inr k ↦ cc (rw k at h)
      | inl k ↦ elim (Bool-cases (truthy (o.credential t.workspace_slug))) [
        | inr m ↦ cc (rw (k, m) at h)
        | inl m ↦
            rw (k, m, e)
              (fired-state o t d s (o.launch t.workflow_id (some d.id)) x (rw (k, m, e) at h))
      ]
    ]

-- How often the row says that the trigger has fired; no row says never.
abbrev pub fires_in : Option FireState → ℕ
fires_in none = 0
fires_in (some old) = old.fire_count

-- The row is the one of the trigger on the device.
abbrev pub IsRowOf : Trigger → Device → FireState → Type 0
IsRowOf t d row =
    (row.workspace_slug ≡ t.workspace_slug) × (row.trigger_id ≡ t.id) × (row.device_id ≡ d.id)

all_three : (a b c : Bool) → (a && b && c) ≡ true → (a ≡ true) × (b ≡ true) × (c ≡ true)
all_three a b c h = ground arith

state_at-IsRowOf :
    (t : Trigger) (d : Device) (s : Store) {row : FireState}
    → state_at t d s ≡ some row
    → IsRowOf t d row
state_at-IsRowOf t d s {row} h =
    let (a, b, c) =
      all_three (str_eq row.workspace_slug t.workspace_slug) (str_eq row.trigger_id t.id)
        (str_eq row.device_id d.id)
        (find-holds (is_pair t.workspace_slug t.id d.id) s.fire_states h) in
    (
      str_eq-true row.workspace_slug t.workspace_slug a,
      str_eq-true row.trigger_id t.id b,
      str_eq-true row.device_id d.id c,
    )

-- The trigger is active on the device since a time, and has fired so often.
abbrev pub IsFiring : Trigger → Device → ℕ → ℕ → Store → Type 0
IsFiring t d now fires s =
    (row : FireState) × (state_at t d s ≡ some row)
    × IsRowOf t d row
    × (row.status ≡ active)
    × (row.last_fired_at ≡ now)
    × (row.resolved_at ≡ none)
    × (row.fire_count ≡ fires)

IsFiring-upserted :
    (now : ℕ) (t : Trigger) (d : Device) (s : Store) (old : Option FireState)
    → state_at t d s ≡ some (upserted (first_fire now t d) (fire_again now) old)
    → IsFiring t d now (suc (fires_in old)) s
IsFiring-upserted now t d s none h =
    (first_fire now t d, h, state_at-IsRowOf t d s h, refl, refl, refl, refl)
IsFiring-upserted now t d s (some old) h =
    (fire_again now old, h, state_at-IsRowOf t d s h, refl, refl, refl, refl)

-- An accepted call for a device leaves the trigger active on it, with the time of the call, no time of
-- resolving and one fire more than before: whether the trigger had never fired on the device, was
-- active on it or had been resolved.
pub fire_trigger-state :
    (o : Outside) (id secret : String) (body : Body) (s : Store) (t : Trigger) (d : Device)
    (x : FireTriggerResult)
    → find_trigger_by_id id s ≡ some t
    → device_of o t body ≡ some d
    → (fire_trigger o id secret body s).1 ≡ ok x
    → IsFiring t d o.now (suc (fires_in (state_at t d s))) (fire_trigger o id secret body s).0
unfolding fire_trigger resolve_trigger_device
fire_trigger-state o id secret body s t d x e m h =
    IsFiring-upserted o.now t d (fire_trigger o id secret body s).0 (state_at t d s)
      (rw e (fire_allowed-state o t d body s (refusal t secret) x m (rw e at h)))

resolve_allowed-state :
    (o : Outside) (t : Trigger) (d : Device) (body : Body) (s : Store) (r : Option HttpError)
    (x : String)
    → device_of o t body ≡ some d
    → (resolve_allowed o t body s r).1 ≡ ok x
    → state_at t d (resolve_allowed o t body s r).0
      ≡ some (upserted (never_fired o.now t d) (resolve_state o.now) (state_at t d s))
resolve_allowed-state o t d body s (some r) x e h = cc
resolve_allowed-state o t d body s none x e h = elim (Bool-cases (is_set t.device_lookup_field)) [
  | inr k ↦ cc (rw k at h)
  | inl k ↦ elim (Bool-cases (truthy (o.credential t.workspace_slug))) [
    | inr m ↦ cc (rw (k, m) at h)
    | inl m ↦
        rw (k, m, e)
          (find-upsert_state (is_pair t.workspace_slug t.id d.id) (never_fired o.now t d)
            (resolve_state o.now) s.fire_states (is_pair_self t.workspace_slug t.id d.id)
            (λ y n. n))
  ]
]

-- An accepted call to resolve leaves the trigger resolved on the device, with the time of the call: in
-- the old row, whose last fire and count stay, or in a new one that counts none.
pub resolve_trigger-state :
    (o : Outside) (id secret : String) (body : Body) (s : Store) (t : Trigger) (d : Device)
    (x : String)
    → find_trigger_by_id id s ≡ some t
    → device_of o t body ≡ some d
    → (resolve_trigger o id secret body s).1 ≡ ok x
    → state_at t d (resolve_trigger o id secret body s).0
      ≡ some (upserted (never_fired o.now t d) (resolve_state o.now) (state_at t d s))
unfolding resolve_trigger resolve_trigger_device
resolve_trigger-state o id secret body s t d x e m h =
    rw e (resolve_allowed-state o t d body s (refusal t secret) x m (rw e at h))
