-- ===== src/Compliance/Scope.antt =====
-- The devices whose position is kept fresh: `geofenceScopedDeviceIds` of
-- modules/geofencing/geofence.service.ts.
use applivery_soar.Common.{
  if◌then◌else◌, ◌≡◌, inl, inr, String, Bool, true, ◌&&◌, ◌||◌, Option, none, some, List, [], ◌∷◌,
  ◌++◌, arith, Bool-cases, str_eq, str_eq-true, truthy, includes, any,
}

pub record ScopedDevice : Type 0 where
  pub id : String
  pub device_audiences : List String

pub record ScopingPolicy : Type 0 where
  pub enabled : Bool
  pub condition_fields : List String
  pub target_device_audience_id : Option String

-- `Set.add`
abbrev pub add_id : String → List String → List String
add_id id ids = if includes ids id then ids else ids ++ id ∷ []

abbrev pub uses_geofence : ScopingPolicy → Bool
uses_geofence p = p.enabled && includes p.condition_fields "geofenceZoneId"

-- The policy covers the device: it has no audience, or the device is in it.
abbrev pub covers : Option String → ScopedDevice → Bool
covers none d = true
covers (some audience) d = if truthy audience then includes d.device_audiences audience else true

abbrev pub add_covered : Option String → List ScopedDevice → List String → List String
add_covered audience [] ids = ids
add_covered audience (d ∷ ds) ids =
    add_covered audience ds (if covers audience d then add_id d.id ids else ids)

abbrev pub add_policies : List ScopedDevice → List ScopingPolicy → List String → List String
add_policies devices [] ids = ids
add_policies devices (p ∷ ps) ids =
    add_policies devices ps
      (if uses_geofence p then add_covered p.target_device_audience_id devices ids else ids)

-- `geofenceScopedDeviceIds`
unfoldable pub geofence_scoped_device_ids : List ScopedDevice → List ScopingPolicy → List String
geofence_scoped_device_ids devices policies = add_policies devices policies []

-- The policy wants the position of a device of that id.
abbrev pub wants : String → List ScopedDevice → ScopingPolicy → Bool
wants id devices p =
    uses_geofence p && any (λ d. covers p.target_device_audience_id d && str_eq d.id id) devices

pub includes-concat :
    (xs : List String) (x y : String) → includes (xs ++ x ∷ []) y ≡ (includes xs y || str_eq x y)
includes-concat [] x y = ground arith
includes-concat (z ∷ xs) x y = elim (Bool-cases (str_eq z y)) [
  | inl e ↦ rw e
  | inr e ↦ rw e (includes-concat xs x y)
]

add_id-includes :
    (x : String) (ids : List String) (y : String)
    → includes (add_id x ids) y ≡ (includes ids y || str_eq x y)
add_id-includes x ids y = elim (Bool-cases (includes ids x)) [
  | inl e ↦ elim (Bool-cases (str_eq x y)) [
    | inl h ↦ let there : includes ids y ≡ true = rw (← str_eq-true x y h) e in rw (e, there)
    | inr h ↦ rw (e, h) (ground arith)
  ]
  | inr e ↦ rw e (includes-concat ids x y)
]

regroup : (a b c : Bool) → ((a || b) || c) ≡ (a || (b || c))
regroup a b c = ground arith

add_covered-includes :
    (audience : Option String) (ds : List ScopedDevice) (ids : List String) (id : String)
    → includes (add_covered audience ds ids) id
      ≡ (includes ids id || any (λ d. covers audience d && str_eq d.id id) ds)
add_covered-includes audience [] ids id = ground arith
add_covered-includes audience (d ∷ ds) ids id = elim (Bool-cases (covers audience d)) [
  | inl e ↦
      rw (e, add_covered-includes audience ds (add_id d.id ids) id, add_id-includes d.id ids id)
        (regroup (includes ids id) (str_eq d.id id)
          (any (λ x. covers audience x && str_eq x.id id) ds))
  | inr e ↦ rw (e, add_covered-includes audience ds ids id)
]

add_policies-includes :
    (devices : List ScopedDevice) (ps : List ScopingPolicy) (ids : List String) (id : String)
    → includes (add_policies devices ps ids) id ≡ (includes ids id || any (wants id devices) ps)
add_policies-includes devices [] ids id = ground arith
add_policies-includes devices (p ∷ ps) ids id = elim (Bool-cases (uses_geofence p)) [
  | inl e ↦
      let audience = p.target_device_audience_id in
      rw
        (
          e,
          add_policies-includes devices ps (add_covered audience devices ids) id,
          add_covered-includes audience devices ids id,
        )
        (regroup (includes ids id) (any (λ d. covers audience d && str_eq d.id id) devices)
          (any (wants id devices) ps))
  | inr e ↦ rw (e, add_policies-includes devices ps ids id)
]

-- The scope is exact: the id of a device is in it exactly if some enabled policy with a geofence
-- condition covers a device of that id; the position of no other device is asked for.
pub geofence_scoped_device_ids-wants :
    (devices : List ScopedDevice) (policies : List ScopingPolicy) (id : String)
    → includes (geofence_scoped_device_ids devices policies) id ≡ any (wants id devices) policies
unfolding geofence_scoped_device_ids
geofence_scoped_device_ids-wants devices policies id = add_policies-includes devices policies [] id
