-- ===== src/Compliance/Markers.antt =====
-- The writes of markers on devices (modules/compliance/compliance.service.ts): `applyComplianceTag`,
-- `applyComplianceSmartAttribute`, the dispatch at the end of a pass, and
-- `removeComplianceMarkersForDevice`. Whether Applivery accepts a request comes from outside; the
-- requests for different devices, which run at the same time, do not share anything.
pub mod Applied
mod Tests
use applivery_soar.Compliance.Pass.Table.{MarkerAction}
use applivery_soar.Common.{
  if◌then◌else◌, ℕ, min, max, zero, suc, ◌+◌, ◌-◌, ◌*◌, ◌≤◌, ◌<◌, ◌≡◌, ◌≢◌, ◌↔◌, ◌⊎◌, inl, inr,
  refl, sym, ap, subst, ◌∙◌, String, Bool, true, false, not, ◌&&◌, ◌||◌, Option, none, some, List,
  [], ◌∷◌, ◌++◌, map, arith, ltb, leb, ◌==◌, ==_self, ==-eq, Bool-cases, Option-cases, or_else,
  is_some, or_string, join, str_eq, str_eq-true, str_eq_self, str_eq_comm, str_eq-false, truthy,
  includes, opt_eq, is_set, length, take, drop, any, all, keep, find, count_if, All, find-All,
  find-holds, All-keep, keep-all, all-keep, length-append, length-keep-le, lookup, insert,
  delete_keys, lookup-insert, lookup-delete_keys,
}

pub record MarkedDevice : Type 0 where
  pub id : String
  pub platform : String
  pub tags : List String
  pub smart_attribute_assignment_ids : List String

-- `platformPathSegment`
unfoldable pub platform_path_segment : String → Option String
platform_path_segment platform =
    if str_eq platform "apple" || str_eq platform "macos"
    then some "apple"
    else if str_eq platform "android"
    then some "android"
    else if str_eq platform "windows"
    then some "windows"
    else if str_eq platform "aosp"
    then some "aosp"
    else none

-- Whether a request with the new list is accepted.
abbrev pub Accepts : Type 0
Accepts = MarkedDevice → List String → Bool

abbrev pub same : Bool → Bool → Bool
same true b = b
same false b = not b

-- `newTags` and `newIds`
abbrev pub with_marker : String → Bool → List String → List String
with_marker marker present xs =
    if present then xs ++ marker ∷ [] else keep (λ x. not (str_eq x marker)) xs

-- Neither of the two early returns is taken.
abbrev pub needs_write : MarkedDevice → String → Bool → List String → Bool
needs_write d marker present xs =
    is_some (platform_path_segment d.platform)
    && truthy marker
    && not (same present (includes xs marker))

-- `applyComplianceTag`: the device afterwards, and whether it was changed
unfoldable pub apply_compliance_tag : Accepts → MarkedDevice → String → Bool → MarkedDevice × Bool
unfolding platform_path_segment
apply_compliance_tag accepts d tag present =
    if needs_write d tag present d.tags && accepts d (with_marker tag present d.tags)
    then (record d { tags = with_marker tag present d.tags }, true)
    else (d, false)

-- `applyComplianceSmartAttribute`
unfoldable pub apply_compliance_smart_attribute :
    Accepts → MarkedDevice → String → Bool → MarkedDevice × Bool
unfolding platform_path_segment
apply_compliance_smart_attribute accepts d id present =
    if needs_write d id present d.smart_attribute_assignment_ids
      && accepts d (with_marker id present d.smart_attribute_assignment_ids)
    then (
      record d {
        smart_attribute_assignment_ids = with_marker id present d.smart_attribute_assignment_ids;
      },
      true,
    )
    else (d, false)

-- The two kinds of requests.
pub record Writer : Type 0 where
  pub accepts_tags : Accepts
  pub accepts_ids : Accepts

-- One round of the loop over the actions of a device.
abbrev pub apply_action : Writer → MarkerAction → MarkedDevice → MarkedDevice × Bool
apply_action o a d =
    if is_set a.tag
    then apply_compliance_tag o.accepts_tags d (or_else a.tag "") a.present
    else apply_compliance_smart_attribute o.accepts_ids d (or_else a.smart_attr_id "") a.present

-- The actions of one device in order, and whether any of them changed it.
unfoldable pub apply_actions : Writer → List MarkerAction → MarkedDevice → MarkedDevice × Bool
unfolding apply_compliance_tag apply_compliance_smart_attribute
apply_actions o [] d = (d, false)
apply_actions o (a ∷ actions) d =
    let first = apply_action o a d in
    let rest = apply_actions o actions first.0 in (rest.0, first.1 || rest.1)

-- `actionsByDevice`: the actions of a device, in the order of the pass
abbrev pub actions_of : String → List MarkerAction → List MarkerAction
actions_of id actions = keep (λ a. str_eq a.device_id id) actions

-- The dispatch of the actions of a pass, and whether the cache of devices is dropped.
unfoldable pub dispatch_markers :
    Writer → List MarkerAction → List MarkedDevice → List MarkedDevice × Bool
unfolding apply_actions
dispatch_markers o actions [] = ([], false)
dispatch_markers o actions (d ∷ ds) =
    let first = apply_actions o (actions_of d.id actions) d in
    let rest = dispatch_markers o actions ds in (first.0 ∷ rest.0, first.1 || rest.1)

-- The marker of a policy, if it names one.
abbrev pub remove_if_set :
    (MarkedDevice → String → Bool → MarkedDevice × Bool)
    → Option String
    → MarkedDevice
    → MarkedDevice × Bool
remove_if_set apply marker d =
    if is_set marker then apply d (or_else marker "") false else (d, false)

-- `removeComplianceMarkersForDevice`, with the markers of the policy and the device that it finds
unfoldable pub remove_compliance_markers_for_device :
    Writer → Option String → Option String → MarkedDevice → MarkedDevice × Bool
unfolding apply_compliance_tag apply_compliance_smart_attribute
remove_compliance_markers_for_device o tag smart_attr_id d =
    let first = remove_if_set (apply_compliance_tag o.accepts_tags) tag d in
    let second =
      remove_if_set (apply_compliance_smart_attribute o.accepts_ids) smart_attr_id first.0 in
    (second.0, first.1 || second.1)
