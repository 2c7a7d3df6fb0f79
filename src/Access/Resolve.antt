-- ===== src/Access/Resolve.antt =====
-- The decision on a collaborator (`resolveSoarAccess`, modules/auth/rbac.service.ts).
pub mod Decision
use applivery_soar.Common.{
  if◌then◌else◌, ℕ, zero, suc, ◌+◌, ◌-◌, ◌*◌, ◌≤◌, ◌<◌, ◌≡◌, ◌≢◌, ◌↔◌, ◌⊎◌, inl, inr, refl, sym, ap,
  subst, ◌∙◌, String, Bool, true, false, not, ◌&&◌, ◌||◌, Option, none, some, List, [], ◌∷◌, ◌++◌,
  map, arith, ltb, leb, ◌==◌, ==_self, ==-eq, Bool-cases, Option-cases, or_else, is_some, or_string,
  join, str_eq, str_eq-true, str_eq_self, str_eq-false, truthy, includes, opt_eq, is_set, length,
  take, drop, any, all, keep, find, count_if, All, find-All, find-holds, All-keep, keep-all,
  all-keep, length-append, length-keep-le,
}
use applivery_soar.Access.Guard.{ResolvedAccess, SoarRoleRecord}
use applivery_soar.Access.Collaborator.{
  Texts, Collaborator, extract_collaborator_tag_candidates, Directory, Search, found,
  session_expired, out_of_fuel, find_self_collaborator,
}

abbrev pub denied : Option String → String → ResolvedAccess
denied collaborator_role reason = record {
  allowed = false;
  is_super_admin = false;
  role = none;
  collaborator_role = collaborator_role;
  matched_tag_value = none;
  denied_reason = some reason;
}

abbrev pub super_admin : String → ResolvedAccess
super_admin collaborator_role = record {
  allowed = true;
  is_super_admin = true;
  role = none;
  collaborator_role = some collaborator_role;
  matched_tag_value = none;
  denied_reason = none;
}

abbrev pub by_role : String → SoarRoleRecord → String → ResolvedAccess
by_role collaborator_role role tag_value = record {
  allowed = true;
  is_super_admin = false;
  role = some role;
  collaborator_role = some collaborator_role;
  matched_tag_value = some tag_value;
  denied_reason = none;
}

-- The first value of a role that is among the collaborator's tags.
abbrev pub matched_tag : Texts → List String → List String → Option String
matched_tag t tags [] = none
matched_tag t tags (v ∷ vs) =
    if includes tags (t.lower (t.trim v)) then some v else matched_tag t tags vs

abbrev pub or_next_role : String → SoarRoleRecord → Option String → ResolvedAccess → ResolvedAccess
or_next_role collaborator_role role none rest = rest
or_next_role collaborator_role role (some v) rest = by_role collaborator_role role v

-- The loop over the roles.
abbrev pub role_access : Texts → String → List String → List SoarRoleRecord → ResolvedAccess
role_access t collaborator_role tags [] =
    denied (some collaborator_role)
      "No SOAR Role is mapped to this collaborator's tag yet. Ask a Super Admin (the Applivery workspace Owner) to configure one under Settings > Roles."
role_access t collaborator_role tags (role ∷ roles) =
    or_next_role collaborator_role role (matched_tag t tags role.applivery_tag_values)
      (role_access t collaborator_role tags roles)

-- `new Set(tags.map(lower))`, of which only the membership is read
abbrev pub tags_of : Texts → Collaborator → List String
tags_of t c = map t.lower (extract_collaborator_tag_candidates t c)

abbrev pub role_of : Texts → Collaborator → String
role_of t c = t.lower (or_else c.role "")

abbrev pub collaborator_access : Texts → Option Collaborator → List SoarRoleRecord → ResolvedAccess
collaborator_access t none roles =
    denied none "No Applivery Collaborator record found for this account in this workspace."
collaborator_access t (some c) roles =
    if str_eq (role_of t c) "owner"
    then super_admin (role_of t c)
    else role_access t (role_of t c) (tags_of t c) roles

-- No access is given while the search throws or runs.
abbrev pub access_of : Texts → Search → List SoarRoleRecord → Option ResolvedAccess
access_of t (found c) roles = some (collaborator_access t c roles)
access_of t session_expired roles = none
access_of t out_of_fuel roles = none

-- `resolveSoarAccess`
unfoldable pub resolve_soar_access :
    Texts → Directory → String → List SoarRoleRecord → ℕ → Option ResolvedAccess
unfolding find_self_collaborator
resolve_soar_access t dir email roles fuel =
    access_of t (find_self_collaborator t dir email fuel) roles
