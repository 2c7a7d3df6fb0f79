-- ===== src/Access/Tests.antt =====
-- The access of two collaborators, and a request each (modules/auth/rbac.service.ts and
-- middleware/rbac.middleware.ts).
use applivery_soar.Common.{
  if◌then◌else◌, ◌-◌, ◌≤◌, ◌≡◌, ◌↔◌, ◌⊎◌, refl, String, true, false, Option, none, some, List, [],
  ◌∷◌, arith, ◌==◌, str_eq, keep, lookup,
}
use applivery_soar.Access.Guard.{
  read, manage, SoarRoleRecord, ResolvedAccess, CachedAccess, AccessCache, RequirePermissionOptions,
  next, require_permission, Request, access_cache_ttl, set_cached_access,
}
use applivery_soar.Access.Guard.Decision.{IsGranted, require_permission-next}
use applivery_soar.Access.Collaborator.{
  extract_collaborator_tag_candidates, Texts, Collaborator, Directory, found, is_self,
  pick_best_collaborator, find_self_collaborator,
}
use applivery_soar.Access.Collaborator.Best.{
  IsBest, pick_best_collaborator-IsBest, unless_empty, records_on, find_self_collaborator-found,
}
use applivery_soar.Access.Resolve.{collaborator_access}
use applivery_soar.Access.Resolve.Decision.{collaborator_access-decides}

abbrev lower : String → String
lower s = if str_eq s "Owner" then "owner" else if str_eq s "SOC" then "soc" else s

abbrev texts : Texts
texts = record { lower = lower; trim = λ s. s }

abbrev collaborator : Option String → List (String × List String) → Collaborator
collaborator role fields = record {
  role = role;
  email = none;
  user_email = some "ana@acme.io";
  fields = fields;
}

-- Two records of one address: one from a sign-on, one of the owner.
abbrev unassigned : Collaborator
unassigned = collaborator (some "unassigned") []

abbrev owner : Collaborator
owner = collaborator (some "Owner") []

abbrev analyst : Collaborator
analyst = collaborator (some "viewer") (("tags", "SOC" ∷ []) ∷ [])

abbrev soc_role : SoarRoleRecord
soc_role = record {
  id = "r1";
  name = "SOC";
  feature_access = ("cases", manage) ∷ ("devices", read) ∷ [];
  risky_actions = ("canBulkTriage", true) ∷ [];
  applivery_tag_values = "soc" ∷ [];
}

abbrev directory : Directory
directory = record {
  filtered = record { status = 200; items = []; has_next_page = false };
  page = λ n. record {
    status = 200;
    items = if n == 1 then unassigned ∷ [] else owner ∷ [];
    has_next_page = n == 1;
  };
}

abbrev access : ResolvedAccess
access = collaborator_access texts (some analyst) (soc_role ∷ [])

abbrev options : RequirePermissionOptions
options = record {
  area = some "cases";
  level = some manage;
  action = some "canBulkTriage";
  super_admin_only = false;
}

abbrev request : Request
request = record { workspace_slug = some "acme"; sub = some "ana@acme.io" }

abbrev cache : AccessCache
cache = set_cached_access lower 1000 "acme" "ana@acme.io" access []

-- The owner's record is found on the second page.
find_self_collaborator-found_example :
    find_self_collaborator texts directory "ana@acme.io" 2
    ≡ found (
        pick_best_collaborator texts (
          unless_empty
            (keep (is_self texts "ana@acme.io") directory.filtered.items)
            (records_on texts directory "ana@acme.io" 1 2)))
find_self_collaborator-found_example =
    find_self_collaborator-found texts directory "ana@acme.io" 1 2 refl refl (omega arith)
      (refl, refl, tt) refl refl

pick_best_collaborator-IsBest_example :
    ((pick_best_collaborator texts (unassigned ∷ owner ∷ []) ≡ none)
      × (unassigned ∷ owner ∷ [] ≡ []))
    ⊎ ((best : Collaborator) × (pick_best_collaborator texts (unassigned ∷ owner ∷ []) ≡ some best)
        × IsBest texts best (unassigned ∷ owner ∷ []))
pick_best_collaborator-IsBest_example =
    pick_best_collaborator-IsBest texts (unassigned ∷ owner ∷ [])

collaborator_access-decides_example :
    (access.is_super_admin ≡ false)
    × (access.allowed ≡ true)
    × (access.role ≡ some soc_role)
    × ((collaborator_access texts none (soc_role ∷ [])).allowed ≡ false)
unfolding extract_collaborator_tag_candidates
collaborator_access-decides_example = collaborator_access-decides texts analyst (soc_role ∷ [])

require_permission-next_example : (require_permission lower 5000 options request cache ≡ next) ↔ (
    (entry : CachedAccess) × (lookup "acme:ana@acme.io" cache ≡ some entry)
    × (5000 - entry.resolved_at ≤ access_cache_ttl)
    × IsGranted options entry.access)
require_permission-next_example = require_permission-next lower 5000 options request cache
