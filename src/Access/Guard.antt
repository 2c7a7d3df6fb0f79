-- ===== src/Access/Guard.antt =====
-- The guard of the routes and the cache that it reads (middleware/rbac.middleware.ts). The cache is
-- the list of the map's entries; `lower` is `toLowerCase`, which is an argument.
pub mod Decision
use applivery_soar.Common.{
  if◌then◌else◌, ℕ, zero, suc, ◌+◌, ◌-◌, ◌*◌, ◌≤◌, ◌<◌, ◌≡◌, ◌≢◌, ◌↔◌, ◌⊎◌, inl, inr, refl, sym, ap,
  subst, ◌∙◌, String, Bool, true, false, not, ◌&&◌, ◌||◌, Option, none, some, List, [], ◌∷◌, ◌++◌,
  map, arith, ltb, leb, ◌==◌, ==_self, ==-eq, Bool-cases, Option-cases, or_else, is_some, or_string,
  join, str_eq, str_eq-true, str_eq_self, str_eq-false, truthy, includes, opt_eq, is_set, length,
  take, drop, any, all, keep, find, count_if, All, find-All, find-holds, All-keep, keep-all,
  all-keep, length-append, length-keep-le, lookup, insert, delete_keys, lookup-insert,
  lookup-delete_keys,
}

pub data FeatureLevel : Type 0 where
  nothing read manage : FeatureLevel

-- `FEATURE_ACCESS_LEVELS`
abbrev pub feature_access_levels : FeatureLevel → ℕ
feature_access_levels nothing = 0
feature_access_levels read = 1
feature_access_levels manage = 2

pub record SoarRoleRecord : Type 0 where
  pub id : String
  pub name : String
  pub feature_access : List (String × FeatureLevel)
  pub risky_actions : List (String × Bool)
  pub applivery_tag_values : List String

pub record ResolvedAccess : Type 0 where
  pub allowed : Bool
  pub is_super_admin : Bool
  pub role : Option SoarRoleRecord
  pub collaborator_role : Option String
  pub matched_tag_value : Option String
  pub denied_reason : Option String

pub record CachedAccess : Type 0 where
  pub resolved_at : ℕ
  pub access : ResolvedAccess

-- `accessCache`
abbrev pub AccessCache : Type 0
AccessCache = List (String × CachedAccess)

-- `ACCESS_CACHE_TTL_MS`
abbrev pub access_cache_ttl : ℕ
access_cache_ttl = 12 * 60 * 60 * 1000

-- `cacheKey`
abbrev pub cache_key : (String → String) → String → String → String
cache_key lower slug email = join slug (join ":" (lower email))

abbrev pub unless_old : ℕ → Option CachedAccess → Option ResolvedAccess
unless_old now none = none
unless_old now (some entry) =
    if ltb access_cache_ttl (now - entry.resolved_at) then none else some entry.access

-- `getCachedAccess`
unfoldable pub get_cached_access :
    (String → String) → ℕ → String → String → AccessCache → Option ResolvedAccess
get_cached_access lower now slug email cache =
    unless_old now (lookup (cache_key lower slug email) cache)

-- `setCachedAccess`
unfoldable pub set_cached_access :
    (String → String) → ℕ → String → String → ResolvedAccess → AccessCache → AccessCache
set_cached_access lower now slug email access cache =
    insert (cache_key lower slug email) (record { resolved_at = now; access = access }) cache

-- `roleFeatureLevel`
abbrev pub role_feature_level : Option SoarRoleRecord → String → FeatureLevel
role_feature_level none area = nothing
role_feature_level (some role) area = or_else (lookup area role.feature_access) nothing

-- `role?.riskyActions?.[action]`, as a truth value
abbrev pub role_permits : Option SoarRoleRecord → String → Bool
role_permits none action = false
role_permits (some role) action = or_else (lookup action role.risky_actions) false

pub record RequirePermissionOptions : Type 0 where
  pub area : Option String
  pub level : Option FeatureLevel
  pub action : Option String
  pub super_admin_only : Bool

pub data Answer : Type 0 where
  next : Answer
  forbidden : String → Answer

abbrev pub level_name : FeatureLevel → String
level_name nothing = "none"
level_name read = "read"
level_name manage = "manage"

abbrev pub level_refusal : FeatureLevel → String → String
level_refusal level area =
    join "Your role doesn't have " (join (level_name level) (join " access to " (join area ".")))

abbrev pub check_action : Option SoarRoleRecord → Option String → Answer
check_action role none = next
check_action role (some action) =
    if role_permits role action
    then next
    else forbidden (join "Your role isn't permitted to perform this action (" (join action ")."))

abbrev pub check_area :
    Option SoarRoleRecord → Option String → FeatureLevel → Option String → Answer
check_area role none level action = check_action role action
check_area role (some area) level action =
    if ltb (feature_access_levels (role_feature_level role area)) (feature_access_levels level)
    then forbidden (level_refusal level area)
    else check_action role action

abbrev pub decide : RequirePermissionOptions → ResolvedAccess → Answer
decide options cached =
    if not cached.allowed
    then forbidden (or_else cached.denied_reason "No SOAR role assigned for this workspace.")
    else if cached.is_super_admin
    then next
    else if options.super_admin_only
    then forbidden
        "This action is restricted to the workspace Super Admin (the Applivery workspace Owner)."
    else check_area cached.role options.area (or_else options.level read) options.action

abbrev pub decide_cached : RequirePermissionOptions → Option ResolvedAccess → Answer
decide_cached options none =
    forbidden
      "Access not resolved for this workspace yet — switch workspace or sign in again to refresh permissions."
decide_cached options (some cached) = decide options cached

-- The header, and the subject of the dashboard's token.
pub record Request : Type 0 where
  pub workspace_slug : Option String
  pub sub : Option String

-- `requirePermission`
unfoldable pub require_permission :
    (String → String) → ℕ → RequirePermissionOptions → Request → AccessCache → Answer
unfolding get_cached_access
require_permission lower now options req cache =
    decide_cached options (
      get_cached_access lower now (or_string req.workspace_slug "global") (or_else req.sub "")
        cache)
