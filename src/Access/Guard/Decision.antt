-- ===== src/Access/Guard/Decision.antt =====
-- What the guard lets through, and how long a decision lasts (middleware/rbac.middleware.ts).
use applivery_soar.Common.{
  if◌then◌else◌, ℕ, ◌-◌, ◌≤◌, ◌≡◌, ◌↔◌, ◌⊎◌, inl, inr, refl, subst, String, Bool, true, false, not,
  Option, none, some, arith, ltb, Bool-cases, or_else, or_string, str_eq, lookup, lookup-insert,
}
use applivery_soar.Access.Guard.{
  ltb, some, false, or_else, or_string, not, Bool, Option, String, true, ResolvedAccess,
  SoarRoleRecord, FeatureLevel, read, feature_access_levels, role_feature_level, role_permits,
  RequirePermissionOptions, next, forbidden, check_action, check_area, decide, decide_cached,
  require_permission, Request, AccessCache, CachedAccess, get_cached_access, set_cached_access,
  cache_key, access_cache_ttl, unless_old, level_refusal,
}

-- The role reaches the level on the area, if one is asked for.
abbrev pub Reaches : Option SoarRoleRecord → FeatureLevel → Option String → Type 0
Reaches role level none = Unit
Reaches role level (some area) =
    feature_access_levels level ≤ feature_access_levels (role_feature_level role area)

-- The role permits the action, if one is asked for.
abbrev pub Permits : Option SoarRoleRecord → Option String → Type 0
Permits role none = Unit
Permits role (some action) = role_permits role action ≡ true

-- An access that is allowed, and either the super admin's or that of a role with what is asked for.
abbrev pub IsGranted : RequirePermissionOptions → ResolvedAccess → Type 0
IsGranted options access =
    (access.allowed ≡ true)
    × ((access.is_super_admin ≡ true)
        ⊎ ((options.super_admin_only ≡ false)
            × Reaches access.role (or_else options.level read) options.area
            × Permits access.role options.action))

check_action-next :
    (role : Option SoarRoleRecord) (action : Option String)
    → (check_action role action ≡ next) ↔ Permits role action
check_action-next role none = (λ h. tt, λ h. refl)
check_action-next role (some action) = elim (Bool-cases (role_permits role action)) [
  | inl e ↦ (λ h. e, λ h. rw e)
  | inr e ↦ (λ h. cc (rw e at h), λ h. cc)
]

check_area-next :
    (role : Option SoarRoleRecord) (area : Option String) (level : FeatureLevel)
    (action : Option String)
    → (check_area role area level action ≡ next) ↔ (Reaches role level area × Permits role action)
check_area-next role none level action =
    (λ h. (tt, (check_action-next role action).0 h), λ h. (check_action-next role action).1 h.1)
check_area-next role (some area) level action =
    go (feature_access_levels (role_feature_level role area)) (feature_access_levels level)
  where
    go :
        (have need : ℕ)
        → ((if ltb have need
              then forbidden (level_refusal level area)
              else check_action role action)
            ≡ next)
          ↔ ((need ≤ have) × Permits role action)
    go have need = elim (Bool-cases (ltb have need)) [
      | inl e ↦ (λ h. cc (rw e at h), λ h. absurd (ground (arith, e, h.0)))
      | inr e ↦ (
        λ h. (ground (arith, e), (check_action-next role action).0 (rw e at h)),
        λ h. rw e ((check_action-next role action).1 h.1),
      )
    ]

decide_by :
    (options : RequirePermissionOptions) (access : ResolvedAccess) (allowed admin only : Bool)
    → ((if not allowed
          then forbidden (or_else access.denied_reason "No SOAR role assigned for this workspace.")
          else if admin
          then next
          else if only
          then forbidden
              "This action is restricted to the workspace Super Admin (the Applivery workspace Owner)."
          else check_area access.role options.area (or_else options.level read) options.action)
        ≡ next)
      ↔ ((allowed ≡ true)
          × ((admin ≡ true)
              ⊎ ((only ≡ false)
                  × Reaches access.role (or_else options.level read) options.area
                  × Permits access.role options.action)))
decide_by options access false admin only = (λ h. cc, λ h. cc (h.0))
decide_by options access true true only = (λ h. (refl, inl refl), λ h. refl)
decide_by options access true false true =
    (λ h. cc, λ h. elim (h.1) [ inl e ↦ cc | inr k ↦ cc (k.0) ])
decide_by options access true false false =
    let same =
      check_area-next access.role options.area (or_else options.level read) options.action in
    (
      λ h. let (area, action) = same.0 h in (refl, inr (refl, area, action)),
      λ h. elim (h.1) [ inl e ↦ cc | inr (_, area, action) ↦ same.1 (area, action) ],
    )

decide-next :
    (options : RequirePermissionOptions) (access : ResolvedAccess)
    → (decide options access ≡ next) ↔ IsGranted options access
decide-next options access =
    decide_by options access access.allowed access.is_super_admin options.super_admin_only

same_entry : (other entry : CachedAccess) → some entry ≡ some other → other ≡ entry
same_entry other entry same = cc

late :
    (now : ℕ) (entry other : CachedAccess)
    → ltb access_cache_ttl (now - entry.resolved_at) ≡ true
    → some entry ≡ some other
    → now - other.resolved_at ≤ access_cache_ttl
    → ⊥
late now entry other e same le =
    let here : now - entry.resolved_at ≤ access_cache_ttl =
      subst (λ x. now - x.resolved_at ≤ access_cache_ttl) (same_entry other entry same) le in
    ground (arith, e, here)

-- The guard calls the handler exactly if the cache holds, for the workspace of the header and the
-- address of the token, a decision that is no older than the lifetime and that grants what the route
-- asks for; whatever else the cache or the request holds, the answer is a refusal.
pub require_permission-next :
    (lower : String → String) (now : ℕ) (options : RequirePermissionOptions) (req : Request)
    (cache : AccessCache)
    → (require_permission lower now options req cache ≡ next) ↔ (
        (entry : CachedAccess) × (lookup
            (cache_key lower (or_string req.workspace_slug "global") (or_else req.sub ""))
            cache
          ≡ some entry)
        × (now - entry.resolved_at ≤ access_cache_ttl)
        × IsGranted options entry.access)
unfolding require_permission get_cached_access
require_permission-next lower now options req cache =
    go (lookup (cache_key lower (or_string req.workspace_slug "global") (or_else req.sub "")) cache)
  where
    go :
        (found : Option CachedAccess)
        → (decide_cached options (unless_old now found) ≡ next) ↔ (
            (entry : CachedAccess) × (found ≡ some entry)
            × (now - entry.resolved_at ≤ access_cache_ttl)
            × IsGranted options entry.access)
    go none = (λ h. cc, λ (entry, e, le, g). cc)
    go (some entry) = elim (Bool-cases (ltb access_cache_ttl (now - entry.resolved_at))) [
      | inl e ↦
          (λ h. cc (rw e at h), λ (other, same, le, g). absurd (late now entry other e same le))
      | inr e ↦ (
        λ h. (entry, refl, ground (arith, e), (decide-next options entry.access).0 (rw e at h)),
        λ (other, same, le, g). rw e (
            (decide-next options entry.access).1
              (subst (λ x. IsGranted options x.access) (same_entry other entry same) g)),
      )
    ]

-- The key under which the guard looks for a request.
abbrev pub request_key : (String → String) → Request → String
request_key lower req = cache_key lower (or_string req.workspace_slug "global") (or_else req.sub "")

-- A resolved access decides the requests of its workspace and address for its lifetime, and no others:
-- after it is cached, a request under its key is decided by it alone until it is too old, and refused
-- from then on, whatever was cached before; a request under another key is answered as before.
pub require_permission-set_cached_access :
    (lower : String → String) (at now : ℕ) (slug email : String) (access : ResolvedAccess)
    (options : RequirePermissionOptions) (req : Request) (cache : AccessCache)
    → require_permission lower now options req (set_cached_access lower at slug email access cache)
      ≡ (if str_eq (cache_key lower slug email) (request_key lower req)
          then decide_cached options (if ltb access_cache_ttl (now - at) then none else some access)
          else require_permission lower now options req cache)
unfolding require_permission get_cached_access set_cached_access
require_permission-set_cached_access lower at now slug email access options req cache =
    let key = cache_key lower slug email in
    let key' = request_key lower req in
    rw (lookup-insert key key' (record { resolved_at = at; access = access }) cache)
      (elim (Bool-cases (str_eq key key')) [ inl e ↦ rw e | inr e ↦ rw e ])
