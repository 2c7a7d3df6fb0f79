-- ===== src/Access/Resolve/Decision.antt =====
-- Who is let in (modules/auth/rbac.service.ts).
use applivery_soar.Common.{
  if◌then◌else◌, ◌≡◌, inl, inr, refl, String, Bool, true, false, ◌||◌, Option, none, some, List, [],
  ◌∷◌, Bool-cases, is_some, str_eq, includes, any, find,
}
use applivery_soar.Access.Guard.{ResolvedAccess, SoarRoleRecord}
use applivery_soar.Access.Collaborator.{Texts, Collaborator}
use applivery_soar.Access.Resolve.{
  matched_tag, role_access, tags_of, role_of, collaborator_access, or_next_role,
}

-- The role accepts one of the tags.
abbrev pub accepts : Texts → List String → SoarRoleRecord → Bool
accepts t tags role = any (λ v. includes tags (t.lower (t.trim v))) role.applivery_tag_values

matched_tag-is_some :
    (t : Texts) (tags vs : List String)
    → is_some (matched_tag t tags vs) ≡ any (λ v. includes tags (t.lower (t.trim v))) vs
matched_tag-is_some t tags [] = refl
matched_tag-is_some t tags (v ∷ vs) = elim (Bool-cases (includes tags (t.lower (t.trim v)))) [
  | inl e ↦ rw e
  | inr e ↦ rw e (matched_tag-is_some t tags vs)
]

or_next-decides :
    (name : String) (role : SoarRoleRecord) (rest : ResolvedAccess) (later : Bool)
    (next : Option SoarRoleRecord) (o : Option String) (b : Bool)
    → is_some o ≡ b
    → (rest.allowed ≡ later) × (rest.is_super_admin ≡ false) × (rest.role ≡ next)
    → ((or_next_role name role o rest).allowed ≡ (b || later))
      × ((or_next_role name role o rest).is_super_admin ≡ false)
      × ((or_next_role name role o rest).role ≡ (if b then some role else next))
or_next-decides name role rest later next none false h k = k
or_next-decides name role rest later next (some v) true h k = (refl, refl, refl)
or_next-decides name role rest later next none true h k = cc
or_next-decides name role rest later next (some v) false h k = cc

role_access-decides :
    (t : Texts) (name : String) (tags : List String) (roles : List SoarRoleRecord)
    → ((role_access t name tags roles).allowed ≡ any (accepts t tags) roles)
      × ((role_access t name tags roles).is_super_admin ≡ false)
      × ((role_access t name tags roles).role ≡ find (accepts t tags) roles)
role_access-decides t name tags [] = (refl, refl, refl)
role_access-decides t name tags (role ∷ roles) =
    or_next-decides name role (role_access t name tags roles) (any (accepts t tags) roles)
      (find (accepts t tags) roles) (matched_tag t tags role.applivery_tag_values)
      (accepts t tags role) (matched_tag-is_some t tags role.applivery_tag_values)
      (role_access-decides t name tags roles)

-- The three steps of the precedence: the owner, and nobody else, is the super admin, without a role;
-- any other collaborator is let in exactly if some role accepts one of the tags of the collaborator,
-- letter case and outer spaces aside, and then with the first such role; everyone else is denied, as is
-- an address without a collaborator.
pub collaborator_access-decides :
    (t : Texts) (c : Collaborator) (roles : List SoarRoleRecord)
    → let access = collaborator_access t (some c) roles in
      (access.is_super_admin ≡ str_eq (role_of t c) "owner")
      × (access.allowed ≡ (str_eq (role_of t c) "owner" || any (accepts t (tags_of t c)) roles))
      × (access.role
          ≡ (if str_eq (role_of t c) "owner" then none else find (accepts t (tags_of t c)) roles))
      × ((collaborator_access t none roles).allowed ≡ false)
collaborator_access-decides t c roles = elim (Bool-cases (str_eq (role_of t c) "owner")) [
  | inl e ↦ rw e (refl, refl, refl, refl)
  | inr e ↦
      let (allowed, admin, role) = role_access-decides t (role_of t c) (tags_of t c) roles in
      rw e (admin, allowed, role, refl)
]
