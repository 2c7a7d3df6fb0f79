-- ===== src/Access/Collaborator.antt =====
-- The collaborator of the signed-in user (modules/auth/rbac.service.ts). The answers of Applivery's API
-- are an argument, and so are `toLowerCase` and `trim`. A collaborator is what the source reads off the
-- record: its role, its addresses, and the texts under each field (a single value is a list of one, a
-- missing field or null an empty one).
pub mod Best
use applivery_soar.Common.{
  if◌then◌else◌, ℕ, zero, suc, ◌+◌, ◌-◌, ◌*◌, ◌≤◌, ◌<◌, ◌≡◌, ◌≢◌, ◌↔◌, ◌⊎◌, inl, inr, refl, sym, ap,
  subst, ◌∙◌, String, Bool, true, false, not, ◌&&◌, ◌||◌, Option, none, some, List, [], ◌∷◌, ◌++◌,
  map, arith, ltb, leb, ◌==◌, ==_self, ==-eq, Bool-cases, Option-cases, or_else, is_some, or_string,
  join, str_eq, str_eq-true, str_eq_self, str_eq-false, truthy, includes, opt_eq, is_set, length,
  take, drop, any, all, keep, find, count_if, All, find-All, find-holds, All-keep, keep-all,
  all-keep, length-append, length-keep-le, lookup, insert, delete_keys, lookup-insert,
  lookup-delete_keys,
}

-- `String.prototype.toLowerCase` and `String.prototype.trim`
pub record Texts : Type 0 where
  pub lower : String → String
  pub trim : String → String

pub record Collaborator : Type 0 where
  pub role : Option String
  pub email : Option String
  pub user_email : Option String
  pub fields : List (String × List String)

-- `COLLABORATOR_TAG_FIELD_CANDIDATES`
abbrev pub collaborator_tag_field_candidates : List String
collaborator_tag_field_candidates =
    "tags" ∷ "tag" ∷ "label" ∷ "labels" ∷ "group" ∷ "groups" ∷ "roleTag" ∷ "customTag"
    ∷ "segmentRole" ∷ []

abbrev pub add_tag : Texts → String → List String → List String
add_tag t c out =
    if truthy (t.trim c) && not (includes out (t.trim c)) then out ++ t.trim c ∷ [] else out

abbrev pub add_tags : Texts → List String → List String → List String
add_tags t [] out = out
add_tags t (c ∷ cs) out = add_tags t cs (add_tag t c out)

abbrev pub values_of : Collaborator → String → List String
values_of raw field = or_else (lookup field raw.fields) []

abbrev pub add_fields : Texts → Collaborator → List String → List String → List String
add_fields t raw [] out = out
add_fields t raw (field ∷ fields) out =
    add_fields t raw fields (add_tags t (values_of raw field) out)

-- `extractCollaboratorTagCandidates`
unfoldable pub extract_collaborator_tag_candidates : Texts → Collaborator → List String
extract_collaborator_tag_candidates t raw = add_fields t raw collaborator_tag_field_candidates []

-- `ROLE_PRIVILEGE_ORDER`
abbrev pub role_privilege_order : List String
role_privilege_order = "owner" ∷ "admin" ∷ "editor" ∷ "viewer" ∷ "unassigned" ∷ []

-- `indexOf`, or the length of the list if there is none
abbrev pub index_or_length : String → List String → ℕ
index_or_length s [] = 0
index_or_length s (x ∷ xs) = if str_eq x s then 0 else suc (index_or_length s xs)

-- `rolePrivilegeRank`
abbrev pub role_privilege_rank : Texts → Option String → ℕ
role_privilege_rank t role = index_or_length (t.lower (or_else role "")) role_privilege_order

abbrev pub best_from : Texts → Collaborator → List Collaborator → Collaborator
best_from t best [] = best
best_from t best (cur ∷ cs) =
    if ltb (role_privilege_rank t cur.role) (role_privilege_rank t best.role)
    then best_from t cur cs
    else best_from t best cs

-- `pickBestCollaborator`
unfoldable pub pick_best_collaborator : Texts → List Collaborator → Option Collaborator
pick_best_collaborator t [] = none
pick_best_collaborator t (c ∷ cs) = some (best_from t c cs)

-- An answer of the API: its status, and its items and `hasNextPage` as `extractItems` and the walk
-- read them.
pub record Page : Type 0 where
  pub status : ℕ
  pub items : List Collaborator
  pub has_next_page : Bool

-- The answer to the search by address, and those to the pages from 1 on.
pub record Directory : Type 0 where
  pub filtered : Page
  pub page : ℕ → Page

pub data Search : Type 0 where
  found : Option Collaborator → Search
  session_expired : Search
  out_of_fuel : Search

-- `(i.email ?? i.user?.email ?? "").toLowerCase() === emailLower`
abbrev pub is_self : Texts → String → Collaborator → Bool
is_self t email_lower i = str_eq (t.lower (or_else i.email (or_else i.user_email ""))) email_lower

abbrev pub is_expired : ℕ → Bool
is_expired status = status == 401 || status == 403

-- The loop over the pages, with the matches so far.
abbrev pub scan_pages : Texts → Directory → String → ℕ → ℕ → List Collaborator → Search
scan_pages t dir email_lower zero page matches = out_of_fuel
scan_pages t dir email_lower (suc fuel) page matches =
    let res = dir.page page in
    let now = matches ++ keep (is_self t email_lower) res.items in
    let rest = scan_pages t dir email_lower fuel (suc page) now in
    if is_expired res.status
    then session_expired
    else if not (res.status == 200)
    then found (pick_best_collaborator t matches)
    else if res.has_next_page
    then rest
    else found (pick_best_collaborator t now)

abbrev pub or_scan : Texts → Directory → String → ℕ → List Collaborator → Search
or_scan t dir email_lower fuel [] = scan_pages t dir email_lower fuel 1 []
or_scan t dir email_lower fuel (m ∷ ms) = found (pick_best_collaborator t (m ∷ ms))

-- `findSelfCollaborator`
unfoldable pub find_self_collaborator : Texts → Directory → String → ℕ → Search
unfolding pick_best_collaborator
find_self_collaborator t dir email fuel =
    if not (truthy (t.lower email))
    then found none
    else if is_expired dir.filtered.status
    then session_expired
    else or_scan t dir (t.lower email) fuel (
        if dir.filtered.status == 200
        then keep (is_self t (t.lower email)) dir.filtered.items
        else [])
