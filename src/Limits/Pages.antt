-- ===== src/Limits/Pages.antt =====
-- The walk over the pages of a list (services/appliveryPaginate.ts). The answers are an argument; an
-- answer is its status, and the items and `hasNextPage` that are read off it.
pub mod Complete
use applivery_soar.Common.{
  if◌then◌else◌, ℕ, min, max, zero, suc, ◌+◌, ◌-◌, ◌*◌, ◌≤◌, ◌<◌, ◌≡◌, ◌≢◌, ◌↔◌, ◌⊎◌, inl, inr,
  refl, sym, ap, subst, ◌∙◌, String, Bool, true, false, not, ◌&&◌, ◌||◌, Option, none, some, List,
  [], ◌∷◌, ◌++◌, map, arith, ltb, leb, ◌==◌, ==_self, ==-eq, Bool-cases, Option-cases, or_else,
  is_some, or_string, join, str_eq, str_eq-true, str_eq_self, str_eq-false, truthy, includes,
  opt_eq, is_set, length, take, drop, any, all, keep, find, count_if, All, find-All, find-holds,
  All-keep, keep-all, all-keep, length-append, length-keep-le, lookup, insert, delete_keys,
  lookup-insert, lookup-delete_keys,
}

pub record Page {ℓ} (A : Type ℓ) : Type ℓ where
  pub status : ℕ
  pub items : List A
  pub has_next_page : Bool

pub data Fetched {ℓ} (A : Type ℓ) : Type ℓ where
  fetched : List A → Fetched A
  bad_gateway : ℕ → Fetched A  -- with the status of the first page

abbrev pub failed_page {ℓ} : {A : Type ℓ} → ℕ → ℕ → List A → Fetched A
failed_page page status all_items = if page == 1 then bad_gateway status else fetched all_items

-- The loop, with the number of pages that it may still ask for.
abbrev pub fetch_from {ℓ} : {A : Type ℓ} → (ℕ → Page A) → ℕ → ℕ → List A → Fetched A
fetch_from pages zero page all_items = fetched all_items
fetch_from pages (suc left) page all_items =
    let res = pages page in
    let rest = fetch_from pages left (suc page) (all_items ++ res.items) in
    if not (res.status == 200)
    then failed_page page res.status all_items
    else if length res.items == 0
    then fetched all_items
    else if res.has_next_page
    then rest
    else fetched (all_items ++ res.items)

-- `fetchAllPages`
unfoldable pub fetch_all_pages {ℓ} : {A : Type ℓ} → (ℕ → Page A) → ℕ → Fetched A
fetch_all_pages pages max_pages = fetch_from pages max_pages 1 []
