-- ===== src/Limits/Pages/Complete.antt =====
-- What the walk over the pages collects (services/appliveryPaginate.ts).
use mathlib.Core.List.{append-nil, append_assoc}
use applivery_soar.Common.{
  ℕ, zero, suc, ◌+◌, ◌-◌, ◌≤◌, ◌<◌, ◌≡◌, ap, ◌∙◌, true, false, List, [], ◌++◌, arith, ◌==◌, length,
}
use applivery_soar.Limits.Pages.{fetch_all_pages, fetched, fetch_from, Page}

module _ {ℓ} {A : Type ℓ} where
  -- The items of so many pages from one on.
  abbrev pub items_on : (ℕ → Page A) → ℕ → ℕ → List A
  items_on pages page zero = []
  items_on pages page (suc n) = (pages page).items ++ items_on pages (suc page) n

  -- So many pages from one on are answered, with items, and more are announced.
  abbrev pub HasMore : (ℕ → Page A) → ℕ → ℕ → Type 0
  HasMore pages page zero = Unit
  HasMore pages page (suc n) =
      ((pages page).status ≡ 200)
      × ((length (pages page).items == 0) ≡ false)
      × ((pages page).has_next_page ≡ true)
      × HasMore pages (suc page) n

  walk :
      (pages : ℕ → Page A) (n left page : ℕ) (acc : List A)
      → n ≤ left
      → HasMore pages page n
      → fetch_from pages left page acc
        ≡ fetch_from pages (left - n) (page + n) (acc ++ items_on pages page n)
  walk pages zero left page acc le h =
      let same_left : left - 0 ≡ left = omega arith in
      let same_page : page + 0 ≡ page = omega arith in rw (same_left, same_page, append-nil acc)
  walk pages (suc n) zero page acc le h = absurd (omega (arith, le))
  walk pages (suc n) (suc left) page acc le (ok, filled, next, h) =
      let same_left : suc left - suc n ≡ left - n = omega arith in
      let same_page : page + suc n ≡ suc page + n = omega arith in
      let rest = walk pages n left (suc page) (acc ++ (pages page).items) (omega (arith, le)) h in
      rw (same_left, same_page, ok, filled, next)
        (rest
          ∙ ap (λ items. fetch_from pages (left - n) (suc page + n) items)
              (append_assoc acc (pages page).items (items_on pages (suc page) n)))

  items_on_end :
      (pages : ℕ → Page A) (n page : ℕ)
      → items_on pages page n ++ (pages (page + n)).items ≡ items_on pages page (suc n)
  items_on_end pages zero page =
      let eq : page + 0 ≡ page = omega arith in rw (eq, append-nil (pages page).items)
  items_on_end pages (suc n) page =
      let eq : page + suc n ≡ suc page + n = omega arith in
      rw eq (
        append_assoc (pages page).items (items_on pages (suc page) n) (pages (suc page + n)).items
        ∙ ap (λ items. (pages page).items ++ items) (items_on_end pages n (suc page)))

  -- A walk that meets no limit is complete: if every page before the last is answered with items and
  -- announces another, the last one is answered with items and announces none, and the limit allows for
  -- it, then the walk returns the items of all the pages, in their order, the last included.
  pub fetch_all_pages_complete :
      (pages : ℕ → Page A) (n max_pages : ℕ)
      → n < max_pages
      → HasMore pages 1 n
      → (pages (1 + n)).status ≡ 200
      → (length (pages (1 + n)).items == 0) ≡ false
      → (pages (1 + n)).has_next_page ≡ false
      → fetch_all_pages pages max_pages ≡ fetched (items_on pages 1 (suc n))
  unfolding fetch_all_pages
  fetch_all_pages_complete pages n max_pages lt h ok filled ends =
      let left : max_pages - n ≡ suc (max_pages - suc n) = omega (arith, lt) in
      walk pages n max_pages 1 [] (omega (arith, lt)) h
      ∙ rw (left, ok, filled, ends) (ap fetched (items_on_end pages n 1))

  -- A walk that is cut short keeps what it has: if a page after the first fails, the walk returns the
  -- items of all the pages before it.
  pub fetch_all_pages_partial :
      (pages : ℕ → Page A) (n max_pages : ℕ)
      → suc n < max_pages
      → HasMore pages 1 (suc n)
      → ((pages (1 + suc n)).status == 200) ≡ false
      → fetch_all_pages pages max_pages ≡ fetched (items_on pages 1 (suc n))
  unfolding fetch_all_pages
  fetch_all_pages_partial pages n max_pages lt h bad =
      let left : max_pages - suc n ≡ suc (max_pages - suc (suc n)) = omega (arith, lt) in
      let later : (1 + suc n == 1) ≡ false = ground arith in
      walk pages (suc n) max_pages 1 [] (omega (arith, lt)) h ∙ rw (left, bad, later)
