-- ===== src/Access/Collaborator/Best.antt =====
-- Which collaborator is found (modules/auth/rbac.service.ts).
use mathlib.Core.List.{append-nil, append_assoc}
use applivery_soar.Common.{
  ℕ, zero, suc, ◌+◌, ◌≤◌, ◌<◌, ◌≡◌, ◌⊎◌, inl, inr, refl, ap, subst, ◌∙◌, String, true, false, none,
  some, List, [], ◌∷◌, ◌++◌, arith, ltb, ltb→lt, Bool-cases, truthy, keep, All,
}
use applivery_soar.Access.Collaborator.{
  Texts, Collaborator, role_privilege_rank, best_from, pick_best_collaborator, Directory, found,
  is_self, scan_pages, find_self_collaborator, or_scan,
}

-- The collaborator is an element of the list, and each one that stands before it has a lower privilege
-- (a higher rank number).
abbrev pub IsFirst : Texts → Collaborator → List Collaborator → Type 0
IsFirst t c [] = ⊥
IsFirst t c (d ∷ ds) =
    (c ≡ d) ⊎ ((role_privilege_rank t c.role < role_privilege_rank t d.role) × IsFirst t c ds)

-- The collaborator is the first one of the list of the highest privilege in it.
abbrev pub IsBest : Texts → Collaborator → List Collaborator → Type 0
IsBest t best cs =
    All (λ c. role_privilege_rank t best.role ≤ role_privilege_rank t c.role) cs × IsFirst t best cs

skip_second :
    (t : Texts) (c best cur : Collaborator) (cs : List Collaborator)
    → role_privilege_rank t best.role ≤ role_privilege_rank t cur.role
    → IsFirst t c (best ∷ cs)
    → IsFirst t c (best ∷ cur ∷ cs)
skip_second t c best cur cs le (inl e) = inl e
skip_second t c best cur cs le (inr (lt, k)) = inr (lt, inr (omega (arith, lt, le), k))

not_less : (a b : ℕ) → ltb a b ≡ false → b ≤ a
not_less a b h = ground (arith, h)

best_from-IsBest :
    (t : Texts) (best : Collaborator) (cs : List Collaborator)
    → IsBest t (best_from t best cs) (best ∷ cs)
best_from-IsBest t best [] = ((omega arith, tt), inl refl)
best_from-IsBest t best (cur ∷ cs) =
    elim (Bool-cases (ltb (role_privilege_rank t cur.role) (role_privilege_rank t best.role))) [
      | inl e ↦
          let ((le, rest), here) = best_from-IsBest t cur cs in
          let lt = ltb→lt _ _ e in
          let eq : best_from t cur cs ≡ best_from t best (cur ∷ cs) = rw e in
          subst (λ b. IsBest t b (best ∷ cur ∷ cs)) eq
            ((omega (arith, lt, le), (le, rest)), inr (omega (arith, lt, le), here))
      | inr e ↦
          let ((le, rest), here) = best_from-IsBest t best cs in
          let ge = not_less _ _ e in
          let eq : best_from t best cs ≡ best_from t best (cur ∷ cs) = rw e in
          subst (λ b. IsBest t b (best ∷ cur ∷ cs)) eq
            ((le, (omega (arith, ge, le), rest)), skip_second t _ best cur cs ge here)
    ]

-- Among several records of one address the choice is the first one, in their order, of the highest
-- privilege: none has a higher privilege, and each one before it has a lower one. There is no choice
-- only if there is no record.
pub pick_best_collaborator-IsBest :
    (t : Texts) (cs : List Collaborator)
    → ((pick_best_collaborator t cs ≡ none) × (cs ≡ []))
      ⊎ ((best : Collaborator) × (pick_best_collaborator t cs ≡ some best) × IsBest t best cs)
unfolding pick_best_collaborator
pick_best_collaborator-IsBest t [] = inl (refl, refl)
pick_best_collaborator-IsBest t (c ∷ cs) = inr (best_from t c cs, refl, best_from-IsBest t c cs)

-- So many pages from this one on are answered, and more are announced.
abbrev pub HasMore : Directory → ℕ → ℕ → Type 0
HasMore dir page zero = Unit
HasMore dir page (suc n) =
    ((dir.page page).status ≡ 200)
    × ((dir.page page).has_next_page ≡ true)
    × HasMore dir (suc page) n

-- The records of an address on so many pages from this one on.
abbrev pub records_on : Texts → Directory → String → ℕ → ℕ → List Collaborator
records_on t dir email page zero = []
records_on t dir email page (suc n) =
    keep (is_self t email) (dir.page page).items ++ records_on t dir email (suc page) n

scan_pages-found :
    (t : Texts) (dir : Directory) (email : String) (n fuel page : ℕ) (matches : List Collaborator)
    → n < fuel
    → HasMore dir page n
    → (dir.page (page + n)).status ≡ 200
    → (dir.page (page + n)).has_next_page ≡ false
    → scan_pages t dir email fuel page matches
      ≡ found (pick_best_collaborator t (matches ++ records_on t dir email page (suc n)))
scan_pages-found t dir email n zero page matches lt more ok last = absurd (omega (arith, lt))
scan_pages-found t dir email zero (suc fuel) page matches lt more ok last =
    let eq : page + 0 ≡ page = omega arith in
    let here = subst (λ p. (dir.page p).status ≡ 200) eq ok in
    let ends = subst (λ p. (dir.page p).has_next_page ≡ false) eq last in
    rw (here, ends, append-nil (keep (is_self t email) (dir.page page).items))
scan_pages-found t dir email (suc n) (suc fuel) page matches lt (here, next, more) ok last =
    let eq : page + suc n ≡ suc page + n = omega arith in
    let rest =
      scan_pages-found t dir email n fuel (suc page)
        (matches ++ keep (is_self t email) (dir.page page).items) (omega (arith, lt)) more
        (subst (λ p. (dir.page p).status ≡ 200) eq ok)
        (subst (λ p. (dir.page p).has_next_page ≡ false) eq last) in
    rw (here, next)
      (rest
        ∙ ap (λ cs. found (pick_best_collaborator t cs))
            (append_assoc matches (keep (is_self t email) (dir.page page).items)
              (records_on t dir email (suc page) (suc n))))

-- The first list, unless it is empty.
abbrev pub unless_empty : List Collaborator → List Collaborator → List Collaborator
unless_empty [] ys = ys
unless_empty (x ∷ xs) ys = x ∷ xs

-- A search that is answered ends, and misses nobody: given more fuel than there are pages before the
-- last, it finds the most privileged of the records with the address (letter case aside) that the
-- search by address gave or, if it gave none, of those on all the pages, the last one included.
pub find_self_collaborator-found :
    (t : Texts) (dir : Directory) (email : String) (n fuel : ℕ)
    → truthy (t.lower email) ≡ true
    → dir.filtered.status ≡ 200
    → n < fuel
    → HasMore dir 1 n
    → (dir.page (1 + n)).status ≡ 200
    → (dir.page (1 + n)).has_next_page ≡ false
    → find_self_collaborator t dir email fuel
      ≡ found (
          pick_best_collaborator t (
            unless_empty
              (keep (is_self t (t.lower email)) dir.filtered.items)
              (records_on t dir (t.lower email) 1 (suc n))))
unfolding find_self_collaborator pick_best_collaborator
find_self_collaborator-found t dir email n fuel named ok lt more answered last =
    rw (named, ok) (go (keep (is_self t (t.lower email)) dir.filtered.items))
  where
    go :
        (ms : List Collaborator)
        → or_scan t dir (t.lower email) fuel ms
          ≡ found (
              pick_best_collaborator t
                (unless_empty ms (records_on t dir (t.lower email) 1 (suc n))))
    go [] = scan_pages-found t dir (t.lower email) n fuel 1 [] lt more answered last
    go (m ∷ ms) = refl
