-- ===== src/Triggers/Fire/Rotated.antt =====
-- What a new secret does to the old one (modules/workflows/triggers.service.ts).
use applivery_soar.Common.{
  ◌≡◌, ◌≢◌, inl, inr, refl, String, Bool, true, false, ◌&&◌, some, List, [], ◌∷◌, arith, Bool-cases,
  str_eq, str_eq-true, str_eq-false, find, find-holds,
}
use applivery_soar.Cases.Table.{http_error}
use applivery_soar.Triggers.Table.{
  Trigger, Store, failed, has_id, find_trigger, find_trigger_by_id, set_trigger, replace,
  rotate_trigger_secret,
}
use applivery_soar.Triggers.Fire.{Outside, Body, fire_trigger, resolve_trigger_device}

-- A row that is written is found by its id, if a row of that id passed some test.
find-set_trigger :
    (slug : String) (id : String) (new t : Trigger) (ts : List Trigger)
    → new.id ≡ t.id
    → find (λ x. str_eq x.workspace_slug slug && has_id id x) ts ≡ some t
    → find (has_id id) (set_trigger new ts) ≡ some new
find-set_trigger slug id new t [] same e = cc
find-set_trigger slug id new t (x ∷ xs) same e =
    let (_, named) =
      both (str_eq t.workspace_slug slug) (has_id id t)
        (find-holds (λ y. str_eq y.workspace_slug slug && has_id id y) (x ∷ xs) e) in
    let new_named : str_eq new.id id ≡ true = rw same named in
    elim (Bool-cases (has_id new.id x)) [
      | inl k ↦ rw (k, new_named)
      | inr k ↦
          let other : str_eq x.id id ≡ false = rw (← str_eq-true new.id id new_named) k in
          let rest : find (λ y. str_eq y.workspace_slug slug && has_id id y) xs ≡ some t =
            elim (Bool-cases (str_eq x.workspace_slug slug)) [
              | inl a ↦ rw (a, other) at e
              | inr a ↦ rw a at e
            ] in
          rw (k, other) (find-set_trigger slug id new t xs same rest)
    ]
  where
    both : (a b : Bool) → (a && b) ≡ true → (a ≡ true) × (b ≡ true)
    both a b h = ground arith

replaced :
    (slug id : String) (f : Trigger → Trigger) (s : Store) (t : Trigger)
    → (f t).id ≡ t.id
    → find_trigger slug id s ≡ some t
    → find_trigger_by_id id (replace s (find_trigger slug id s) f).0 ≡ some (f t)
replaced slug id f s t same e = rw e (find-set_trigger slug id (f t) t s.triggers same e)

-- A rotated secret locks the old URL out at once: after the secret of a trigger of the workspace is
-- rotated, a call with any other text in the place of the secret is refused with 401, whatever the
-- body, and changes nothing.
pub rotate_trigger_secret-fire_trigger :
    (o : Outside) (slug id secret other : String) (body : Body) (s : Store) (t : Trigger)
    → find_trigger slug id s ≡ some t
    → other ≢ secret
    → fire_trigger o id other body (rotate_trigger_secret slug id secret s).0 ≡ (
      (rotate_trigger_secret slug id secret s).0,
      failed (http_error 401 "Invalid trigger secret"),
    )
unfolding fire_trigger resolve_trigger_device rotate_trigger_secret
rotate_trigger_secret-fire_trigger o slug id secret other body s t e differ = rw (
  replaced slug id (λ x. record x { secret = secret }) s t refl e,
  str_eq-false other secret differ,
)
