-- ===== src/Workflow/Store/Rows.antt =====
-- The rows of WorkflowRunResult: what `upsertRunResult` of durableEngine.ts does to the row of a
-- device, to the other rows, and to the count of the devices that are done.
use applivery_soar.Common.{
  ◌≡◌, String, true, false, inl, inr, Option, some, List, [], ◌∷◌, arith, find, str_eq-true,
  str_eq_self, Bool-cases,
}
use applivery_soar.Workflow.Store.{ResultRow, is_row, upsert_row, Store, upsert_run_result}

-- The row that a device has in a run.
abbrev pub row_at : String → String → Store → Option ResultRow
row_at run_id device_id s = find (is_row run_id device_id) s.results

is_row_self : (r : ResultRow) → is_row r.run_id r.device_id r ≡ true
is_row_self r = ground (arith, str_eq_self r.run_id, str_eq_self r.device_id)

find-upsert_row_self :
    (new : ResultRow) (rows : List ResultRow)
    → find (is_row new.run_id new.device_id) (upsert_row new rows) ≡ some new
find-upsert_row_self new [] = rw (is_row_self new)
find-upsert_row_self new (r ∷ rs) = elim (Bool-cases (is_row new.run_id new.device_id r)) [
  | inl e ↦ rw (e, is_row_self new)
  | inr e ↦ rw (e, e) (find-upsert_row_self new rs)
]

-- Two rows with the same key have it or not together.
is_row-eq :
    (run_id device_id : String) (a b : ResultRow)
    → is_row a.run_id a.device_id b ≡ true
    → is_row run_id device_id b ≡ is_row run_id device_id a
is_row-eq run_id device_id a b h =
    ground (arith, str_eq-true b.run_id a.run_id, str_eq-true b.device_id a.device_id)

find-upsert_row_ne :
    (run_id device_id : String) (new : ResultRow) (rows : List ResultRow)
    → is_row run_id device_id new ≡ false
    → find (is_row run_id device_id) (upsert_row new rows) ≡ find (is_row run_id device_id) rows
find-upsert_row_ne run_id device_id new [] h = rw h
find-upsert_row_ne run_id device_id new (r ∷ rs) h =
    elim (Bool-cases (is_row new.run_id new.device_id r)) [
      | inl e ↦ rw (e, h, is_row-eq run_id device_id new r e, h)
      | inr e ↦ rw e (ground (arith, find-upsert_row_ne run_id device_id new rs h))
    ]

pub row_at-upsert_self :
    (new : ResultRow) (s : Store)
    → row_at new.run_id new.device_id (upsert_run_result new s) ≡ some new
unfolding upsert_run_result
row_at-upsert_self new s = find-upsert_row_self new s.results

pub row_at-upsert_ne :
    (run_id device_id : String) (new : ResultRow) (s : Store)
    → is_row run_id device_id new ≡ false
    → row_at run_id device_id (upsert_run_result new s) ≡ row_at run_id device_id s
unfolding upsert_run_result
row_at-upsert_ne run_id device_id new s h = find-upsert_row_ne run_id device_id new s.results h
