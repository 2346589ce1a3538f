-- ===== src/Refstore/Batch.antt =====
-- `put_batch` and `update_batch` (src/refstore/mod.rs, src/refstore/cas.rs).
use core_rs.Prelude.{
  ℕ, ◌+◌, Bool, true, false, not, Option, none, some, List, [], ◌∷◌, if◌then◌else◌, Result, ok, err,
  ◌>>=◌, ◌>>◌,
}
use core_rs.Prelude.Bytes.{Bytes}
use core_rs.Key.{Key}
use core_rs.Reference.{Reference}
use core_rs.Refstore.{Error, conflict, Record, Database, finish, lifted, current, points_at}

-- A withdrawn name may be gone already.
abbrev pub may_withdraw : Key → Option (Bytes × Reference) → Bool
may_withdraw old none = true
may_withdraw old (some (_, r)) = points_at r old

-- `at` of a record
abbrev pub may_publish : Option Key → Option (Bytes × Reference) → Bool
may_publish none none = true
may_publish (some old) (some (_, r)) = points_at r old
may_publish none (some c) = false
may_publish (some old) none = false

abbrev pub published : List (Record × Option Key) → List Record
published [] = []
published ((r, _) ∷ records) = r ∷ published records

module _ {E T : Type 0} (db : Database E T) where
  -- The loop of `put.execute`.
  unfoldable pub put_all : List Record → T → Result (Error E) T
  put_all [] t = ok t
  put_all (r ∷ rs) t = do (t', _) ← lifted db (db.put_record r.name r.data_bytes t); put_all rs t'

  unfoldable pub put_batch : T → List Record → Result (Error E) Unit × T
  put_batch t [] = (ok tt, t)
  put_batch t (r ∷ rs) = finish db t (do
    t0 ← lifted db (db.begin t)
    t1 ← put_all (r ∷ rs) t0
    t2 ← lifted db (db.commit t1)
    ok (tt, t2))

  unfoldable pub check_names : T → List (Bytes × Key) → Result (Error E) Unit
  check_names t [] = ok tt
  check_names t ((name, old) ∷ names) = do
    c ← current db t name
    if not (may_withdraw old c) then err conflict else check_names t names

  unfoldable pub check_records : T → List (Record × Option Key) → Result (Error E) Unit
  check_records t [] = ok tt
  check_records t ((r, old) ∷ records) = do
    c ← current db t r.name
    if not (may_publish old c) then err conflict else check_records t records

  unfoldable pub delete_names : List (Bytes × Key) → ℕ → T → Result (Error E) (ℕ × T)
  delete_names [] removed t = ok (removed, t)
  delete_names ((name, _) ∷ names) removed t = do
    (t', n) ← lifted db (db.delete_record name t)
    delete_names names (removed + n) t'

  -- update_batch of a batch that is not empty
  unfoldable pub update_rows :
      T → List (Record × Option Key) → List (Bytes × Key) → Result (Error E) (ℕ × T)
  update_rows t records names = do
    t0 ← lifted db (db.begin t)
    check_names t0 names
    check_records t0 records
    (removed, t1) ← delete_names names 0 t0
    t2 ← put_all (published records) t1
    t3 ← lifted db (db.commit t2)
    ok (removed, t3)

  unfoldable pub update_batch :
      T → List (Record × Option Key) → List (Bytes × Key) → Result (Error E) ℕ × T
  update_batch t [] [] = (ok 0, t)
  update_batch t records names = finish db t (update_rows t records names)
