-- ===== src/Refstore.antt =====
-- src/refstore/mod.rs, src/refstore/cas.rs: the map of reference names to records. SQLite is a
-- parameter: a `Database` runs the statements of src/refstore/queries.rs on a value that stands for
-- its file, and `Laws` say what they do. An operation answers its result and the database behind it;
-- a transaction that is dropped leaves the database it began with. The mutexes and the pool of
-- readers are not part of the model.
pub mod Batch
pub mod Laws
pub mod Swap
pub mod Publish
pub mod Atomic
mod Runs
use core_rs.Prelude.{
  ℕ, ◌+◌, ◌≡◌, Bool, true, false, not, ◌&&◌, Option, none, some, List, [], ◌∷◌, length, ◌==◌,
  if◌then◌else◌, Result, ok, err, ◌>>=◌, ◌>>◌, map_err, ok_or,
}
use core_rs.Prelude.Bytes.{Bytes}
use core_rs.Prelude.Lex.{bytes_eq}
use core_rs.Key.{Key}
use core_rs.Reference
use core_rs.Reference.{Reference}
use core_rs.Reference.Fields.{is_utf8}
use core_rs.Reference.Decode.{decode}

pub data Error (E : Type 0) : Type 0 where
  not_found : Error E
  conflict : Error E
  backend : E → Error E
  current_record : Bytes → Reference.Error → Error E
  non_utf8_name : Error E

pub record Record : Type 0 where
  pub name : Bytes
  pub data_bytes : Bytes

-- A statement answers the database behind it and the number of rows it touched.
pub record Database (E T : Type 0) : Type 0 where
  pub begin : T → Result E T
  pub commit : T → Result E T
  pub get_record : T → Bytes → Result E (Option Bytes)
  pub put_record : Bytes → Bytes → T → Result E (T × ℕ)
  pub create_record : Bytes → Bytes → T → Result E (T × ℕ)
  pub replace_record : Bytes → Bytes → Bytes → T → Result E (T × ℕ)
  pub delete_record : Bytes → T → Result E (T × ℕ)
  pub delete_record_if : Bytes → Bytes → T → Result E (T × ℕ)
  pub list_records : T → Result E (List (Bytes × Bytes))
  pub delete_all_records : T → Result E (T × ℕ)
  pub set_synchronous_full : Bool → T → Result E T

abbrev pub points_at : Reference → Key → Bool
points_at r key = bytes_eq r.key key.bytes

module _ {E T : Type 0} (db : Database E T) where
  -- The end of an operation: a failed one has changed nothing.
  abbrev pub finish : {A : Type 0} → T → Result (Error E) (A × T) → Result (Error E) A × T
  finish t (err e) = (err e, t)
  finish t (ok (a, t')) = (ok a, t')

  abbrev pub lifted : {A : Type 0} → Result E A → Result (Error E) A
  lifted (ok a) = ok a
  lifted (err e) = err (backend e)

  -- n == 0 behind a statement that has committed by itself
  abbrev pub unless_none : Error E → T → Result E (T × ℕ) → Result (Error E) Unit × T
  unless_none e t (err f) = (err (backend f), t)
  unless_none e t (ok (t', n)) = if n == 0 then (err e, t') else (ok tt, t')

  abbrev pub without_count : T → Result E (T × ℕ) → Result (Error E) Unit × T
  without_count t (err f) = (err (backend f), t)
  without_count t (ok (t', n)) = (ok tt, t')

  unfoldable pub put : T → Bytes → Bytes → Result (Error E) Unit × T
  put t name record_bytes = without_count t (db.put_record name record_bytes t)

  unfoldable pub get : T → Bytes → Result (Error E) Bytes
  get t name = do o ← lifted (db.get_record t name); ok_or o not_found

  unfoldable pub delete : T → Bytes → Result (Error E) Unit × T
  delete t name = unless_none not_found t (db.delete_record name t)

  unfoldable pub create : T → Bytes → Bytes → Result (Error E) Unit × T
  create t name record_bytes = unless_none conflict t (db.create_record name record_bytes t)

  unfoldable pub wipe : T → Result (Error E) Unit × T
  wipe t = without_count t (db.delete_all_records t)

  -- The loop of Store::all over the rows.
  unfoldable pub records_of : List (Bytes × Bytes) → Result (Error E) (List Record)
  records_of [] = ok []
  records_of ((name, bytes) ∷ rows) =
      if not (is_utf8 name)
      then err non_utf8_name
      else (do recs ← records_of rows; ok (record { name = name; data_bytes = bytes } ∷ recs))

  unfoldable pub all : T → Result (Error E) (List Record)
  all t = do rows ← lifted (db.list_records t); records_of rows

  -- The end of Store::volatile: the error of the second pragma wins over the write's own.
  abbrev restoring : Result (Error E) Unit → T → Result E T → Result (Error E) Unit × T
  restoring written t (err e) = (err (backend e), t)
  restoring written t (ok t') = (written, t')

  abbrev pub restored : Result (Error E) Unit × T → Result (Error E) Unit × T
  restored (written, t) = restoring written t (db.set_synchronous_full true t)

  abbrev pub relaxed : (T → Result (Error E) Unit × T) → T → Result E T → Result (Error E) Unit × T
  relaxed write t (err e) = (err (backend e), t)
  relaxed write t (ok t') = restored (write t')

  -- Store::volatile; `sync` is the store's.
  unfoldable pub volatile : Bool → (T → Result (Error E) Unit × T) → T → Result (Error E) Unit × T
  volatile sync write t =
      if not sync then write t else relaxed write t (db.set_synchronous_full false t)

  unfoldable pub put_volatile : Bool → T → Bytes → Bytes → Result (Error E) Unit × T
  put_volatile sync t name record_bytes = volatile sync (λ t. put t name record_bytes) t

  unfoldable pub delete_volatile : Bool → T → Bytes → Result (Error E) Unit × T
  delete_volatile sync t name = volatile sync (λ t. delete t name) t

  abbrev pub decoded : Bytes → Option Bytes → Result (Error E) (Option (Bytes × Reference))
  decoded name none = ok none
  decoded name (some c) = do r ← map_err (decode c) (current_record name); ok (some (c, r))

  unfoldable pub current : T → Bytes → Result (Error E) (Option (Bytes × Reference))
  current t name = do o ← lifted (db.get_record t name); decoded name o

  -- change(&tx, &current)? != 1, and the commit
  abbrev pub changed_one : T × ℕ → Result (Error E) (Unit × T)
  changed_one (t, n) =
      if not (n == 1) then err conflict else (do t' ← lifted (db.commit t); ok (tt, t'))

  unfoldable pub if_pointing :
      Key → (Bytes → T → Result E (T × ℕ)) → T → Bytes × Reference → Result (Error E) (Unit × T)
  if_pointing old change t (bytes, r) =
      if not (points_at r old) then err conflict else (lifted (change bytes t) >>= changed_one)

  unfoldable pub if_at :
      T → Bytes → Key → (Bytes → T → Result E (T × ℕ)) → Result (Error E) Unit × T
  if_at t name old change = finish t (do
    t' ← lifted (db.begin t)
    o ← current t' name
    c ← ok_or o not_found
    if_pointing old change t' c)

  unfoldable pub compare_and_swap : T → Bytes → Key → Bytes → Result (Error E) Unit × T
  compare_and_swap t name old record_bytes =
      if_at t name old (λ c t. db.replace_record record_bytes name c t)

  unfoldable pub compare_and_delete : T → Bytes → Key → Result (Error E) Unit × T
  compare_and_delete t name old = if_at t name old (λ c t. db.delete_record_if name c t)
