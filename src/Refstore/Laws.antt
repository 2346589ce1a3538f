-- ===== src/Refstore/Laws.antt =====
-- What the statements of src/refstore/queries.rs do to the rows of the table, wherever the database
-- runs them; a failure is one of those that `Fails` allows.
use core_rs.Prelude.{ℕ, ◌≡◌, Bool, true, false, Option, none, some, if◌then◌else◌, ok, err}
use core_rs.Prelude.Bytes.{Bytes}
use core_rs.Prelude.Lex.{bytes_eq}
use core_rs.Refstore.{Database}

abbrev pub Rows : Type 0
Rows = Bytes → Option Bytes

-- The rows with another value under a name.
abbrev pub with_row : Bytes → Option Bytes → Rows → Rows
with_row name o f m = if bytes_eq name m then o else f m

-- WHERE name = ?2 AND record = ?3
abbrev pub holds : Option Bytes → Bytes → Bool
holds none c = false
holds (some d) c = bytes_eq d c

abbrev pub is_some : Option Bytes → Bool
is_some none = false
is_some (some c) = true

abbrev pub one_if : Bool → ℕ
one_if b = if b then 1 else 0

pub record Laws {E T : Type 0} (db : Database E T) (rows : T → Rows) (full : T → Bool)
    (Fails : E → Type 0) : Type 0 where
  pub begin-rows : (t t' : T) → db.begin t ≡ ok t' → (m : Bytes) → rows t' m ≡ rows t m
  pub commit-rows : (t t' : T) → db.commit t ≡ ok t' → (m : Bytes) → rows t' m ≡ rows t m
  pub get-rows : (t : T) (n : Bytes) (o : Option Bytes) → db.get_record t n ≡ ok o → o ≡ rows t n
  pub put-rows :
      (n r : Bytes) (t t' : T) (k : ℕ)
      → db.put_record n r t ≡ ok (t', k)
      → (m : Bytes) → rows t' m ≡ with_row n (some r) (rows t) m
  pub create-rows :
      (n r : Bytes) (t t' : T) (k : ℕ)
      → db.create_record n r t ≡ ok (t', k)
      → (k ≡ (if is_some (rows t n) then 0 else 1))
        × ((m : Bytes)
            → rows t' m ≡ (if is_some (rows t n) then rows t m else with_row n (some r) (rows t) m))
  pub replace-rows :
      (r n c : Bytes) (t t' : T) (k : ℕ)
      → db.replace_record r n c t ≡ ok (t', k)
      → (k ≡ one_if (holds (rows t n) c))
        × ((m : Bytes)
            → rows t' m ≡ (if holds (rows t n) c then with_row n (some r) (rows t) m else rows t m))
  pub delete-rows :
      (n : Bytes) (t t' : T) (k : ℕ)
      → db.delete_record n t ≡ ok (t', k)
      → (k ≡ one_if (is_some (rows t n))) × ((m : Bytes) → rows t' m ≡ with_row n none (rows t) m)
  pub delete_if-rows :
      (n c : Bytes) (t t' : T) (k : ℕ)
      → db.delete_record_if n c t ≡ ok (t', k)
      → (k ≡ one_if (holds (rows t n) c))
        × ((m : Bytes)
            → rows t' m ≡ (if holds (rows t n) c then with_row n none (rows t) m else rows t m))
  pub synchronous-full : (b : Bool) (t t' : T) → db.set_synchronous_full b t ≡ ok t' → full t' ≡ b
  pub begin-fails : (t : T) (e : E) → db.begin t ≡ err e → Fails e
  pub commit-fails : (t : T) (e : E) → db.commit t ≡ err e → Fails e
  pub get-fails : (t : T) (n : Bytes) (e : E) → db.get_record t n ≡ err e → Fails e
  pub put-fails : (n r : Bytes) (t : T) (e : E) → db.put_record n r t ≡ err e → Fails e
  pub replace-fails : (r n c : Bytes) (t : T) (e : E) → db.replace_record r n c t ≡ err e → Fails e
  pub delete-fails : (n : Bytes) (t : T) (e : E) → db.delete_record n t ≡ err e → Fails e
  pub delete_if-fails : (n c : Bytes) (t : T) (e : E) → db.delete_record_if n c t ≡ err e → Fails e
