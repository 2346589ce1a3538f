-- ===== src/Refstore/Publish.antt =====
-- `update_batch` of src/refstore/cas.rs: all of it or nothing.
use core_rs.Prelude.{
  ℕ, ◌+◌, ◌≡◌, ◌⊎◌, refl, sym, ap, ◌∙◌, arith, Bool, false, Option, none, some, List, [], ◌∷◌,
  if◌then◌else◌, All, Result, ok, err, Bool-cases, Result-cases, inl, inr,
}
use core_rs.Prelude.Bytes.{Bytes}
use core_rs.Prelude.Lex.{bytes_eq, bytes_eq_iff}
use core_rs.Key.{Key}
use core_rs.Reference
use core_rs.Reference.{Reference}
use core_rs.Reference.Decode.{decode}
use core_rs.Refstore.{Error, conflict, backend, current_record, Record, Database}
use core_rs.Refstore.Batch.{put_all, check_names, check_records, delete_names}
use core_rs.Refstore.Laws.{Rows, with_row, is_some, one_if, Laws}
use core_rs.Refstore.Swap.{current-Current, none_there, there, unreadable, broken}

-- The reference is where the caller saw it.
abbrev pub PointsAt : Rows → Bytes → Key → Type 0
PointsAt f name old =
    (c : Bytes) × (v : Reference) × (f name ≡ some c) × (decode c ≡ ok v) × (v.key ≡ old.bytes)

abbrev pub NameHeld : Rows → Bytes × Key → Type 0
NameHeld f (name, old) = (f name ≡ none) ⊎ PointsAt f name old

abbrev pub RecordHeld : Rows → Record × Option Key → Type 0
RecordHeld f (r, none) = f r.name ≡ none
RecordHeld f (r, some old) = PointsAt f r.name old

-- The rows behind the withdrawals and behind the records, and how many withdrawals there were.
abbrev pub withdrawn : List (Bytes × Key) → Rows → Rows
withdrawn [] f = f
withdrawn ((name, _) ∷ names) f = withdrawn names (with_row name none f)

abbrev pub stored : List Record → Rows → Rows
stored [] f = f
stored (r ∷ rs) f = stored rs (with_row r.name (some r.data_bytes) f)

abbrev pub removals : List (Bytes × Key) → Rows → ℕ
removals [] f = 0
removals ((name, _) ∷ names) f = one_if (is_some (f name)) + removals names (with_row name none f)

module _ {E T : Type 0} (db : Database E T) (rows : T → Rows) (full : T → Bool) (Fails : E → Type 0)
    (laws : Laws db rows full Fails) where
  -- The outcomes of checking what is expected, `P`.
  pub data Checked (t : T) (P : Type 0) (r : Result (Error E) Unit) : Type 0 where
    held : P → r ≡ ok tt → Checked t P r
    refused_check : ¬ P → r ≡ err conflict → Checked t P r
    unreadable_check :
        (name c : Bytes) (e : Reference.Error)
        → rows t name ≡ some c
        → decode c ≡ err e
        → r ≡ err (current_record name e)
        → Checked t P r
    failed_check : (e : E) → Fails e → r ≡ err (backend e) → Checked t P r

  Checked-iff :
      (t : T) {P Q : Type 0} {r : Result (Error E) Unit}
      → (P → Q)
      → (Q → P)
      → Checked t P r
      → Checked t Q r
  Checked-iff t to from (held p q) = held (to p) q
  Checked-iff t to from (refused_check n q) = refused_check (λ p. n (from p)) q
  Checked-iff t to from (unreadable_check x c e s d q) = unreadable_check x c e s d q
  Checked-iff t to from (failed_check e f q) = failed_check e f q

  not_there :
      (f : Rows) (name : Bytes) (old : Key) (c : Bytes) (v : Reference)
      → f name ≡ some c
      → decode c ≡ ok v
      → bytes_eq v.key old.bytes ≡ false
      → ¬ PointsAt f name old
  not_there f name old c v s d ne (c', v', s', d', k) =
      let same : c' ≡ c = ground arith in
      let v_same : v' ≡ v = ground arith in
      let e : v.key ≡ old.bytes = ap (λ x. x.key) (sym v_same) ∙ k in
      absurd (cc (ne, (bytes_eq_iff v.key old.bytes).1 e))

  pub check_names-Checked :
      (t : T) (names : List (Bytes × Key))
      → Checked t (All (NameHeld (rows t)) names) (check_names db t names)
  unfolding check_names
  check_names-Checked t [] = held tt refl
  check_names-Checked t ((name, old) ∷ names) =
      elim (current-Current db rows full Fails laws t name) [
        | broken e f q ↦ failed_check e f (rw q refl)
        | unreadable c e s d q ↦ unreadable_check name c e s d (rw q refl)
        | none_there n q ↦
            rw q (Checked-iff t (λ a. (inl n, a)) (λ p. p.1) (check_names-Checked t names))
        | there c v s d q ↦ elim (Bool-cases (bytes_eq v.key old.bytes)) [
          | inr ne ↦
              refused_check
                (λ p. elim p.0 [
                  | inl n ↦ absurd (cc (n, s))
                  | inr at ↦ not_there (rows t) name old c v s d ne at
                ])
                (rw (q, ne) refl)
          | inl eq ↦
              rw (q, eq)
                (Checked-iff t (λ a. (inr (c, v, s, d, (bytes_eq_iff v.key old.bytes).0 eq), a))
                  (λ p. p.1) (check_names-Checked t names))
        ]
      ]

  pub check_records-Checked :
      (t : T) (records : List (Record × Option Key))
      → Checked t (All (RecordHeld (rows t)) records) (check_records db t records)
  unfolding check_records
  check_records-Checked t [] = held tt refl
  check_records-Checked t ((x, none) ∷ records) =
      elim (current-Current db rows full Fails laws t x.name) [
        | broken e f q ↦ failed_check e f (rw q refl)
        | unreadable c e s d q ↦ unreadable_check x.name c e s d (rw q refl)
        | there c v s d q ↦ refused_check (λ p. absurd (cc (p.0, s))) (rw q refl)
        | none_there n q ↦
            rw q (Checked-iff t (λ a. (n, a)) (λ p. p.1) (check_records-Checked t records))
      ]
  check_records-Checked t ((x, some old) ∷ records) =
      elim (current-Current db rows full Fails laws t x.name) [
        | broken e f q ↦ failed_check e f (rw q refl)
        | unreadable c e s d q ↦ unreadable_check x.name c e s d (rw q refl)
        | none_there n q ↦
            refused_check (λ p. let (c, v, s, _, _) = p.0 in absurd (cc (n, s))) (rw q refl)
        | there c v s d q ↦ elim (Bool-cases (bytes_eq v.key old.bytes)) [
          | inr ne ↦
              refused_check (λ p. not_there (rows t) x.name old c v s d ne p.0) (rw (q, ne) refl)
          | inl eq ↦
              rw (q, eq)
                (Checked-iff t (λ a. ((c, v, s, d, (bytes_eq_iff v.key old.bytes).0 eq), a))
                  (λ p. p.1) (check_records-Checked t records))
        ]
      ]

  -- A loop of statements either ends or fails as the database does.
  pub data Ran {A : Type 0} (P : A → Type 0) (r : Result (Error E) A) : Type 0 where
    ran : (a : A) → P a → r ≡ ok a → Ran P r
    failed_run : (e : E) → Fails e → r ≡ err (backend e) → Ran P r

  pub delete_names-Ran :
      (names : List (Bytes × Key)) (k : ℕ) (t : T) (f : Rows)
      → ((m : Bytes) → rows t m ≡ f m)
      → Ran
          (λ p. (p.0 ≡ k + removals names f) × ((m : Bytes) → rows p.1 m ≡ withdrawn names f m))
          (delete_names db names k t)
  unfolding delete_names
  delete_names-Ran [] k t f h = ran (k, t) (omega arith, h) refl
  delete_names-Ran ((name, old) ∷ names) k t f h = elim (Result-cases (db.delete_record name t)) [
    | inr (e, d) ↦ failed_run e (laws.delete-fails name t e d) (rw d refl)
    | inl ((t', n), d) ↦
        let (count, after) = laws.delete-rows name t t' n d in
        let h' : (m : Bytes) → rows t' m ≡ with_row name none f m =
          λ m. after m ∙ ap (λ r. if bytes_eq name m then none else r) (h m) in
        rw d (elim (delete_names-Ran names (k + n) t' (with_row name none f) h') [
          | failed_run e x r ↦ failed_run e x r
          | ran p (c, rest) r ↦
              ran p (omega (arith, c, count, ap (λ o. one_if (is_some o)) (h name)), rest) r
        ])
  ]

  pub put_all-Ran :
      (rs : List Record) (t : T) (f : Rows)
      → ((m : Bytes) → rows t m ≡ f m)
      → Ran (λ t'. (m : Bytes) → rows t' m ≡ stored rs f m) (put_all db rs t)
  unfolding put_all
  put_all-Ran [] t f h = ran t h refl
  put_all-Ran (x ∷ rs) t f h = elim (Result-cases (db.put_record x.name x.data_bytes t)) [
    | inr (e, d) ↦ failed_run e (laws.put-fails x.name x.data_bytes t e d) (rw d refl)
    | inl ((t', n), d) ↦
        let after = laws.put-rows x.name x.data_bytes t t' n d in
        rw d (
          put_all-Ran rs t' (with_row x.name (some x.data_bytes) f)
            (λ m. after m ∙ ap (λ r. if bytes_eq x.name m then some x.data_bytes else r) (h m)))
  ]
