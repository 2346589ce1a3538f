-- ===== src/Refstore/Atomic.antt =====
-- `update_batch` of src/refstore/cas.rs as a whole, and the durability that `volatile` of
-- src/refstore/mod.rs restores.
use core_rs.Prelude.{
  ℕ, ◌≡◌, ◌⊎◌, refl, sym, ap, ◌∙◌, subst, arith, Bool, true, false, Option, some, List, [], ◌∷◌,
  All, Result, ok, err, ◌>>=◌, Result-cases, inl, inr,
}
use core_rs.Prelude.Bytes.{Bytes}
use core_rs.Key.{Key}
use core_rs.Reference
use core_rs.Reference.Decode.{decode}
use core_rs.Refstore.{
  Error, conflict, backend, current_record, Record, Database, finish, lifted, volatile,
}
use core_rs.Refstore.Batch.{put_all, delete_names, published, update_rows, update_batch}
use core_rs.Refstore.Laws.{Rows, Laws}
use core_rs.Refstore.Publish.{
  NameHeld, RecordHeld, withdrawn, stored, removals, held, refused_check, unreadable_check,
  failed_check, check_names-Checked, check_records-Checked, ran, failed_run, delete_names-Ran,
  put_all-Ran,
}

module _ {E T : Type 0} (db : Database E T) (rows : T → Rows) (full : T → Bool) (Fails : E → Type 0)
    (laws : Laws db rows full Fails) where
  abbrev pub Expected : T → List (Record × Option Key) → List (Bytes × Key) → Type 0
  Expected t records names = All (NameHeld (rows t)) names × All (RecordHeld (rows t)) records

  -- The outcomes of a batch.
  pub data Batch (t : T) (records : List (Record × Option Key)) (names : List (Bytes × Key))
      (r : Result (Error E) ℕ × T) : Type 0 where
    done :
        (t' : T)
        → Expected t records names
        → ((m : Bytes) → rows t' m ≡ stored (published records) (withdrawn names (rows t)) m)
        → r ≡ (ok (removals names (rows t)), t')
        → Batch t records names r
    refused : ¬ Expected t records names → r ≡ (err conflict, t) → Batch t records names r
    undecodable :
        (name c : Bytes) (e : Reference.Error)
        → rows t name ≡ some c
        → decode c ≡ err e
        → r ≡ (err (current_record name e), t)
        → Batch t records names r
    failed : (e : E) → Fails e → r ≡ (err (backend e), t) → Batch t records names r

  -- The part of a batch behind its checks.
  behind_checks :
      (t t0 : T) (records : List (Record × Option Key)) (names : List (Bytes × Key))
      → Expected t records names
      → ((m : Bytes) → rows t0 m ≡ rows t m)
      → Batch t records names (
          finish db t (do
            (removed, t1) ← delete_names db names 0 t0
            t2 ← put_all db (published records) t1
            t3 ← lifted db (db.commit t2)
            ok (removed, t3)))
  behind_checks t t0 records names expected same =
      elim (delete_names-Ran db rows full Fails laws names 0 t0 (rows t) same) [
        | failed_run e f q ↦ failed e f (rw q refl)
        | ran (k, t1) (count, gone) q ↦
            elim (put_all-Ran db rows full Fails laws (published records) t1
              (withdrawn names (rows t)) gone) [
                | failed_run e f r ↦ failed e f (rw (q, r) refl)
                | ran t2 there r ↦ elim (Result-cases (db.commit t2)) [
                  | inr (e, x) ↦ failed e (laws.commit-fails t2 e x) (rw (q, r, x) refl)
                  | inl (t3, x) ↦
                      let same_count : k ≡ removals names (rows t) = omega (arith, count) in
                      done t3 expected (λ m. laws.commit-rows t2 t3 x m ∙ there m)
                        (rw (q, r, x) (ap (λ n. (ok n, t3)) same_count))
                ]
              ]
      ]

  update_rows-Batch :
      (t : T) (records : List (Record × Option Key)) (names : List (Bytes × Key))
      → Batch t records names (finish db t (update_rows db t records names))
  unfolding update_rows
  update_rows-Batch t records names = elim (Result-cases (db.begin t)) [
    | inr (e, b) ↦ failed e (laws.begin-fails t e b) (rw b refl)
    | inl (t0, b) ↦
        let same : rows t0 ≡ rows t = λ i m. laws.begin-rows t t0 b m i in
        elim (check_names-Checked db rows full Fails laws t0 names) [
          | failed_check e f q ↦ failed e f (rw (b, q) refl)
          | unreadable_check x c e s d q ↦
              undecodable x c e (sym (laws.begin-rows t t0 b x) ∙ s) d (rw (b, q) refl)
          | refused_check n q ↦
              refused (λ p. n (subst (λ f. All (NameHeld f) names) (sym same) p.0)) (rw (b, q) refl)
          | held ns q ↦ elim (check_records-Checked db rows full Fails laws t0 records) [
            | failed_check e f r ↦ failed e f (rw (b, q, r) refl)
            | unreadable_check x c e s d r ↦
                undecodable x c e (sym (laws.begin-rows t t0 b x) ∙ s) d (rw (b, q, r) refl)
            | refused_check n r ↦
                refused (λ p. n (subst (λ f. All (RecordHeld f) records) (sym same) p.1))
                  (rw (b, q, r) refl)
            | held rs r ↦
                rw (b, q, r)
                  (behind_checks t t0 records names
                    (
                      subst (λ f. All (NameHeld f) names) same ns,
                      subst (λ f. All (RecordHeld f) records) same rs,
                    )
                    (laws.begin-rows t t0 b))
          ]
        ]
  ]

  -- On a database that obeys the laws of its statements, `update_batch` either finds every name to
  -- withdraw gone or where it was seen and every record's reference where it was seen, and then the
  -- names are withdrawn, the records are stored behind that in their order, no other row changes and
  -- the answer is the number of rows withdrawn; or it changes nothing and answers Conflict, where an
  -- expectation fails, the decoder's error for a record that does not decode, or a failure of the
  -- database.
  pub update_batch_lem :
      (t : T) (records : List (Record × Option Key)) (names : List (Bytes × Key))
      → Batch t records names (update_batch db t records names)
  unfolding update_batch
  update_batch_lem t [] [] = done t (tt, tt) (λ m. refl) refl
  update_batch_lem t [] (n ∷ names) = update_rows-Batch t [] (n ∷ names)
  update_batch_lem t (r ∷ records) names = update_rows-Batch t (r ∷ records) names

  -- A store with sync that is at full durability is there again behind a volatile write, whatever
  -- the write answers, unless the pragma that restores it fails behind the write, and then the
  -- answer is that failure.
  pub volatile-full :
      (write : T → Result (Error E) Unit × T) (t t' : T) (out : Result (Error E) Unit)
      → full t ≡ true
      → volatile db true write t ≡ (out, t')
      → (full t' ≡ true)
        ⊎ ((e : E) × (db.set_synchronous_full true t' ≡ err e) × (out ≡ err (backend e)))
  unfolding volatile
  volatile-full write t t' out h q = elim (Result-cases (db.set_synchronous_full false t)) [
    | inr (e, a) ↦
        let is : volatile db true write t ≡ (err (backend e), t) = rw a refl in
        inl (ap (λ p. full p.1) (sym q ∙ is) ∙ h)
    | inl (t1, a) ↦
        let w = (write t1).0 in
        let t2 = (write t1).1 in
        elim (Result-cases (db.set_synchronous_full true t2)) [
          | inr (e, b) ↦
              let is : volatile db true write t ≡ (err (backend e), t2) = rw (a, b) refl in
              inr (
                e,
                ap (λ p. db.set_synchronous_full true p.1) (sym q ∙ is) ∙ b,
                ap (λ p. p.0) (sym q ∙ is),
              )
          | inl (t3, b) ↦
              let is : volatile db true write t ≡ (w, t3) = rw (a, b) refl in
              inl (ap (λ p. full p.1) (sym q ∙ is) ∙ laws.synchronous-full true t2 t3 b)
        ]
  ]
