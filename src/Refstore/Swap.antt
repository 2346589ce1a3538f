-- ===== src/Refstore/Swap.antt =====
-- `compare_and_swap` and `compare_and_delete` of src/refstore/cas.rs, on every branch.
use core_rs.Prelude.{
  ℕ, ◌≡◌, ◌≢◌, refl, sym, ap, ◌∙◌, arith, Bool, true, Option, none, some, if◌then◌else◌, Result, ok,
  err, Bool-cases, Result-cases, inl, inr, subst,
}
use core_rs.Prelude.Bytes.{Bytes}
use core_rs.Prelude.Lex.{bytes_eq, bytes_eq_iff, bytes_eq_refl}
use core_rs.Key.{Key}
use core_rs.Reference
use core_rs.Reference.{Reference}
use core_rs.Reference.Decode.{decode}
use core_rs.Refstore.{
  Error, not_found, conflict, backend, current_record, Database, current, if_pointing, if_at,
  compare_and_swap, compare_and_delete,
}
use core_rs.Refstore.Laws.{Rows, with_row, holds, one_if, Laws}

module _ {E T : Type 0} (db : Database E T) (rows : T → Rows) (full : T → Bool) (Fails : E → Type 0)
    (laws : Laws db rows full Fails) where
  -- The outcomes of reading the current record.
  pub data Current (t : T) (name : Bytes) (r : Result (Error E) (Option (Bytes × Reference)))
      : Type 0 where
    none_there : rows t name ≡ none → r ≡ ok none → Current t name r
    there :
        (c : Bytes) (v : Reference)
        → rows t name ≡ some c
        → decode c ≡ ok v
        → r ≡ ok (some (c, v))
        → Current t name r
    unreadable :
        (c : Bytes) (e : Reference.Error)
        → rows t name ≡ some c
        → decode c ≡ err e
        → r ≡ err (current_record name e)
        → Current t name r
    broken : (e : E) → Fails e → r ≡ err (backend e) → Current t name r

  pub current-Current : (t : T) (name : Bytes) → Current t name (current db t name)
  unfolding current
  current-Current t name = elim (Result-cases (db.get_record t name)) [
    | inr (e, g) ↦ broken e (laws.get-fails t name e g) (rw g refl)
    | inl (none, g) ↦ none_there (sym (laws.get-rows t name none g)) (rw g refl)
    | inl (some c, g) ↦ elim (Result-cases (decode c)) [
      | inl (v, d) ↦ there c v (sym (laws.get-rows t name (some c) g)) d (rw (g, d) refl)
      | inr (e, d) ↦ unreadable c e (sym (laws.get-rows t name (some c) g)) d (rw (g, d) refl)
    ]
  ]

  -- The outcomes of a conditional change of a reference that is to point at `old`; `o` is what
  -- stands under the name behind a change that was made.
  pub data Move (t : T) (name : Bytes) (old : Key) (o : Option Bytes)
      (r : Result (Error E) Unit × T) : Type 0 where
    moved :
        (c : Bytes) (v : Reference) (t' : T)
        → rows t name ≡ some c
        → decode c ≡ ok v
        → v.key ≡ old.bytes
        → ((m : Bytes) → rows t' m ≡ with_row name o (rows t) m)
        → r ≡ (ok tt, t')
        → Move t name old o r
    absent : rows t name ≡ none → r ≡ (err not_found, t) → Move t name old o r
    elsewhere :
        (c : Bytes) (v : Reference)
        → rows t name ≡ some c
        → decode c ≡ ok v
        → v.key ≢ old.bytes
        → r ≡ (err conflict, t)
        → Move t name old o r
    undecodable :
        (c : Bytes) (e : Reference.Error)
        → rows t name ≡ some c
        → decode c ≡ err e
        → r ≡ (err (current_record name e), t)
        → Move t name old o r
    failed : (e : E) → Fails e → r ≡ (err (backend e), t) → Move t name old o r

  -- What a change promises, guarded by the bytes of the record it found.
  abbrev IsChange : Bytes → Option Bytes → (Bytes → T → Result E (T × ℕ)) → Type 0
  IsChange name o change =
      ((c : Bytes) (t t' : T) (k : ℕ)
        → change c t ≡ ok (t', k)
        → (k ≡ one_if (holds (rows t name) c))
          × ((m : Bytes)
              → rows t' m
                ≡ (if holds (rows t name) c then with_row name o (rows t) m else rows t m)))
      × ((c : Bytes) (t : T) (e : E) → change c t ≡ err e → Fails e)

  if_at-Move :
      (t : T) (name : Bytes) (old : Key) (o : Option Bytes) (change : Bytes → T → Result E (T × ℕ))
      → IsChange name o change
      → Move t name old o (if_at db t name old change)
  unfolding if_at if_pointing
  if_at-Move t name old o change (law, fails) = elim (Result-cases (db.begin t)) [
    | inr (e, b) ↦ failed e (laws.begin-fails t e b) (rw b refl)
    | inl (t0, b) ↦
        let same = laws.begin-rows t t0 b in
        elim (current-Current t0 name) [
          | none_there n q ↦ absent (sym (same name) ∙ n) (rw (b, q) refl)
          | broken e f q ↦ failed e f (rw (b, q) refl)
          | unreadable c e s d q ↦ undecodable c e (sym (same name) ∙ s) d (rw (b, q) refl)
          | there c v s d q ↦ elim (Bool-cases (bytes_eq v.key old.bytes)) [
            | inr ne ↦
                elsewhere c v (sym (same name) ∙ s) d
                  (λ e. absurd (cc (ne, (bytes_eq_iff v.key old.bytes).1 e))) (rw (b, q, ne) refl)
            | inl eq ↦ elim (Result-cases (change c t0)) [
              | inr (e, w) ↦ failed e (fails c t0 e w) (rw (b, q, eq, w) refl)
              | inl ((t1, k), w) ↦
                  let (count, after) = law c t0 t1 k w in
                  let held : holds (rows t0 name) c ≡ true = rw s (bytes_eq_refl c) in
                  let one : k ≡ 1 = count ∙ ap one_if held in
                  elim (Result-cases (db.commit t1)) [
                    | inr (e, x) ↦
                        failed e (laws.commit-fails t1 e x) (rw (b, q, eq, w, one, x) refl)
                    | inl (t2, x) ↦
                        moved c v t2 (sym (same name) ∙ s) d ((bytes_eq_iff v.key old.bytes).0 eq)
                          (λ m.
                            laws.commit-rows t1 t2 x m
                            ∙ after m
                            ∙ ap (λ h. if h then with_row name o (rows t0) m else rows t0 m) held
                            ∙ ap (λ r. if bytes_eq name m then o else r) (same m))
                          (rw (b, q, eq, w, one, x) refl)
                  ]
            ]
          ]
        ]
  ]

  -- On a database that obeys the laws of its statements, `compare_and_swap` and
  -- `compare_and_delete` change the reference if it points at `old`, to the record and to none, and
  -- leave every other one; else they change nothing at all and answer NotFound for a name that is
  -- absent, Conflict for a reference that points elsewhere, the decoder's error for a record that
  -- does not decode, or a failure of the database.
  pub compare_lem :
      (t : T) (name : Bytes) (old : Key) (r : Bytes)
      → Move t name old (some r) (compare_and_swap db t name old r)
        × Move t name old none (compare_and_delete db t name old)
  unfolding compare_and_swap compare_and_delete
  compare_lem t name old r = (
    if_at-Move t name old (some r) (λ c t. db.replace_record r name c t)
        (λ c t t' k. laws.replace-rows r name c t t' k, λ c t e. laws.replace-fails r name c t e),
    if_at-Move t name old none (λ c t. db.delete_record_if name c t)
        (λ c t t' k. laws.delete_if-rows name c t t' k, λ c t e. laws.delete_if-fails name c t e),
  )

  moved_from :
      (t t' : T) (name : Bytes) (old : Key) (o : Option Bytes)
      → Move t name old o (ok tt, t')
      → (c : Bytes) × (v : Reference) × (rows t name ≡ some c)
        × (decode c ≡ ok v)
        × (v.key ≡ old.bytes)
        × ((m : Bytes) → rows t' m ≡ with_row name o (rows t) m)
  moved_from t t' name old o (moved c v t2 s d k after q) =
      (c, v, s, d, k, λ m. ap (λ x. rows x m) (ap (λ p. p.1) q) ∙ after m)
  moved_from t t' name old o (absent n q) = absurd (ground arith)
  moved_from t t' name old o (elsewhere c v s d k q) = absurd (ground arith)
  moved_from t t' name old o (undecodable c e s d q) = absurd (ground arith)
  moved_from t t' name old o (failed e f q) = absurd (ground arith)

  stays :
      (t t' : T) (name : Bytes) (old : Key) (o : Option Bytes) (r : Bytes) (v : Reference)
      (out : Result (Error E) Unit)
      → Move t name old o (out, t')
      → rows t name ≡ some r
      → decode r ≡ ok v
      → v.key ≢ old.bytes
      → (out ≢ ok tt) × (t' ≡ t)
  stays t t' name old o r v out (moved c w t2 s d k after q) is dec ne = absurd (ground arith)
  stays t t' name old o r v out (absent n q) is dec ne =
      (λ e. absurd (ground arith), ap (λ p. p.1) q)
  stays t t' name old o r v out (elsewhere c w s d k q) is dec ne =
      (λ e. absurd (ground arith), ap (λ p. p.1) q)
  stays t t' name old o r v out (undecodable c e s d q) is dec ne =
      (λ f. absurd (ground arith), ap (λ p. p.1) q)
  stays t t' name old o r v out (failed e f q) is dec ne =
      (λ g. absurd (ground arith), ap (λ p. p.1) q)

  -- No move is lost: behind a successful `compare_and_swap` away from `old`, to a record that
  -- decodes and points elsewhere, a second one from `old` does not succeed, whatever it wants to
  -- store; it changes nothing.
  pub second_move_fails :
      (t t1 t2 : T) (name : Bytes) (old : Key) (r s : Bytes) (v : Reference)
      (out : Result (Error E) Unit)
      → decode r ≡ ok v
      → v.key ≢ old.bytes
      → compare_and_swap db t name old r ≡ (ok tt, t1)
      → compare_and_swap db t1 name old s ≡ (out, t2)
      → (out ≢ ok tt) × (t2 ≡ t1)
  second_move_fails t t1 t2 name old r s v out dec ne first second =
      let once = subst (Move t name old (some r)) first (compare_lem t name old r).0 in
      let (c, w, at, d, k, after) = moved_from t t1 name old (some r) once in
      let stored : rows t1 name ≡ some r = after name ∙ rw (bytes_eq_refl name) refl in
      let twice = subst (Move t1 name old (some s)) second (compare_lem t1 name old s).0 in
      stays t1 t2 name old (some s) r v out twice stored dec ne
