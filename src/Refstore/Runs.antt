-- ===== src/Refstore/Runs.antt =====
-- Runs of src/refstore on a table of rows, which obeys the laws of the statements.
use core_rs.Prelude.{
  ℕ, ◌≡◌, ◌≢◌, ◌⊎◌, refl, sym, ap, arith, Bool, true, none, some, [], ◌∷◌, if◌then◌else◌, Result,
  ok, err, ok_inj, Bool-cases, inl, inr,
}
use core_rs.Prelude.Bytes.{Bytes}
use core_rs.Prelude.Lex.{bytes_eq}
use core_rs.Reference.Samples.{blob_key, main_name, main_at, main_bytes, main_at-decode}
use core_rs.Refstore.{
  Error, conflict, backend, Record, Database, current, if_pointing, if_at, compare_and_swap,
  compare_and_delete, put, volatile,
}
use core_rs.Refstore.Batch.{update_batch}
use core_rs.Refstore.Laws.{Rows, with_row, holds, is_some, one_if, Laws}
use core_rs.Refstore.Swap.{Move, compare_lem, second_move_fails}
use core_rs.Refstore.Atomic.{Batch, update_batch_lem, volatile-full}

-- The rows, and whether the connection is at full durability.
abbrev Table : Type 0
Table = Rows × Bool

abbrev table : Database (Unit {0}) Table
table = record {
  begin = λ t. ok t;
  commit = λ t. ok t;
  get_record = λ t n. ok (t.0 n);
  put_record = λ n r t. ok ((with_row n (some r) t.0, t.1), 1);
  create_record =
      λ n r t. if is_some (t.0 n) then ok (t, 0) else ok ((with_row n (some r) t.0, t.1), 1);
  replace_record = λ r n c t. ok (
    ((λ m. if holds (t.0 n) c then with_row n (some r) t.0 m else t.0 m), t.1),
    one_if (holds (t.0 n) c),
  );
  delete_record = λ n t. ok ((with_row n none t.0, t.1), one_if (is_some (t.0 n)));
  delete_record_if = λ n c t. ok (
    ((λ m. if holds (t.0 n) c then with_row n none t.0 m else t.0 m), t.1),
    one_if (holds (t.0 n) c),
  );
  list_records = λ t. ok [];
  delete_all_records = λ t. ok ((λ m. none, t.1), 0);
  set_synchronous_full = λ b t. ok (t.0, b);
}

table-Laws : Laws table (λ t. t.0) (λ t. t.1) (λ e. ⊥)
table-Laws = record {
  begin-rows = λ t t' e m. ap (λ x. x.0 m) (sym (ok_inj e));
  commit-rows = λ t t' e m. ap (λ x. x.0 m) (sym (ok_inj e));
  get-rows = λ t n o e. sym (ok_inj e);
  put-rows = λ n r t t' k e m. ap (λ x. x.0.0 m) (sym (ok_inj e));
  create-rows = λ n r t t' k e. created n r t t' k e;
  replace-rows =
      λ r n c t t' k e. (ap (λ x. x.1) (sym (ok_inj e)), λ m. ap (λ x. x.0.0 m) (sym (ok_inj e)));
  delete-rows =
      λ n t t' k e. (ap (λ x. x.1) (sym (ok_inj e)), λ m. ap (λ x. x.0.0 m) (sym (ok_inj e)));
  delete_if-rows =
      λ n c t t' k e. (ap (λ x. x.1) (sym (ok_inj e)), λ m. ap (λ x. x.0.0 m) (sym (ok_inj e)));
  synchronous-full = λ b t t' e. ap (λ x. x.1) (sym (ok_inj e));
  begin-fails = λ t e h. ground arith;
  commit-fails = λ t e h. ground arith;
  get-fails = λ t n e h. ground arith;
  put-fails = λ n r t e h. ground arith;
  replace-fails = λ r n c t e h. ground arith;
  delete-fails = λ n t e h. ground arith;
  delete_if-fails = λ n c t e h. ground arith;
}
  where
    created :
        (n r : Bytes) (t t' : Table) (k : ℕ)
        → table.create_record n r t ≡ ok (t', k)
        → (k ≡ (if is_some (t.0 n) then 0 else 1))
          × ((m : Bytes) → t'.0 m ≡ (if is_some (t.0 n) then t.0 m else with_row n (some r) t.0 m))
    created n r t t' k e = elim (Bool-cases (is_some (t.0 n))) [
      | inl y ↦
          let p : (t, 0) ≡ (t', k) = ok_inj (rw y at e) in
          rw y (ap (λ x. x.1) (sym p), λ m. ap (λ x. x.0.0 m) (sym p))
      | inr y ↦
          let p : ((with_row n (some r) t.0, t.1), 1) ≡ (t', k) = ok_inj (rw y at e) in
          rw y (ap (λ x. x.1) (sym p), λ m. ap (λ x. x.0.0 m) (sym p))
    ]

-- `main` points at the blob 1.
abbrev start : Table
start = (with_row main_name (some (main_bytes 1)) (λ m. none), true)

abbrev behind : Table
behind = (
  (λ m.
      if holds (start.0 main_name) (main_bytes 1)
      then with_row main_name (some (main_bytes 2)) start.0 m
      else start.0 m),
  true,
)

first_move : compare_and_swap table start main_name (blob_key 1) (main_bytes 2) ≡ (ok tt, behind)
unfolding compare_and_swap if_at current if_pointing bytes_eq
first_move = rw (main_at-decode 1) refl

compare_lem_example :
    Move table
      (λ t. t.0)
      (λ t. t.1)
      (λ e. ⊥)
      table-Laws
      start
      main_name
      (blob_key 1)
      (some (main_bytes 2))
      (compare_and_swap table start main_name (blob_key 1) (main_bytes 2))
    × Move table
        (λ t. t.0)
        (λ t. t.1)
        (λ e. ⊥)
        table-Laws
        start
        main_name
        (blob_key 1)
        none
        (compare_and_delete table start main_name (blob_key 1))
compare_lem_example =
    compare_lem table (λ t. t.0) (λ t. t.1) (λ e. ⊥) table-Laws start main_name (blob_key 1)
      (main_bytes 2)

second_move :
    compare_and_swap table behind main_name (blob_key 1) (main_bytes 3) ≡ (err conflict, behind)
unfolding compare_and_swap if_at current if_pointing bytes_eq
second_move = rw (main_at-decode 2) refl

blobs_differ : (blob_key 2).bytes ≢ (blob_key 1).bytes
blobs_differ e = absurd (ground arith)

abbrev conflicted : Result (Error (Unit {0})) Unit
conflicted = err conflict

second_move_fails_example : (conflicted ≢ ok tt) × (behind ≡ behind)
second_move_fails_example =
    second_move_fails table (λ t. t.0) (λ t. t.1) (λ e. ⊥) table-Laws start behind behind main_name
      (blob_key 1) (main_bytes 2) (main_bytes 3) (main_at 2) conflicted (main_at-decode 2)
      blobs_differ first_move second_move

abbrev to_three : Record
to_three = record { name = main_name; data_bytes = main_bytes 3 }

update_batch_lem_example :
    Batch table
      (λ t. t.0)
      (λ t. t.1)
      (λ e. ⊥)
      table-Laws
      start
      ((to_three, some (blob_key 1)) ∷ [])
      ((1 ∷ [], blob_key 1) ∷ [])
      (update_batch table start ((to_three, some (blob_key 1)) ∷ []) ((1 ∷ [], blob_key 1) ∷ []))
update_batch_lem_example =
    update_batch_lem table (λ t. t.0) (λ t. t.1) (λ e. ⊥) table-Laws start
      ((to_three, some (blob_key 1)) ∷ []) ((1 ∷ [], blob_key 1) ∷ [])

put_is_volatile :
    volatile table true (λ t. put table t main_name (main_bytes 2)) start
    ≡ (ok tt, (with_row main_name (some (main_bytes 2)) start.0, true))
unfolding volatile put
put_is_volatile = refl

volatile-full_example :
    (true ≡ true)
    ⊎ ((e : Unit {0}) × (table.set_synchronous_full true
            (with_row main_name (some (main_bytes 2)) start.0, true)
          ≡ err e)
        × (ok tt ≡ err (backend e)))
volatile-full_example =
    volatile-full table (λ t. t.0) (λ t. t.1) (λ e. ⊥) table-Laws
      (λ t. put table t main_name (main_bytes 2)) start
      (with_row main_name (some (main_bytes 2)) start.0, true) (ok tt) refl put_is_volatile
