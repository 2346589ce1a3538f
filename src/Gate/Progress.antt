-- ===== src/Gate/Progress.antt =====
-- A sweep gets its turn (src/packstore/gate.rs, begin_exclusive).
use core_rs.Prelude.{
  ℕ, ◌+◌, ◌^◌, ◌<◌, ◌≡◌, ◌≢◌, refl, ap, sym, ◌∙◌, arith, true, ◌==◌, Bool-cases, ==_iff, ==_self,
  inl, inr,
}
use core_rs.Gate.{
  may_block, block, start_busy, bump, publish_exclusive, Store, Shared, locked_ex, resting,
  ex_polling, ex_holding, ex_bumped, ex_viewed, no_block, ex_draining, ex_busy, Move, ex_blocked,
  ex_drained, ex_locked, ex_bumped_now, ex_viewed_now, ex_published,
}
use core_rs.Gate.System.{System, update, GrantsShared, GrantsExclusive, turn, Reach, next}

module _ (i : ℕ) where
  abbrev pub Elsewhere : System → System → Type 0
  Elsewhere v w = (j : ℕ) → j ≢ i → w.stores j ≡ v.stores j

  -- What store `i` has come to behind some moves of its own.
  pub record Came (u v : System) (f : Shared) (s : Store) : Type 0 where
    pub w : System
    pub by : Reach u w
    pub file_is : w.file ≡ f
    pub store_is : w.stores i ≡ s
    pub others : Elsewhere v w

  pub came :
      {u v : System} {f : Shared} {s : Store} (f' : Shared) (s' : Store)
      → Came u v f s
      → ((w : System) → Elsewhere v w → Move (GrantsShared w i) (GrantsExclusive w i) f s f' s')
      → Came u v f' s'
  came {u} {v} {f} {s} f' s' c m =
      let w' : System = record { file = f'; stores = update i s' c.w.stores } in
      let here_is : w'.stores i ≡ s' = rw (==_self i) refl in
      let other : (j : ℕ) → j ≢ i → w'.stores j ≡ c.w.stores j = λ j ne.
        elim (Bool-cases (j == i)) [ inl y ↦ absurd (ne ((==_iff j i).0 y)) | inr n ↦ rw n refl ] in
      let mv : Move (GrantsShared c.w i) (GrantsExclusive c.w i) c.w.file (c.w.stores i) f'
          (w'.stores i) =
        rw (c.file_is, c.store_is, ==_self i) (m c.w c.others) in
      record {
        w = w';
        by = next c.by (turn i mv other);
        file_is = refl;
        store_is = here_is;
        others = λ j ne. other j ne ∙ c.others j ne;
      }

-- From every reachable state in which no other descriptor holds the lock file, the store has neither
-- a span nor a sweep open and no thread of it is in a busy step or keeps spans out, its own moves
-- lead to a state in which it has the sweep, with its view as the directory is and the generation
-- moved on by one, and the other stores are as they were. The generation must not be the last u64.
pub sweep_begins :
    (u v : System) (i : ℕ)
    → Reach u v
    → may_block (v.stores i).st ≡ true
    → (v.stores i).st.exclusive ≡ 0
    → (v.stores i).st.shared ≡ 0
    → GrantsExclusive v i
    → v.file.gen + 1 < 2 ^ 64
    → (w : System) × Reach u w
      × ((w.stores i).st.exclusive ≡ 1)
      × ((w.stores i).seen ≡ w.file.dir)
      × (w.file.gen ≡ v.file.gen + 1)
      × ((j : ℕ) → j ≢ i → w.stores j ≡ v.stores j)
sweep_begins u v i r free none_open no_span grants fits =
    let f = v.file in
    let s = v.stores i in
    let s1 : Store = record s { st = block s.st; block_task = ex_draining } in
    let s2 : Store = record s1 {
      st = start_busy s1.st;
      busy_task = ex_polling;
      block_task = ex_busy;
    } in
    let s3 : Store = record s2 { busy_task = ex_holding; lock = locked_ex } in
    let f4 : Shared = record f { gen = bump f.gen } in
    let s4 : Store = record s3 { busy_task = ex_bumped (bump f.gen) } in
    let s5 : Store = record s4 { busy_task = ex_viewed (bump f.gen); seen = f.dir } in
    let s6 : Store = record s5 {
      st = publish_exclusive (bump f.gen) s5.st;
      busy_task = resting;
      block_task = no_block;
    } in
    let c0 : Came i u v f s = record {
      w = v;
      by = r;
      file_is = refl;
      store_is = refl;
      others = λ j ne. refl;
    } in
    let c1 = came i f s1 c0 (λ w e. ex_blocked free none_open refl refl) in
    let c2 = came i f s2 c1 (λ w e. ex_drained refl no_span refl refl) in
    let c3 =
      came i f s3 c2
        (λ w e. ex_locked refl (λ j ne. ap (λ x. x.lock) (e j ne) ∙ grants j ne) refl refl) in
    let c4 = came i f4 s4 c3 (λ w e. ex_bumped_now refl fits refl refl) in
    let c5 = came i f4 s5 c4 (λ w e. ex_viewed_now (bump f.gen) refl refl refl) in
    let c6 = came i f4 s6 c5 (λ w e. ex_published (bump f.gen) refl refl refl) in
    (
      c6.w,
      c6.by,
      ap (λ x. x.st.exclusive) c6.store_is,
      ap (λ x. x.seen) c6.store_is ∙ sym (ap (λ x. x.dir) c6.file_is),
      ap (λ x. x.gen) c6.file_is ∙ omega arith,
      c6.others,
    )
