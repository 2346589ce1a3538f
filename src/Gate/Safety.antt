-- ===== src/Gate/Safety.antt =====
-- What every reachable state of the stores of a directory has (src/packstore/gate.rs).
use core_rs.Prelude.{
  ℕ, ◌≤◌, ◌≡◌, ◌≢◌, ◌⊎◌, ap, sym, ◌∙◌, subst, inl, inr, arith, ltb, ◌==◌, Bool-cases, ==_iff,
}
use core_rs.Gate.{Store, Shared, unlocked, locked_ex, Move}
use core_rs.Gate.Local.{Ok}
use core_rs.Gate.Spans.{opened-Ok}
use core_rs.Gate.Moves.{
  IsSweeping, IsStale, Move-Ok, Move-lock, Move-shared, Move-IsStale, Move-IsSweeping,
}
use core_rs.Gate.Unlocked.{sweeping-locked, unlocked-quiet, unlocked-Ok}
use core_rs.Gate.System.{
  System, GrantsShared, GrantsExclusive, Step, turn, Reach, here, next, IsStart,
}

pub record Inv (u : System) : Type 0 where
  pub ok : (i : ℕ) → Ok u.file (u.stores i)
  pub alone : (i j : ℕ) → j ≢ i → (u.stores i).lock ≡ locked_ex → (u.stores j).lock ≡ unlocked
  pub stale : (i j : ℕ) → j ≢ i → IsSweeping (u.stores i) → IsStale u.file (u.stores j)

start-Inv : (u : System) → IsStart u → Inv u
start-Inv u h = record {
  ok = λ i. let (v, e) = h i in subst (λ s. Ok u.file s) (sym e) (opened-Ok u.file v);
  alone = λ i j ne lock. let (v, e) = h i in absurd (ground (arith, ap (λ s. s.lock) e));
  stale = λ i j ne x. let (v, e) = h j in inl (ap (λ s. s.st.looked) e);
}

same_or_not : (k i : ℕ) → (k ≡ i) ⊎ (k ≢ i)
same_or_not k i = elim (Bool-cases (k == i)) [
  | inl y ↦ inl ((==_iff k i).0 y)
  | inr n ↦ inr (λ e. absurd (cc (n, (==_iff k i).1 e)))
]

IsStale-mono : (f f' : Shared) (s : Store) → f.gen ≤ f'.gen → IsStale f s → IsStale f' s
IsStale-mono f f' s le (inl h) = inl h
IsStale-mono f f' s le (inr h) = inr (omega arith)

module _ (u v : System) (inv : Inv u) (i : ℕ)
    (m : Move
      (GrantsShared u i)
      (GrantsExclusive u i)
      u.file
      (u.stores i)
      v.file
      (v.stores i)) where
  up : u.file.gen ≤ v.file.gen
  up = elim (Move-shared (u.stores i) (v.stores i) m (inv.ok i)) [
    | inl e ↦ omega (arith, ap (λ x. x.gen) e)
    | inr (inl (e, _)) ↦ omega arith
    | inr (inr (e, _)) ↦ omega arith
  ]

  -- The stores that did not move.
  other-Ok : (k : ℕ) → k ≢ i → Ok v.file (u.stores k)
  other-Ok k ne = elim (Move-shared (u.stores i) (v.stores i) m (inv.ok i)) [
    | inl e ↦ subst (λ f. Ok f (u.stores k)) (sym e) (inv.ok k)
    | inr (inl (e, lock)) ↦
        unlocked-Ok u.file v.file (u.stores k) (inv.ok k) (inv.alone i k ne lock) up
          (inr (omega (arith, (inv.ok k).known)))
    | inr (inr (e, sweeps)) ↦
        let lock = sweeping-locked u.file (u.stores i) (inv.ok i) (inl sweeps) in
        unlocked-Ok u.file v.file (u.stores k) (inv.ok k) (inv.alone i k ne lock) up
          (IsStale-mono u.file v.file (u.stores k) up (inv.stale i k ne (inl sweeps)))
  ]

  alone-moved : (k : ℕ) → k ≢ i → (v.stores i).lock ≡ locked_ex → (u.stores k).lock ≡ unlocked
  alone-moved k ne lock = elim (Move-lock (u.stores i) (v.stores i) m) [
    | inl (inl e) ↦ inv.alone i k ne (sym e ∙ lock)
    | inl (inr e) ↦ absurd (ground arith)
    | inr (inl (e, _)) ↦ absurd (ground arith)
    | inr (inr (e, grants)) ↦ grants k ne
  ]

  alone-still : (k : ℕ) → k ≢ i → (u.stores k).lock ≡ locked_ex → (v.stores i).lock ≡ unlocked
  alone-still k ne lock = elim (Move-lock (u.stores i) (v.stores i) m) [
    | inl (inl e) ↦ e ∙ inv.alone k i (λ x. ne (sym x)) lock
    | inl (inr e) ↦ e
    | inr (inl (e, grants)) ↦ absurd (grants k ne lock)
    | inr (inr (e, grants)) ↦ absurd (let w = grants k ne in ground arith)
  ]

  IsStale-moved : (k : ℕ) → k ≢ i → IsSweeping (v.stores i) → IsStale v.file (u.stores k)
  IsStale-moved k ne h = elim (Move-IsSweeping (u.stores i) (v.stores i) m (inv.ok i) h) [
    | inl w ↦ IsStale-mono u.file v.file (u.stores k) up (inv.stale i k ne w)
    | inr e ↦ inr (omega (arith, (inv.ok k).known))
  ]

  IsStale-still : (k : ℕ) → k ≢ i → IsSweeping (u.stores k) → IsStale v.file (v.stores i)
  IsStale-still k ne h =
      let other : i ≢ k = λ x. ne (sym x) in
      let lock = sweeping-locked u.file (u.stores k) (inv.ok k) h in
      Move-IsStale (u.stores i) (v.stores i) m (inv.ok i) (inv.alone k i other lock)
        (inv.stale k i other h)

  moved-Inv : ((j : ℕ) → j ≢ i → v.stores j ≡ u.stores j) → Inv v
  moved-Inv same = record {
    ok = λ k. elim (same_or_not k i) [
      | inl e ↦
          subst (λ x. Ok v.file (v.stores x)) (sym e)
            (Move-Ok (u.stores i) (v.stores i) m (inv.ok i))
      | inr ne ↦ subst (λ x. Ok v.file x) (sym (same k ne)) (other-Ok k ne)
    ];
    alone = λ a b ne lock. elim (same_or_not a i) [
      | inl e ↦
          let nb : b ≢ i = λ x. ne (x ∙ sym e) in
          ap (λ x. x.lock) (same b nb)
          ∙ alone-moved b nb (subst (λ x. (v.stores x).lock ≡ locked_ex) e lock)
      | inr na ↦
          let la : (u.stores a).lock ≡ locked_ex = ap (λ x. x.lock) (sym (same a na)) ∙ lock in
          elim (same_or_not b i) [
            | inl e ↦ subst (λ x. (v.stores x).lock ≡ unlocked) (sym e) (alone-still a na la)
            | inr nb ↦ ap (λ x. x.lock) (same b nb) ∙ inv.alone a b ne la
          ]
    ];
    stale = λ a b ne h. elim (same_or_not a i) [
      | inl e ↦
          let nb : b ≢ i = λ x. ne (x ∙ sym e) in
          subst (λ x. IsStale v.file x) (sym (same b nb))
            (IsStale-moved b nb (subst (λ x. IsSweeping (v.stores x)) e h))
      | inr na ↦
          let ha = subst (λ x. IsSweeping x) (same a na) h in
          elim (same_or_not b i) [
            | inl e ↦ subst (λ x. IsStale v.file (v.stores x)) (sym e) (IsStale-still a na ha)
            | inr nb ↦
                subst (λ x. IsStale v.file x) (sym (same b nb))
                  (IsStale-mono u.file v.file (u.stores b) up (inv.stale a b ne ha))
          ]
    ];
  }

Step-Inv : {u v : System} → Step u v → Inv u → Inv v
Step-Inv {u} {v} (turn i m same) inv = moved-Inv u v inv i m same

-- From stores that have just been opened, whatever their threads do and whichever of them die: at most
-- one store holds the lock file exclusively and then no other holds it; a store that sweeps holds it;
-- and every store that sweeps leaves each other one due to look at the directory before its next
-- span.
pub Reach-Inv : {u v : System} → IsStart u → Reach u v → Inv v
Reach-Inv h here = start-Inv _ h
Reach-Inv h (next r st) = Step-Inv st (Reach-Inv h r)

-- In every state that is reached from stores that have just been opened: while a store has a write
-- span open, no other store has taken the file for a sweep, and its view shows the directory as it
-- is now, each removal included.
pub span_is_safe :
    (u v : System) (i j : ℕ)
    → IsStart u
    → Reach u v
    → 1 ≤ (v.stores i).st.shared
    → j ≢ i
    → ((v.stores i).seen ≡ v.file.dir) × ((v.stores j).st.exclusive ≡ 0)
span_is_safe u v i j start r open_span ne =
    let inv = Reach-Inv start r in
    let o = inv.ok i in
    let (looked, now) = o.current (inl open_span) in
    (
      o.up_to_date looked now,
      elim (Bool-cases (ltb 0 (v.stores j).st.exclusive)) [
        | inr n ↦ ground arith
        | inl y ↦
            let lock = sweeping-locked v.file (v.stores j) (inv.ok j) (inl (ground arith)) in
            let free = inv.alone j i (λ e. ne (sym e)) lock in
            absurd (omega (arith, (unlocked-quiet v.file (v.stores i) o free).0))
      ],
    )
