-- ===== src/Walk/Rounds.antt =====
-- How many levels check_complete of src/fstree/read.rs goes through.
use core_rs.Prelude.{
  ℕ, zero, suc, length, ◌+◌, ◌*◌, ◌≤◌, ◌<◌, ◌≡◌, ◌⊎◌, refl, sym, ap, ◌∙◌, subst, inl, inr, arith,
  Bool, true, false, not, Option, none, some, List, [], ◌∷◌, map, Result, ok, err, Bool-cases,
  Option-cases, Result-cases, ok_inj,
}
use core_rs.Prelude.Bytes.{Bytes}
use core_rs.Key.{Key}
use core_rs.Gitobj.Links.{Link}
use core_rs.Gc.{same_key, link_to}
use core_rs.Gc.Visit.{same_key→eq, same_key_refl}
use core_rs.Walk.{
  Visits, insert, acts, visit, WalkError, look, present_leaf, State, absorb_link, absorb,
  absorb_all, next_level, levels, check_complete,
}
use core_rs.Walk.Visited.{acted, acted-eq, still-eq, insert-at, insert-other}
use mathlib.Core.List.Memᴰ
use mathlib.Core.List.Memᴰ.{Memᴰ, head, tail}

-- How often a key can still be acted on.
abbrev rank : Option Bool → ℕ
rank none = 2
rank (some false) = 1
rank (some true) = 0

unfoldable total : Visits → List Key → ℕ
total seen [] = 0
total seen (k ∷ ks) = rank (seen k) + total seen ks

-- The visits have gone on, and each new link of the next level has used up an act of its key.
record Moved (s t : State) : Type 0 where
  down : (k : Key) → rank (t.seen k) ≤ rank (s.seen k)
  fresh : (x : Link) → Memᴰ x t.next → Memᴰ x s.next ⊎ (rank (t.seen x.key) < rank (s.seen x.key))

Moved-refl : (s : State) → Moved s s
Moved-refl s = record { down = λ k. omega arith; fresh = λ x i. inl i }

Moved-trans : {s t u : State} → Moved s t → Moved t u → Moved s u
Moved-trans {s} {t} {u} a b = record {
  down = λ k. omega (arith, a.down k, b.down k);
  fresh = λ x i. elim (b.fresh x i) [
    | inr lt ↦ inr (omega (arith, lt, a.down x.key))
    | inl j ↦ elim (a.fresh x j) [ inl o ↦ inl o | inr lt ↦ inr (omega (arith, lt, b.down x.key)) ]
  ];
}

acted-lower :
    (l : Link) (seen : Visits)
    → acts l (seen l.key) ≡ true
    → rank (some (not l.leaf)) < rank (seen l.key)
acted-lower l seen h = elim (Option-cases (seen l.key)) [
  | inl n ↦ elim (Bool-cases l.leaf) [
    | inl y ↦ rw (n, y) (omega arith)
    | inr m ↦ rw (n, m) (omega arith)
  ]
  | inr (true, e) ↦ absurd (ground arith)
  | inr (false, e) ↦ elim (Bool-cases l.leaf) [
    | inl y ↦ absurd (ground arith)
    | inr m ↦ rw (e, m) (omega arith)
  ]
]

acted-Moved : (l : Link) (s : State) → acts l (s.seen l.key) ≡ true → Moved s (acted l s)
unfolding acted
acted-Moved l s h =
    let lower = acted-lower l s.seen h in
    let at : (k : Key)
        → same_key k l.key ≡ true
        → rank (insert l.key (not l.leaf) s.seen k) < rank (s.seen k) =
      λ k y. omega (
        arith,
        lower,
        ap rank (insert-at s.seen l.key k (not l.leaf) y),
        ap (λ x. rank (s.seen x)) (same_key→eq k l.key y),
      ) in
    record {
      down = λ k. elim (Bool-cases (same_key k l.key)) [
        | inl y ↦ omega (arith, at k y)
        | inr n ↦ omega (arith, ap rank (insert-other s.seen l.key k (not l.leaf) n))
      ];
      fresh = λ x i. elim (Memᴰ.append_cases s.next i) [
        | inl j ↦ inl j
        | inr j ↦ inr (
            at x.key (
              subst (λ z. same_key x.key z ≡ true) (ap (λ z. z.key) (Memᴰ.eq_of_singleton j))
                (same_key_refl x.key)))
      ];
    }

absorb_link-Moved : (l : Link) (s : State) → Moved s (absorb_link l (visit l s.seen) s)
absorb_link-Moved l s = elim (Bool-cases (acts l (s.seen l.key))) [
  | inl y ↦ subst (Moved s) (sym (acted-eq l s y)) (acted-Moved l s y)
  | inr n ↦ subst (Moved s) (sym (still-eq l s n)) (Moved-refl s)
]

absorb-Moved : (ls : List Link) (s : State) → Moved s (absorb ls s)
unfolding absorb
absorb-Moved [] s = Moved-refl s
absorb-Moved (l ∷ ls) s =
    Moved-trans (absorb_link-Moved l s) (absorb-Moved ls (absorb_link l (visit l s.seen) s))

absorb_all-Moved :
    {W : Type 0} (rs : List (Result W (List Link))) (s t : State)
    → absorb_all rs s ≡ ok t
    → Moved s t
unfolding absorb_all
absorb_all-Moved [] s t h = subst (Moved s) (ok_inj h) (Moved-refl s)
absorb_all-Moved (err e ∷ rs) s t h = absurd (ground arith)
absorb_all-Moved (ok ls ∷ rs) s t h =
    Moved-trans (absorb-Moved ls s) (absorb_all-Moved rs (absorb ls s) t h)

total-down : (s t : State) → Moved s t → (ks : List Key) → total t.seen ks ≤ total s.seen ks
unfolding total
total-down s t m [] = omega arith
total-down s t m (k ∷ ks) = omega (arith, m.down k, total-down s t m ks)

total-drop :
    (s t : State)
    → Moved s t
    → (k : Key) → rank (t.seen k) < rank (s.seen k)
    → (ks : List Key) → Memᴰ k ks
    → total t.seen ks < total s.seen ks
unfolding total
total-drop s t m k lt [] i = absurd (Memᴰ.not-nil i)
total-drop s t m k lt (x ∷ ks) (head e) =
    let lt' : rank (t.seen x) < rank (s.seen x) =
      subst (λ z. rank (t.seen z) < rank (s.seen z)) e lt in
    omega (arith, lt', total-down s t m ks)
total-drop s t m k lt (x ∷ ks) (tail i) = omega (arith, m.down x, total-drop s t m k lt ks i)

total-bound : (seen : Visits) (ks : List Key) → total seen ks ≤ 2 * length ks
unfolding total
total-bound seen [] = omega arith
total-bound seen (k ∷ ks) = omega (arith, rank_le (seen k), total-bound seen ks)
  where
    rank_le : (o : Option Bool) → rank o ≤ 2
    rank_le none = omega arith
    rank_le (some false) = omega arith
    rank_le (some true) = omega arith

module _ {E L : Type 0} (get : Key → Result E Bytes) (has : Key → Result E Bool)
    (links_of : Key → Bytes → Result L (List Link)) (stored : List Key)
    (got : (k : Key) (d : Bytes) → get k ≡ ok d → Memᴰ k stored)
    (had : (k : Key) → has k ≡ ok true → Memᴰ k stored) where
  abbrev at_look : Link → Result (WalkError E L) (List Link)
  at_look = look get has links_of

  look-stored : (l : Link) (ls : List Link) → at_look l ≡ ok ls → Memᴰ l.key stored
  unfolding look present_leaf
  look-stored l ls e = elim (Bool-cases l.leaf) [
    | inl y ↦ elim (Result-cases (has l.key)) [
      | inr (x, h) ↦ absurd (ground arith)
      | inl (true, h) ↦ had l.key h
      | inl (false, h) ↦ absurd (ground arith)
    ]
    | inr n ↦ elim (Result-cases (get l.key)) [
      | inr (x, g) ↦ absurd (ground arith)
      | inl (d, g) ↦ got l.key d g
    ]
  ]

  abbrev Answers : Option (Result (WalkError E L) (List Key)) → Type 0
  Answers o = (r : Result (WalkError E L) (List Key)) × (o ≡ some r)

  -- A level whose first look fails is the last.
  last_level :
      (fuel : ℕ) (s : State) (f : Link) (fs : List Link) (e : WalkError E L)
      → 1 ≤ fuel
      → at_look f ≡ err e
      → Answers (levels at_look fuel s (f ∷ fs))
  unfolding levels next_level absorb_all
  last_level zero s f fs e le h = absurd (omega arith)
  last_level (suc fuel) s f fs e le h = (err e, rw h refl)

  behind :
      (fuel : ℕ) (s t : State) (next : List Link)
      → t.next ≡ next
      → s.next ≡ []
      → Moved s t
      → total s.seen stored + 1 ≤ fuel
      → ((u : State) (level : List Link)
          → u.next ≡ []
          → total u.seen stored + 2 ≤ fuel
          → Answers (levels at_look fuel u level))
      → Answers (levels at_look fuel (record t { next = [] }) next)
  unfolding levels
  behind zero s t [] e bare m enough go = absurd (omega (arith, enough))
  behind (suc fuel) s t [] e bare m enough go = (ok t.visited, refl)
  behind fuel s t (h ∷ ns) e bare m enough go = elim (Result-cases (at_look h)) [
    | inr (x, f) ↦ last_level fuel (record t { next = [] }) h ns x (omega (arith, enough)) f
    | inl (ls, f) ↦
        let mem : Memᴰ h t.next = subst (Memᴰ h) (sym e) (head refl) in
        let lt : rank (t.seen h.key) < rank (s.seen h.key) = elim (m.fresh h mem) [
          | inl i ↦ absurd (Memᴰ.not-nil (subst (Memᴰ h) bare i))
          | inr lower ↦ lower
        ] in
        go (record t { next = [] }) (h ∷ ns) refl
          (omega (arith, enough, total-drop s t m h.key lt stored (look-stored h ls f)))
  ]

  levels_return :
      (fuel : ℕ) (s : State) (level : List Link)
      → s.next ≡ []
      → total s.seen stored + 2 ≤ fuel
      → Answers (levels at_look fuel s level)
  unfolding levels next_level
  levels_return zero s level bare enough = absurd (omega (arith, enough))
  levels_return (suc fuel) s [] bare enough = (ok s.visited, refl)
  levels_return (suc fuel) s (f ∷ fs) bare enough =
      let on = next_level at_look (levels at_look fuel) in
      elim (Result-cases (absorb_all (map at_look (f ∷ fs)) s)) [
        | inr (x, h) ↦ (err x, ap on h)
        | inl (t, h) ↦
            let m = absorb_all-Moved (map at_look (f ∷ fs)) s t h in
            let (r, e) =
              behind fuel s t t.next refl bare m (omega (arith, enough))
                (λ u level. levels_return fuel u level) in
            (r, ap on h ∙ e)
      ]

  -- A walk ends: two rounds for each object of the store, and two more, are enough.
  pub check_complete_returns :
      (fuel : ℕ) (start : Key)
      → 2 * length stored + 2 ≤ fuel
      → (r : Result (WalkError E L) (List Key)) × (check_complete get has links_of fuel start
          ≡ some r)
  unfolding check_complete
  check_complete_returns fuel start enough =
      levels_return fuel
        (record { seen = (visit (link_to start) (λ k. none)).1; visited = start ∷ []; next = [] })
        (link_to start ∷ []) refl
        (omega (arith, enough, total-bound (visit (link_to start) (λ k. none)).1 stored))
