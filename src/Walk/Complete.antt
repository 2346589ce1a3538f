-- ===== src/Walk/Complete.antt =====
-- What check_complete of src/fstree/read.rs answers.
use core_rs.Prelude.{
  ℕ, zero, suc, ◌≡◌, ◌⊎◌, ◌↔◌, refl, sym, ap, ◌∙◌, subst, inl, inr, arith, Bool, true, false, not,
  Option, none, some, List, [], ◌∷◌, map, Result, ok, err, Bool-cases, Result-cases,
}
use mathlib.Core.Path.{ap₂}
use core_rs.Prelude.Bytes.{Bytes}
use core_rs.Key.{Key}
use core_rs.Gitobj.Links.{Link}
use core_rs.Gc.{same_key, link_to}
use core_rs.Gc.Visit.{same_key→eq, same_key_refl}
use core_rs.Gc.Closure.{IsRead, IsRead-one, root, child}
use core_rs.Walk.{
  visit, WalkError, read, children, missing, has_failed, look, present_leaf, State, absorb,
  absorb_all, next_level, levels, check_complete,
}
use core_rs.Walk.Seen.{IsUnique, IsMet, the_link, Reached, Inv, taken-Inv, flipped-Inv}
use core_rs.Walk.Visited.{absorbed-Inv}
use mathlib.Core.List.Memᴰ
use mathlib.Core.List.Memᴰ.{Memᴰ, head}

module _ {E L : Type 0} (get : Key → Result E Bytes) (has : Key → Result E Bool)
    (links_of : Key → Bytes → Result L (List Link)) (start : Key) where
  abbrev at_look : Link → Result (WalkError E L) (List Link)
  at_look = look get has links_of

  -- The object of a link is there.
  abbrev pub IsHeld : Link → Type 0
  IsHeld l =
      (l.leaf ≡ false → (ls : List Link) × IsRead get links_of l.key ls)
      × ((has l.key ≡ ok true) ⊎ ((ls : List Link) × IsRead get links_of l.key ls))

  -- What is wrong with an object that the key leads to.
  pub data Fault : WalkError E L → Type 0 where
    unread :
        {l : Link} {e : E}
        → Reached get has links_of start l
        → get l.key ≡ err e
        → Fault (read l.key e)
    unparsed :
        {l : Link} {d : Bytes} {e : L}
        → Reached get has links_of start l
        → get l.key ≡ ok d
        → links_of l.key d ≡ err e
        → Fault (children e)
    absent :
        {l : Link} → Reached get has links_of start l → has l.key ≡ ok false → Fault (missing l.key)
    unknown :
        {l : Link} {e : E}
        → Reached get has links_of start l
        → has l.key ≡ err e
        → Fault (has_failed e)

  look-Fault :
      (l : Link) (e : WalkError E L)
      → Reached get has links_of start l
      → at_look l ≡ err e
      → Fault e
  unfolding look present_leaf
  look-Fault l e r h = elim (Bool-cases l.leaf) [
    | inl y ↦ elim (Result-cases (has l.key)) [
      | inr (x, t) ↦ let same : has_failed x ≡ e = ground arith in subst Fault same (unknown r t)
      | inl (true, t) ↦ absurd (ground arith)
      | inl (false, t) ↦
          let same : missing l.key ≡ e = ground arith in subst Fault same (absent r t)
    ]
    | inr n ↦ elim (Result-cases (get l.key)) [
      | inr (x, g) ↦ let same : read l.key x ≡ e = ground arith in subst Fault same (unread r g)
      | inl (d, g) ↦ elim (Result-cases (links_of l.key d)) [
        | inr (x, t) ↦ let same : children x ≡ e = ground arith in subst Fault same (unparsed r g t)
        | inl (ks, t) ↦ absurd (ground arith)
      ]
    ]
  ]

  data Level (r : Result (WalkError E L) State) : Type 0 where
    failed : (e : WalkError E L) → r ≡ err e → Fault e → Level r
    passed : (s : State) → r ≡ ok s → Inv get has links_of start s [] [] → Level r

  Level-Level :
      (level : List Link) (s : State)
      → Inv get has links_of start s level []
      → Level (absorb_all (map at_look level) s)
  unfolding absorb_all
  Level-Level [] s inv = passed s refl inv
  Level-Level (f ∷ fs) s inv = elim (Result-cases (at_look f)) [
    | inr (e, h) ↦ failed e (rw h refl) (look-Fault f e (inv.level_reached f (head refl)) h)
    | inl (ls, h) ↦ rw h (
        Level-Level fs (absorb ls s) (
          absorbed-Inv get has links_of start ls fs s
            (taken-Inv get has links_of start s f fs ls inv h)))
  ]

  data Walked (r : Option (Result (WalkError E L) (List Key))) : Type 0 where
    out : r ≡ none → Walked r
    failed : (e : WalkError E L) → r ≡ some (err e) → Fault e → Walked r
    complete :
        (s : State)
        → r ≡ some (ok s.visited)
        → s.next ≡ []
        → Inv get has links_of start s [] []
        → Walked r

  levels-Walked :
      (fuel : ℕ) (s : State) (level : List Link)
      → s.next ≡ []
      → Inv get has links_of start s level []
      → Walked (levels at_look fuel s level)
  unfolding levels next_level
  levels-Walked zero s level bare inv = out refl
  levels-Walked (suc fuel) s [] bare inv = complete s refl bare inv
  levels-Walked (suc fuel) s (f ∷ fs) bare inv =
      let on = next_level at_look (levels at_look fuel) in
      elim (Level-Level (f ∷ fs) s inv) [
        | failed e h fault ↦ failed e (ap on h) fault
        | passed t h inv' ↦ subst Walked (sym (ap on h)) (
            levels-Walked fuel (record t { next = [] }) t.next refl
              (flipped-Inv get has links_of start t inv'))
      ]

  abbrev first_state : State
  first_state = record {
    seen = (visit (link_to start) (λ k. none)).1;
    visited = start ∷ [];
    next = [];
  }

  first-seen :
      (k : Key) (b : Bool)
      → first_state.seen k ≡ some b
      → (k ≡ start) × (b ≡ not (link_to start).leaf)
  unfolding visit
  first-seen k b e = elim (Bool-cases (same_key k start)) [
    | inl y ↦ (same_key→eq k start y, ground (arith))
    | inr n ↦ absurd (ground arith)
  ]

  seen-start : first_state.seen start ≡ some (not (link_to start).leaf)
  unfolding visit
  seen-start = ground (arith, same_key_refl start)

  waiting :
      (k : Key) (b : Bool)
      → k ≡ start
      → b ≡ (link_to start).leaf
      → Memᴰ (the_link k b) (link_to start ∷ [])
  waiting k b ek eb = head (ap₂ the_link ek eb)

  first-Inv : Inv get has links_of start first_state (link_to start ∷ []) []
  first-Inv = record {
    sound = λ k b e. (link_to start, root (head refl), sym (first-seen k b e).0);
    in_visited = λ k b e. head (first-seen k b e).0;
    visited_seen = λ k i.
        (not (link_to start).leaf, ap first_state.seen (Memᴰ.eq_of_singleton i) ∙ seen-start);
    unique = (λ h. Memᴰ.not-nil h, tt);
    starts = ([], refl);
    begun = (not (link_to start).leaf, seen-start, λ leaf. ap not leaf);
    closed =
        λ k e. let (ek, eb) = first-seen k true e in inl (inr (waiting k false ek (ground arith)));
    tested =
        λ k e. let (ek, eb) = first-seen k false e in inl (inr (waiting k true ek (ground arith)));
    next_reached = λ x i. absurd (Memᴰ.not-nil i);
    level_reached = λ x i.
        subst (Reached get has links_of start) (sym (Memᴰ.eq_of_singleton i)) (root (head refl));
    links_reached = λ x i. absurd (Memᴰ.not-nil i);
  }

  complete-Walked : (fuel : ℕ) → Walked (check_complete get has links_of fuel start)
  unfolding check_complete
  complete-Walked fuel = levels-Walked fuel first_state (link_to start ∷ []) refl first-Inv

  module _ (s : State) (bare : s.next ≡ []) (inv : Inv get has links_of start s [] []) where
    nothing_left : {x : Link} → Memᴰ x s.next ⊎ Memᴰ x [] → ⊥
    nothing_left {x} (inl i) = Memᴰ.not-nil (subst (Memᴰ x) bare i)
    nothing_left (inr i) = Memᴰ.not-nil i

    seen_true :
        (k : Key)
        → s.seen k ≡ some true
        → (ls : List Link) × IsRead get links_of k ls × ((x : Link) → Memᴰ x ls → IsMet s.seen x)
    seen_true k e = elim (inv.closed k e) [
      | inl i ↦ absurd (nothing_left i)
      | inr (ls, now, met) ↦
          (ls, now, λ x i. elim (met x i) [ inl m ↦ m | inr j ↦ absurd (Memᴰ.not-nil j) ])
    ]

    Reached-IsMet : {l : Link} → Reached get has links_of start l → IsMet s.seen l
    Reached-IsMet (root {k} i) =
        subst (λ x. IsMet s.seen (link_to x)) (sym (Memᴰ.eq_of_singleton i)) inv.begun
    Reached-IsMet (child {l} {x} {ls} r leaf now i) =
        let (b, e, up) = Reached-IsMet r in
        let (ks, now', met) = seen_true l.key (e ∙ ap some (up leaf)) in
        met x (subst (Memᴰ x) (IsRead-one get links_of l.key ls ks now now') i)

    held : {l : Link} → Reached get has links_of start l → IsHeld l
    held {l} r =
        let (b, e, up) = Reached-IsMet r in
        elim (Bool-cases b) [
          | inl y ↦
              let (ks, now, _) = seen_true l.key (e ∙ ap some y) in
              (λ leaf. (ks, now), inr (ks, now))
          | inr n ↦ elim (inv.tested l.key (e ∙ ap some n)) [
            | inl i ↦ absurd (nothing_left i)
            | inr t ↦ (λ leaf. absurd (ground (arith, up leaf)), inl t)
          ]
        ]

    listed_iff :
        (k : Key) → Memᴰ k s.visited ↔ ((l : Link) × Reached get has links_of start l × (l.key ≡ k))
    listed_iff k = (
      λ i. let (b, e) = inv.visited_seen k i in inv.sound k b e,
      λ (l, r, e).
          let (b, e', _) = Reached-IsMet r in
          subst (λ x. Memᴰ x s.visited) e (inv.in_visited l.key b e'),
    )

  -- A walk that returns keys returns the root first, no key twice, and just the keys that the root
  -- leads to; and each object that it leads to is there: one that is no leaf can be read, and a leaf
  -- is in the store or can be read.
  pub check_complete_exact :
      (fuel : ℕ) (keys : List Key)
      → check_complete get has links_of fuel start ≡ some (ok keys)
      → ((rest : List Key) × (keys ≡ start ∷ rest))
        × IsUnique keys
        × ((k : Key) → Memᴰ k keys ↔ ((l : Link) × Reached get has links_of start l × (l.key ≡ k)))
        × ((l : Link) → Reached get has links_of start l → IsHeld l)
  check_complete_exact fuel keys h = elim (complete-Walked fuel) [
    | out e ↦ absurd (ground arith)
    | failed x e fault ↦ absurd (ground arith)
    | complete s e bare inv ↦
        let same : s.visited ≡ keys = ground arith in
        (
          subst (λ v. (rest : List Key) × (v ≡ start ∷ rest)) same inv.starts,
          subst IsUnique same inv.unique,
          λ k.
              subst (λ v. Memᴰ k v ↔ ((l : Link) × Reached get has links_of start l × (l.key ≡ k)))
                same (listed_iff s bare inv k),
          λ l r. held s bare inv r,
        )
  ]

  -- A walk that fails names an object that the root leads to and that cannot be read, has links that
  -- cannot be read, or is not in the store.
  pub check_complete-Fault :
      (fuel : ℕ) (e : WalkError E L)
      → check_complete get has links_of fuel start ≡ some (err e)
      → Fault e
  check_complete-Fault fuel e h = elim (complete-Walked fuel) [
    | out x ↦ absurd (ground arith)
    | complete s x bare inv ↦ absurd (ground arith)
    | failed y x fault ↦ let same : y ≡ e = ground arith in subst Fault same fault
  ]
