-- ===== src/Gc/Exact.antt =====
-- What `mark_live` of src/gc/collector.rs answers.
use core_rs.Prelude.{
  ℕ, zero, suc, ◌+◌, ◌≡◌, ◌⊎◌, ◌↔◌, refl, sym, ap, ◌∙◌, subst, inl, inr, arith, Bool, true, false,
  ◌&&◌, ◌||◌, Option, none, some, List, [], ◌∷◌, ◌++◌, reverse, Result, ok, err, Bool-cases, ◌%◌,
  ◌==◌,
}
use core_rs.Prelude.Bytes.{Bytes}
use core_rs.Key.{Key}
use core_rs.Gitobj.Links.{Link}
use core_rs.Gc.{
  Error, canceled_mark, missing_from_store, objects, children, link_to, same_key, MarkInterface,
  visit, walk_on, walk, mark_from, mark_on, mark_live,
}
use core_rs.Gc.Visit.{
  followed, IsHandled, IsFresh, same_key→eq, same_key_refl, visit-Visit, missing, unreadable,
  undecodable, skipped, pushed,
}
use core_rs.Gc.Closure.{IsRead, Reach, root, child, IsHonest, Reach-IsConsistent, Inv, moved-Inv}
use mathlib.Core.List.Memᴰ
use mathlib.Core.List.Memᴰ.{Memᴰ, head, tail}

module _ {M E L : Type 0} (set : MarkInterface M) (get_verified : Key → Result E Bytes)
    (links : Key → Bytes → Result L (List Link)) (canceled : ℕ → Bool)
    (honest : IsHonest get_verified links) (roots : List Key) where
  -- Why a mark stops short: what the caller said, or a fault of an object that the roots lead to.
  pub data Fault : Error E L → Type 0 where
    told : (n : ℕ) → canceled n ≡ true → Fault canceled_mark
    absent :
        {l : Link}
        → Reach get_verified links roots l
        → set.present l.key ≡ false
        → Fault (missing_from_store l.key)
    unread :
        {l : Link} {e : E}
        → Reach get_verified links roots l
        → get_verified l.key ≡ err e
        → Fault (objects e)
    unparsed :
        {l : Link} {d : Bytes} {e : L}
        → Reach get_verified links roots l
        → get_verified l.key ≡ ok d
        → links l.key d ≡ err e
        → Fault (children e)

  abbrev Marking : List Key → M → List Link → Type 0
  Marking begun m stack = Inv get_verified links set roots begun m stack

  data Walked (begun : List Key) (r : Option (Result (Error E L) M)) : Type 0 where
    out : r ≡ none → Walked begun r
    marked_all : (m : M) → r ≡ some (ok m) → Marking begun m [] → Walked begun r
    failed : (e : Error E L) → r ≡ some (err e) → Fault e → Walked begun r

  grown :
      (m m' : M) (l : Link) (ls : List Link)
      → IsRead get_verified links l.key ls
      → ((j : Key) → followed set m' j ≡ (followed set m j || same_key j l.key))
      → (j : Key) → followed set m' j ≡ true
      → (followed set m j ≡ true) ⊎ ((j ≡ l.key) × IsRead get_verified links l.key ls)
  grown m m' l ls now follows j h = elim (Bool-cases (followed set m j)) [
    | inl y ↦ inl y
    | inr n ↦ inr (same_key→eq j l.key (ground (arith, follows j)), now)
  ]

  walk-Walked :
      (begun : List Key) (fuel n : ℕ) (m : M) (stack : List Link)
      → Marking begun m stack
      → Walked begun (walk set get_verified links canceled fuel n m stack)
  unfolding walk walk_on
  walk-Walked begun zero n m stack inv = out refl
  walk-Walked begun (suc fuel) n m [] inv = marked_all m refl inv
  walk-Walked begun (suc fuel) n m (l ∷ stack) inv =
      let r = inv.waiting l (head refl) in
      let v = visit set get_verified links m l in
      let on =
        walk_on set get_verified links canceled (walk set get_verified links canceled fuel (n + 1))
          stack in
      elim (Bool-cases (n % 1024 == 0 && canceled n)) [
        | inl y ↦ failed canceled_mark (rw y refl) (told n (ground arith))
        | inr go_on ↦
            rw go_on
              (elim (visit-Visit set get_verified links m l
                (Reach-IsConsistent get_verified links honest r)) [
                  | missing gone e ↦ failed _ (ap on e) (absent r gone)
                  | unreadable x g e ↦ failed _ (ap on e) (unread r g)
                  | undecodable d x g h e ↦ failed _ (ap on e) (unparsed r g h)
                  | skipped m' e there marks follows handled ↦
                      subst (Walked begun) (sym (ap on e)) (
                        walk-Walked begun fuel (n + 1) m' stack (
                          moved-Inv get_verified links set roots begun m m' l [] stack inv there
                            marks (λ j k. follows j ∙ k) (λ j h. inl (sym (follows j) ∙ h)) handled
                            (λ x i. absurd (Memᴰ.not-nil i))))
                  | pushed m' d ls e there leaf g h marks follows new ↦
                      subst (Walked begun) (sym (ap on e)) (
                        walk-Walked begun fuel (n + 1) m' (reverse ls ++ stack) (
                          moved-Inv get_verified links set roots begun m m' l ls stack inv there
                            marks (λ j k. ground (arith, follows j))
                            (grown m m' l ls (d, g, h) follows)
                            (
                              ground (arith, marks l.key, same_key_refl l.key),
                              λ k. ground (arith, follows l.key, same_key_refl l.key),
                            )
                            (λ x i. child r leaf (d, g, h) i)))
                ])
      ]

  all_begun :
      (begun : List Key) (m : M)
      → ((k : Key) → Memᴰ k roots → Memᴰ k begun)
      → Marking begun m []
      → Marking roots m []
  all_begun begun m all inv = record {
    sound = inv.sound;
    there = inv.there;
    read = inv.read;
    closed = inv.closed;
    started = λ k h. inv.started k (all k h);
    waiting = inv.waiting;
  }

  next_root :
      (begun : List Key) (m : M) (k : Key)
      → Memᴰ k roots
      → Marking begun m []
      → Marking (k ∷ begun) m (link_to k ∷ [])
  next_root begun m k h inv = record {
    sound = inv.sound;
    there = inv.there;
    read = inv.read;
    closed =
        λ j ls x f r i. elim (inv.closed j ls x f r i) [ inl y ↦ inl y | inr n ↦ inr (tail n) ];
    started = λ j i. elim (Memᴰ.cases_cons i) [
      | inl e ↦ inr (head (ap link_to e))
      | inr old ↦ elim (inv.started j old) [ inl y ↦ inl y | inr n ↦ inr (tail n) ]
    ];
    waiting = λ x i. elim (Memᴰ.cases_cons i) [
      | inl e ↦ subst (Reach get_verified links roots) (sym e) (root h)
      | inr n ↦ inv.waiting x n
    ];
  }

  -- The roots that are still to be marked.
  rest-Walked :
      (rest begun : List Key) (fuel : ℕ) (m : M)
      → ((k : Key) → Memᴰ k rest → Memᴰ k roots)
      → ((k : Key) → Memᴰ k roots → Memᴰ k begun ⊎ Memᴰ k rest)
      → Marking begun m []
      → Walked roots (mark_live set get_verified links canceled fuel m rest)
  unfolding mark_live mark_on mark_from
  rest-Walked [] begun fuel m sub cover inv = marked_all m refl (
      all_begun begun m (λ k h. elim (cover k h) [ inl y ↦ y | inr n ↦ absurd (Memᴰ.not-nil n) ])
        inv)
  rest-Walked (k ∷ rest) begun fuel m sub cover inv =
      let go = λ (m' : M). mark_live set get_verified links canceled fuel m' rest in
      let on = mark_on set get_verified links canceled go in
      let cover' : (j : Key) → Memᴰ j roots → Memᴰ j (k ∷ begun) ⊎ Memᴰ j rest = λ j h.
        elim (cover j h) [
          | inl y ↦ inl (tail y)
          | inr n ↦ elim (Memᴰ.cases_cons n) [ inl e ↦ inl (head e) | inr i ↦ inr i ]
        ] in
      elim (walk-Walked (k ∷ begun) fuel 0 m (link_to k ∷ [])
        (next_root begun m k (sub k (head refl)) inv)) [
          | out e ↦ out (ap on e)
          | failed x e fault ↦ failed x (ap on e) fault
          | marked_all m' e inv' ↦
              subst (Walked roots) (sym (ap on e))
                (rest-Walked rest (k ∷ begun) fuel m' (λ j h. sub j (tail h)) cover' inv')
        ]

  fresh-followed : (m : M) → IsFresh set m → (k : Key) → followed set m k ≡ false
  unfolding followed
  fresh-followed m (mk, wk) k = ground (arith, mk k, wk k)

  live-Walked :
      (fuel : ℕ) (m : M)
      → IsFresh set m
      → Walked roots (mark_live set get_verified links canceled fuel m roots)
  live-Walked fuel m fresh =
      rest-Walked roots [] fuel m (λ k h. h) (λ k h. inr h)
        (record {
          sound = λ j h. absurd (ground (arith, fresh.0 j));
          there = λ j h. absurd (ground (arith, fresh.0 j));
          read = λ j h. absurd (ground (arith, fresh-followed m fresh j));
          closed = λ j ls x h. absurd (ground (arith, fresh-followed m fresh j));
          started = λ k h. absurd (Memᴰ.not-nil h);
          waiting = λ x h. absurd (Memᴰ.not-nil h);
        })

  reach-IsHandled :
      (m : M)
      → Marking roots m []
      → {l : Link} → Reach get_verified links roots l
      → IsHandled set m l
  reach-IsHandled m inv (root {k} h) = elim (inv.started k h) [
    | inl y ↦ y
    | inr n ↦ absurd (Memᴰ.not-nil n)
  ]
  reach-IsHandled m inv (child {l} {x} {ls} r leaf now i) =
      elim (inv.closed l.key ls x ((reach-IsHandled m inv r).1 leaf) now i) [
        | inl y ↦ y
        | inr n ↦ absurd (Memᴰ.not-nil n)
      ]

  -- From a mark set that has recorded nothing, over links that say of a key that is no git object's
  -- what the key says: a mark that returns has marked the keys that the roots lead to and no other,
  -- and each of these is in the snapshot, and its object, unless it is a leaf, could be read.
  pub mark_live_exact :
      (fuel : ℕ) (m m' : M)
      → IsFresh set m
      → mark_live set get_verified links canceled fuel m roots ≡ some (ok m')
      → ((k : Key)
          → (set.marked m' k ≡ true)
            ↔ ((l : Link) × Reach get_verified links roots l × (k ≡ l.key)))
        × ((l : Link)
            → Reach get_verified links roots l
            → (set.present l.key ≡ true)
              × (l.leaf ≡ false → (ls : List Link) × IsRead get_verified links l.key ls))
  mark_live_exact fuel m m' fresh h = elim (live-Walked fuel m fresh) [
    | out e ↦ absurd (ground arith)
    | failed x e fault ↦ absurd (ground arith)
    | marked_all q e inv ↦
        let same : q ≡ m' = ground arith in
        subst
          (λ z.
            ((k : Key)
              → (set.marked z k ≡ true)
                ↔ ((l : Link) × Reach get_verified links roots l × (k ≡ l.key)))
            × ((l : Link)
                → Reach get_verified links roots l
                → (set.present l.key ≡ true)
                  × (l.leaf ≡ false → (ls : List Link) × IsRead get_verified links l.key ls)))
          same
          (
            λ k. (
              inv.sound k,
              λ (l, r, e'). subst (λ j. set.marked q j ≡ true) (sym e') (reach-IsHandled q inv r).0,
            ),
            λ l r. (
              inv.there l.key (reach-IsHandled q inv r).0,
              λ leaf. inv.read l.key ((reach-IsHandled q inv r).1 leaf),
            ),
          )
  ]

  -- From a mark set that has recorded nothing, a mark that fails was canceled, or names an object
  -- that the roots lead to and that is absent, cannot be read, or has links that cannot be read.
  pub mark_live-Fault :
      (fuel : ℕ) (m : M) (e : Error E L)
      → IsFresh set m
      → mark_live set get_verified links canceled fuel m roots ≡ some (err e)
      → Fault e
  mark_live-Fault fuel m e fresh h = elim (live-Walked fuel m fresh) [
    | out x ↦ absurd (ground arith)
    | marked_all q x inv ↦ absurd (ground arith)
    | failed y x fault ↦ let same : y ≡ e = ground arith in subst Fault same fault
  ]
