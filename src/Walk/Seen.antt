-- ===== src/Walk/Seen.antt =====
-- The invariant of the loop of check_complete (src/fstree/read.rs), link by link.
use core_rs.Prelude.{
  ◌≡◌, ◌⊎◌, refl, sym, ap, ◌∙◌, subst, inl, inr, arith, Bool, true, false, some, List, [], ◌∷◌,
  ◌++◌, Result, ok, Bool-cases, Result-cases,
}
use core_rs.Prelude.Bytes.{Bytes}
use core_rs.Key.{Key}
use core_rs.Gitobj.Links.{Link}
use core_rs.Gc.{link_to}
use core_rs.Gc.Closure.{IsRead, Reach, child}
use core_rs.Walk.{Visits, present_leaf, look, State}
use mathlib.Core.List.Memᴰ
use mathlib.Core.List.Memᴰ.{Memᴰ, head, tail}

-- No key stands in the list twice.
abbrev pub IsUnique : List Key → Type 0
IsUnique [] = Unit
IsUnique (k ∷ ks) = (Memᴰ k ks → ⊥) × IsUnique ks

pub append-IsUnique :
    (ks : List Key) (k : Key) → IsUnique ks → (Memᴰ k ks → ⊥) → IsUnique (ks ++ (k ∷ []))
append-IsUnique [] k u n = (λ h. Memᴰ.not-nil h, tt)
append-IsUnique (x ∷ xs) k (nx, u) n = (
  λ h. elim (Memᴰ.append_cases xs h) [
    | inl i ↦ nx i
    | inr i ↦ n (head (sym (Memᴰ.eq_of_singleton i)))
  ],
  append-IsUnique xs k u (λ h. n (tail h)),
)

-- A link that has had its effect on the visits.
abbrev pub IsMet : Visits → Link → Type 0
IsMet seen x = (b : Bool) × (seen x.key ≡ some b) × (x.leaf ≡ false → b ≡ true)

abbrev pub the_link : Key → Bool → Link
the_link k b = record { key = k; leaf = b }

module _ {E L : Type 0} (get : Key → Result E Bytes) (has : Key → Result E Bool)
    (links_of : Key → Bytes → Result L (List Link)) (start : Key) where
  abbrev pub Reached : Link → Type 0
  Reached l = Reach get links_of (start ∷ []) l

  -- The visits behind some links of a level: `next` is the next level, `level` the links of this one
  -- that are still to be looked at, and `links` those of an object that are still to be visited.
  pub record Inv (s : State) (level links : List Link) : Type 0 where
    pub sound : (k : Key) (b : Bool) → s.seen k ≡ some b → (l : Link) × Reached l × (l.key ≡ k)
    pub in_visited : (k : Key) (b : Bool) → s.seen k ≡ some b → Memᴰ k s.visited
    pub visited_seen : (k : Key) → Memᴰ k s.visited → (b : Bool) × (s.seen k ≡ some b)
    pub unique : IsUnique s.visited
    pub starts : (rest : List Key) × (s.visited ≡ start ∷ rest)
    pub begun : IsMet s.seen (link_to start)
    pub closed :
        (k : Key)
        → s.seen k ≡ some true
        → (Memᴰ (the_link k false) s.next ⊎ Memᴰ (the_link k false) level)
          ⊎ ((ls : List Link) × IsRead get links_of k ls
              × ((x : Link) → Memᴰ x ls → IsMet s.seen x ⊎ Memᴰ x links))
    pub tested :
        (k : Key)
        → s.seen k ≡ some false
        → (Memᴰ (the_link k true) s.next ⊎ Memᴰ (the_link k true) level) ⊎ (has k ≡ ok true)
    pub next_reached : (x : Link) → Memᴰ x s.next → Reached x
    pub level_reached : (x : Link) → Memᴰ x level → Reached x
    pub links_reached : (x : Link) → Memᴰ x links → Reached x

  -- What a look that succeeds says of the object.
  look_lem :
      (l : Link) (ls : List Link)
      → look get has links_of l ≡ ok ls
      → ((l.leaf ≡ true) × (ls ≡ []) × (has l.key ≡ ok true))
        ⊎ ((l.leaf ≡ false) × IsRead get links_of l.key ls)
  unfolding look present_leaf
  look_lem l ls e = elim (Bool-cases l.leaf) [
    | inl y ↦ elim (Result-cases (has l.key)) [
      | inr (x, h) ↦ absurd (ground arith)
      | inl (true, h) ↦ inl (y, ground arith, h)
      | inl (false, h) ↦ absurd (ground arith)
    ]
    | inr n ↦ elim (Result-cases (get l.key)) [
      | inr (x, g) ↦ absurd (ground arith)
      | inl (d, g) ↦ elim (Result-cases (links_of l.key d)) [
        | inr (x, h) ↦ absurd (ground arith)
        | inl (ks, h) ↦ let same : ks ≡ ls = ground arith in inr (n, (d, g, h ∙ ap ok same))
      ]
    ]
  ]

  link_is : (f : Link) (k : Key) (b : Bool) → the_link k b ≡ f → (k ≡ f.key) × (b ≡ f.leaf)
  link_is f k b e = (ap (λ x. x.key) e, ap (λ x. x.leaf) e)

  -- A link of the level has been looked at, and what it names is to be visited.
  pub taken-Inv :
      (s : State) (f : Link) (level ls : List Link)
      → Inv s (f ∷ level) []
      → look get has links_of f ≡ ok ls
      → Inv s level ls
  taken-Inv s f level ls inv e =
      let says = look_lem f ls e in
      record {
        sound = inv.sound;
        in_visited = inv.in_visited;
        visited_seen = inv.visited_seen;
        unique = inv.unique;
        starts = inv.starts;
        begun = inv.begun;
        closed = λ k h. elim (inv.closed k h) [
          | inl (inl i) ↦ inl (inl i)
          | inl (inr i) ↦ elim (Memᴰ.cases_cons i) [
            | inr j ↦ inl (inr j)
            | inl same ↦
                let (ek, eb) = link_is f k false same in
                elim says [
                  | inl (leaf, _, _) ↦ absurd (ground arith)
                  | inr (leaf, now) ↦
                      inr (ls, subst (λ z. IsRead get links_of z ls) (sym ek) now, λ x j. inr j)
                ]
          ]
          | inr (ks, now, met) ↦
              inr
                (ks, now, λ x j. elim (met x j) [ inl m ↦ inl m | inr n ↦ absurd (Memᴰ.not-nil n) ])
        ];
        tested = λ k h. elim (inv.tested k h) [
          | inl (inl i) ↦ inl (inl i)
          | inl (inr i) ↦ elim (Memᴰ.cases_cons i) [
            | inr j ↦ inl (inr j)
            | inl same ↦
                let (ek, eb) = link_is f k true same in
                elim says [
                  | inl (leaf, _, t) ↦ inr (ap has ek ∙ t)
                  | inr (leaf, now) ↦ absurd (ground arith)
                ]
          ]
          | inr t ↦ inr t
        ];
        next_reached = inv.next_reached;
        level_reached = λ x i. inv.level_reached x (tail i);
        links_reached = λ x i. elim says [
          | inl (leaf, none_left, _) ↦ absurd (Memᴰ.not-nil (subst (Memᴰ x) none_left i))
          | inr (leaf, now) ↦ child (inv.level_reached f (head refl)) leaf now i
        ];
      }

  pub flipped-Inv : (s : State) → Inv s [] [] → Inv (record s { next = [] }) s.next []
  flipped-Inv s inv = record {
    sound = inv.sound;
    in_visited = inv.in_visited;
    visited_seen = inv.visited_seen;
    unique = inv.unique;
    starts = inv.starts;
    begun = inv.begun;
    closed = λ k h. elim (inv.closed k h) [
      | inl (inl i) ↦ inl (inr i)
      | inl (inr i) ↦ absurd (Memᴰ.not-nil i)
      | inr r ↦ inr r
    ];
    tested = λ k h. elim (inv.tested k h) [
      | inl (inl i) ↦ inl (inr i)
      | inl (inr i) ↦ absurd (Memᴰ.not-nil i)
      | inr r ↦ inr r
    ];
    next_reached = λ x i. absurd (Memᴰ.not-nil i);
    level_reached = inv.next_reached;
    links_reached = inv.links_reached;
  }
