-- ===== src/Walk/Visited.antt =====
-- A link is visited (Visits::visit and the loop of check_complete in src/fstree/read.rs).
use core_rs.Prelude.{
  ◌≡◌, ◌⊎◌, refl, sym, ap, ◌∙◌, subst, inl, inr, arith, Bool, true, false, not, some, List, [], ◌∷◌,
  ◌++◌, if◌then◌else◌, Result, Bool-cases, Option-cases,
}
use mathlib.Core.Path.{ap₂}
use core_rs.Prelude.Bytes.{Bytes}
use core_rs.Key.{Key}
use core_rs.Gitobj.Links.{Link}
use core_rs.Gc.{same_key}
use core_rs.Gc.Visit.{same_key→eq, same_key_refl}
use core_rs.Walk.{Visits, insert, is_new, acts, visit, State, absorb_link, absorb}
use core_rs.Walk.Seen.{IsUnique, append-IsUnique, IsMet, the_link, Inv}
use mathlib.Core.List.Memᴰ
use mathlib.Core.List.Memᴰ.{Memᴰ, head, tail}

-- What there is nothing to do for has been met.
still-IsMet : (seen : Visits) (l : Link) → acts l (seen l.key) ≡ false → IsMet seen l
still-IsMet seen l h = elim (Option-cases (seen l.key)) [
  | inl n ↦ absurd (ground arith)
  | inr (b, e) ↦ (b, e, λ leaf. ground arith)
]

pub insert-at :
    (seen : Visits) (k j : Key) (b : Bool) → same_key j k ≡ true → insert k b seen j ≡ some b
insert-at seen k j b y = ground arith

pub insert-other :
    (seen : Visits) (k j : Key) (b : Bool) → same_key j k ≡ false → insert k b seen j ≡ seen j
insert-other seen k j b n = ground arith

-- A link that is acted on takes nothing from what has been met.
acted-IsMet :
    (seen : Visits) (l x : Link)
    → acts l (seen l.key) ≡ true
    → IsMet seen x
    → IsMet (insert l.key (not l.leaf) seen) x
acted-IsMet seen l x h (b, e, up) = elim (Bool-cases (same_key x.key l.key)) [
  | inr n ↦ (b, insert-other seen l.key x.key (not l.leaf) n ∙ e, up)
  | inl y ↦
      let at : seen l.key ≡ some b = ap seen (sym (same_key→eq x.key l.key y)) ∙ e in
      (not l.leaf, insert-at seen l.key x.key (not l.leaf) y, λ leaf. ground (arith, up))
]

own-IsMet : (seen : Visits) (l : Link) → IsMet (insert l.key (not l.leaf) seen) l
own-IsMet seen l = (
  not l.leaf,
  insert-at seen l.key l.key (not l.leaf) (same_key_refl l.key),
  λ leaf. ground arith,
)

link_eq : (l : Link) (k : Key) (b : Bool) → k ≡ l.key → b ≡ l.leaf → the_link k b ≡ l
link_eq l k b ek eb = ap₂ the_link ek eb

-- The state behind a link that is acted on.
unfoldable pub acted : Link → State → State
acted l s = record {
  seen = insert l.key (not l.leaf) s.seen;
  visited = if is_new (s.seen l.key) then s.visited ++ (l.key ∷ []) else s.visited;
  next = s.next ++ (l ∷ []);
}

pub acted-eq :
    (l : Link) (s : State)
    → acts l (s.seen l.key) ≡ true
    → absorb_link l (visit l s.seen) s ≡ acted l s
unfolding absorb_link visit acted
acted-eq l s h = rw h refl

pub still-eq :
    (l : Link) (s : State) → acts l (s.seen l.key) ≡ false → absorb_link l (visit l s.seen) s ≡ s
unfolding absorb_link visit
still-eq l s h = rw h refl

module _ {E L : Type 0} (get : Key → Result E Bytes) (has : Key → Result E Bool)
    (links_of : Key → Bytes → Result L (List Link)) (start : Key) where
  module _ (s : State) (l : Link) (level links : List Link)
      (inv : Inv get has links_of start s level (l ∷ links)) where
    still-Inv : acts l (s.seen l.key) ≡ false → Inv get has links_of start s level links
    still-Inv h = record {
      sound = inv.sound;
      in_visited = inv.in_visited;
      visited_seen = inv.visited_seen;
      unique = inv.unique;
      starts = inv.starts;
      begun = inv.begun;
      closed = λ k t. elim (inv.closed k t) [
        | inl i ↦ inl i
        | inr (ls, now, met) ↦ inr (
          ls,
          now,
          λ x i. elim (met x i) [
            | inl m ↦ inl m
            | inr j ↦ elim (Memᴰ.cases_cons j) [
              | inl e ↦ inl (subst (IsMet s.seen) (sym e) (still-IsMet s.seen l h))
              | inr r ↦ inr r
            ]
          ],
        )
      ];
      tested = inv.tested;
      next_reached = inv.next_reached;
      level_reached = inv.level_reached;
      links_reached = λ x i. inv.links_reached x (tail i);
    }

    module _ (h : acts l (s.seen l.key) ≡ true) where
      abbrev after : Visits
      after = insert l.key (not l.leaf) s.seen

      acted-visited : (k : Key) → Memᴰ k s.visited ⊎ (k ≡ l.key) → Memᴰ k (acted l s).visited
      unfolding acted
      acted-visited k i = elim (Option-cases (s.seen l.key)) [
        | inl n ↦ rw n (elim i [
          | inl j ↦ Memᴰ.append_left (l.key ∷ []) j
          | inr e ↦ Memᴰ.append_right s.visited (head e)
        ])
        | inr (b, e) ↦
            rw e (elim i [ inl j ↦ j | inr same ↦ inv.in_visited k b (ap s.seen same ∙ e) ])
      ]

      visited-acted : (k : Key) → Memᴰ k (acted l s).visited → Memᴰ k s.visited ⊎ (k ≡ l.key)
      unfolding acted
      visited-acted k i = elim (Option-cases (s.seen l.key)) [
        | inl n ↦ elim (Memᴰ.append_cases s.visited (rw n at i)) [
          | inl j ↦ inl j
          | inr j ↦ inr (Memᴰ.eq_of_singleton j)
        ]
        | inr (b, e) ↦ inl (rw e at i)
      ]

      acted-IsUnique : IsUnique (acted l s).visited
      unfolding acted
      acted-IsUnique = elim (Option-cases (s.seen l.key)) [
        | inl n ↦ rw n (
            append-IsUnique s.visited l.key inv.unique
              (λ i. let (b, e) = inv.visited_seen l.key i in absurd (ground arith)))
        | inr (b, e) ↦ rw e inv.unique
      ]

      acted-starts : (rest : List Key) × ((acted l s).visited ≡ start ∷ rest)
      unfolding acted
      acted-starts =
          let (rest, e) = inv.starts in
          elim (Bool-cases (is_new (s.seen l.key))) [
            | inl y ↦ (rest ++ (l.key ∷ []), rw (y, e) refl)
            | inr n ↦ (rest, rw n e)
          ]

      put_on :
          {x : Link} → Memᴰ x s.next ⊎ Memᴰ x level → Memᴰ x (s.next ++ (l ∷ [])) ⊎ Memᴰ x level
      put_on (inl i) = inl (Memᴰ.append_left (l ∷ []) i)
      put_on (inr i) = inr i

      on_end :
          (k : Key) (b : Bool) → k ≡ l.key → b ≡ l.leaf → Memᴰ (the_link k b) (s.next ++ (l ∷ []))
      on_end k b ek eb = Memᴰ.append_right s.next (head (link_eq l k b ek eb))

      IsMet-on : {x : Link} → IsMet s.seen x → IsMet after x
      IsMet-on {x} m = acted-IsMet s.seen l x h m

      -- What a key is seen as behind the link.
      after-cases :
          (k : Key) (b : Bool)
          → after k ≡ some b
          → ((k ≡ l.key) × (b ≡ not l.leaf)) ⊎ (s.seen k ≡ some b)
      after-cases k b e = elim (Bool-cases (same_key k l.key)) [
        | inl y ↦
            inl (same_key→eq k l.key y, ground (arith, insert-at s.seen l.key k (not l.leaf) y))
        | inr n ↦ inr (sym (insert-other s.seen l.key k (not l.leaf) n) ∙ e)
      ]

      acted-Inv : Inv get has links_of start (acted l s) level links
      unfolding acted
      acted-Inv = record {
        sound = λ k b e. elim (after-cases k b e) [
          | inl (ek, _) ↦ (l, inv.links_reached l (head refl), sym ek)
          | inr old ↦ inv.sound k b old
        ];
        in_visited = λ k b e. elim (after-cases k b e) [
          | inl (ek, _) ↦ acted-visited k (inr ek)
          | inr old ↦ acted-visited k (inl (inv.in_visited k b old))
        ];
        visited_seen = λ k i. elim (visited-acted k i) [
          | inr e ↦ (
            not l.leaf,
            insert-at s.seen l.key k (not l.leaf)
                (subst (λ x. same_key k x ≡ true) e (same_key_refl k)),
          )
          | inl j ↦ elim (Bool-cases (same_key k l.key)) [
            | inl y ↦ (not l.leaf, insert-at s.seen l.key k (not l.leaf) y)
            | inr n ↦
                let (b, e) = inv.visited_seen k j in
                (b, insert-other s.seen l.key k (not l.leaf) n ∙ e)
          ]
        ];
        unique = acted-IsUnique;
        starts = acted-starts;
        begun = IsMet-on inv.begun;
        closed = λ k e. elim (after-cases k true e) [
          | inl (ek, leaf) ↦ inl (inl (on_end k false ek (ground arith)))
          | inr old ↦ elim (inv.closed k old) [
            | inl i ↦ inl (put_on i)
            | inr (ls, now, met) ↦ inr (
              ls,
              now,
              λ x i. elim (met x i) [
                | inl m ↦ inl (IsMet-on m)
                | inr j ↦ elim (Memᴰ.cases_cons j) [
                  | inl same ↦ inl (subst (IsMet after) (sym same) (own-IsMet s.seen l))
                  | inr r ↦ inr r
                ]
              ],
            )
          ]
        ];
        tested = λ k e. elim (after-cases k false e) [
          | inl (ek, leaf) ↦ inl (inl (on_end k true ek (ground arith)))
          | inr old ↦ elim (inv.tested k old) [ inl i ↦ inl (put_on i) | inr t ↦ inr t ]
        ];
        next_reached = λ x i. elim (Memᴰ.append_cases s.next i) [
          | inl j ↦ inv.next_reached x j
          | inr j ↦ inv.links_reached x (head (Memᴰ.eq_of_singleton j))
        ];
        level_reached = inv.level_reached;
        links_reached = λ x i. inv.links_reached x (tail i);
      }

    visited-Inv : Inv get has links_of start (absorb_link l (visit l s.seen) s) level links
    visited-Inv = elim (Bool-cases (acts l (s.seen l.key))) [
      | inl y ↦
          subst (λ t. Inv get has links_of start t level links) (sym (acted-eq l s y)) (acted-Inv y)
      | inr n ↦
          subst (λ t. Inv get has links_of start t level links) (sym (still-eq l s n)) (still-Inv n)
    ]

  pub absorbed-Inv :
      (ls level : List Link) (s : State)
      → Inv get has links_of start s level ls
      → Inv get has links_of start (absorb ls s) level []
  unfolding absorb
  absorbed-Inv [] level s inv = inv
  absorbed-Inv (l ∷ ls) level s inv =
      absorbed-Inv ls level (absorb_link l (visit l s.seen) s) (visited-Inv s l level ls inv)
