-- ===== src/Gc/Closure.antt =====
-- What the mark of src/gc/collector.rs has to reach, and the invariant of its loop.
use core_rs.Prelude.{
  ◌≡◌, ◌⊎◌, refl, sym, ◌∙◌, subst, inl, inr, arith, true, false, ◌||◌, List, [], ◌∷◌, ◌++◌, reverse,
  reverse-append, reverse-reverse, Result, ok, ok_inj, Bool-cases,
}
use core_rs.Prelude.Bytes.{Bytes}
use core_rs.Key.{Key}
use core_rs.Gitobj.Links.{Link}
use core_rs.Gc.{link_to, same_key, MarkInterface}
use core_rs.Gc.Visit.{IsConsistent, same_key→eq, followed, IsHandled}
use mathlib.Core.List.Memᴰ
use mathlib.Core.List.Memᴰ.{Memᴰ, head, tail}

pub mem-reverse : {A : Type 0} {x : A} (xs : List A) → Memᴰ x xs → Memᴰ x (reverse xs)
mem-reverse [] h = absurd (Memᴰ.not-nil h)
mem-reverse (y ∷ ys) (head e) =
    subst (Memᴰ _) (sym (reverse-append (y ∷ []) ys)) (Memᴰ.append_right (reverse ys) (head e))
mem-reverse (y ∷ ys) (tail h) =
    subst (Memᴰ _) (sym (reverse-append (y ∷ []) ys)) (Memᴰ.append_left (y ∷ []) (mem-reverse ys h))

pub mem_of_reverse : {A : Type 0} {x : A} (xs : List A) → Memᴰ x (reverse xs) → Memᴰ x xs
mem_of_reverse xs h = subst (Memᴰ _) (reverse-reverse xs) (mem-reverse (reverse xs) h)

module _ {E L : Type 0} (get_verified : Key → Result E Bytes)
    (links : Key → Bytes → Result L (List Link)) where
  -- The object of a key can be read, and names these links.
  abbrev pub IsRead : Key → List Link → Type 0
  IsRead k ls = (d : Bytes) × (get_verified k ≡ ok d) × (links k d ≡ ok ls)

  pub IsRead-one : (k : Key) (ls ks : List Link) → IsRead k ls → IsRead k ks → ls ≡ ks
  IsRead-one k ls ks (d, g, h) (e, p, q) =
      let same : d ≡ e = ok_inj (sym g ∙ p) in
      ok_inj (sym h ∙ subst (λ x. links k x ≡ ok ks) (sym same) q)

  -- A link that the roots lead to, through objects that can be read.
  pub data Reach (roots : List Key) : Link → Type 0 where
    root : {k : Key} → Memᴰ k roots → Reach roots (link_to k)
    child :
        {l x : Link} {ls : List Link}
        → Reach roots l
        → l.leaf ≡ false
        → IsRead l.key ls
        → Memᴰ x ls
        → Reach roots x

  -- The parameters decode the links of each object that can be read as its bytes say.
  abbrev pub IsHonest : Type 0
  IsHonest = (k : Key) (ls : List Link) → IsRead k ls → (x : Link) → Memᴰ x ls → IsConsistent x

  pub Reach-IsConsistent : IsHonest → {roots : List Key} {l : Link} → Reach roots l → IsConsistent l
  Reach-IsConsistent honest (root h) = λ own. refl
  Reach-IsConsistent honest (child r leaf read h) = honest _ _ read _ h

  module _ {M : Type 0} (set : MarkInterface M) where
    -- The invariant of the marking of `roots` of which `begun` are done or under way.
    pub record Inv (roots begun : List Key) (m : M) (stack : List Link) : Type 0 where
      pub sound : (j : Key) → set.marked m j ≡ true → (l : Link) × Reach roots l × (j ≡ l.key)
      pub there : (j : Key) → set.marked m j ≡ true → set.present j ≡ true
      pub read : (j : Key) → followed set m j ≡ true → (ls : List Link) × IsRead j ls
      pub closed :
          (j : Key) (ls : List Link) (x : Link)
          → followed set m j ≡ true
          → IsRead j ls
          → Memᴰ x ls
          → IsHandled set m x ⊎ Memᴰ x stack
      pub started : (k : Key) → Memᴰ k begun → IsHandled set m (link_to k) ⊎ Memᴰ (link_to k) stack
      pub waiting : (x : Link) → Memᴰ x stack → Reach roots x

    module _ (roots begun : List Key) (m m' : M) (l : Link) (ls stack : List Link)
        (inv : Inv roots begun m (l ∷ stack)) (present : set.present l.key ≡ true)
        (marks : (j : Key) → set.marked m' j ≡ (set.marked m j || same_key j l.key))
        (up : (j : Key) → followed set m j ≡ true → followed set m' j ≡ true)
        (back : (j : Key)
          → followed set m' j ≡ true
          → (followed set m j ≡ true) ⊎ ((j ≡ l.key) × IsRead l.key ls))
        (handled : IsHandled set m' l) (below : (x : Link) → Memᴰ x ls → Reach roots x) where
      still : {x : Link} → IsHandled set m x → IsHandled set m' x
      still {x} (mk, fl) = (ground (arith, marks x.key), λ h. up x.key (fl h))

      settled :
          {x : Link}
          → IsHandled set m x ⊎ Memᴰ x (l ∷ stack)
          → IsHandled set m' x ⊎ Memᴰ x (reverse ls ++ stack)
      settled (inl h) = inl (still h)
      settled (inr (head e)) = inl (subst (IsHandled set m') (sym e) handled)
      settled (inr (tail h)) = inr (Memᴰ.append_right (reverse ls) h)

      from_mark : (j : Key) → set.marked m' j ≡ true → (set.marked m j ≡ true) ⊎ (j ≡ l.key)
      from_mark j h = elim (Bool-cases (set.marked m j)) [
        | inl y ↦ inl y
        | inr n ↦ inr (same_key→eq j l.key (ground (arith, marks j)))
      ]

      pub moved-Inv : Inv roots begun m' (reverse ls ++ stack)
      moved-Inv = record {
        sound = λ j h. elim (from_mark j h) [
          | inl y ↦ inv.sound j y
          | inr e ↦ (l, inv.waiting l (head refl), e)
        ];
        there = λ j h. elim (from_mark j h) [
          | inl y ↦ inv.there j y
          | inr e ↦ subst (λ k. set.present k ≡ true) (sym e) present
        ];
        read = λ j h. elim (back j h) [
          | inl y ↦ inv.read j y
          | inr (e, r) ↦ subst (λ k. (ks : List Link) × IsRead k ks) (sym e) (ls, r)
        ];
        closed = λ j ks x h r i. elim (back j h) [
          | inl y ↦ settled (inv.closed j ks x y r i)
          | inr (e, now) ↦
              let r' = subst (λ k. IsRead k ks) e r in
              let i' = subst (Memᴰ x) (IsRead-one l.key ks ls r' now) i in
              inr (Memᴰ.append_left stack (mem-reverse ls i'))
        ];
        started = λ k h. settled (inv.started k h);
        waiting = λ x h. elim (Memᴰ.append_cases (reverse ls) h) [
          | inl i ↦ below x (mem_of_reverse ls i)
          | inr i ↦ inv.waiting x (tail i)
        ];
      }
