-- ===== src/Gc/Fuel.antt =====
-- How many rounds the loop of `mark_from` (src/gc/collector.rs) takes.
use core_rs.Prelude.{
  ℕ, zero, suc, ◌+◌, ◌%◌, ◌≡◌, ◌≤◌, ◌<◌, refl, sym, ap, ◌∙◌, subst, inl, inr, arith, Bool, true,
  false, ◌&&◌, ◌||◌, some, List, [], ◌∷◌, ◌++◌, reverse, length, length-append, length-reverse,
  Result, ok, err, Bool-cases, Result-cases, ◌==◌, if◌then◌else◌,
}
use core_rs.Prelude.Bytes.{Bytes}
use core_rs.Key.{Key}
use core_rs.Gitobj.Links.{Link}
use core_rs.Gc.{
  Error, canceled_mark, link_to, same_key, MarkInterface, walk_on, walk, mark_from, mark_on,
  mark_live,
}
use core_rs.Gc.Visit.{
  IsConsistent, followed, same_key_refl, visit-Visit, missing, unreadable, undecodable, skipped,
  pushed,
}
use core_rs.Gc.Closure.{IsRead, IsHonest, mem_of_reverse}
use mathlib.Core.List.Memᴰ
use mathlib.Core.List.Memᴰ.{Memᴰ, head, tail}

-- How many links the object of a key has; 0 where it cannot be read.
abbrev pub count_of : {L : Type 0} → Result L (List Link) → ℕ
count_of (err e) = 0
count_of (ok ls) = length ls

abbrev pub links_in : {E L : Type 0} → (Bytes → Result L (List Link)) → Result E Bytes → ℕ
links_in f (err e) = 0
links_in f (ok d) = count_of (f d)

module _ {M E L : Type 0} (set : MarkInterface M) (get_verified : Key → Result E Bytes)
    (links : Key → Bytes → Result L (List Link)) where
  unfoldable pub link_count : Key → ℕ
  link_count k = links_in (links k) (get_verified k)

  read_count :
      (k : Key) (ls : List Link) → IsRead get_verified links k ls → link_count k ≡ length ls
  unfolding link_count
  read_count k ls (d, g, h) = rw (g, h) refl

  -- The links of all the objects of these keys.
  unfoldable pub total_links : List Key → ℕ
  total_links [] = 0
  total_links (k ∷ ks) = link_count k + total_links ks

  -- Those that are still to be pushed.
  unfoldable left_links : M → List Key → ℕ
  left_links m [] = 0
  left_links m (k ∷ ks) = (if followed set m k then 0 else link_count k) + left_links m ks

  left-total : (m : M) (ks : List Key) → left_links m ks ≤ total_links ks
  unfolding left_links total_links
  left-total m [] = omega arith
  left-total m (k ∷ ks) = ground (arith, left-total m ks)

  left-same :
      (m m' : M)
      → ((j : Key) → followed set m' j ≡ followed set m j)
      → (ks : List Key) → left_links m' ks ≡ left_links m ks
  unfolding left_links
  left-same m m' same [] = refl
  left-same m m' same (k ∷ ks) = ground (arith, same k, left-same m m' same ks)

  module _ (m m' : M) (l : Link)
      (follows : (j : Key) → followed set m' j ≡ (followed set m j || same_key j l.key)) where
    left-fewer : (ks : List Key) → left_links m' ks ≤ left_links m ks
    unfolding left_links
    left-fewer [] = omega arith
    left-fewer (k ∷ ks) = elim (Bool-cases (followed set m k)) [
      | inl y ↦ ground (arith, follows k, left-fewer ks)
      | inr n ↦ ground (arith, left-fewer ks)
    ]

    left-drop :
        followed set m l.key ≡ false
        → (ks : List Key) → Memᴰ l.key ks
        → left_links m' ks + link_count l.key ≤ left_links m ks
    unfolding left_links
    left-drop new [] h = absurd (Memᴰ.not-nil h)
    left-drop new (k ∷ ks) (head e) =
        let new' : followed set m k ≡ false = subst (λ j. followed set m j ≡ false) e new in
        let as_many : link_count l.key ≡ link_count k = ap link_count e in
        let self : same_key k l.key ≡ true =
          subst (λ j. same_key j l.key ≡ true) e (same_key_refl l.key) in
        ground (arith, follows k, left-fewer ks)
    left-drop new (k ∷ ks) (tail h) = elim (Bool-cases (followed set m k)) [
      | inl y ↦ ground (arith, follows k, left-drop new ks h)
      | inr n ↦ ground (arith, left-drop new ks h)
    ]

  module _ (canceled : ℕ → Bool) (honest : IsHonest get_verified links) (stored : List Key)
      (held : (k : Key) → set.present k ≡ true → Memᴰ k stored) where
    pushed_length : (ls stack : List Link) → length (reverse ls ++ stack) ≡ length ls + length stack
    pushed_length ls stack = omega (arith, length-append (reverse ls) stack, length-reverse ls)

    walk_returns :
        (fuel n : ℕ) (m : M) (stack : List Link)
        → ((x : Link) → Memᴰ x stack → IsConsistent x)
        → length stack + left_links m stored < fuel
        → (r : Result (Error E L) M) × (walk set get_verified links canceled fuel n m stack
            ≡ some r)
    unfolding walk walk_on
    walk_returns zero n m stack says enough = absurd (omega (arith, enough))
    walk_returns (suc fuel) n m [] says enough = (ok m, refl)
    walk_returns (suc fuel) n m (l ∷ stack) says enough =
        let on =
          walk_on set get_verified links canceled
            (walk set get_verified links canceled fuel (n + 1)) stack in
        elim (Bool-cases (n % 1024 == 0 && canceled n)) [
          | inl y ↦ (err canceled_mark, rw y refl)
          | inr go_on ↦
              rw go_on (elim (visit-Visit set get_verified links m l (says l (head refl))) [
                | missing gone e ↦ (err _, ap on e)
                | unreadable x g e ↦ (err _, ap on e)
                | undecodable d x g h e ↦ (err _, ap on e)
                | skipped m' e there marks follows handled ↦
                    let (r, eq) =
                      walk_returns fuel (n + 1) m' stack (λ x i. says x (tail i))
                        (omega (arith, enough, left-same m m' follows stored)) in
                    (r, ap on e ∙ eq)
                | pushed m' d ls e there leaf g h marks follows new ↦
                    let sayings : (x : Link) → Memᴰ x (reverse ls ++ stack) → IsConsistent x =
                      λ x i. elim (Memᴰ.append_cases (reverse ls) i) [
                        | inl j ↦ honest l.key ls (d, g, h) x (mem_of_reverse ls j)
                        | inr j ↦ says x (tail j)
                      ] in
                    let (r, eq) = walk_returns fuel (n + 1) m' (reverse ls ++ stack) sayings (
                      omega (
                        arith,
                        enough,
                        pushed_length ls stack,
                        read_count l.key ls (d, g, h),
                        left-drop m m' l follows new stored (held l.key there),
                      )) in
                    (r, ap on e ∙ eq)
              ])
        ]

    -- Over links that say of a key that is no git object's what the key says, a mark ends: two more
    -- rounds than the objects of the snapshot have links are enough for each root.
    pub mark_live_returns :
        (fuel : ℕ) (m : M) (roots : List Key)
        → total_links stored + 2 ≤ fuel
        → (r : Result (Error E L) M) × (mark_live set get_verified links canceled fuel m roots
            ≡ some r)
    unfolding mark_live mark_on mark_from
    mark_live_returns fuel m [] enough = (ok m, refl)
    mark_live_returns fuel m (k ∷ roots) enough =
        let go = λ (m' : M). mark_live set get_verified links canceled fuel m' roots in
        let on = mark_on set get_verified links canceled go in
        let first : (x : Link) → Memᴰ x (link_to k ∷ []) → IsConsistent x =
          λ x i. subst IsConsistent (sym (Memᴰ.eq_of_singleton i)) (λ own. refl) in
        let (r, e) =
          walk_returns fuel 0 m (link_to k ∷ []) first
            (omega (arith, enough, left-total m stored)) in
        elim (Result-cases r) [
          | inr (x, f) ↦ (err x, ap on (e ∙ ap some f))
          | inl (m', f) ↦
              let (q, last) = mark_live_returns fuel m' roots enough in
              (q, ap on (e ∙ ap some f) ∙ last)
        ]
