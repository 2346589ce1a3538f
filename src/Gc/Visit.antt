-- ===== src/Gc/Visit.antt =====
-- A round of the loop of `mark_from` (src/gc/collector.rs), on every branch.
use core_rs.Prelude.{
  ◌≡◌, refl, sym, ap, ◌∙◌, subst, inl, inr, arith, Bool, true, false, not, ◌&&◌, ◌||◌, List, [],
  if◌then◌else◌, Result, ok, err, Bool-cases, Result-cases,
}
use core_rs.Prelude.Bytes.{Bytes}
use core_rs.Prelude.Lex.{bytes_eq_iff, bytes_eq_refl}
use core_rs.Key.{Key, is_git}
use core_rs.Gitobj.Links.{Link}
use core_rs.Gc.{
  Error, missing_from_store, objects, children, is_leaf_key, same_key, MarkInterface, follow,
  marked_link, visit,
}

-- What a link of the store says: the key of another type than a git object's says it by itself.
abbrev pub IsConsistent : Link → Type 0
IsConsistent l = is_git l.key ≡ false → l.leaf ≡ is_leaf_key l.key

pub same_key→eq : (j k : Key) → same_key j k ≡ true → j ≡ k
same_key→eq j k h =
    let e = (bytes_eq_iff j.bytes k.bytes).0 h in
    ap (λ b. (let x : Key = record { bytes = b } in x)) e

pub same_key_refl : (k : Key) → same_key k k ≡ true
same_key_refl k = bytes_eq_refl k.bytes

module _ {M : Type 0} (set : MarkInterface M) where
  -- The object of a key has been read and its links pushed.
  unfoldable pub followed : M → Key → Bool
  followed m k = if is_git k then set.walked m k else set.marked m k && not (is_leaf_key k)

  -- A link has had its effect.
  abbrev pub IsHandled : M → Link → Type 0
  IsHandled m l = (set.marked m l.key ≡ true) × (l.leaf ≡ false → followed m l.key ≡ true)

  -- A mark set that has recorded nothing.
  abbrev pub IsFresh : M → Type 0
  IsFresh m = ((k : Key) → set.marked m k ≡ false) × ((k : Key) → set.walked m k ≡ false)

  module _ {E L : Type 0} (get_verified : Key → Result E Bytes)
      (links : Key → Bytes → Result L (List Link)) where
    pub data Visit (m : M) (l : Link) (r : Result (Error E L) (List Link × M)) : Type 0 where
      missing : set.present l.key ≡ false → r ≡ err (missing_from_store l.key) → Visit m l r
      unreadable : (e : E) → get_verified l.key ≡ err e → r ≡ err (objects e) → Visit m l r
      undecodable :
          (d : Bytes) (e : L)
          → get_verified l.key ≡ ok d
          → links l.key d ≡ err e
          → r ≡ err (children e)
          → Visit m l r
      skipped :
          (m' : M)
          → r ≡ ok ([], m')
          → set.present l.key ≡ true
          → ((j : Key) → set.marked m' j ≡ (set.marked m j || same_key j l.key))
          → ((j : Key) → followed m' j ≡ followed m j)
          → IsHandled m' l
          → Visit m l r
      pushed :
          (m' : M) (d : Bytes) (ls : List Link)
          → r ≡ ok (ls, m')
          → set.present l.key ≡ true
          → l.leaf ≡ false
          → get_verified l.key ≡ ok d
          → links l.key d ≡ ok ls
          → ((j : Key) → set.marked m' j ≡ (set.marked m j || same_key j l.key))
          → ((j : Key) → followed m' j ≡ (followed m j || same_key j l.key))
          → followed m l.key ≡ false
          → Visit m l r

    -- Behind the marks: the links are pushed unless the key was followed already.
    follow-Visit :
        (m m' : M) (l : Link) (newly : Bool)
        → set.present l.key ≡ true
        → l.leaf ≡ false
        → newly ≡ not (followed m l.key)
        → ((j : Key) → set.marked m' j ≡ (set.marked m j || same_key j l.key))
        → ((j : Key) → followed m' j ≡ (followed m j || same_key j l.key))
        → Visit m l (follow set get_verified links l.key (newly, m'))
    unfolding follow
    follow-Visit m m' l newly there no_leaf is marks follows =
        elim (Bool-cases (followed m l.key)) [
          | inl y ↦
              let old : newly ≡ false = ground arith in
              rw old (
                skipped m' refl there marks
                  (λ j. elim (Bool-cases (same_key j l.key)) [
                    | inl e ↦ ground (arith, follows j, ap (followed m) (same_key→eq j l.key e))
                    | inr e ↦ ground (arith, follows j)
                  ])
                  (
                    ground (arith, marks l.key, same_key_refl l.key),
                    λ h. ground (arith, follows l.key),
                  ))
          | inr n ↦
              let new : newly ≡ true = ground arith in
              elim (Result-cases (get_verified l.key)) [
                | inr (e, g) ↦ unreadable e g (rw (new, g) refl)
                | inl (d, g) ↦ elim (Result-cases (links l.key d)) [
                  | inr (e, h) ↦ undecodable d e g h (rw (new, g, h) refl)
                  | inl (ls, h) ↦
                      pushed m' d ls (rw (new, g, h) refl) there no_leaf g h marks follows n
                ]
              ]
        ]

    -- The three kinds of links that are there.
    module _ (m : M) (l : Link) (there : set.present l.key ≡ true) (says : IsConsistent l) where
      abbrev m1 : M
      m1 = (set.mark l.key m).1

      marks1 : (j : Key) → set.marked m1 j ≡ (set.marked m j || same_key j l.key)
      marks1 j = ground (arith, set.mark-marked l.key m j)

      git_of : (j : Key) → same_key j l.key ≡ true → is_git j ≡ is_git l.key
      git_of j e = ap (λ k. is_git k) (same_key→eq j l.key e)

      leaf_of : (j : Key) → same_key j l.key ≡ true → is_leaf_key j ≡ is_leaf_key l.key
      leaf_of j e = ap (λ k. is_leaf_key k) (same_key→eq j l.key e)

      leaf_follows : l.leaf ≡ true → (j : Key) → followed m1 j ≡ followed m j
      unfolding followed
      leaf_follows leaf j = elim (Bool-cases (same_key j l.key)) [
        | inl e ↦ ground (arith, git_of j e, leaf_of j e, says, marks1 j, set.mark-walked l.key m j)
        | inr n ↦ ground (arith, marks1 j, set.mark-walked l.key m j)
      ]

      git_follows :
          is_git l.key ≡ true
          → (j : Key) → followed (set.mark_walked l.key m1).1 j ≡ (followed m j || same_key j l.key)
      unfolding followed
      git_follows git j = elim (Bool-cases (same_key j l.key)) [
        | inl e ↦ ground (
          arith,
          git_of j e,
          leaf_of j e,
          says,
          marks1 j,
          set.mark-walked l.key m j,
          set.mark_walked-marked l.key m1 j,
          set.mark_walked-walked l.key m1 j,
        )
        | inr n ↦ ground (
          arith,
          marks1 j,
          set.mark-walked l.key m j,
          set.mark_walked-marked l.key m1 j,
          set.mark_walked-walked l.key m1 j,
        )
      ]

      own_follows :
          is_git l.key ≡ false
          → l.leaf ≡ false
          → (j : Key) → followed m1 j ≡ (followed m j || same_key j l.key)
      unfolding followed
      own_follows own leaf j = elim (Bool-cases (same_key j l.key)) [
        | inl e ↦ ground (arith, git_of j e, leaf_of j e, says, marks1 j, set.mark-walked l.key m j)
        | inr n ↦ ground (arith, marks1 j, set.mark-walked l.key m j)
      ]

    pub visit-Visit :
        (m : M) (l : Link) → IsConsistent l → Visit m l (visit set get_verified links m l)
    unfolding visit marked_link
    visit-Visit m l says =
        let m1 = (set.mark l.key m).1 in
        let newly = set.present l.key && not (set.marked m l.key) in
        let step : visit set get_verified links m l
            ≡ marked_link set get_verified links l ((newly, set.present l.key), m1) =
          ap (λ q. marked_link set get_verified links l (q, m1)) (set.mark-answer l.key m) in
        elim (Bool-cases (set.present l.key)) [
          | inr gone ↦ missing gone (step ∙ rw gone refl)
          | inl there ↦ elim (Bool-cases l.leaf) [
            | inl leaf ↦
                skipped m1 (step ∙ rw (there, leaf) refl) there (marks1 m l there says)
                  (leaf_follows m l there says leaf)
                  (
                    ground (arith, marks1 m l there says l.key, same_key_refl l.key),
                    λ h. ground arith,
                  )
            | inr no_leaf ↦ elim (Bool-cases (is_git l.key)) [
              | inl git ↦
                  let w = set.mark_walked l.key m1 in
                  let first : w.0 ≡ not (followed m l.key) =
                    unfold followed in
                    ground
                      (arith, set.mark_walked-answer l.key m1, set.mark-walked l.key m l.key) in
                  let on : marked_link set get_verified links l ((newly, set.present l.key), m1)
                      ≡ follow set get_verified links l.key w =
                    rw (there, no_leaf, git) refl in
                  subst (λ r. Visit m l r) (sym (step ∙ on))
                    (follow-Visit m w.1 l w.0 there no_leaf first
                      (λ j. set.mark_walked-marked l.key m1 j ∙ marks1 m l there says j)
                      (git_follows m l there says git))
              | inr own ↦
                  let new : newly ≡ not (followed m l.key) =
                    unfold followed in ground (arith, says own) in
                  let on : marked_link set get_verified links l ((newly, set.present l.key), m1)
                      ≡ follow set get_verified links l.key (newly, m1) =
                    rw (there, no_leaf, own) refl in
                  subst (λ r. Visit m l r) (sym (step ∙ on))
                    (follow-Visit m m1 l newly there no_leaf new (marks1 m l there says)
                      (own_follows m l there says own no_leaf))
            ]
          ]
        ]
