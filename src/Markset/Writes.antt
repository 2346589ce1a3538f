-- ===== src/Markset/Writes.antt =====
-- What mark and mark_walked of src/packstore/markset.rs write, and where.
use core_rs.Prelude.{
  ℕ, ◌/◌, ◌≤◌, ◌<◌, ◌≡◌, ◌⊎◌, refl, sym, ap, ◌∙◌, subst, inl, inr, arith, Bool, true, not, ◌&&◌,
  ◌||◌, Option, none, some, List, [], ◌∷◌, length, get_or, length-replicate, ◌==◌, Bool-cases,
}
use mathlib.Core.Path.{ap₂}
use core_rs.Prelude.BitMap.{
  set_at, modify, length-modify, get_or-modify, get_or-modify_other, test_at-set_at,
}
use core_rs.Key.{Key}
use core_rs.Gc.{same_key}
use core_rs.Gc.Visit.{same_key→eq}
use core_rs.Markset.{
  Segment, MarkSet, Loc, in_active, in_sealed, is_some, locate, locate_in, word_count, put_flag,
  mark_at, mark_walked_at, contains, contains_at, value_or, sized,
}
use core_rs.Markset.Slots.{IsSegment, no_segment, sealed-place, lookup_pos_bounds}
use core_rs.Markset.Places.{
  grid_test-modify, test_at-sized, slot_test, IsWrite, place, place-sealed,
}

sized-length :
    (n words : ℕ) (row : List ℕ)
    → n ≤ words
    → (row ≡ []) ⊎ (n ≤ length row)
    → n ≤ length (sized words row)
sized-length n words [] le h = omega (arith, le, length-replicate words (let z : ℕ = 0 in z))
sized-length n words (w ∷ ws) le (inl e) = absurd (omega (arith, ap length e))
sized-length n words (w ∷ ws) le (inr h) = h

module _ (segs : List Segment) (act : Key → Bool) where
  -- A set over this snapshot, with a bitmap for each segment that has a bit for each row.
  pub record IsOver (s : MarkSet) : Type 0 where
    pub segs_are : s.segs ≡ segs
    pub keys_are : (k : Key) → is_some (s.active k) ≡ act k
    pub bit_rows : length s.bits ≡ length segs
    pub walked_rows : length s.walked ≡ length segs
    pub bit_words :
        (i : ℕ) → word_count (get_or segs i no_segment).key_count ≤ length (get_or s.bits i [])
    pub walked_words :
        (i : ℕ)
        → (get_or s.walked i [] ≡ [])
          ⊎ (word_count (get_or segs i no_segment).key_count ≤ length (get_or s.walked i []))

  abbrev pub flag : MarkSet → Key → Bool
  flag s k = value_or (s.active k)

  -- The links of the key have been followed.
  unfoldable pub was_walked : MarkSet → Key → Bool
  was_walked s k = slot_test s.active_walked s.walked k (place segs act k)

  module _ (s : MarkSet) (over : IsOver s) where
    pub locate-place : (k : Key) → locate s k ≡ place segs act k
    locate-place k = ap₂ (λ x y. locate_in x y k) over.segs_are (over.keys_are k)

    pub contains-slot : (k : Key) → contains s k ≡ slot_test (flag s) s.bits k (place segs act k)
    unfolding contains
    contains-slot k = ap (contains_at k s) (locate-place k) ∙ same (place segs act k)
      where
        same : (l : Option Loc) → contains_at k s l ≡ slot_test (flag s) s.bits k l
        same none = refl
        same (some in_active) = refl
        same (some (in_sealed a p)) = refl

    -- A place in a segment has a bit.
    bit_there :
        (fits : (i : ℕ) → IsSegment (get_or segs i no_segment))
        → (k : Key) (a p : ℕ) → place segs act k ≡ some (in_sealed a p)
        → (a < length segs)
          × (p / 64 < length (get_or s.bits a []))
          × (p / 64 < word_count (get_or segs a no_segment).key_count)
    bit_there fits k a p e =
        let (seg, pos, is, below, look) =
          sealed-place segs k (in_sealed a p) (place-sealed segs act k a p e) in
        let ea : seg ≡ a = ground arith in
        let ep : pos ≡ p = ground arith in
        let small = lookup_pos_bounds (get_or segs seg no_segment) (fits seg) k pos look in
        let words = over.bit_words seg in
        let enough : pos / 64 < length (get_or s.bits seg []) = omega (arith, small, words) in
        let inside : pos / 64 < word_count (get_or segs seg no_segment).key_count =
          omega (arith, small) in
        (
          omega (arith, below, ea),
          subst (λ x. x / 64 < length (get_or s.bits a [])) ep
              (subst (λ x. pos / 64 < length (get_or s.bits x [])) ea enough),
          subst (λ x. x / 64 < word_count (get_or segs a no_segment).key_count) ep
              (subst (λ x. pos / 64 < word_count (get_or segs x no_segment).key_count) ea inside),
        )

  -- What a key was found under says whether the map has it.
  place-active : (k : Key) → place segs act k ≡ some in_active → act k ≡ true
  unfolding locate_in
  place-active k e = elim (Bool-cases (act k)) [
    | inl y ↦ y
    | inr n ↦
        let at = sym (ap (λ t. locate_in segs t k) n) ∙ e in
        let (seg, pos, is, _, _) = sealed-place segs k in_active at in absurd (ground arith)
  ]

  unfoldable pub present_at : Key → Bool
  present_at k = is_some (place segs act k)

  module _ (fits : (i : ℕ) → IsSegment (get_or segs i no_segment)) (s : MarkSet) (over : IsOver s)
      (k : Key) where
    put_flag-some :
        place segs act k ≡ some in_active
        → (j : Key) → is_some (put_flag k (some true) s.active j) ≡ act j
    put_flag-some e j = elim (Bool-cases (same_key j k)) [
      | inl y ↦ ground (arith, place-active k e, ap act (same_key→eq j k y))
      | inr n ↦ ground (arith, over.keys_are j)
    ]

    bit_words-modify :
        (a : ℕ) (f : List ℕ → List ℕ)
        → ((row : List ℕ) → length (f row) ≡ length row)
        → a < length s.bits
        → (i : ℕ) → length (get_or (modify s.bits a f) i []) ≡ length (get_or s.bits i [])
    bit_words-modify a f keeps h i = elim (Bool-cases (a == i)) [
      | inr n ↦ ap length (get_or-modify_other s.bits a i f [] n)
      | inl y ↦
          let e : a ≡ i = ground arith in
          subst (λ x. length (get_or (modify s.bits a f) x []) ≡ length (get_or s.bits x [])) e
            (ap length (get_or-modify s.bits a f [] h) ∙ keeps (get_or s.bits a []))
    ]

    rows_of :
        (a p : ℕ)
        → place segs act k ≡ some (in_sealed a p)
        → p / 64 < word_count (get_or segs a no_segment).key_count
    rows_of a p e = (bit_there s over fits k a p e).2

    walked_words-modify :
        (a p words : ℕ)
        → a < length s.walked
        → word_count (get_or segs a no_segment).key_count
          ≤ length (sized words (get_or s.walked a []))
        → (i : ℕ)
        → (get_or (modify s.walked a (λ r. set_at (sized words r) p)) i [] ≡ [])
          ⊎ (word_count (get_or segs i no_segment).key_count
              ≤ length (get_or (modify s.walked a (λ r. set_at (sized words r) p)) i []))
    walked_words-modify a p words there long i =
        let f : List ℕ → List ℕ = λ r. set_at (sized words r) p in
        elim (Bool-cases (a == i)) [
          | inr n ↦
              subst (λ r. (r ≡ []) ⊎ (word_count (get_or segs i no_segment).key_count ≤ length r))
                (sym (get_or-modify_other s.walked a i f [] n)) (over.walked_words i)
          | inl y ↦
              let e : a ≡ i = ground arith in
              let row = sized words (get_or s.walked a []) in
              let len =
                ap length (get_or-modify s.walked a f [] there) ∙ length-modify row (p / 64) _ in
              inr (
                subst
                  (λ x.
                    word_count (get_or segs x no_segment).key_count
                    ≤ length (get_or (modify s.walked a f) x []))
                  e (omega (arith, long, len)))
        ]

    -- What mark and mark_walked write, at each place.
    pub mark_at-IsWrite :
        (l : Option Loc)
        → place segs act k ≡ l
        → IsOver (mark_at k s l).1
          × IsWrite k l (flag s) s.bits (flag (mark_at k s l).1) (mark_at k s l).1.bits
          × ((mark_at k s l).1.walked ≡ s.walked)
          × ((mark_at k s l).1.active_walked ≡ s.active_walked)
          × ((mark_at k s l).0 ≡ (is_some l && not (slot_test (flag s) s.bits k l), is_some l))
    mark_at-IsWrite none e = (over, (refl, refl), refl, refl, refl)
    mark_at-IsWrite (some in_active) e = (
      record {
        segs_are = over.segs_are;
        keys_are = put_flag-some e;
        bit_rows = over.bit_rows;
        walked_rows = over.walked_rows;
        bit_words = over.bit_words;
        walked_words = over.walked_words;
      },
      (λ j. ground arith, refl),
      refl,
      refl,
      refl,
    )
    mark_at-IsWrite (some (in_sealed a p)) e =
        let (row, word, _) = bit_there s over fits k a p e in
        let there : a < length s.bits = omega (arith, row, over.bit_rows) in
        (
          record {
            segs_are = over.segs_are;
            keys_are = over.keys_are;
            bit_rows = length-modify s.bits a (λ r. set_at r p) ∙ over.bit_rows;
            walked_words = over.walked_words;
            walked_rows = over.walked_rows;
            bit_words = λ i. omega (
              arith,
              over.bit_words i,
              bit_words-modify a (λ r. set_at r p) (λ r. length-modify r (p / 64) _) there i,
            );
          },
          (
            refl,
            λ b q.
                grid_test-modify s.bits a p b q (λ r. set_at r p) there
                  (λ i. test_at-set_at (get_or s.bits a []) p i word),
          ),
          refl,
          refl,
          refl,
        )

    pub mark_walked_at-IsWrite :
        (l : Option Loc)
        → place segs act k ≡ l
        → IsOver (mark_walked_at k s l).1
          × IsWrite k l s.active_walked s.walked
              (mark_walked_at k s l).1.active_walked
              (mark_walked_at k s l).1.walked
          × ((mark_walked_at k s l).1.bits ≡ s.bits)
          × ((mark_walked_at k s l).1.active ≡ s.active)
          × ((mark_walked_at k s l).0 ≡ (is_some l && not (slot_test s.active_walked s.walked k l)))
    mark_walked_at-IsWrite none e = (over, (refl, refl), refl, refl, refl)
    mark_walked_at-IsWrite (some in_active) e = (
      record {
        segs_are = over.segs_are;
        keys_are = over.keys_are;
        bit_rows = over.bit_rows;
        walked_rows = over.walked_rows;
        bit_words = over.bit_words;
        walked_words = over.walked_words;
      },
      (λ j. ground arith, refl),
      refl,
      refl,
      refl,
    )
    mark_walked_at-IsWrite (some (in_sealed a p)) e =
        let (row, word, _) = bit_there s over fits k a p e in
        let there : a < length s.walked = omega (arith, row, over.walked_rows) in
        let words = length (get_or s.bits a []) in
        let old = get_or s.walked a [] in
        let n = word_count (get_or segs a no_segment).key_count in
        let long : n ≤ length (sized words old) =
          sized-length n words old (over.bit_words a) (over.walked_words a) in
        let inside : p / 64 < length (sized words old) = omega (arith, long, rows_of a p e) in
        (
          record {
            segs_are = over.segs_are;
            keys_are = over.keys_are;
            bit_rows = over.bit_rows;
            walked_rows =
                length-modify s.walked a (λ r. set_at (sized words r) p) ∙ over.walked_rows;
            bit_words = over.bit_words;
            walked_words = walked_words-modify a p words there long;
          },
          (
            refl,
            λ b q.
                grid_test-modify s.walked a p b q (λ r. set_at (sized words r) p) there
                  (λ i.
                    test_at-set_at (sized words old) p i inside
                    ∙ ap (λ t. t || (p == i)) (test_at-sized words old i)),
          ),
          refl,
          refl,
          ap not (test_at-sized words old p),
        )
