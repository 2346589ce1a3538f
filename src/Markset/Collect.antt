-- ===== src/Markset/Collect.antt =====
-- The mark of src/gc/collector.rs over the mark set that src/packstore/markset.rs makes of a store.
use core_rs.Prelude.{
  ℕ, zero, suc, ◌/◌, ◌%◌, ◌^◌, inl, ◌≡◌, ◌↔◌, refl, ap, ◌∙◌, arith, Bool, true, false, Option, none,
  some, List, [], ◌∷◌, ◌++◌, map, concat, replicate, length, get_or, Result, ok, length-replicate,
}
use Prim.Native.Nat.{bit_and-bitwise}
use core_rs.Prelude.Bytes.{Bytes}
use core_rs.Prelude.BitMap.{test_at, test_bit}
use core_rs.Key.{Key}
use core_rs.Gitobj.Links.{Link}
use core_rs.Gc.{MarkInterface, mark_live}
use core_rs.Gc.Closure.{IsRead, Reach, IsHonest}
use core_rs.Gc.Visit.{IsFresh}
use core_rs.Gc.Exact.{mark_live_exact}
use core_rs.Markset.{
  Segment, MarkSet, Loc, in_active, in_sealed, listed, active_keys, new_mark_set, word_count,
  snapshot_map, is_some, contains,
}
use core_rs.Markset.Slots.{IsSegment, no_segment}
use core_rs.Markset.Places.{slot_test, place, get_or-replicate}
use core_rs.Markset.Writes.{IsOver, contains-slot, was_walked, flag, present_at}
use core_rs.Markset.Refines.{Over, store_marks}

abbrev zero_row : Segment → List ℕ
zero_row g = replicate (word_count g.key_count) 0

get_or-zero_rows :
    (gs : List Segment) (i : ℕ) → get_or (map zero_row gs) i [] ≡ zero_row (get_or gs i no_segment)
get_or-zero_rows [] i = refl
get_or-zero_rows (g ∷ gs) zero = refl
get_or-zero_rows (g ∷ gs) (suc i) = get_or-zero_rows gs i

length-zero_rows : (gs : List Segment) → length (map zero_row gs) ≡ length gs
length-zero_rows [] = refl
length-zero_rows (g ∷ gs) = ap suc (length-zero_rows gs)

get_or-empty_rows : (n i : ℕ) → get_or (replicate n (let r : List ℕ = [] in r)) i [] ≡ []
get_or-empty_rows zero i = refl
get_or-empty_rows (suc n) zero = refl
get_or-empty_rows (suc n) (suc i) = get_or-empty_rows n i

no_bit : (n q : ℕ) → test_at (replicate n 0) q ≡ false
no_bit n q = ap (λ w. test_bit w (q % 64)) (get_or-replicate n (q / 64)) ∙ none_set (q % 64)
  where
    none_set : (i : ℕ) → test_bit 0 i ≡ false
    none_set i = ground (arith, bit_and-bitwise 0 (2 ^ i))

module _ (sealed : List Segment) (active : Option (List Key)) (foreign : List (List Key)) where
  -- The key is in the map of a new set.
  abbrev pub snapshot : Key → Bool
  snapshot k = listed k (active_keys active ++ concat foreign)

  abbrev fresh_set : MarkSet
  fresh_set = new_mark_set sealed active foreign

  fresh_flag :
      (k : Key)
      → (is_some (fresh_set.active k) ≡ snapshot k) × (flag sealed snapshot fresh_set k ≡ false)
  unfolding new_mark_set snapshot_map
  fresh_flag k = (ground arith, ground arith)

  pub fresh-IsOver : IsOver sealed snapshot fresh_set
  unfolding new_mark_set
  fresh-IsOver = record {
    segs_are = refl;
    keys_are = λ k. (fresh_flag k).0;
    bit_rows = length-zero_rows sealed;
    walked_rows = length-replicate (length sealed) [];
    bit_words = λ i. omega (
      arith,
      ap length (get_or-zero_rows sealed i),
      length-replicate (word_count (get_or sealed i no_segment).key_count) (let z : ℕ = 0 in z),
    );
    walked_words = λ i. inl (get_or-empty_rows (length sealed) i);
  }

  no_slot :
      (k : Key) (l : Option Loc)
      → (slot_test (flag sealed snapshot fresh_set) fresh_set.bits k l ≡ false)
        × (slot_test fresh_set.active_walked fresh_set.walked k l ≡ false)
  unfolding new_mark_set
  no_slot k none = (refl, refl)
  no_slot k (some in_active) = ((fresh_flag k).1, refl)
  no_slot k (some (in_sealed a p)) = (
    ap (λ r. test_at r p) (get_or-zero_rows sealed a)
        ∙ no_bit (word_count (get_or sealed a no_segment).key_count) p,
    ap (λ r. test_at r p) (get_or-empty_rows (length sealed) a) ∙ no_bit 0 p,
  )

  module _ (fits : (i : ℕ) → IsSegment (get_or sealed i no_segment)) where
    abbrev pub first_set : Over sealed snapshot fits
    first_set = (fresh_set, fresh-IsOver)

    abbrev pub marks : MarkInterface (Over sealed snapshot fits)
    marks = store_marks sealed snapshot fits

    pub first-IsFresh : IsFresh marks first_set
    unfolding was_walked store_marks
    first-IsFresh = (
      λ k.
          contains-slot sealed snapshot fresh_set fresh-IsOver k
          ∙ (no_slot k (place sealed snapshot k)).0,
      λ k. (no_slot k (place sealed snapshot k)).1,
    )

    -- Over sealed segments whose buckets end inside their index, with honest links: if the mark of
    -- the roots into the set that new_mark_set makes of the store returns a set, that set contains
    -- the keys that the roots lead to and no other, and each of these is in the snapshot, and its
    -- object, unless it is a leaf, could be read.
    pub store_mark_exact :
        {E L : Type 0} (get_verified : Key → Result E Bytes)
        (links : Key → Bytes → Result L (List Link)) (canceled : ℕ → Bool) (roots : List Key)
        (fuel : ℕ) (m : Over sealed snapshot fits)
        → IsHonest get_verified links
        → mark_live marks get_verified links canceled fuel first_set roots ≡ some (ok m)
        → ((k : Key)
            → (contains m.0 k ≡ true)
              ↔ ((l : Link) × Reach get_verified links roots l × (k ≡ l.key)))
          × ((l : Link)
              → Reach get_verified links roots l
              → (present_at sealed snapshot l.key ≡ true)
                × (l.leaf ≡ false → (ls : List Link) × IsRead get_verified links l.key ls))
    unfolding store_marks
    store_mark_exact get_verified links canceled roots fuel m honest h =
        mark_live_exact marks get_verified links canceled honest roots fuel first_set m
          first-IsFresh h
