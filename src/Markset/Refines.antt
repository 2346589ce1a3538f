-- ===== src/Markset/Refines.antt =====
-- The mark set of src/packstore/markset.rs is one that the collector can use.
use core_rs.Prelude.{ℕ, ◌≡◌, refl, sym, ap, ◌∙◌, subst, Bool, not, ◌&&◌, ◌||◌, List, get_or}
use mathlib.Core.Path.{ap₂}
use core_rs.Key.{Key}
use core_rs.Gc.{same_key, MarkInterface}
use core_rs.Markset.{
  Segment, MarkSet, is_some, mark, mark_at, mark_walked, mark_walked_at, contains, value_or,
}
use core_rs.Markset.Slots.{IsSegment, no_segment}
use core_rs.Markset.Places.{slot_test, place, write-slots}
use core_rs.Markset.Writes.{
  IsOver, locate-place, contains-slot, was_walked, flag, present_at, mark_at-IsWrite,
  mark_walked_at-IsWrite,
}

module _ (segs : List Segment) (act : Key → Bool)
    (fits : (i : ℕ) → IsSegment (get_or segs i no_segment)) where
  -- Over sealed segments whose buckets end inside their index, in every state of a mark set that
  -- was made of them: mark answers whether the key was unmarked and is there, and whether it is
  -- there, and afterwards the keys that were marked are, and that key is if it is there, and no other.
  -- The links that have been followed stay as they were, and the set is again one over the segments.
  pub mark_lem :
      (s : MarkSet) (k : Key)
      → IsOver segs act s
      → ((mark k s).0 ≡ (present_at segs act k && not (contains s k), present_at segs act k))
        × IsOver segs act (mark k s).1
        × ((j : Key)
            → contains (mark k s).1 j ≡ (contains s j || (same_key j k && present_at segs act k)))
        × ((j : Key) → was_walked segs act (mark k s).1 j ≡ was_walked segs act s j)
  unfolding mark was_walked present_at
  mark_lem s k over =
      let at = ap (mark_at k s) (locate-place segs act s over k) in
      let l = place segs act k in
      let (over', w, wk, aw, answer) = mark_at-IsWrite segs act fits s over k l refl in
      let s' = (mark_at k s l).1 in
      subst
        (λ r.
          (r.0 ≡ (is_some l && not (contains s k), is_some l))
          × IsOver segs act r.1
          × ((j : Key) → contains r.1 j ≡ (contains s j || (same_key j k && is_some l)))
          × ((j : Key)
              → slot_test r.1.active_walked r.1.walked j (place segs act j)
                ≡ slot_test s.active_walked s.walked j (place segs act j)))
        (sym at)
        (
          answer
              ∙ ap (λ t. (is_some l && not t, is_some l)) (sym (contains-slot segs act s over k)),
          over',
          λ j.
              contains-slot segs act s' over' j
              ∙ write-slots segs act j k (flag segs act s) (flag segs act s') s.bits s'.bits
                  (place segs act j) l refl refl w
              ∙ ap (λ t. t || (same_key j k && is_some l)) (sym (contains-slot segs act s over j)),
          λ j. ap₂ (λ f g. slot_test f g j (place segs act j)) aw wk,
        )

  pub mark_walked_lem :
      (s : MarkSet) (k : Key)
      → IsOver segs act s
      → ((mark_walked k s).0 ≡ (present_at segs act k && not (was_walked segs act s k)))
        × IsOver segs act (mark_walked k s).1
        × ((j : Key) → contains (mark_walked k s).1 j ≡ contains s j)
        × ((j : Key)
            → was_walked segs act (mark_walked k s).1 j
              ≡ (was_walked segs act s j || (same_key j k && present_at segs act k)))
  unfolding mark_walked was_walked present_at
  mark_walked_lem s k over =
      let at = ap (mark_walked_at k s) (locate-place segs act s over k) in
      let l = place segs act k in
      let (over', w, bits, active, answer) = mark_walked_at-IsWrite segs act fits s over k l refl in
      let s' = (mark_walked_at k s l).1 in
      subst
        (λ r.
          (r.0 ≡ (is_some l && not (slot_test s.active_walked s.walked k l)))
          × IsOver segs act r.1
          × ((j : Key) → contains r.1 j ≡ contains s j)
          × ((j : Key)
              → slot_test r.1.active_walked r.1.walked j (place segs act j) ≡ (
                  slot_test s.active_walked s.walked j (place segs act j)
                  || (same_key j k && is_some l))))
        (sym at)
        (
          answer,
          over',
          λ j.
              contains-slot segs act s' over' j
              ∙ ap₂ (λ f g. slot_test (λ x. value_or (f x)) g j (place segs act j)) active bits
              ∙ sym (contains-slot segs act s over j),
          λ j.
              write-slots segs act j k s.active_walked s'.active_walked s.walked s'.walked
                (place segs act j) l refl refl w,
        )

  -- A set over the segments.
  abbrev pub Over : Type 0
  Over = (s : MarkSet) × IsOver segs act s

  unfoldable pub store_marks : MarkInterface Over
  store_marks = record {
    mark = λ k (s, over). ((mark k s).0, ((mark k s).1, (mark_lem s k over).1));
    mark_walked =
        λ k (s, over). ((mark_walked k s).0, ((mark_walked k s).1, (mark_walked_lem s k over).1));
    present = present_at segs act;
    marked = λ (s, _). contains s;
    walked = λ (s, _). was_walked segs act s;
    mark-answer = λ k (s, over). (mark_lem s k over).0;
    mark-marked = λ k (s, over) j. (mark_lem s k over).2 j;
    mark-walked = λ k (s, over) j. (mark_lem s k over).3 j;
    mark_walked-answer = λ k (s, over). (mark_walked_lem s k over).0;
    mark_walked-marked = λ k (s, over) j. (mark_walked_lem s k over).2 j;
    mark_walked-walked = λ k (s, over) j. (mark_walked_lem s k over).3 j;
  }
