-- ===== src/Markset/Runs.antt =====
-- The mark (src/gc/collector.rs) of a directory with one blob, over the mark set
-- (src/packstore/markset.rs) of a store that has both in its active segment, or over a sealed segment of
-- one row.
use core_rs.Prelude.{
  ℕ, ◌+◌, ◌≤◌, ◌≡◌, refl, sym, subst, inl, inr, arith, Bool, true, false, Option, none, some, List,
  [], ◌∷◌, ◌++◌, replicate, get_or, Result, ok, err, if◌then◌else◌, Bool-cases,
}
use core_rs.Prelude.Bytes.{Bytes}
use core_rs.Prelude.Lex.{bytes_eq, lex_lt}
use core_rs.Key.{Key, is_git}
use core_rs.Gitobj.Links.{Link}
use core_rs.Gc.{
  Error, missing_from_store, link_to, same_key, mark_live, mark_from, mark_on, walk, walk_on, visit,
  marked_link, follow,
}
use core_rs.Gc.Visit.{IsConsistent, same_key→eq}
use core_rs.Gc.Closure.{IsHonest}
use core_rs.Gc.Exact.{Fault, mark_live-Fault}
use core_rs.Gc.Fuel.{mark_live_returns, total_links, link_count}
use core_rs.Footer.{search_index_pos, search_bucket, located, partition_point, at_point}
use core_rs.Markset.{
  MarkSet, locate_sealed, Segment, contains, mark, mark_walked, new_mark_set, listed, locate_in,
  snapshot_map,
}
use core_rs.Markset.Slots.{IsSegment, no_segment}
use core_rs.Markset.Writes.{present_at, was_walked}
use core_rs.Markset.Refines.{Over, store_marks}
use core_rs.Markset.Collect.{snapshot, first_set, marks, first-IsFresh}
use mathlib.Core.List.Memᴰ
use mathlib.Core.List.Memᴰ.{Memᴰ, head, tail}

abbrev blob : Key
blob = record { bytes = replicate 31 7 ++ (0 ∷ []) }

abbrev dir : Key
dir = record { bytes = replicate 31 9 ++ (16 ∷ []) }

abbrev lost : Key
lost = record { bytes = replicate 31 5 ++ (16 ∷ []) }

abbrev reads : Key → Result ℕ Bytes
reads k = ok (1 ∷ [])

abbrev names : Key → Bytes → Result ℕ (List Link)
names k d = if same_key k dir then ok (link_to blob ∷ []) else ok []

names-IsHonest : IsHonest reads names
names-IsHonest k ls (d, g, h) x i = elim (Bool-cases (same_key k dir)) [
  | inl y ↦
      let is : ls ≡ link_to blob ∷ [] = ground arith in
      let e : x ≡ link_to blob = Memᴰ.eq_of_singleton (subst (Memᴰ x) is i) in
      subst IsConsistent (sym e) (λ own. refl)
  | inr n ↦ let is : ls ≡ [] = ground arith in absurd (Memᴰ.not-nil (subst (Memᴰ x) is i))
]

abbrev never : ℕ → Bool
never n = false

abbrev held : Option (List Key)
held = some (dir ∷ blob ∷ [])

no_segments-fit : (i : ℕ) → IsSegment (get_or [] i no_segment)
no_segments-fit i j = omega arith

abbrev set : Over [] (snapshot [] held []) no_segments-fit
set = first_set [] held [] no_segments-fit

abbrev marked_of : {A : Type 0} → A → Option (Result (Error ℕ ℕ) A) → A
marked_of a (some (ok b)) = b
marked_of a r = a

abbrev all_set : Over [] (snapshot [] held []) no_segments-fit
all_set =
    marked_of set (mark_live (marks [] held [] no_segments-fit) reads names never 3 set (dir ∷ []))

all_marked :
    mark_live (marks [] held [] no_segments-fit) reads names never 3 set (dir ∷ [])
    ≡ some (ok all_set)
unfolding mark_live mark_from mark_on walk walk_on visit marked_link follow store_marks mark
    mark_walked contains new_mark_set listed locate_in snapshot_map present_at was_walked bytes_eq
    is_git
all_marked = refl

lost_fails :
    mark_live (marks [] held [] no_segments-fit) reads names never 3 set (dir ∷ lost ∷ [])
    ≡ some (err (missing_from_store lost))
unfolding mark_live mark_from mark_on walk walk_on visit marked_link follow store_marks mark
    mark_walked contains new_mark_set listed locate_in snapshot_map present_at was_walked bytes_eq
    is_git locate_sealed
lost_fails = refl

mark_live-Fault_example :
    Fault
      (marks [] held [] no_segments-fit)
      reads
      names
      never
      names-IsHonest
      (dir ∷ lost ∷ [])
      (missing_from_store lost)
mark_live-Fault_example =
    mark_live-Fault (marks [] held [] no_segments-fit) reads names never names-IsHonest
      (dir ∷ lost ∷ []) 3 set (missing_from_store lost) (first-IsFresh [] held [] no_segments-fit)
      lost_fails

held_listed :
    (k : Key) → (marks [] held [] no_segments-fit).present k ≡ true → Memᴰ k (dir ∷ blob ∷ [])
unfolding store_marks present_at locate_in listed locate_sealed
held_listed k h = elim (Bool-cases (same_key k dir)) [
  | inl y ↦ head (same_key→eq k dir y)
  | inr n ↦ elim (Bool-cases (same_key k blob)) [
    | inl y ↦ tail (head (same_key→eq k blob y))
    | inr n' ↦ absurd (ground arith)
  ]
]

nine : total_links (marks [] held [] no_segments-fit) reads names (dir ∷ blob ∷ []) + 2 ≤ 9
unfolding total_links link_count bytes_eq
nine = omega arith

mark_live_returns_example :
    (r : Result (Error ℕ ℕ) (Over [] (snapshot [] held []) no_segments-fit)) × (mark_live
        (marks [] held [] no_segments-fit)
        reads
        names
        never
        9
        set
        (dir ∷ lost ∷ [])
      ≡ some r)
mark_live_returns_example =
    mark_live_returns (marks [] held [] no_segments-fit) reads names never names-IsHonest
      (dir ∷ blob ∷ []) held_listed 9 set (dir ∷ lost ∷ []) nine

-- The first key of a segment of one row.
abbrev first_dir : Key
first_dir = record { bytes = replicate 31 0 ++ (16 ∷ []) }

abbrev one_row : Segment
one_row = record {
  fanout = replicate 256 1;
  entries = first_dir.bytes ++ replicate 12 0;
  key_count = 1;
  filter = λ k. true;
}

abbrev act : Key → Bool
act = snapshot (one_row ∷ []) none []

abbrev unmarked : MarkSet
unmarked = new_mark_set (one_row ∷ []) none []

first_dir_newly : (mark first_dir unmarked).0 ≡ (true, true)
unfolding mark new_mark_set locate_in locate_sealed listed snapshot_map bytes_eq search_index_pos
    search_bucket located partition_point at_point lex_lt
first_dir_newly = refl
