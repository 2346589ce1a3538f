-- ===== src/Walk/Runs.antt =====
-- Walks over a file of one blob (src/fstree/read.rs), and its mark (src/gc/collector.rs).
use core_rs.Prelude.{
  ℕ, ◌≡◌, ◌↔◌, refl, inl, inr, arith, Bool, true, false, Option, some, List, [], ◌∷◌, ◌++◌,
  replicate, get_or, Result, ok, err, if◌then◌else◌, Bool-cases,
}
use core_rs.Prelude.Bytes.{Bytes}
use core_rs.Prelude.Lex.{bytes_eq}
use core_rs.Key.{Key, is_git, type_of, from_u8}
use core_rs.Gitobj.Links.{Link}
use core_rs.Gc.{Error, same_key, mark_live, mark_from, mark_on, walk, walk_on, marked_link, follow}
use core_rs.Gc as Gc
use core_rs.Gc.Visit.{same_key→eq}
use core_rs.Gc.Closure.{IsRead, Reach}
use core_rs.Markset.{
  contains, mark, mark_walked, new_mark_set, listed, locate_in, locate_sealed, snapshot_map,
}
use core_rs.Markset.Slots.{IsSegment, no_segment}
use core_rs.Markset.Writes.{present_at, was_walked}
use core_rs.Markset.Refines.{Over, store_marks}
use core_rs.Markset.Collect.{snapshot, first_set, marks}
use core_rs.Walk.{
  Decoders, links, keys_of, visit, WalkError, missing, look, present_leaf, absorb_link, absorb,
  absorb_all, next_level, levels, check_complete,
}
use core_rs.Walk.Seen.{IsUnique, Reached}
use core_rs.Walk.Complete.{IsHeld, Fault, check_complete_exact, check_complete-Fault}
use core_rs.Walk.Rounds.{check_complete_returns}
use core_rs.Walk.Kept.{kept_exact}
use mathlib.Core.List.Memᴰ.{Memᴰ, head, tail}

abbrev part : Key
part = record { bytes = replicate 31 7 ++ (0 ∷ []) }

abbrev file : Key
file = record { bytes = replicate 31 9 ++ (16 ∷ []) }

abbrev decoders : Decoders ℕ ℕ
decoders = record {
  decode_file_node = λ b. ok (part ∷ part ∷ []);
  decode_dir_node = λ b. err 0;
  decode_dir_leaf = λ b. err 0;
  decode_commit = λ k b. err 0;
}

abbrev fetch : Key → Result ℕ Bytes
fetch k = if same_key k file then ok (1 ∷ []) else err 7

abbrev stored : Key → Result ℕ Bool
stored k = ok (same_key k part)

abbrev lacking : Key → Result ℕ Bool
lacking k = ok false

run : check_complete fetch stored (links decoders) 3 file ≡ some (ok (file ∷ part ∷ []))
unfolding check_complete levels next_level absorb_all absorb absorb_link look present_leaf visit
    links keys_of is_git type_of from_u8 bytes_eq
run = refl

check_complete_exact_example :
    ((rest : List Key) × (file ∷ part ∷ [] ≡ file ∷ rest))
    × IsUnique (file ∷ part ∷ [])
    × ((k : Key)
        → Memᴰ k (file ∷ part ∷ [])
          ↔ ((l : Link) × Reached fetch stored (links decoders) file l × (l.key ≡ k)))
    × ((l : Link)
        → Reached fetch stored (links decoders) file l
        → IsHeld fetch stored (links decoders) file l)
check_complete_exact_example =
    check_complete_exact fetch stored (links decoders) file 3 (file ∷ part ∷ []) run

failing_run : check_complete fetch lacking (links decoders) 3 file ≡ some (err (missing part))
unfolding check_complete levels next_level absorb_all absorb absorb_link look present_leaf visit
    links keys_of is_git type_of from_u8 bytes_eq
failing_run = refl

check_complete-Fault_example : Fault fetch lacking (links decoders) file (missing part)
check_complete-Fault_example =
    check_complete-Fault fetch lacking (links decoders) file 3 (missing part) failing_run

fetched : (k : Key) (d : Bytes) → fetch k ≡ ok d → Memᴰ k (file ∷ part ∷ [])
fetched k d h = elim (Bool-cases (same_key k file)) [
  | inl y ↦ head (same_key→eq k file y)
  | inr n ↦ absurd (ground arith)
]

in_store : (k : Key) → stored k ≡ ok true → Memᴰ k (file ∷ part ∷ [])
in_store k h = tail (head (same_key→eq k part (ground arith)))

check_complete_returns_example :
    (r : Result (WalkError ℕ _) (List Key)) × (check_complete fetch stored (links decoders) 6 part
      ≡ some r)
check_complete_returns_example =
    check_complete_returns fetch stored (links decoders) (file ∷ part ∷ []) fetched in_store 6 part
      (omega arith)

no_segments-fit : (i : ℕ) → IsSegment (get_or [] i no_segment)
no_segments-fit i j = omega arith

abbrev active_part : Option (List Key)
active_part = some (file ∷ part ∷ [])

abbrev start_set : Over [] (snapshot [] active_part []) no_segments-fit
start_set = first_set [] active_part [] no_segments-fit

abbrev marked_of : {A W : Type 0} → A → Option (Result W A) → A
marked_of a (some (ok b)) = b
marked_of a r = a

abbrev kept_set : Over [] (snapshot [] active_part []) no_segments-fit
kept_set = marked_of start_set (
    mark_live (marks [] active_part [] no_segments-fit) fetch (links decoders) (λ n. false) 4
      start_set (file ∷ []))

kept_run :
    mark_live
      (marks [] active_part [] no_segments-fit)
      fetch
      (links decoders)
      (λ n. false)
      4
      start_set
      (file ∷ [])
    ≡ some (ok kept_set)
unfolding mark_live mark_from mark_on walk walk_on Gc.visit marked_link follow store_marks mark
    mark_walked contains new_mark_set listed locate_in snapshot_map present_at was_walked bytes_eq
    is_git locate_sealed links keys_of type_of from_u8
kept_run = refl

kept_exact_example :
    ((k : Key)
      → (contains kept_set.0 k ≡ true)
        ↔ ((l : Link) × Reach fetch (links decoders) (file ∷ []) l × (k ≡ l.key)))
    × ((l : Link)
        → Reach fetch (links decoders) (file ∷ []) l
        → (present_at [] (snapshot [] active_part []) l.key ≡ true)
          × (l.leaf ≡ false → (ls : List Link) × IsRead fetch (links decoders) l.key ls))
kept_exact_example =
    kept_exact [] active_part [] no_segments-fit decoders fetch (λ n. false) (file ∷ []) 4 kept_set
      kept_run
