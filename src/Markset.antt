-- ===== src/Markset.antt =====
-- The mark set of a store (src/packstore/markset.rs). A sealed segment is what the set asks of it:
-- the fanout and the rows of its index, its key count, and what its filter answers, which is a
-- parameter. The keys of the map of the active segment are a list, the map's values a function.
pub mod Slots
pub mod Places
pub mod Writes
pub mod Refines
pub mod Collect
mod Runs
use core_rs.Prelude.{
  ℕ, zero, suc, ◌+◌, ◌/◌, ◌%◌, ◌≡◌, Bool, true, false, not, ◌&&◌, ◌||◌, Option, none, some, List,
  [], ◌∷◌, ◌++◌, map, concat, replicate, length, get_or, ltb, ◌==◌, if◌then◌else◌,
}
use core_rs.Prelude.Bytes.{Bytes}
use core_rs.Prelude.BitMap.{test_at, set_at, modify}
use core_rs.Key.{Key}
use core_rs.Footer.{search_index_pos}
use core_rs.Gc.{same_key}

pub record Segment : Type 0 where
  pub fanout : List ℕ
  pub entries : Bytes
  pub key_count : ℕ
  pub filter : Key → Bool

pub record MarkSet : Type 0 where
  pub segs : List Segment
  pub bits : List (List ℕ)
  -- The key is in the map, and what the map says of it.
  pub active : Key → Option Bool
  pub marked : ℕ
  pub walked : List (List ℕ)
  pub active_walked : Key → Bool

pub data Loc : Type 0 where
  in_active : Loc
  in_sealed : ℕ → ℕ → Loc

unfoldable pub listed : Key → List Key → Bool
listed k [] = false
listed k (x ∷ xs) = same_key k x || listed k xs

-- k.div_ceil(64)
abbrev pub word_count : ℕ → ℕ
word_count n = (n + 63) / 64

unfoldable pub snapshot_map : List Key → Key → Option Bool
snapshot_map keys k = if listed k keys then some false else none

-- The keys of the active segment, if there is one.
abbrev pub active_keys : Option (List Key) → List Key
active_keys none = []
active_keys (some ks) = ks

-- new_mark_set, over the sealed segments, the keys of the active one and those of the foreign ones
unfoldable pub new_mark_set : List Segment → Option (List Key) → List (List Key) → MarkSet
new_mark_set sealed active foreign = record {
  segs = sealed;
  bits = map (λ g. replicate (word_count g.key_count) 0) sealed;
  active = snapshot_map (active_keys active ++ concat foreign);
  marked = 0;
  walked = replicate (length sealed) [];
  active_walked = λ k. false;
}

-- The search of the index ends (Footer), so that there is a value within.
abbrev pub found : Option (Option ℕ) → Option ℕ
found none = none
found (some r) = r

-- lookup_pos
abbrev pub lookup_pos : Segment → Key → Option ℕ
lookup_pos g k = found (search_index_pos g.fanout g.entries k)

abbrev pub at_pos : ℕ → Option ℕ → Option Loc
at_pos i none = none
at_pos i (some pos) = some (in_sealed i pos)

-- A segment, behind what the newer ones answered.
abbrev pub or_older : Option Loc → Option Loc → Option Loc
or_older none r = r
or_older (some l) r = some l

-- The loop of locate over the segments from the `i`-th, of which the last is asked first.
unfoldable pub locate_sealed : ℕ → List Segment → Key → Option Loc
locate_sealed i [] k = none
locate_sealed i (g ∷ gs) k =
    or_older (locate_sealed (i + 1) gs k)
      (if not (g.filter k) then none else at_pos i (lookup_pos g k))

abbrev pub is_some : {A : Type 0} → Option A → Bool
is_some none = false
is_some (some a) = true

unfoldable pub locate_in : List Segment → Bool → Key → Option Loc
locate_in segs active k = if active then some in_active else locate_sealed 0 segs k

abbrev pub locate : MarkSet → Key → Option Loc
locate s k = locate_in s.segs (is_some (s.active k)) k

abbrev pub value_or : Option Bool → Bool
value_or none = false
value_or (some b) = b

abbrev pub put_flag {ℓ} : {A : Type ℓ} → Key → A → (Key → A) → Key → A
put_flag k a f j = if same_key j k then a else f j

abbrev pub counted : Bool → ℕ → ℕ
counted newly n = if newly then n + 1 else n

-- The bit of a position in a segment.
abbrev pub grid_test : List (List ℕ) → ℕ → ℕ → Bool
grid_test grid seg pos = test_at (get_or grid seg []) pos

abbrev pub mark_at : Key → MarkSet → Option Loc → (Bool × Bool) × MarkSet
mark_at k s none = ((false, false), s)
mark_at k s (some in_active) =
    let newly = not (value_or (s.active k)) in
    (
      (newly, true),
      record s { active = put_flag k (some true) s.active; marked = counted newly s.marked },
    )
mark_at k s (some (in_sealed seg pos)) =
    let newly = not (grid_test s.bits seg pos) in
    (
      (newly, true),
      record s {
        bits = modify s.bits seg (λ row. set_at row pos);
        marked = counted newly s.marked;
      },
    )

unfoldable pub mark : Key → MarkSet → (Bool × Bool) × MarkSet
mark k s = mark_at k s (locate s k)

-- walked.resize(words, 0), when the bitmap is first used
abbrev pub sized : ℕ → List ℕ → List ℕ
sized words [] = replicate words 0
sized words (w ∷ ws) = w ∷ ws

abbrev pub mark_walked_at : Key → MarkSet → Option Loc → Bool × MarkSet
mark_walked_at k s none = (false, s)
mark_walked_at k s (some in_active) =
    (not (s.active_walked k), record s { active_walked = put_flag k true s.active_walked })
mark_walked_at k s (some (in_sealed seg pos)) =
    let words = length (get_or s.bits seg []) in
    let row = sized words (get_or s.walked seg []) in
    (
      not (test_at row pos),
      record s { walked = modify s.walked seg (λ r. set_at (sized words r) pos) },
    )

unfoldable pub mark_walked : Key → MarkSet → Bool × MarkSet
mark_walked k s = mark_walked_at k s (locate s k)

abbrev pub contains_at : Key → MarkSet → Option Loc → Bool
contains_at k s none = false
contains_at k s (some in_active) = value_or (s.active k)
contains_at k s (some (in_sealed seg pos)) = grid_test s.bits seg pos

unfoldable pub contains : MarkSet → Key → Bool
contains s k = contains_at k s (locate s k)
