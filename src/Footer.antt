-- ===== src/Footer.antt =====
-- The index section of a sealed segment (src/packstore/footer.rs). A vector with room for the whole
-- section that is filled by slices is the parts put together. The trailer, the filter section and
-- the memory map are not part of it.
pub mod Sorted
pub mod Search
pub mod Rows
pub mod Bucket
pub mod Lookup
pub mod Bounds
mod Runs
use core_rs.Prelude.{
  ℕ, zero, suc, ◌+◌, ◌*◌, ◌-◌, ◌/◌, ◌^◌, Bool, true, false, not, Option, none, some, List, [], ◌∷◌,
  ◌++◌, map, concat, length, get_or, take, drop, leb, ltb, ◌==◌, if◌then◌else◌, Result, ok, err,
  ◌>>=◌, ◌>>◌,
}
use core_rs.Prelude.Bytes.{Bytes, to_be_bytes, from_be_bytes}
use core_rs.Prelude.Lex.{lex_lt, bytes_eq}
use core_rs.Key.{Key}
use core_rs.Amberpack.{be_u32}

abbrev pub fanout_size : ℕ
fanout_size = 1024

abbrev pub index_entry_size : ℕ
index_entry_size = 44

pub record IndexEntry : Type 0 where
  pub k : Key
  pub off : ℕ
  pub slen : ℕ

-- The texts of `corrupt`.
pub data Error : Type 0 where
  key_count_limit : ℕ → Error
  section_length : ℕ → ℕ → Error
  not_monotonic : ℕ → Error
  fanout_total : ℕ → ℕ → Error

-- compare_entries is less
abbrev pub entry_lt : IndexEntry → IndexEntry → Bool
entry_lt a b = lex_lt a.k.bytes b.k.bytes

-- sort_unstable_by(compare_entries), for distinct keys
unfoldable pub insert_entry : IndexEntry → List IndexEntry → List IndexEntry
insert_entry a [] = a ∷ []
insert_entry a (b ∷ bs) =
    let rest = insert_entry a bs in if entry_lt b a then b ∷ rest else a ∷ b ∷ bs

unfoldable pub sort_entries : List IndexEntry → List IndexEntry
sort_entries [] = []
sort_entries (e ∷ es) = insert_entry e (sort_entries es)

abbrev pub first_byte : Key → ℕ
first_byte k = get_or k.bytes 0 0

-- counts[b]
unfoldable pub count : ℕ → List IndexEntry → ℕ
count b [] = 0
count b (e ∷ es) = let rest = count b es in if first_byte e.k == b then suc rest else rest

-- The loop over the counts, with `left` rounds to go.
unfoldable pub fanout_bytes : ℕ → ℕ → ℕ → List IndexEntry → Bytes
fanout_bytes zero b cum es = []
fanout_bytes (suc left) b cum es =
    let cum' = cum + count b es in to_be_bytes 4 cum' ++ fanout_bytes left (b + 1) cum' es

-- One index row
abbrev pub row_bytes : IndexEntry → Bytes
row_bytes e = e.k.bytes ++ (to_be_bytes 8 e.off ++ to_be_bytes 4 e.slen)

-- build_index_section
unfoldable pub build_index_section : List IndexEntry → Bytes
build_index_section entries =
    let es = sort_entries entries in fanout_bytes 256 0 0 es ++ concat (map row_bytes es)

-- The loop over the fanout, at `i` with `left` rounds to go.
unfoldable pub read_fanout : ℕ → ℕ → ℕ → Bytes → Result Error (List ℕ)
read_fanout zero i prev b = ok []
read_fanout (suc left) i prev b =
    if ltb (be_u32 b (i * 4)) prev
    then err (not_monotonic i)
    else do rest ← read_fanout left (i + 1) (be_u32 b (i * 4)) b; ok (be_u32 b (i * 4) ∷ rest)

-- parse_index_section
unfoldable pub parse_index_section : Bytes → ℕ → Result Error (List ℕ × Bytes)
parse_index_section b key_count =
    if leb (2 ^ 32) key_count
    then err (key_count_limit key_count)
    else if not (length b == fanout_size + key_count * index_entry_size)
    then err (section_length (length b) (fanout_size + key_count * index_entry_size))
    else do
      fanout ← read_fanout 256 0 0 b
      if not (get_or fanout 255 0 == key_count)
          then err (fanout_total (get_or fanout 255 0) key_count)
          else ok (fanout, drop fanout_size b)

-- row(i)[..32]
abbrev pub row_key : Bytes → ℕ → Bytes
row_key entries i = take 32 (drop (i * index_entry_size) entries)

-- The two branches of the loop of search_index_pos.
abbrev pub narrow : Bool → ℕ → ℕ → ℕ → ℕ × ℕ
narrow true low mid high = (mid + 1, high)
narrow false low mid high = (low, mid)

-- The loop of search_index_pos on fuel; `none` is no outcome of the code.
unfoldable pub partition_point : ℕ → (ℕ → Bool) → ℕ → ℕ → Option ℕ
partition_point zero less low high = none
partition_point (suc fuel) less low high =
    let mid = (low + high) / 2 in
    let (low', high') = narrow (less mid) low mid high in
    let rest = partition_point fuel less low' high' in if ltb low high then rest else some low

unfoldable pub at_point : Bytes → Key → ℕ → ℕ → ℕ → Option ℕ
at_point entries k lo n low =
    if leb n low
    then none
    else if not (bytes_eq (row_key entries (lo + low)) k.bytes)
    then none
    else some (lo + low)

abbrev pub bucket_start : List ℕ → ℕ → ℕ
bucket_start fanout b = if ltb 0 b then get_or fanout (b - 1) 0 else 0

unfoldable pub located : Bytes → Key → ℕ → ℕ → Option ℕ → Option (Option ℕ)
located entries k lo n none = none
located entries k lo n (some low) = some (at_point entries k lo n low)

-- search_index_pos behind the fanout, with fuel for a round on each row and the last test
unfoldable pub search_bucket : Bytes → Key → ℕ → ℕ → Option (Option ℕ)
search_bucket entries k lo n =
    located entries k lo n
      (partition_point (n + 1) (λ i. lex_lt (row_key entries (lo + i)) k.bytes) 0 n)

-- search_index_pos
unfoldable pub search_index_pos : List ℕ → Bytes → Key → Option (Option ℕ)
search_index_pos fanout entries k =
    let lo = bucket_start fanout (first_byte k) in
    search_bucket entries k lo (get_or fanout (first_byte k) 0 - lo)

-- The offset and the stored length of a row
abbrev pub row_value : Bytes → ℕ → ℕ × ℕ
row_value entries pos =
    let e = take index_entry_size (drop (pos * index_entry_size) entries) in
    (from_be_bytes (take 8 (drop 32 e)), be_u32 e 40)

unfoldable pub valued : Bytes → Option (Option ℕ) → Option (Option (ℕ × ℕ))
valued entries none = none
valued entries (some none) = some none
valued entries (some (some pos)) = some (some (row_value entries pos))

-- search_index
unfoldable pub search_index : List ℕ → Bytes → Key → Option (Option (ℕ × ℕ))
search_index fanout entries k = valued entries (search_index_pos fanout entries k)
