-- ===== src/Footer/Lookup.antt =====
-- A lookup in a built index section (src/packstore/footer.rs) against the entries it was built of.
use core_rs.Prelude.{
  ℕ, ◌+◌, ◌*◌, ◌^◌, ◌<◌, ◌≡◌, refl, sym, ap, ◌∙◌, arith, false, some, List, [], ◌∷◌, ◌++◌, length,
  get_or, drop, leb, All, ok, ==_self, length-append, drop-append,
}
use core_rs.Prelude.Bytes.{Bytes}
use core_rs.Key.{Key}
use core_rs.Footer.{
  IndexEntry, first_byte, sort_entries, build_index_section, parse_index_section, fanout_bytes,
  read_fanout, search_index,
}
use core_rs.Footer.Sorted.{
  IsDistinct, find, All-sort_entries, length-sort_entries, sort_entries-IsSorted, find-sort_entries,
}
use core_rs.Footer.Search.{below, below_256, below_zero}
use core_rs.Footer.Rows.{
  IsEntry, rows, length-rows, counts, get_or-counts, length-fanout_bytes, read_fanout-fanout_bytes,
}
use core_rs.Footer.Bucket.{found, search_index-found}

firsts : (s : List IndexEntry) → All IsEntry s → All (λ e. first_byte e.k < 256) s
firsts [] a = tt
firsts (e ∷ s) (v, a) = (v.first_lt, firsts s a)

parse-rows :
    (s : List IndexEntry)
    → All IsEntry s
    → length s < 2 ^ 32
    → parse_index_section (fanout_bytes 256 0 0 s ++ rows s) (length s)
      ≡ ok (counts 256 0 s, rows s)
unfolding parse_index_section
parse-rows s valid fits =
    let b = fanout_bytes 256 0 0 s ++ rows s in
    let front = length-fanout_bytes 256 0 0 s in
    let len : length b ≡ 1024 + length s * 44 =
      omega (arith, length-append (fanout_bytes 256 0 0 s) (rows s), front, length-rows s valid) in
    let small : leb (2 ^ 32) (length s) ≡ false = ground (arith, fits) in
    let z = below_zero s in
    let start : drop (0 * 4) b ≡ fanout_bytes 256 0 (below 0 s) s ++ rows s = rw z refl in
    let read : read_fanout 256 0 0 b ≡ ok (counts 256 0 s) =
      ap (λ n. read_fanout 256 0 n b) (sym z)
      ∙ read_fanout-fanout_bytes 256 0 s b (rows s) fits start in
    let total : get_or (counts 256 0 s) 255 0 ≡ length s =
      get_or-counts 256 0 255 s (omega arith) ∙ below_256 s (firsts s valid) in
    let behind : drop 1024 b ≡ rows s = drop-append 1024 (fanout_bytes 256 0 0 s) (rows s) front in
    rw (small, len, ==_self (1024 + length s * 44), read, total, ==_self (length s), behind) refl

-- An index section built of entries with distinct keys parses with their number, and a lookup in it
-- answers for every key what the entries hold: the offset and the length of the entry with that
-- key, and none where there is none. The search ends within its fuel.
pub search_index-build_index_section :
    (es : List IndexEntry)
    → All IsEntry es
    → IsDistinct es
    → length es < 2 ^ 32
    → (fanout : List ℕ) × (entries : Bytes) × (parse_index_section
          (build_index_section es)
          (length es)
        ≡ ok (fanout, entries))
      × ((k : Key)
          → length k.bytes ≡ 32
          → first_byte k < 256
          → search_index fanout entries k ≡ some (found (find k es)))
search_index-build_index_section es valid distinct fits =
    let s = sort_entries es in
    let vs = All-sort_entries IsEntry es valid in
    let len = length-sort_entries es in
    let parsed : parse_index_section (build_index_section es) (length es)
        ≡ ok (counts 256 0 s, rows s) =
      unfold build_index_section in
      ap (parse_index_section (fanout_bytes 256 0 0 s ++ rows s)) (sym len)
      ∙ parse-rows s vs (omega (arith, len, fits)) in
    (
      counts 256 0 s,
      rows s,
      parsed,
      λ k hk hf.
          search_index-found s vs (sort_entries-IsSorted es distinct) k hk hf
          ∙ ap (λ x. some (found x)) (find-sort_entries k es distinct),
    )
