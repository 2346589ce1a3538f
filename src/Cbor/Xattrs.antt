-- ===== src/Cbor/Xattrs.antt =====
-- The extended-attribute maps of src/cbor.rs. A `BTreeMap` is `ByteMap`; `sort_by` is a stable
-- insertion sort; `m[n]`, which panics on a missing key, is `none` there.
pub mod Sorting
pub mod RoundTrip
use core_rs.Prelude.{
  ℕ, zero, suc, ◌+◌, ◌/◌, Bool, true, false, not, Option, none, some, List, [], ◌∷◌, ◌++◌, length,
  ltb, ◌==◌, if◌then◌else◌, Result, ok, err, ◌>>=◌, map_err,
}
use core_rs.Prelude.Bytes.{Bytes}
use core_rs.Prelude.Lex.{lex_lt}
use core_rs.Prelude.ByteMap
use core_rs.Prelude.ByteMap.{ByteMap}
use core_rs.Cbor.{
  Error, append_head, append_bstr, read_head, read_bstr, major_map, expected_map, trailing_bytes,
  pair_count, xattr_key, xattr_value,
}

abbrev pub Xattrs : Type 0
Xattrs = ByteMap Bytes

-- The comparison of the encoded names.
abbrev pub name_lt : Bytes → Bytes → Bool
name_lt a b = lex_lt (append_bstr [] a) (append_bstr [] b)

unfoldable pub insert_name : Bytes → List Bytes → List Bytes
insert_name a [] = a ∷ []
insert_name a (b ∷ bs) = let rest = insert_name a bs in if name_lt b a then b ∷ rest else a ∷ b ∷ bs

-- names.sort_by(…)
unfoldable pub sort_names : List Bytes → List Bytes
unfolding insert_name
sort_names [] = []
sort_names (a ∷ as') = insert_name a (sort_names as')

unfoldable pub write_pairs : Xattrs → Bytes → List Bytes → Option Bytes
write_pairs m out [] = some out
write_pairs m out (n ∷ ns) = elim (ByteMap.get n m) [
  | none ↦ none
  | some v ↦ write_pairs m (append_bstr (append_bstr out n) v) ns
]

-- encode_xattrs
unfoldable pub encode_xattrs : Xattrs → Option Bytes
encode_xattrs m = write_pairs m (append_head [] major_map (length m)) (sort_names (ByteMap.keys m))

-- The loop of decode_xattrs: `left` rounds to go, the next pair the `i`-th.
unfoldable pub read_pairs : ℕ → ℕ → Xattrs → Bytes → Result Error (Xattrs × Bytes)
read_pairs zero i m b = ok (m, b)
read_pairs (suc left) i m b = do
  (name, rest) ← map_err (read_bstr b) (xattr_key i)
  (val, rest') ← map_err (read_bstr rest) (xattr_value name)
  read_pairs left (i + 1) (ByteMap.insert name val m) rest'

unfoldable pub finish : Xattrs × Bytes → Result Error Xattrs
finish (m, b) = if length b == 0 then ok m else err (trailing_bytes (length b))

unfoldable pub read_map : ℕ × ℕ × Bytes → Result Error Xattrs
read_map (major, n, b) =
    if not (major == major_map)
    then err (expected_map major)
    else if ltb (length b / 2) n
    then err (pair_count n (length b))
    else (read_pairs n 0 [] b >>= finish)

-- decode_xattrs
unfoldable pub decode_xattrs : Bytes → Result Error Xattrs
decode_xattrs b = do h ← read_head b; read_map h
