-- ===== src/Cbor/Runs.antt =====
-- Runs of src/cbor.rs on concrete inputs, and the theorems at them.
use core_rs.Prelude.{◌+◌, ◌≤◌, ◌<◌, ◌≡◌, refl, arith, some, [], ◌∷◌, ◌++◌, length, ok, err}
use core_rs.Prelude.Bytes.{Bytes, IsU64, to_be_bytes, from_be_bytes}
use core_rs.Prelude.Lex.{lex_lt, bytes_eq}
use core_rs.Prelude.ByteMap
use core_rs.Cbor.{
  append_head, append_bstr, read_argument, read_head, read_body, read_bstr, unexpected_eof,
  unsupported_additional_info, expected_byte_string, trailing_bytes,
}
use core_rs.Cbor.Head.{read_head-append_head, append_head_shortest}
use core_rs.Cbor.Xattrs.{
  Xattrs, encode_xattrs, decode_xattrs, sort_names, write_pairs, read_pairs, read_map, finish,
}
use core_rs.Cbor.Xattrs.RoundTrip.{decode_xattrs-encode_xattrs}

head_500 : append_head [] 2 500 ≡ 0x59 ∷ 0x01 ∷ 0xf4 ∷ []
unfolding append_head to_be_bytes
head_500 = refl

-- A head that is not the shortest is read too.
padded_head : read_head (0x18 ∷ 0x05 ∷ 9 ∷ []) ≡ ok (0, 5, 9 ∷ [])
unfolding read_head read_argument from_be_bytes
padded_head = refl

bad_heads :
    (read_head [] ≡ err unexpected_eof)
    × (read_head (0x19 ∷ 1 ∷ []) ≡ err unexpected_eof)
    × (read_head (0x5f ∷ []) ≡ err (unsupported_additional_info 31))
    × (read_bstr (0x63 ∷ []) ≡ err (expected_byte_string 3))
unfolding read_head read_argument read_bstr read_body
bad_heads = (refl, refl, refl, refl)

-- Shorter names come first, whatever their letters.
abbrev attrs : Xattrs
attrs = ((1 ∷ 2 ∷ []), (5 ∷ [])) ∷ ((3 ∷ []), []) ∷ []

attrs_written : encode_xattrs attrs ≡ some (0xa2 ∷ 0x41 ∷ 3 ∷ 0x40 ∷ 0x42 ∷ 1 ∷ 2 ∷ 0x41 ∷ 5 ∷ [])
unfolding encode_xattrs sort_names write_pairs append_bstr append_head lex_lt ByteMap.get bytes_eq
attrs_written = refl

attrs_trailing : decode_xattrs (0xa0 ∷ 0 ∷ []) ≡ err (trailing_bytes 1)
unfolding decode_xattrs read_head read_map read_pairs finish
attrs_trailing = refl

read_head-append_head_example : read_head (append_head [] 5 70000 ++ 1 ∷ []) ≡ ok (5, 70000, 1 ∷ [])
read_head-append_head_example = read_head-append_head 5 (omega arith) 70000 (1 ∷ []) (omega arith)

append_head_shortest_example : (0 < 8) × IsU64 5 × (length (append_head [] 0 5) + 1 ≤ 3)
append_head_shortest_example =
    append_head_shortest (0x18 ∷ 0x05 ∷ 9 ∷ []) 0 5 (9 ∷ []) (omega arith) padded_head

attrs-IsSorted : ByteMap.IsSorted attrs
unfolding lex_lt
attrs-IsSorted = ((refl, tt), (tt, tt))

decode_xattrs-encode_xattrs_example :
    (out : Bytes) × (encode_xattrs attrs ≡ some out) × (decode_xattrs out ≡ ok attrs)
decode_xattrs-encode_xattrs_example =
    decode_xattrs-encode_xattrs attrs attrs-IsSorted (omega arith) (omega arith)
