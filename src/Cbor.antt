-- ===== src/Cbor.antt =====
-- src/cbor.rs: heads, byte strings and integers of deterministic CBOR. What the code appends to a
-- buffer is returned behind the buffer; what it reads is returned with the bytes that follow.
pub mod Head
pub mod Strings
pub mod Ints
pub mod Xattrs
mod Runs
use core_rs.Prelude.{
  ℕ, ◌+◌, ◌-◌, ◌*◌, ◌/◌, ◌%◌, ◌^◌, bit_and, bit_or, Bool, true, false, not, Option, none, some,
  List, [], ◌∷◌, ◌++◌, length, take, drop, leb, ltb, ◌==◌, if◌then◌else◌, Result, ok, err, ◌>>=◌,
}
use core_rs.Prelude.Bytes.{Bytes, to_be_bytes, from_be_bytes}
use core_rs.Prelude.Int.{ℤ, pos, negsuc}

abbrev pub major_uint : ℕ
major_uint = 0

abbrev pub major_negint : ℕ
major_negint = 1

abbrev pub major_bstr : ℕ
major_bstr = 2

abbrev pub major_tstr : ℕ
major_tstr = 3

abbrev pub major_array : ℕ
major_array = 4

abbrev pub major_map : ℕ
major_map = 5

pub data Error : Type 0 where
  unexpected_eof : Error
  unsupported_additional_info : ℕ → Error
  expected_map : ℕ → Error
  expected_byte_string : ℕ → Error
  trailing_bytes : ℕ → Error
  pair_count : ℕ → ℕ → Error
  xattr_key : ℕ → Error → Error
  xattr_value : Bytes → Error → Error

-- append_head; `n as u8` and its kin cut to the width.
unfoldable pub append_head : Bytes → ℕ → ℕ → Bytes
append_head b major n =
    let h = major * 32 % 256 in
    if ltb n 24
    then b ++ bit_or h (n % 256) ∷ []
    else if ltb n (2 ^ 8)
    then b ++ bit_or h 24 ∷ (n % 256) ∷ []
    else if ltb n (2 ^ 16)
    then b ++ (bit_or h 25 ∷ to_be_bytes 2 (n % 2 ^ 16))
    else if ltb n (2 ^ 32)
    then b ++ (bit_or h 26 ∷ to_be_bytes 4 (n % 2 ^ 32))
    else b ++ (bit_or h 27 ∷ to_be_bytes 8 n)

-- append_bstr, and append_tstr over the text's UTF-8 bytes.
unfoldable pub append_bstr : Bytes → Bytes → Bytes
append_bstr b s = append_head b major_bstr (length s) ++ s

unfoldable pub append_tstr : Bytes → Bytes → Bytes
append_tstr b s = append_head b major_tstr (length s) ++ s

-- append_int; `!(v as u64)` of a negative v is 2^64 - 1 less its two's complement.
unfoldable pub append_int : Bytes → ℤ → Bytes
append_int b (pos n) = append_head b major_uint n
append_int b (negsuc n) = append_head b major_negint (2 ^ 64 - 1 - (2 ^ 64 - (n + 1)))

abbrev pub Head : Type 0
Head = ℕ × ℕ × Bytes

-- An argument of `w` bytes behind the head byte.
unfoldable pub read_argument : ℕ → ℕ → Bytes → Result Error Head
read_argument w major b =
    if ltb (length b) w then err unexpected_eof else ok (major, from_be_bytes (take w b), drop w b)

-- read_head
unfoldable pub read_head : Bytes → Result Error Head
read_head [] = err unexpected_eof
read_head (first ∷ b) =
    let major = first / 32 in
    let ai = bit_and first 0x1f in
    if leb ai 23
    then ok (major, ai, b)
    else if ai == 24
    then read_argument 1 major b
    else if ai == 25
    then read_argument 2 major b
    else if ai == 26
    then read_argument 4 major b
    else if ai == 27
    then read_argument 8 major b
    else err (unsupported_additional_info ai)

-- the rest of read_bstr, behind the head
unfoldable pub read_body : Head → Result Error (Bytes × Bytes)
read_body (major, n, b) =
    if not (major == major_bstr)
    then err (expected_byte_string major)
    else if ltb (length b) n
    then err unexpected_eof
    else ok (take n b, drop n b)

-- read_bstr
unfoldable pub read_bstr : Bytes → Result Error (Bytes × Bytes)
read_bstr b = do h ← read_head b; read_body h
