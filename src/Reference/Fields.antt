-- ===== src/Reference/Fields.antt =====
-- The readers of a field's value (src/reference.rs). Those that unwrap tags have fuel for each
-- byte and one round more.
use core_rs.Prelude.{
  ℕ, zero, suc, ◌-◌, ◌^◌, Bool, true, false, not, ◌&&◌, ◌||◌, Option, none, some, List, [], ◌∷◌,
  length, leb, ltb, ◌==◌, if◌then◌else◌, Result, ok, err, ◌>>=◌,
}
use core_rs.Prelude.Bytes.{Bytes}
use core_rs.Prelude.Int.{ℤ, pos, negsuc}
use core_rs.Cbor.{Head, major_uint, major_negint, major_bstr, major_tstr, major_array}
use core_rs.Reference.{
  DecodeError, wrong_field_type, invalid_utf8, int_overflow, bignum_overflow, byte_elem_type,
  byte_elem_overflow, spent,
}
use core_rs.Reference.Wellformed.{major_tag, head_of}
use core_rs.Reference.Tags.{
  is_null_head, strip_and_check_tags, string_body, read_bignum_content, bignum_magnitude,
}

-- The ranges that the bytes behind a first byte stand in; `none` for no first byte
-- (std::str::from_utf8).
abbrev pub continuations : ℕ → Option (List (ℕ × ℕ))
continuations b =
    let tail : ℕ × ℕ = (0x80, 0xbf) in
    if ltb b 0x80
    then some []
    else if ltb b 0xc2
    then none
    else if ltb b 0xe0
    then some (tail ∷ [])
    else if b == 0xe0
    then some ((0xa0, 0xbf) ∷ tail ∷ [])
    else if b == 0xed
    then some ((0x80, 0x9f) ∷ tail ∷ [])
    else if ltb b 0xf0
    then some (tail ∷ tail ∷ [])
    else if b == 0xf0
    then some ((0x90, 0xbf) ∷ tail ∷ tail ∷ [])
    else if ltb b 0xf4
    then some (tail ∷ tail ∷ tail ∷ [])
    else if b == 0xf4
    then some ((0x80, 0x8f) ∷ tail ∷ tail ∷ [])
    else none

unfoldable pub is_utf8_in : List (ℕ × ℕ) → Bytes → Bool
is_utf8_in [] [] = true
is_utf8_in (r ∷ rs) [] = false
is_utf8_in [] (b ∷ bs) = elim (continuations b) [ none ↦ false | some rs ↦ is_utf8_in rs bs ]
is_utf8_in ((lo, hi) ∷ rs) (b ∷ bs) = leb lo b && leb b hi && is_utf8_in rs bs

unfoldable pub is_utf8 : Bytes → Bool
is_utf8 b = is_utf8_in [] b

unfoldable pub text_body : ℕ → Bytes → Result DecodeError (Bytes × Bytes)
text_body n rest = do
  (s, rest') ← string_body n rest
  if not (is_utf8 s) then err invalid_utf8 else ok (s, rest')

unfoldable pub tstr_headed :
    (Bytes → Result DecodeError (Bytes × Bytes))
    → ℕ
    → Bytes
    → Head
    → Result DecodeError (Bytes × Bytes)
tstr_headed go field b (major, n, rest) =
    if major == major_tag
    then if n == 2 || n == 3 then err (wrong_field_type field major_tag) else go rest
    else if is_null_head major n (length b - length rest)
    then ok ([], rest)
    else if not (major == major_tstr)
    then err (wrong_field_type field major)
    else text_body n rest

unfoldable pub tstr_field : ℕ → ℕ → Bytes → Result DecodeError (Bytes × Bytes)
tstr_field zero field b = err spent
tstr_field (suc fuel) field b = do
  b' ← strip_and_check_tags b
  h ← head_of b'
  tstr_headed (tstr_field fuel field) field b' h

unfoldable pub read_tstr_field : Bytes → ℕ → Result DecodeError (Bytes × Bytes)
read_tstr_field b field = tstr_field (suc (length b)) field b

-- The branches of a bignum in read_byte_elem, on its content and what follows.
abbrev byte_of_magnitude : ℕ → Bytes → Option ℕ → Result DecodeError (ℕ × Bytes)
byte_of_magnitude field rest none = err (byte_elem_overflow field)
byte_of_magnitude field rest (some v) =
    if leb v 255 then ok (v, rest) else err (byte_elem_overflow field)

unfoldable pub byte_of_bignum : ℕ → Bytes × Bytes → Result DecodeError (ℕ × Bytes)
byte_of_bignum field (content, rest) = byte_of_magnitude field rest (bignum_magnitude content)

abbrev byte_of_negative_magnitude : ℕ → Option ℕ → Result DecodeError (ℕ × Bytes)
byte_of_negative_magnitude field none = err (byte_elem_overflow field)
byte_of_negative_magnitude field (some m) =
    if leb m (2 ^ 63 - 1)
    then err (byte_elem_type field major_tag)
    else err (byte_elem_overflow field)

unfoldable pub byte_of_negative : ℕ → Bytes × Bytes → Result DecodeError (ℕ × Bytes)
byte_of_negative field (content, rest) = byte_of_negative_magnitude field (bignum_magnitude content)

-- The value of a simple value's head of one or two bytes; other heads are floats.
abbrev pub simple_value : {A : Type 0} → (ℕ → A) → DecodeError → ℕ → ℕ → Result DecodeError A
simple_value f wrong n head_len =
    if head_len == 1
    then (if n == 20 || n == 21
        then err wrong
        else if n == 22 || n == 23
        then ok (f 0)
        else ok (f n))
    else if head_len == 2
    then ok (f n)
    else err wrong

unfoldable pub byte_headed :
    (Bytes → Result DecodeError (ℕ × Bytes)) → ℕ → Bytes → Head → Result DecodeError (ℕ × Bytes)
byte_headed go field b (major, n, rest) =
    if major == major_uint
    then if ltb 255 n then err (byte_elem_overflow field) else ok (n, rest)
    else if major == major_tag
    then (if n == 2
        then (read_bignum_content rest n >>= byte_of_bignum field)
        else if n == 3
        then (read_bignum_content rest n >>= byte_of_negative field)
        else go rest)
    else if major == 7
    then simple_value (λ v. (v, rest)) (byte_elem_type field 7) n (length b - length rest)
    else err (byte_elem_type field major)

unfoldable pub byte_elem : ℕ → ℕ → Bytes → Result DecodeError (ℕ × Bytes)
byte_elem zero field b = err spent
byte_elem (suc fuel) field b = do
  b' ← strip_and_check_tags b
  h ← head_of b'
  byte_headed (byte_elem fuel field) field b' h

unfoldable pub read_byte_elem : Bytes → ℕ → Result DecodeError (ℕ × Bytes)
read_byte_elem b field = byte_elem (suc (length b)) field b

-- The loop over the elements, with `n` to go.
unfoldable pub read_byte_elems : ℕ → Bytes → ℕ → Result DecodeError (Bytes × Bytes)
read_byte_elems zero rest field = ok ([], rest)
read_byte_elems (suc n) rest field = do
  (byte, r) ← read_byte_elem rest field
  (out, r') ← read_byte_elems n r field
  ok (byte ∷ out, r')

unfoldable pub bstr_headed :
    (Bytes → Result DecodeError (Bytes × Bytes))
    → ℕ
    → Bytes
    → Head
    → Result DecodeError (Bytes × Bytes)
bstr_headed go field b (major, n, rest) =
    if major == major_tag
    then if n == 2 || n == 3 then read_bignum_content rest n else go rest
    else if is_null_head major n (length b - length rest)
    then ok ([], rest)
    else if major == major_bstr
    then string_body n rest
    else if major == major_array
    then read_byte_elems n rest field
    else err (wrong_field_type field major)

unfoldable pub bstr_field : ℕ → ℕ → Bytes → Result DecodeError (Bytes × Bytes)
bstr_field zero field b = err spent
bstr_field (suc fuel) field b = do
  b' ← strip_and_check_tags b
  h ← head_of b'
  bstr_headed (bstr_field fuel field) field b' h

unfoldable pub read_bstr_field : Bytes → ℕ → Result DecodeError (Bytes × Bytes)
read_bstr_field b field = bstr_field (suc (length b)) field b

-- The branches of a bignum in read_int64_field; `sign` makes the integer of the magnitude.
abbrev int_of_magnitude : Bool → (ℕ → ℤ) → Bytes → Option ℕ → Result DecodeError (ℤ × Bytes)
int_of_magnitude negative sign rest none = err (bignum_overflow negative)
int_of_magnitude negative sign rest (some v) =
    if leb v (2 ^ 63 - 1) then ok (sign v, rest) else err (bignum_overflow negative)

unfoldable pub int_of_bignum : Bool → (ℕ → ℤ) → Bytes × Bytes → Result DecodeError (ℤ × Bytes)
int_of_bignum negative sign (content, rest) =
    int_of_magnitude negative sign rest (bignum_magnitude content)

unfoldable pub int64_headed :
    (Bytes → Result DecodeError (ℤ × Bytes)) → Bytes → Head → Result DecodeError (ℤ × Bytes)
int64_headed go b (major, n, rest) =
    if major == major_uint
    then if ltb (2 ^ 63 - 1) n then err (int_overflow false) else ok (pos n, rest)
    else if major == major_negint
    then if ltb (2 ^ 63 - 1) n then err (int_overflow true) else ok (negsuc n, rest)
    else if major == major_tag
    then (if n == 2
        then (read_bignum_content rest n >>= int_of_bignum false pos)
        else if n == 3
        then (read_bignum_content rest n >>= int_of_bignum true negsuc)
        else go rest)
    else if major == 7
    then simple_value (λ v. (pos v, rest)) (wrong_field_type 3 7) n (length b - length rest)
    else err (wrong_field_type 3 major)

unfoldable pub int64_field : ℕ → Bytes → Result DecodeError (ℤ × Bytes)
int64_field zero b = err spent
int64_field (suc fuel) b = do
  b' ← strip_and_check_tags b
  h ← head_of b'
  int64_headed (int64_field fuel) b' h

unfoldable pub read_int64_field : Bytes → Result DecodeError (ℤ × Bytes)
read_int64_field b = int64_field (suc (length b)) b
