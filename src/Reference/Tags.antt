-- ===== src/Reference/Tags.antt =====
-- The tags in front of a value, and bignums (src/reference.rs). A loop that takes the tags off has
-- fuel for each byte and for the round that finds no tag: a tag's head is one byte at least.
use core_rs.Prelude.{
  ℕ, zero, suc, ◌*◌, ◌+◌, ◌/◌, Bool, true, not, ◌&&◌, ◌||◌, Option, none, some, [], ◌∷◌, length,
  take, drop, leb, ltb, ◌==◌, if◌then◌else◌, Result, ok, err, ◌>>=◌,
}
use core_rs.Prelude.Bytes.{Bytes}
use core_rs.Cbor.{Head, major_uint, major_negint, major_bstr, major_tstr, unexpected_eof}
use core_rs.Reference.{DecodeError, cbor, bad_tag_content, spent}
use core_rs.Reference.Wellformed.{major_tag, head_of}

-- Only the one-byte heads 0xF6 and 0xF7.
abbrev pub is_null_head : ℕ → ℕ → ℕ → Bool
is_null_head major arg head_len = major == 7 && head_len == 1 && (arg == 22 || arg == 23)

abbrev pub tag_self_described : ℕ
tag_self_described = 55799

unfoldable pub tag_of : Result DecodeError Head → Option (ℕ × Bytes)
tag_of (err e) = none
tag_of (ok (_, n, rest)) = some (n, rest)

unfoldable pub peek_tag : Bytes → Option (ℕ × Bytes)
peek_tag [] = none
peek_tag (first ∷ b) = if not (first / 32 == major_tag) then none else tag_of (head_of (first ∷ b))

-- A round of the first loop of strip_and_check_tags, and the loop.
unfoldable pub strip_tag :
    (Bytes → Result DecodeError Bytes) → Bytes → Option (ℕ × Bytes) → Result DecodeError Bytes
strip_tag go b none = ok b
strip_tag go b (some (tag, rest)) = if tag == tag_self_described then go rest else ok b

unfoldable pub strip_tags : ℕ → Bytes → Result DecodeError Bytes
strip_tags zero b = err spent
strip_tags (suc fuel) b = strip_tag (strip_tags fuel) b (peek_tag b)

-- The content that a built-in tag may have.
abbrev pub is_tag_content : ℕ → ℕ → Bool
is_tag_content tag content =
    let got = content / 32 in
    if tag == 0
    then got == major_tstr
    else if tag == 1
    then got == major_uint || got == major_negint || (leb 0xf9 content && leb content 0xfb)
    else if tag == 2 || tag == 3
    then got == major_bstr
    else true

-- A round of the second loop, and the loop.
unfoldable pub check_tag :
    (Bytes → Result DecodeError Unit) → Option (ℕ × Bytes) → Result DecodeError Unit
check_tag go none = ok tt
check_tag go (some (tag, [])) = err (cbor unexpected_eof)
check_tag go (some (tag, content ∷ rest)) =
    if not (is_tag_content tag content)
    then err (bad_tag_content tag (content / 32))
    else go (content ∷ rest)

unfoldable pub check_tags : ℕ → Bytes → Result DecodeError Unit
check_tags zero cur = err spent
check_tags (suc fuel) cur = check_tag (check_tags fuel) (peek_tag cur)

unfoldable pub strip_and_check_tags : Bytes → Result DecodeError Bytes
strip_and_check_tags b = do
  b' ← strip_tags (suc (length b)) b
  _ ← check_tags (suc (length b')) b'
  ok b'

-- The rest of a string, behind its head.
abbrev pub string_body : ℕ → Bytes → Result DecodeError (Bytes × Bytes)
string_body n rest =
    if ltb (length rest) n then err (cbor unexpected_eof) else ok (take n rest, drop n rest)

unfoldable pub read_bignum_content : Bytes → ℕ → Result DecodeError (Bytes × Bytes)
read_bignum_content b tag = do
  (major, n, rest) ← head_of b
  if not (major == major_bstr) then err (bad_tag_content tag major) else string_body n rest

-- content.iter().position(|&x| x != 0), and what stands from there
unfoldable pub digits_of : Bytes → Bytes
digits_of [] = []
digits_of (x ∷ xs) = let rest = digits_of xs in if x == 0 then rest else x ∷ xs

-- v << 8 | byte, for at most 8 bytes
unfoldable pub magnitude : ℕ → Bytes → ℕ
magnitude v [] = v
magnitude v (x ∷ xs) = magnitude (v * 256 + x) xs

unfoldable pub bignum_magnitude : Bytes → Option ℕ
bignum_magnitude content =
    let digits = digits_of content in
    if ltb 8 (length digits) then none else some (magnitude 0 digits)
