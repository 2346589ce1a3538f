-- ===== src/Reference/Wellformed.antt =====
-- `skip_item` of src/reference.rs: one CBOR item is skipped, with its well-formedness checked. The
-- recursion is on the levels that are left below MAX_NESTED_LEVELS, `max_nested_levels - depth`:
-- every call of the code that is at the same depth is one for a tag's content, which is no tag.
use core_rs.Prelude.{
  ℕ, zero, suc, ◌-◌, ◌*◌, ◌/◌, ◌&&◌, ◌||◌, Option, none, some, [], ◌∷◌, length, drop, ltb, ◌==◌,
  if◌then◌else◌, Result, ok, err, ◌>>=◌, map_err,
}
use core_rs.Prelude.Bytes.{Bytes}
use core_rs.Cbor.{Head, read_head, major_bstr, major_tstr, major_array, major_map, unexpected_eof}
use core_rs.Reference.{DecodeError, cbor, max_nested_levels_exceeded, invalid_simple_value}

abbrev pub max_nested_levels : ℕ
max_nested_levels = 32

abbrev pub major_tag : ℕ
major_tag = 6

-- cbor::read_head(b)?
abbrev pub head_of : Bytes → Result DecodeError Head
head_of b = map_err (read_head b) cbor

-- The functions that skip an item, and a tag's content, with some levels left.
pub record Skip : Type 0 where
  pub item : Bytes → Result DecodeError Bytes
  pub content : Bytes → Result DecodeError Bytes

-- The loops over the items of an array or a map, with `n` items to go.
unfoldable pub repeat_item :
    (Bytes → Result DecodeError Bytes) → ℕ → Bytes → Result DecodeError Bytes
repeat_item f zero rest = ok rest
repeat_item f (suc n) rest = do rest' ← f rest; repeat_item f n rest'

unfoldable pub skip_nested : Option Skip → ℕ → Bytes → Result DecodeError Bytes
skip_nested none n rest = err max_nested_levels_exceeded
skip_nested (some deeper) n rest = repeat_item deeper.item n rest

-- skip_item of an item that is no tag, behind its head; `b` is the item.
unfoldable pub skip_plain : Option Skip → Bytes → Head → Result DecodeError Bytes
skip_plain deeper b (major, n, rest) =
    if major == major_bstr || major == major_tstr
    then (if ltb (length rest) n then err (cbor unexpected_eof) else ok (drop n rest))
    else if major == major_array
    then skip_nested deeper n rest
    else if major == major_map
    then skip_nested deeper (2 * n) rest
    else if major == 7 && length b - length rest == 2 && ltb n 32
    then err (invalid_simple_value n)
    else ok rest

-- One more tag of a chain takes a level.
unfoldable pub next_tag : Option Skip → Bytes → Result DecodeError Bytes
next_tag none r = err max_nested_levels_exceeded
next_tag (some deeper) r = deeper.content r

unfoldable pub tagged : Option Skip → Result DecodeError Head → Result DecodeError Bytes
tagged deeper (err e) = err e
tagged deeper (ok (_, _, r)) = next_tag deeper r

-- The loop over a chain of tags, and the item behind it.
unfoldable pub skip_content : Option Skip → Bytes → Result DecodeError Bytes
skip_content deeper [] = err (cbor unexpected_eof)
skip_content deeper (next ∷ b) =
    if next / 32 == major_tag
    then tagged deeper (head_of (next ∷ b))
    else (head_of (next ∷ b) >>= skip_plain deeper (next ∷ b))

abbrev pub skip_headed : Option Skip → Bytes → Head → Result DecodeError Bytes
skip_headed deeper b (major, n, rest) =
    if major == major_tag then skip_content deeper rest else skip_plain deeper b (major, n, rest)

abbrev pub skip_level : Option Skip → Skip
skip_level deeper = record {
  item = λ b. (head_of b >>= skip_headed deeper b);
  content = skip_content deeper;
}

unfoldable pub skips : ℕ → Skip
skips zero = skip_level none
skips (suc left) = skip_level (some (skips left))

-- skip_item
unfoldable pub skip_item : Bytes → ℕ → Result DecodeError Bytes
skip_item b depth = (skips (max_nested_levels - depth)).item b
