-- ===== src/Gitobj/Links.antt =====
-- The links that src/gitobj.rs reads from a payload. A loop that takes a prefix of its input each
-- round has fuel; `none` is no outcome of the code: the fuel ran out.
pub mod Ids
pub mod Commits
pub mod Trees
pub mod Total
use core_rs.Prelude.{
  ℕ, zero, suc, ◌+◌, ◌-◌, ◌*◌, ◌/◌, ◌%◌, ◌^◌, bit_and, bit_or, Bool, true, false, not, ◌&&◌, ◌||◌,
  Option, none, some, List, [], ◌∷◌, ◌++◌, length, get_or, take, drop, leb, ltb, ◌==◌,
  if◌then◌else◌, Result, ok, err, ◌>>=◌, ok_or,
}
use core_rs.Prelude.Bytes.{Bytes}
use core_rs.Key.{Key, new_git_sha1}
use core_rs.Gitobj.{
  Error, malformed, no_line, bad_line, no_mode, not_octal, no_name_end, empty_name, short_id, Kind,
  blob, tree, commit, tag, kind_of, position, parse,
}

pub record Link : Type 0 where
  pub key : Key
  pub leaf : Bool

abbrev pub hex_len : ℕ
hex_len = 40

-- hex_digit
unfoldable pub hex_digit : ℕ → Option ℕ
hex_digit c =
    if leb 48 c && leb c 57
    then some (c - 48)
    else if leb 97 c && leb c 102
    then some (c - 97 + 10)
    else if leb 65 c && leb c 70
    then some (c - 65 + 10)
    else none

-- b.strip_prefix(prefix)
unfoldable pub strip_prefix : Bytes → Bytes → Option Bytes
strip_prefix b [] = some b
strip_prefix [] (p ∷ ps) = none
strip_prefix (x ∷ b) (p ∷ ps) = let rest = strip_prefix b ps in if x == p then rest else none

-- The byte of two hex digits, `hi << 4 | lo`.
unfoldable pub hex_byte : Option ℕ → Option ℕ → Option ℕ
hex_byte none lo = none
hex_byte (some hi) none = none
hex_byte (some hi) (some lo) = some (bit_or (hi * 16 % 256) lo)

unfoldable pub hex_cons : Option ℕ → Option Bytes → Option Bytes
hex_cons none rest = none
hex_cons (some b) none = none
hex_cons (some b) (some rest) = some (b ∷ rest)

-- The loop of id_line over the bytes of `sum`, with `left` rounds to go.
unfoldable pub hex_bytes : ℕ → Bytes → Option Bytes
hex_bytes zero r = some []
hex_bytes (suc left) (hi ∷ lo ∷ r) =
    hex_cons (hex_byte (hex_digit hi) (hex_digit lo)) (hex_bytes left r)
hex_bytes (suc left) _ = none

-- The prefix without the space that ends it.
abbrev pub word : Bytes → Bytes
word prefix = take (length prefix - 1) prefix

unfoldable pub id_behind : Bytes → Option Bytes → Result Error (Key × Bytes)
id_behind prefix none = err (malformed (no_line (word prefix)))
id_behind prefix (some rest) =
    if ltb (length rest) (hex_len + 1) || not (get_or rest hex_len 0 == 10)
    then err (malformed (bad_line (word prefix)))
    else do
      sum ← ok_or (hex_bytes 20 rest) (malformed (bad_line (word prefix)))
      ok (new_git_sha1 sum, drop (hex_len + 1) rest)

-- id_line
unfoldable pub id_line : Bytes → Bytes → Result Error (Key × Bytes)
id_line b prefix = id_behind prefix (strip_prefix b prefix)

abbrev pub tree_word : Bytes
tree_word = b't' ∷ b'r' ∷ b'e' ∷ b'e' ∷ b' ' ∷ []

abbrev pub parent_word : Bytes
parent_word = b'p' ∷ b'a' ∷ b'r' ∷ b'e' ∷ b'n' ∷ b't' ∷ b' ' ∷ []

abbrev pub object_word : Bytes
object_word = b'o' ∷ b'b' ∷ b'j' ∷ b'e' ∷ b'c' ∷ b't' ∷ b' ' ∷ []

abbrev pub type_word : Bytes
type_word = b't' ∷ b'y' ∷ b'p' ∷ b'e' ∷ b' ' ∷ []

-- rest.starts_with(b"parent ")
unfoldable pub starts_with : Bytes → Bytes → Bool
starts_with b prefix = elim (strip_prefix b prefix) [ none ↦ false | some _ ↦ true ]

abbrev pub Links : Type 0
Links = Option (Result Error (List Link))

-- The condition of the loop of commit_links.
unfoldable pub has_parent : Bytes → Bool
has_parent rest = ltb (7 + hex_len) (length rest) && starts_with rest parent_word

-- The loop of commit_links.
unfoldable pub parent_loop : ℕ → List Link → Bytes → Links
parent_loop zero out rest = none
parent_loop (suc fuel) out rest = elim (has_parent rest) [
  | false ↦ some (ok out)
  | true ↦ elim (id_line rest parent_word) [
    | err e ↦ some (err e)
    | ok (parent, after) ↦
        parent_loop fuel (out ++ record { key = parent; leaf = false } ∷ []) after
  ]
]

-- commit_links
unfoldable pub commit_links : Bytes → Links
commit_links b = elim (id_line b tree_word) [
  | err e ↦ some (err e)
  | ok (t, rest) ↦ parent_loop (length rest + 1) (record { key = t; leaf = false } ∷ []) rest
]

-- .split(|&c| c == 0).next()
unfoldable pub until_nul : Bytes → Bytes
until_nul [] = []
until_nul (c ∷ cs) = let rest = until_nul cs in if c == 0 then [] else c ∷ rest

abbrev pub is_blob : Kind → Bool
is_blob blob = true
is_blob _ = false

-- tag_links
unfoldable pub tag_links : Bytes → Result Error (List Link)
tag_links b = do
  (target, rest) ← id_line b object_word
  rest' ← ok_or (strip_prefix rest type_word) (malformed (no_line (word type_word)))
  nl ← ok_or (position 10 rest') (malformed (bad_line (word type_word)))
  kind ← ok_or (kind_of (until_nul (take nl rest'))) (malformed (bad_line (word type_word)))
  ok (record { key = target; leaf = is_blob kind } ∷ [])

abbrev pub mode_type_mask : ℕ
mode_type_mask = 0o170000

abbrev pub mode_dir : ℕ
mode_dir = 0o040000

abbrev pub mode_regular : ℕ
mode_regular = 0o100000

abbrev pub mode_symlink : ℕ
mode_symlink = 0o120000

-- The loop over the digits of a mode; `mode << 3` drops the high bits of the u32.
unfoldable pub mode_loop : ℕ → Bytes → Option ℕ
mode_loop mode [] = some mode
mode_loop mode (c ∷ cs) =
    let rest = mode_loop (bit_or (mode * 8 % 2 ^ 32) (c - 48)) cs in
    if leb 48 c && leb c 55 then rest else none

-- The arms of the match on an entry's mode.
unfoldable pub entry_link : ℕ → Key → List Link
entry_link mode k =
    if bit_and mode mode_type_mask == mode_dir
    then record { key = k; leaf = false } ∷ []
    else if bit_and mode mode_type_mask == mode_regular
        || bit_and mode mode_type_mask == mode_symlink
    then record { key = k; leaf = true } ∷ []
    else []

-- The parts of an entry, from the last: the id, the name, the mode.
unfoldable pub entry_id : ℕ → Bytes → Result Error (List Link × Bytes)
entry_id mode b =
    if ltb (length b) 20
    then err (malformed short_id)
    else ok (entry_link mode (new_git_sha1 (take 20 b)), drop 20 b)

unfoldable pub entry_name : ℕ → Bytes → Option ℕ → Result Error (List Link × Bytes)
entry_name mode b none = err (malformed no_name_end)
entry_name mode b (some nul) =
    if nul == 0 then err (malformed empty_name) else entry_id mode (drop (nul + 1) b)

unfoldable pub entry_mode : Bytes → Option ℕ → Result Error (List Link × Bytes)
entry_mode b none = err (malformed no_mode)
entry_mode b (some sp) = if sp == 0 then err (malformed no_mode) else do
  mode ← ok_or (mode_loop 0 (take sp b)) (malformed not_octal)
  entry_name mode (drop (sp + 1) b) (position 0 (drop (sp + 1) b))

-- One round of the loop of tree_links.
unfoldable pub tree_entry : Bytes → Result Error (List Link × Bytes)
tree_entry b = entry_mode b (position b' ' b)

unfoldable pub tree_loop : ℕ → List Link → Bytes → Links
tree_loop zero out b = none
tree_loop (suc fuel) out [] = some (ok out)
tree_loop (suc fuel) out (x ∷ b) = elim (tree_entry (x ∷ b)) [
  | err e ↦ some (err e)
  | ok (l, rest) ↦ tree_loop fuel (out ++ l) rest
]

-- tree_links; an entry takes a byte at least.
unfoldable pub tree_links : Bytes → Links
tree_links b = tree_loop (length b + 1) [] b

unfoldable pub kind_links : Kind → Bytes → Links
kind_links blob content = some (ok [])
kind_links tree content = tree_links content
kind_links commit content = commit_links content
kind_links tag content = some (tag_links content)

-- links
unfoldable pub links : Bytes → Links
links b = elim (parse b) [ err e ↦ some (err e) | ok (kind, content) ↦ kind_links kind content ]
