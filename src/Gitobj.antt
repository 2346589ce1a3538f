-- ===== src/Gitobj.antt =====
-- src/gitobj.rs: the frame of a git object, and its hash. The texts of `Malformed` are the
-- constructors of `Reason`; the collision-detecting SHA-1 is an argument, with `none` for a collision.
pub mod Decimal
pub mod Frame
pub mod Links
mod Runs
use core_rs.Prelude.{
  ℕ, zero, suc, ◌+◌, ◌-◌, ◌*◌, ◌/◌, ◌%◌, ◌^◌, Bool, true, false, not, ◌&&◌, ◌||◌, Option, none,
  some, List, [], ◌∷◌, ◌++◌, length, get_or, take, drop, leb, ltb, ◌==◌, if◌then◌else◌, Result, ok,
  err, ◌>>=◌, ◌>>◌,
}
use core_rs.Prelude.Bytes.{Bytes}
use core_rs.Prelude.Lex.{bytes_eq}
use core_rs.Key.{Key, new_git_sha1}

pub data Reason : Type 0 where
  no_space unknown_kind no_nul bad_size : Reason
  wrong_size : ℕ → ℕ → Reason
  no_line : Bytes → Reason
  bad_line : Bytes → Reason
  no_mode not_octal no_name_end empty_name short_id : Reason

pub data Error : Type 0 where
  malformed : Reason → Error
  mismatch : Key → Key → Error
  collision : Error

pub data Kind : Type 0 where
  blob tree commit tag : Kind

-- Kind::name
abbrev pub name : Kind → Bytes
name blob = b'b' ∷ b'l' ∷ b'o' ∷ b'b' ∷ []
name tree = b't' ∷ b'r' ∷ b'e' ∷ b'e' ∷ []
name commit = b'c' ∷ b'o' ∷ b'm' ∷ b'm' ∷ b'i' ∷ b't' ∷ []
name tag = b't' ∷ b'a' ∷ b'g' ∷ []

-- Kind::of
unfoldable pub kind_of : Bytes → Option Kind
kind_of n =
    if bytes_eq n (name blob)
    then some blob
    else if bytes_eq n (name tree)
    then some tree
    else if bytes_eq n (name commit)
    then some commit
    else if bytes_eq n (name tag)
    then some tag
    else none

-- `to_string` of a u64, which has 20 digits at most.
unfoldable pub decimal : ℕ → ℕ → Bytes
decimal zero n = []
decimal (suc f) n =
    let front = decimal f (n / 10) in
    if ltb n 10 then (48 + n) ∷ [] else front ++ (48 + n % 10) ∷ []

unfoldable pub to_string : ℕ → Bytes
to_string n = decimal 20 n

-- encode
unfoldable pub encode : Kind → Bytes → Bytes
encode kind content = name kind ++ (b' ' ∷ (to_string (length content) ++ (0 ∷ content)))

-- .iter().position(|&b| b == c)
unfoldable pub position : ℕ → Bytes → Option ℕ
position c [] = none
position c (b ∷ bs) =
    let rest = position c bs in
    if b == c then some 0 else (elim rest [ none ↦ none | some i ↦ some (suc i) ])

-- The loop of parse_size, with checked_mul and checked_add.
unfoldable pub size_loop : ℕ → Bytes → Option ℕ
size_loop n [] = some n
size_loop n (c ∷ cs) =
    let rest = size_loop (n * 10 + (c - 48)) cs in
    if ltb c 48 || ltb 57 c
    then none
    else if leb (2 ^ 64) (n * 10)
    then none
    else if leb (2 ^ 64) (n * 10 + (c - 48))
    then none
    else rest

-- parse_size
unfoldable pub parse_size : Bytes → Option ℕ
parse_size b =
    if length b == 0 || get_or b 0 0 == 48 && ltb 1 (length b) then none else size_loop 0 b

-- The parts of parse, from the last.
unfoldable pub parse_content : Kind → Option ℕ → Bytes → Result Error (Kind × Bytes)
parse_content kind none content = err (malformed bad_size)
parse_content kind (some n) content =
    if n == length content
    then ok (kind, content)
    else err (malformed (wrong_size n (length content)))

unfoldable pub parse_sized : Kind → Bytes → Option ℕ → Result Error (Kind × Bytes)
parse_sized kind rest none = err (malformed no_nul)
parse_sized kind rest (some nul) =
    parse_content kind (parse_size (take nul rest)) (drop (nul + 1) rest)

unfoldable pub parse_kind : Option Kind → Bytes → Result Error (Kind × Bytes)
parse_kind none rest = err (malformed unknown_kind)
parse_kind (some kind) rest = parse_sized kind rest (position 0 rest)

unfoldable pub parse_spaced : Bytes → Option ℕ → Result Error (Kind × Bytes)
parse_spaced b none = err (malformed no_space)
parse_spaced b (some sp) = parse_kind (kind_of (take sp b)) (drop (sp + 1) b)

-- parse
unfoldable pub parse : Bytes → Result Error (Kind × Bytes)
parse b = parse_spaced b (position b' ' b)

-- key_of
unfoldable pub key_of : (Bytes → Option Bytes) → Bytes → Result Error Key
key_of sha1 b = elim (sha1 b) [ none ↦ err collision | some sum ↦ ok (new_git_sha1 sum) ]

-- verify
unfoldable pub verify : (Bytes → Option Bytes) → Key → Bytes → Result Error (Unit {0})
verify sha1 k b = do
  want ← key_of sha1 b
  if not (bytes_eq want.bytes k.bytes) then err (mismatch want k) else do parse b; ok tt
