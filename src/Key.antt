-- ===== src/Key.antt =====
-- src/key.rs: the 32-byte content key. A key is its byte array; a panic is `none`.
pub mod Layout
pub mod LengthSize
pub mod Accessors
pub mod RoundTrip
pub mod Canonical
pub mod Git
pub mod Exact
mod Runs
use core_rs.Prelude.{
  ℕ, ◌+◌, ◌-◌, ◌*◌, ◌/◌, ◌%◌, bit_and, bit_or, ◌≡◌, Bool, true, false, not, ◌&&◌, Option, none,
  some, [], ◌∷◌, ◌++◌, reverse, length, get_or, take, replicate, slice, All, leb, ◌==◌,
  if◌then◌else◌, Result, ok, err, ◌>>=◌,
}
use core_rs.Prelude.Bytes.{IsByte, Bytes, to_le_bytes, from_le_bytes, leading_zeros}

-- The seven defined CAS object types.
pub data ObjType : Type 0 where
  blob file_node dir_leaf dir_node xattr_set commit git_sha1 : ObjType

-- `t as u8`
abbrev pub to_u8 : ObjType → ℕ
to_u8 blob = 0
to_u8 file_node = 1
to_u8 dir_leaf = 2
to_u8 dir_node = 3
to_u8 xattr_set = 4
to_u8 commit = 5
to_u8 git_sha1 = 6

-- Type::is_valid
unfoldable pub is_valid : ℕ → Bool
is_valid v = leb v (to_u8 git_sha1)

-- Type::from_u8
unfoldable pub from_u8 : ℕ → Option ObjType
from_u8 v =
    if v == 0
    then some blob
    else if v == 1
    then some file_node
    else if v == 2
    then some dir_leaf
    else if v == 3
    then some dir_node
    else if v == 4
    then some xattr_set
    else if v == 5
    then some commit
    else if v == 6
    then some git_sha1
    else none

pub data Error : Type 0 where
  bad_key_length : ℕ → Error
  reserved_bit_set : Error
  reserved_type : ℕ → Error
  non_canonical_length : Error
  non_canonical_git_key : Error

abbrev pub size : ℕ
size = 32

abbrev pub git_sha1_size : ℕ
git_sha1_size = 20

abbrev pub header_at : ℕ
header_at = 31

pub record Key : Type 0 where
  pub bytes : Bytes

-- What Rust's type `[u8; n]` says of an array.
pub record IsArray (n : ℕ) (xs : Bytes) : Type 0 where
  pub len : length xs ≡ n
  pub byte : All IsByte xs

-- (bits + 7) / 8 is `div_ceil(8)`; `u64::BITS - leading_zeros` does not underflow.
unfoldable pub length_size_for : ℕ → ℕ
unfolding leading_zeros
length_size_for n = if n == 0 then 1 else (64 - leading_zeros n + 7) / 8

-- t != Type::GitSha1
abbrev pub is_blake3 : ObjType → Bool
is_blake3 git_sha1 = false
is_blake3 _ = true

-- The byte `(t as u8) << 4 | (ls as u8 - 1)`
unfoldable pub header_byte : ℕ → ℕ → ℕ
header_byte t ls = bit_or (t * 16 % 256) (ls - 1)

-- Key::new_from_hash, which panics on a git object's type.
unfoldable pub new_from_hash : ObjType → ℕ → Bytes → Option Key
unfolding length_size_for header_byte
new_from_hash t len full_hash =
    let ls = length_size_for len in
    let key : Key = record {
      bytes =
          reverse (take (header_at - ls) full_hash)
          ++ (take ls (to_le_bytes 8 len) ++ header_byte (to_u8 t) ls ∷ []);
    } in
    if is_blake3 t then some key else none

-- Key::new, over the hash function.
unfoldable pub new : (Bytes → Bytes) → ObjType → ℕ → Bytes → Option Key
new blake3 t len serialized = new_from_hash t len (blake3 serialized)

-- Key::new_git_sha1
unfoldable pub new_git_sha1 : Bytes → Key
new_git_sha1 sum = record { bytes = sum ++ (replicate 11 0 ++ (to_u8 git_sha1 * 16) ∷ []) }

abbrev pub header : Key → ℕ
header k = get_or k.bytes header_at 0

unfoldable pub is_git : Key → Bool
is_git k = header k / 16 == to_u8 git_sha1

-- Key::git_sha1_sum
unfoldable pub git_sha1_sum : Key → Option Bytes
git_sha1_sum k = if not (is_git k) then none else some (take git_sha1_size k.bytes)

unfoldable pub length_size : Key → ℕ
length_size k = bit_and (header k) 0x07 + 1

-- Key::length
unfoldable pub payload_length : Key → ℕ
payload_length k =
    let ls = length_size k in
    from_le_bytes (slice (header_at - ls) header_at k.bytes ++ replicate (8 - ls) 0)

-- .iter().all(|&b| b == 0)
unfoldable pub all_zero : Bytes → Bool
all_zero [] = true
all_zero (b ∷ bs) = b == 0 && all_zero bs

unfoldable pub has_git_tail : Key → Bool
has_git_tail k = bit_and (header k) 0x07 == 0 && all_zero (slice git_sha1_size header_at k.bytes)

-- Key::validate
unfoldable pub validate : Key → Result Error (Unit {0})
validate k =
    if not (bit_and (header k) 0x08 == 0)
    then err reserved_bit_set
    else if not (is_valid (header k / 16))
    then err (reserved_type (header k / 16))
    else if get_or k.bytes 30 0 == 0 && not (length_size k == 1 && payload_length k == 0)
    then err non_canonical_length
    else if is_git k && not (has_git_tail k)
    then err non_canonical_git_key
    else ok tt

-- Key::parse
unfoldable pub parse : Bytes → Result Error Key
parse b =
    let k : Key = record { bytes = b } in
    if not (length b == size) then err (bad_key_length (length b)) else (validate k >>= λ _. ok k)

-- Key::type_, which panics on a reserved type.
unfoldable pub type_of : Key → Option ObjType
type_of k = from_u8 (header k / 16)

-- Key::hash
unfoldable pub hash : Key → Bytes
hash k =
    if is_git k
    then take git_sha1_size k.bytes
    else reverse (take (header_at - length_size k) k.bytes)
