-- ===== src/Key/Runs.antt =====
-- Runs of src/key.rs on concrete inputs, and the theorems at them.
use core_rs.Prelude.{
  ◌-◌, ◌≡◌, ◌↔◌, refl, some, none, [], ◌∷◌, ◌++◌, replicate, take, All-replicate, ok, err, arith,
}
use core_rs.Prelude.Bytes.{Bytes, IsByte, to_le_bytes, from_le_bytes}
use core_rs.Key.{
  Key, IsArray, dir_node, git_sha1, new_from_hash, type_of, length_size, payload_length, hash,
  parse, validate, is_git, is_valid, has_git_tail, all_zero, length_size_for, reserved_bit_set,
  reserved_type, non_canonical_length, non_canonical_git_key, bad_key_length,
}
use core_rs.Key.RoundTrip.{new_from_hash-accessors, parse-new_from_hash}
use core_rs.Key.Exact.{Made, parse_exact}

abbrev digest : Bytes
digest = replicate 32 7

digest-IsArray : IsArray 32 digest
digest-IsArray = record { len = refl; byte = All-replicate IsByte 32 7 (omega arith) }

abbrev sum : Bytes
sum = replicate 20 9

sum-IsArray : IsArray 20 sum
sum-IsArray = record { len = refl; byte = All-replicate IsByte 20 9 (omega arith) }

abbrev dir_key : Key
dir_key = record { bytes = replicate 29 7 ++ 0xe8 ∷ 0x03 ∷ 0x31 ∷ [] }

dir_key_run : new_from_hash dir_node 1000 digest ≡ some dir_key
unfolding new_from_hash to_le_bytes
dir_key_run = refl

git_panics : new_from_hash git_sha1 5 digest ≡ none
unfolding new_from_hash
git_panics = refl

parse_rejects :
    (parse (replicate 31 0 ++ 0x08 ∷ []) ≡ err reserved_bit_set)
    × (parse (replicate 31 0 ++ 0x70 ∷ []) ≡ err (reserved_type 7))
    × (parse (replicate 31 0 ++ 0x01 ∷ []) ≡ err non_canonical_length)
    × (parse (replicate 30 0 ++ 1 ∷ 0x60 ∷ []) ≡ err non_canonical_git_key)
    × (parse [] ≡ err (bad_key_length 0))
unfolding parse validate is_valid is_git length_size payload_length has_git_tail all_zero
    from_le_bytes
parse_rejects = (refl, refl, refl, refl, refl)

new_from_hash-accessors_example :
    (k : Key) × (new_from_hash dir_node 1000 digest ≡ some k)
    × (type_of k ≡ some dir_node)
    × (length_size k ≡ length_size_for 1000)
    × (payload_length k ≡ 1000)
    × (hash k ≡ take (31 - length_size_for 1000) digest)
new_from_hash-accessors_example =
    new_from_hash-accessors dir_node 1000 digest (λ p. cc) (omega arith) digest-IsArray

dir_key_parses : IsArray 32 dir_key.bytes × (parse dir_key.bytes ≡ ok dir_key)
dir_key_parses =
    parse-new_from_hash dir_node 1000 digest dir_key (omega arith) digest-IsArray dir_key_run

parse_exact_example :
    (parse dir_key.bytes ≡ ok dir_key) ↔ ((dir_key.bytes ≡ dir_key.bytes) × Made dir_key)
parse_exact_example = parse_exact dir_key.bytes dir_key (dir_key_parses.0.byte)
