-- ===== src/Amberpack/Runs.antt =====
-- Runs of src/amberpack.rs on concrete inputs, and the theorems at them.
use core_rs.Prelude.{
  ◌+◌, ◌%◌, ◌^◌, ◌≡◌, ◌↔◌, refl, ap, arith, Bool, true, false, Option, none, some, [], ◌∷◌, ◌++◌,
  All, length, drop, replicate, ok, ◌==◌, if◌then◌else◌, length-append,
}
use mathlib.Core.Path.{ap₂}
use core_rs.Prelude.Bytes.{Bytes, IsByte, to_be_bytes, to_le_bytes}
use core_rs.Prelude.Int.{pos}
use core_rs.Key.{Key, new_git_sha1, IsArray}
use core_rs.Key as KeyModule
use core_rs.Key.Git.{new_git_sha1-accessors}
use core_rs.Amberpack.{
  Codecs, IsCodecs, Record, zstd, validate, check_level, in_levels, seal_record, record_bytes,
  encode_record_with, parse_record, decode_payload,
}
use core_rs.Amberpack.RoundTrip.{parse_record-encode_record_with}
use core_rs.Amberpack.Exact.{Sealed, parse_record_exact}
use core_rs.Amberpack.Stream.{items, next_object, next_record, new_reader}
use core_rs.Amberpack.Stream.Fused.{Answer, items-Ends}
use core_rs.Amberpack.Stream.Objects.{pack_of}
use core_rs.Amberpack.Stream.Packs.{items-pack_of}

unfoldable all_sevens : Bytes → Bool
all_sevens [] = true
all_sevens (x ∷ xs) = let rest = all_sevens xs in if x == 7 then rest else false

-- A compressor that takes sevens only, and knows them by their number.
abbrev sevens : Bytes → Option Bytes
sevens d = if all_sevens d then some [] else none

sevens_back : (d c : Bytes) → sevens d ≡ some c → replicate (length d) 7 ≡ d
unfolding all_sevens
sevens_back [] c e = refl
sevens_back (x ∷ d) c e =
    let seven : 7 ≡ x = ground arith in ap₂ (λ y ys. y ∷ ys) seven (sevens_back d c (ground arith))

abbrev toy : Codecs
toy = record {
  crc32c = λ b. length b % 2 ^ 32;
  crc32c_append = λ n b. (n + length b) % 2 ^ 32;
  zstd_default_level = pos 3;
  zstd_compress = λ d level. sevens d;
  zstd_decompress = λ c n. some (replicate n 7);
  lz4_compress_default = sevens;
  lz4_compress_high = λ level d. sevens d;
  lz4_decompress = λ c n. some (replicate n 7);
}

toy-IsCodecs : IsCodecs toy
toy-IsCodecs = record {
  crc_fits = λ b. omega arith;
  crc_append = λ a b. omega (arith, length-append a b);
  zstd_back = λ d c level e. ap some (sevens_back d c e);
  lz4_back = λ d c e. ap some (sevens_back d c e);
  lz4_high_back = λ d c level e. ap some (sevens_back d c e);
}

abbrev k : Key
k = new_git_sha1 (replicate 20 1)

k_parses : KeyModule.parse k.bytes ≡ ok k
k_parses = (new_git_sha1-accessors (replicate 20 1) (record { len = refl; byte = ground arith })).0

zstd_19_valid : validate (zstd (pos 19)) ≡ ok tt
unfolding validate check_level in_levels
zstd_19_valid = refl

parse_record-encode_record_with_example :
    (rec : Bytes) × (r : Record) × (encode_record_with toy k (replicate 5 7) (zstd (pos 19))
      ≡ ok rec)
    × (parse_record toy (rec ++ 9 ∷ []) ≡ ok r)
    × (r.key ≡ k)
    × (r.ulen ≡ 5)
    × (length rec ≡ 46 + r.slen)
    × (decode_payload toy r.flags r.ulen (drop 46 rec) ≡ ok (replicate 5 7))
parse_record-encode_record_with_example =
    parse_record-encode_record_with toy toy-IsCodecs k (zstd (pos 19)) (replicate 5 7) (9 ∷ [])
      k_parses zstd_19_valid (omega arith)

abbrev two_stored : Bytes
two_stored = seal_record toy k 0 2 (1 ∷ 2 ∷ []) ++ 9 ∷ []

two_stored_bytes : All IsByte two_stored
unfolding seal_record record_bytes to_be_bytes to_le_bytes new_git_sha1
two_stored_bytes = ground arith

abbrev two_header : Record
two_header = record { key = k; flags = 0; ulen = 2; slen = 2 }

parse_record_exact_example :
    (parse_record toy two_stored ≡ ok two_header) ↔ Sealed toy two_stored two_header
parse_record_exact_example =
    parse_record_exact toy toy-IsCodecs two_stored two_header two_stored_bytes

items-Ends_example :
    Answer (items (next_object toy) (3 + 2) (new_reader (replicate 3 1)))
    × Answer (items (next_record toy) (3 + 2) (new_reader (replicate 3 1)))
items-Ends_example = items-Ends toy (replicate 3 1)

items-pack_of_example :
    items
      (next_object toy)
      3
      (new_reader (pack_of toy (zstd (pos 19)) ((k, replicate 5 7) ∷ (k, 1 ∷ 2 ∷ []) ∷ [])))
    ≡ some (ok (k, replicate 5 7) ∷ ok (k, 1 ∷ 2 ∷ []) ∷ [])
items-pack_of_example =
    items-pack_of toy toy-IsCodecs (zstd (pos 19)) ((k, replicate 5 7) ∷ (k, 1 ∷ 2 ∷ []) ∷ [])
      zstd_19_valid ((k_parses, omega arith), ((k_parses, omega arith), tt))
