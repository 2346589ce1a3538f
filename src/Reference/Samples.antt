-- ===== src/Reference/Samples.antt =====
-- Records for the runs.
use core_rs.Prelude.{ℕ, ◌≡◌, refl, arith, [], ◌∷◌, ◌++◌, replicate, ok}
use core_rs.Prelude.Bytes.{Bytes, from_le_bytes}
use core_rs.Prelude.Int.{negsuc}
use core_rs.Key
use core_rs.Key.{Key, parse, is_valid, length_size, payload_length, is_git}
use core_rs.Cbor.{append_bstr, append_head, append_int, append_tstr}
use core_rs.Reference.{Reference, validate, validate_name, name_chars, encode, encode_unchecked}
use core_rs.Reference.Fields.{is_utf8, is_utf8_in}
use core_rs.Reference.Decode.{decode}
use core_rs.Reference.RoundTrip.{IsText}
use core_rs.Reference.Exact.{decode_exact}

-- The key of an empty blob whose hash has the byte `h` throughout.
abbrev pub blob_key : ℕ → Key
blob_key h = record { bytes = replicate 30 h ++ 0 ∷ 0 ∷ [] }

abbrev pub main_name : Bytes
main_name = b'm' ∷ b'a' ∷ b'i' ∷ b'n' ∷ []

abbrev pub main_at : ℕ → Reference
main_at h = record {
  name = main_name;
  key = (blob_key h).bytes;
  user = [];
  created_at = negsuc 4;
  signature = [];
  public_key = [];
}

abbrev pub main_bytes : ℕ → Bytes
main_bytes h =
    0xa4
    ∷ 0
    ∷ 0x64
    ∷ b'm'
    ∷ b'a'
    ∷ b'i'
    ∷ b'n'
    ∷ 1
    ∷ 0x58
    ∷ 32
    ∷ ((blob_key h).bytes ++ (2 ∷ 0x60 ∷ 3 ∷ 0x24 ∷ []))

main_at-encode : (h : ℕ) → encode (main_at h) ≡ ok (main_bytes h)
unfolding encode encode_unchecked validate validate_name name_chars parse Key.validate is_valid
    length_size payload_length from_le_bytes is_git append_bstr append_head append_int append_tstr
main_at-encode h = refl

main_at-IsText : (h : ℕ) → IsText (main_at h)
unfolding is_utf8 is_utf8_in
main_at-IsText h = record { name_text = refl; user_text = refl }

pub main_at-decode : (h : ℕ) → decode (main_bytes h) ≡ ok (main_at h)
main_at-decode h =
    (decode_exact (main_bytes h) (main_at h) (main_at-IsText h) (omega arith)).1 (main_at-encode h)
