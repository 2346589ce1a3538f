-- ===== src/Reference/Runs.antt =====
-- Runs of src/reference.rs and the properties at concrete records.
use core_rs.Prelude.{◌≡◌, ◌↔◌, refl, arith, [], ◌∷◌, ◌++◌, replicate, ok}
use core_rs.Prelude.Bytes.{Bytes, from_le_bytes}
use core_rs.Prelude.Int.{negsuc}
use core_rs.Key
use core_rs.Key.{parse, is_valid, length_size, payload_length, is_git}
use core_rs.Cbor.{append_bstr, append_head, append_int, append_tstr}
use core_rs.Reference.{
  validate_name, name_chars, Reference, validate, encode, encode_unchecked, signature_payload,
}
use core_rs.Reference.Tags.{strip_tags, check_tags}
use core_rs.Reference.Fields.{is_utf8, is_utf8_in, tstr_field, bstr_field, byte_elem, int64_field}
use core_rs.Reference.Decode.{decode, unwrap_doc}
use core_rs.Reference.RoundTrip.{IsText}
use core_rs.Reference.Validity.{IsValid, validate_exact}
use core_rs.Reference.Exact.{decode_exact, signature_payload_binds}
use core_rs.Reference.Fuel.{Ends, fuel_enough}

-- A reference to an empty blob, signed, of a time before 1970.
abbrev signed : Reference
signed = record {
  name = b'm' ∷ b'a' ∷ b'i' ∷ b'n' ∷ [];
  key = replicate 30 7 ++ 0 ∷ 0 ∷ [];
  user = [];
  created_at = negsuc 4;
  signature = 1 ∷ 2 ∷ [];
  public_key = 3 ∷ [];
}

signed-IsText : IsText signed
unfolding is_utf8 is_utf8_in
signed-IsText = record { name_text = refl; user_text = refl }

abbrev signed_bytes : Bytes
signed_bytes =
    0xa6
    ∷ 0
    ∷ 0x64
    ∷ b'm'
    ∷ b'a'
    ∷ b'i'
    ∷ b'n'
    ∷ 1
    ∷ 0x58
    ∷ 32
    ∷ ((replicate 30 7 ++ 0 ∷ 0 ∷ [])
        ++ (2 ∷ 0x60 ∷ 3 ∷ 0x24 ∷ 4 ∷ 0x42 ∷ 1 ∷ 2 ∷ 5 ∷ 0x41 ∷ 3 ∷ []))

signed-encode : encode signed ≡ ok signed_bytes
unfolding encode encode_unchecked validate validate_name name_chars parse Key.validate is_valid
    length_size payload_length from_le_bytes is_git append_bstr append_head append_int append_tstr
signed-encode = refl

decode_exact_example : (decode signed_bytes ≡ ok signed) ↔ (encode signed ≡ ok signed_bytes)
decode_exact_example = decode_exact signed_bytes signed signed-IsText (omega arith)

validate_exact_example : (validate signed ≡ ok tt) ↔ IsValid signed
validate_exact_example = validate_exact signed

abbrev unsigned_bytes : Bytes
unsigned_bytes =
    0xa5
    ∷ 0
    ∷ 0x64
    ∷ b'm'
    ∷ b'a'
    ∷ b'i'
    ∷ b'n'
    ∷ 1
    ∷ 0x58
    ∷ 32
    ∷ ((replicate 30 7 ++ 0 ∷ 0 ∷ []) ++ (2 ∷ 0x60 ∷ 3 ∷ 0x24 ∷ 5 ∷ 0x41 ∷ 3 ∷ []))

signed-payload : signature_payload signed ≡ ok unsigned_bytes
unfolding signature_payload encode encode_unchecked validate validate_name name_chars parse
    Key.validate is_valid length_size payload_length from_le_bytes is_git append_bstr append_head
    append_int append_tstr
signed-payload = refl

abbrev resigned : Reference
resigned = record signed { signature = 9 ∷ [] }

resigned-payload : signature_payload resigned ≡ ok unsigned_bytes
unfolding signature_payload
resigned-payload = signed-payload

signature_payload_binds_example :
    record signed { signature = [] } ≡ record resigned { signature = [] }
signature_payload_binds_example =
    signature_payload_binds signed resigned unsigned_bytes signed-IsText
      (record { name_text = signed-IsText.name_text; user_text = signed-IsText.user_text })
      (omega arith) (omega arith) signed-payload resigned-payload

fuel_enough_example :
    Ends strip_tags 3 (0xc6 ∷ 0x60 ∷ [])
    × Ends check_tags 3 (0xc6 ∷ 0x60 ∷ [])
    × Ends (λ k. tstr_field k 0) 3 (0xc6 ∷ 0x60 ∷ [])
    × Ends (λ k. bstr_field k 0) 3 (0xc6 ∷ 0x60 ∷ [])
    × Ends (λ k. byte_elem k 0) 3 (0xc6 ∷ 0x60 ∷ [])
    × Ends int64_field 3 (0xc6 ∷ 0x60 ∷ [])
    × Ends unwrap_doc 3 (0xc6 ∷ 0x60 ∷ [])
fuel_enough_example = fuel_enough (0xc6 ∷ 0x60 ∷ []) 3 0 (omega arith)
