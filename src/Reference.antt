-- ===== src/Reference.antt =====
-- src/reference.rs: the record stored under a name. A text is its UTF-8 bytes, so the tests of
-- characters below 0x80 are tests of its bytes. `Wellformed`, `Tags`, `Fields` and `Decode` are the
-- decoder, the other children its proofs.
pub mod Wellformed
pub mod Tags
pub mod Fields
pub mod Decode
pub mod Spelled
pub mod Skipped
pub mod Read
pub mod RoundTrip
pub mod Validity
pub mod Exact
pub mod Shorter
pub mod Ends
pub mod Fuel
pub mod Samples
mod Runs
use core_rs.Prelude.{
  ℕ, ◌+◌, Bool, true, false, not, ◌&&◌, ◌||◌, Option, none, some, List, [], ◌∷◌, ◌++◌, length, leb,
  ltb, ◌==◌, if◌then◌else◌, Result, ok, err, ◌>>=◌, ◌>>◌, map_err,
}
use core_rs.Prelude.Bytes.{Bytes}
use core_rs.Prelude.Int.{ℤ, pos}
use core_rs.Key.{parse}
use core_rs.Key
use core_rs.Cbor
use core_rs.Cbor.{append_head, append_tstr, append_bstr, append_int, major_map, major_uint}

abbrev pub max_name_len : ℕ
max_name_len = 1024

abbrev pub max_user_len : ℕ
max_user_len = 1024

abbrev pub max_signature_len : ℕ
max_signature_len = 65536

abbrev pub max_public_key_len : ℕ
max_public_key_len = 16384

pub data NameError : Type 0 where
  name_empty name_too_long name_not_utf8 at_sign name_control_char : NameError

pub data UserError : Type 0 where
  user_empty user_too_long user_not_utf8 user_control_char : UserError

pub data DecodeError : Type 0 where
  cbor : Cbor.Error → DecodeError
  not_a_map : ℕ → DecodeError
  wrong_field_type : ℕ → ℕ → DecodeError
  invalid_utf8 : DecodeError
  int_overflow : Bool → DecodeError
  bad_map_key_type : ℕ → DecodeError
  max_nested_levels_exceeded : DecodeError
  invalid_simple_value : ℕ → DecodeError
  int_key_overflow : Bool → ℕ → DecodeError
  bad_tag_content : ℕ → ℕ → DecodeError
  bignum_overflow : Bool → DecodeError
  byte_elem_type : ℕ → ℕ → DecodeError
  byte_elem_overflow : ℕ → DecodeError
  extraneous : ℕ → ℕ → DecodeError
  -- No outcome of the code: the fuel of a loop ran out.
  spent : DecodeError

pub data Error : Type 0 where
  bad_name : NameError → Error
  bad_key : Key.Error → Error
  bad_user : UserError → Error
  signature_too_long : Error
  public_key_too_long : Error
  undecodable : DecodeError → Error
  invalid : Error → Error
  not_canonical : Error

-- r < '\u{20}' || r == '\u{7f}'
abbrev pub is_control : ℕ → Bool
is_control r = ltb r 0x20 || r == 0x7f

-- The loop of validate_name over the characters.
unfoldable pub name_chars : Bytes → Result NameError Unit
name_chars [] = ok tt
name_chars (r ∷ rs) =
    let rest = name_chars rs in
    if r == 64 then err at_sign else if is_control r then err name_control_char else rest

unfoldable pub validate_name : Bytes → Result NameError Unit
validate_name name =
    if length name == 0
    then err name_empty
    else if ltb max_name_len (length name)
    then err name_too_long
    else name_chars name

-- The loop of validate_user.
unfoldable pub user_chars : Bytes → Result UserError Unit
user_chars [] = ok tt
user_chars (r ∷ rs) =
    let rest = user_chars rs in if is_control r then err user_control_char else rest

unfoldable pub validate_user : Bytes → Result UserError Unit
validate_user user =
    if length user == 0
    then err user_empty
    else if ltb max_user_len (length user)
    then err user_too_long
    else user_chars user

pub record Reference : Type 0 where
  pub name : Bytes
  pub key : Bytes
  pub user : Bytes
  pub created_at : ℤ
  pub signature : Bytes
  pub public_key : Bytes

-- Reference::default()
abbrev pub default : Reference
default = record {
  name = [];
  key = [];
  user = [];
  created_at = pos 0;
  signature = [];
  public_key = [];
}

-- s.is_empty()
abbrev pub is_empty : Bytes → Bool
is_empty [] = true
is_empty (x ∷ xs) = false

abbrev pub validate_limits : Reference → Result Error Unit
validate_limits r =
    if ltb max_signature_len (length r.signature)
    then err signature_too_long
    else if ltb max_public_key_len (length r.public_key)
    then err public_key_too_long
    else ok tt

-- Reference::validate
unfoldable pub validate : Reference → Result Error Unit
validate r = do
  map_err (validate_name r.name) bad_name
  map_err (parse r.key) bad_key
  if is_empty r.user then ok tt else map_err (validate_user r.user) bad_user
  validate_limits r

-- An optional byte-string field: its key and its value, unless it is empty.
abbrev pub optional_field : Bytes → ℕ → Bytes → Bytes
optional_field b field s = if is_empty s then b else append_bstr (append_head b major_uint field) s

abbrev pub pair_count_of : Reference → ℕ
pair_count_of r =
    4 + (if is_empty r.signature then 0 else 1) + (if is_empty r.public_key then 0 else 1)

-- Reference::encode_unchecked
unfoldable pub encode_unchecked : Reference → Bytes
encode_unchecked r =
    let b = append_head [] major_map (pair_count_of r) in
    let b = append_tstr (append_head b major_uint 0) r.name in
    let b = append_bstr (append_head b major_uint 1) r.key in
    let b = append_tstr (append_head b major_uint 2) r.user in
    let b = append_int (append_head b major_uint 3) r.created_at in
    optional_field (optional_field b 4 r.signature) 5 r.public_key

-- Reference::encode
unfoldable pub encode : Reference → Result Error Bytes
encode r = do validate r; ok (encode_unchecked r)

-- Reference::signature_payload
unfoldable pub signature_payload : Reference → Result Error Bytes
signature_payload r = encode (record r { signature = [] })
