-- ===== src/Reference/Decode.antt =====
-- `unmarshal` and `Reference::decode` of src/reference.rs.
use core_rs.Prelude.{
  ℕ, zero, suc, ◌-◌, ◌^◌, Bool, true, false, not, ◌||◌, List, [], ◌∷◌, length, take, get_or,
  replicate, ltb, ◌==◌, if◌then◌else◌, Result, ok, err, ◌>>=◌, ◌>>◌, map_err,
}
use core_rs.Prelude.Bytes.{Bytes}
use core_rs.Prelude.Lex.{bytes_eq}
use core_rs.Cbor.{Head, major_uint, major_negint, major_tstr, major_map, unexpected_eof}
use core_rs.Reference.{
  DecodeError, cbor, spent, not_a_map, invalid_utf8, bad_map_key_type, int_key_overflow, extraneous,
  Error, undecodable, invalid, not_canonical, Reference, default, is_empty, validate,
  encode_unchecked,
}
use core_rs.Reference.Wellformed.{major_tag, head_of, skip_item}
use core_rs.Reference.Tags.{is_null_head, strip_and_check_tags}
use core_rs.Reference.Fields.{is_utf8, read_tstr_field, read_bstr_field, read_int64_field}

-- A round of the loop that unwraps the tags in front of the record, and the loop with fuel for each
-- byte and one round more.
unfoldable pub unwrap_headed :
    (Bytes → Result DecodeError Bytes) → Bytes → Head → Result DecodeError Bytes
unwrap_headed go doc (major, n, rest) =
    if not (major == major_tag)
    then ok doc
    else if n == 2 || n == 3
    then err (not_a_map major_tag)
    else (strip_and_check_tags rest >>= go)

unfoldable pub unwrap_doc : ℕ → Bytes → Result DecodeError Bytes
unwrap_doc zero doc = err spent
unwrap_doc (suc fuel) doc = do h ← head_of doc; unwrap_headed (unwrap_doc fuel) doc h

-- The `match kval` of a field that is read.
unfoldable pub read_field : ℕ → Reference → Bytes → Result DecodeError (Reference × Bytes)
read_field kval r rest =
    if kval == 0
    then (do (v, rem) ← read_tstr_field rest 0; ok (record r { name = v }, rem))
    else if kval == 1
    then (do (v, rem) ← read_bstr_field rest 1; ok (record r { key = v }, rem))
    else if kval == 2
    then (do (v, rem) ← read_tstr_field rest 2; ok (record r { user = v }, rem))
    else if kval == 3
    then (do (v, rem) ← read_int64_field rest; ok (record r { created_at = v }, rem))
    else if kval == 4
    then (do (v, rem) ← read_bstr_field rest 4; ok (record r { signature = v }, rem))
    else (do (v, rem) ← read_bstr_field rest 5; ok (record r { public_key = v }, rem))

-- The test of a key that matches no field.
unfoldable pub check_key : ℕ → ℕ → Bytes → Result DecodeError Unit
check_key kmajor kval after_key =
    if kmajor == major_uint || kmajor == major_negint
    then if ltb (2 ^ 63 - 1) kval
      then err (int_key_overflow (kmajor == major_negint) kval)
      else ok tt
    else if kmajor == major_tstr
    then (if ltb (length after_key) kval
        then err (cbor unexpected_eof)
        else if not (is_utf8 (take kval after_key))
        then err invalid_utf8
        else ok tt)
    else err (bad_map_key_type kmajor)

-- seen[k] = true
unfoldable pub set_seen : ℕ → List Bool → List Bool
set_seen k [] = []
set_seen zero (s ∷ seen) = true ∷ seen
set_seen (suc k) (s ∷ seen) = s ∷ set_seen k seen

-- A round of the loop over the pairs: the fields seen, the record and the bytes that follow.
unfoldable pub read_pair :
    List Bool
    → Reference
    → Bytes
    → ℕ × ℕ × Bytes
    → Result DecodeError (List Bool × Reference × Bytes)
read_pair seen r rest (kmajor, kval, after_key) =
    if not (kmajor == major_uint) || ltb 5 kval
    then (do
      _ ← check_key kmajor kval after_key
      rest' ← skip_item rest 1
      rest'' ← skip_item rest' 1
      ok (seen, r, rest''))
    else if get_or seen kval false
    then (do rest' ← skip_item after_key 1; ok (seen, r, rest'))
    else (do (r', rest') ← read_field kval r after_key; ok (set_seen kval seen, r', rest'))

-- The loop, with `n` pairs to go.
unfoldable pub read_pairs : ℕ → List Bool → Reference → Bytes → Result DecodeError Reference
read_pairs zero seen r rest = ok r
read_pairs (suc n) seen r rest = do
  h ← head_of rest
  (seen', r', rest') ← read_pair seen r rest h
  read_pairs n seen' r' rest'

-- The record in the document that has been unwrapped.
unfoldable pub read_record : Bytes → Result DecodeError Reference
read_record doc = do
  (major, npairs, rest) ← head_of doc
  if is_null_head major npairs (length doc - length rest)
      then ok default
      else if not (major == major_map)
      then err (not_a_map major)
      else read_pairs npairs (replicate 6 false) default rest

-- unmarshal
unfoldable pub unmarshal : Bytes → Result DecodeError Reference
unmarshal b = do
  after ← skip_item b 0
  if not (is_empty after) then err (extraneous (length after) (length b - length after)) else do
    doc ← strip_and_check_tags b
    doc' ← unwrap_doc (suc (length doc)) doc
    read_record doc'

-- Reference::decode
unfoldable pub decode : Bytes → Result Error Reference
decode b = do
  r ← map_err (unmarshal b) undecodable
  map_err (validate r) invalid
  if not (bytes_eq (encode_unchecked r) b) then err not_canonical else ok r
