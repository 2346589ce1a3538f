-- ===== src/Reference/Exact.antt =====
-- `decode` of src/reference.rs against `encode`, and what a signature covers.
use core_rs.Prelude.{
  ◌≡◌, ◌↔◌, refl, sym, ap, ◌∙◌, arith, true, not, [], ok, map_err, guard_passed, bound_ok, ok_inj,
  map_err-ok,
}
use core_rs.Prelude.Bytes.{Bytes}
use core_rs.Prelude.Lex.{bytes_eq, bytes_eq→eq, bytes_eq_refl}
use core_rs.Cbor.Ints.{IsI64}
use core_rs.Reference.{
  undecodable, invalid, Reference, validate, encode_unchecked, encode, signature_payload,
}
use core_rs.Reference.Decode.{unmarshal, decode}
use core_rs.Reference.RoundTrip.{IsText, unmarshal-encode_unchecked}
use core_rs.Reference.Validity.{validate_exact, IsValid-IsShort}

encode_inversion :
    (r : Reference) (b : Bytes) → encode r ≡ ok b → (validate r ≡ ok tt) × (encode_unchecked r ≡ b)
unfolding encode
encode_inversion r b e = let (u, (v, f)) = bound_ok (validate r) _ b e in (v, ok_inj f)

decode_inversion : (b : Bytes) (r : Reference) → decode b ≡ ok r → encode r ≡ ok b
unfolding decode encode
decode_inversion b r e =
    let (r', (_, e1)) = bound_ok (map_err (unmarshal b) undecodable) _ r e in
    let (_, (valid, e2)) = bound_ok (map_err (validate r') invalid) _ r e1 in
    let (same, e3) = guard_passed (not (bytes_eq (encode_unchecked r') b)) _ _ r e2 in
    let is : r' ≡ r = ok_inj e3 in
    let spelled : encode_unchecked r' ≡ b = bytes_eq→eq _ b (ground arith) in
    let v' : validate r' ≡ ok tt = map_err-ok (validate r') invalid tt valid in
    let v : validate r ≡ ok tt = ap validate (sym is) ∙ v' in
    rw v (ap (λ x. ok (encode_unchecked x)) (sym is) ∙ ap ok spelled)

decode-encode :
    (r : Reference) (b : Bytes) → IsText r → IsI64 r.created_at → encode r ≡ ok b → decode b ≡ ok r
unfolding decode
decode-encode r b text time e =
    let (v, spelled) = encode_inversion r b e in
    let short = IsValid-IsShort r ((validate_exact r).0 v) time in
    let read : unmarshal b ≡ ok r =
      ap unmarshal (sym spelled) ∙ unmarshal-encode_unchecked r short text in
    let same : bytes_eq (encode_unchecked r) b ≡ true =
      ap (λ x. bytes_eq x b) spelled ∙ bytes_eq_refl b in
    rw (read, v, same) refl

-- For a record whose texts are UTF-8 and whose time is an i64, `decode` reads bytes as that record
-- exactly when `encode` makes those bytes of it: every record has one encoding that is accepted.
pub decode_exact :
    (b : Bytes) (r : Reference)
    → IsText r
    → IsI64 r.created_at
    → (decode b ≡ ok r) ↔ (encode r ≡ ok b)
decode_exact b r text time = (decode_inversion b r, decode-encode r b text time)

abbrev unsigned : Reference → Reference
unsigned r = record r { signature = [] }

-- What is signed covers the record but for its signature: two records of which the payload is the
-- same, with UTF-8 texts and i64 times, agree in every other field, the public key included.
pub signature_payload_binds :
    (r s : Reference) (b : Bytes)
    → IsText r
    → IsText s
    → IsI64 r.created_at
    → IsI64 s.created_at
    → signature_payload r ≡ ok b
    → signature_payload s ≡ ok b
    → record r { signature = [] } ≡ record s { signature = [] }
unfolding signature_payload
signature_payload_binds r s b tr ts ir is er es = ok_inj (
    sym (
      decode-encode (unsigned r) b (record { name_text = tr.name_text; user_text = tr.user_text })
        ir er)
    ∙ decode-encode (unsigned s) b (record { name_text = ts.name_text; user_text = ts.user_text })
        is es)
