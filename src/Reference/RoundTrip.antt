-- ===== src/Reference/RoundTrip.antt =====
-- `unmarshal` of src/reference.rs on what `encode_unchecked` writes.
use core_rs.Prelude.{
  ℕ, suc, ◌+◌, ◌≤◌, ◌≡◌, refl, ap, ◌∙◌, arith, Bool, true, false, List, [], ◌∷◌, ◌++◌, length,
  get_or, replicate, ok,
}
use core_rs.Prelude.Bytes.{Bytes, IsU64}
use core_rs.Prelude.Int.{ℤ}
use core_rs.Cbor.{read_head, append_head, append_bstr, append_tstr, append_int}
use core_rs.Reference.{Reference, default, is_empty, pair_count_of, encode_unchecked}
use core_rs.Reference.Wellformed.{head_of}
use core_rs.Reference.Fields.{is_utf8}
use core_rs.Reference.Decode.{
  unwrap_doc, unwrap_headed, read_field, set_seen, read_pair, read_pairs, read_record, unmarshal,
}
use core_rs.Reference.Spelled.{pair, optional_pair, signature_pairs, pairs, encode_unchecked-pairs}
use core_rs.Reference.Skipped.{
  head_of-append_head, IsShort, one_unless, pair_count_of-IsU64, skip_item-pairs,
}
use core_rs.Reference.Read.{
  strip_and_check_tags-none, read_tstr_field-append_tstr, read_bstr_field-append_bstr,
  read_int64_field-append_int,
}

-- A key that has not been seen: its field is read.
read_pairs-pair :
    (n k : ℕ) (seen : List Bool) (r r' : Reference) (value rest : Bytes)
    → k ≤ 5
    → get_or seen k false ≡ false
    → read_field k r (value ++ rest) ≡ ok (r', rest)
    → read_pairs (suc n) seen r (pair k value rest) ≡ read_pairs n (set_seen k seen) r' rest
unfolding read_pairs read_pair
read_pairs-pair n k seen r r' value rest hk fresh field =
    rw (head_of-append_head 0 k (value ++ rest) (omega arith) (omega arith))
      (ground (arith, fresh, field))

module _ (name key user : Bytes) (time : ℤ) where
  abbrev with_both : Bytes → Bytes → Reference
  with_both s p = record {
    name = name;
    key = key;
    user = user;
    created_at = time;
    signature = s;
    public_key = p;
  }

  abbrev seen_four : Bool → List Bool
  seen_four sig = true ∷ true ∷ true ∷ true ∷ sig ∷ false ∷ []

  public_key_pair :
      (sig : Bool) (s p : Bytes)
      → IsU64 (length p)
      → read_pairs (one_unless (is_empty p)) (seen_four sig) (with_both s []) (optional_pair 5 p [])
        ≡ ok (with_both s p)
  unfolding read_pairs read_field
  public_key_pair sig s [] hp = refl
  public_key_pair sig s (x ∷ xs) hp =
      read_pairs-pair 0 5 (seen_four sig) (with_both s []) (with_both s (x ∷ xs))
        (append_bstr [] (x ∷ xs)) [] (omega arith) refl
        (rw (read_bstr_field-append_bstr 5 (x ∷ xs) [] hp) refl)

  optional_pairs :
      (s p : Bytes)
      → IsU64 (length s)
      → IsU64 (length p)
      → read_pairs
          (one_unless (is_empty s) + one_unless (is_empty p))
          (seen_four false)
          (with_both [] [])
          (optional_pair 4 s (optional_pair 5 p []))
        ≡ ok (with_both s p)
  unfolding read_field set_seen
  optional_pairs [] p hs hp =
      ap (λ n. read_pairs n (seen_four false) (with_both [] []) (optional_pair 5 p []))
        (omega arith)
      ∙ public_key_pair false [] p hp
  optional_pairs (x ∷ xs) p hs hp =
      let rest = optional_pair 5 p [] in
      let e : 1 + one_unless (is_empty p) ≡ suc (one_unless (is_empty p)) = omega arith in
      ap
        (λ n.
          read_pairs n (seen_four false) (with_both [] []) (pair 4 (append_bstr [] (x ∷ xs)) rest))
        e
      ∙ read_pairs-pair (one_unless (is_empty p)) 4 (seen_four false) (with_both [] [])
          (with_both (x ∷ xs) []) (append_bstr [] (x ∷ xs)) rest (omega arith) refl
          (rw (read_bstr_field-append_bstr 4 (x ∷ xs) rest hs) refl)
      ∙ public_key_pair true (x ∷ xs) p hp

-- What the types of the fields say: the two texts are UTF-8.
pub record IsText (r : Reference) : Type 0 where
  pub name_text : is_utf8 r.name ≡ true
  pub user_text : is_utf8 r.user ≡ true

read_pairs-pairs :
    (r : Reference)
    → IsShort r
    → IsText r
    → read_pairs (pair_count_of r) (replicate 6 false) default (pairs r) ≡ ok r
unfolding read_field set_seen
read_pairs-pairs r h t =
    let m = one_unless (is_empty r.signature) + one_unless (is_empty r.public_key) in
    let e : pair_count_of r ≡ suc (suc (suc (suc m))) = omega arith in
    let s4 = signature_pairs r in
    let s3 = pair 3 (append_int [] r.created_at) s4 in
    let s2 = pair 2 (append_tstr [] r.user) s3 in
    let s1 = pair 1 (append_bstr [] r.key) s2 in
    let r1 : Reference = record default { name = r.name } in
    let r2 : Reference = record r1 { key = r.key } in
    let r3 : Reference = record r2 { user = r.user } in
    let r4 : Reference = record r3 { created_at = r.created_at } in
    ap (λ n. read_pairs n (replicate 6 false) default (pairs r)) e
    ∙ read_pairs-pair _ 0 _ default r1 _ s1 (omega arith) refl
        (rw (read_tstr_field-append_tstr 0 r.name s1 h.name_short t.name_text) refl)
    ∙ read_pairs-pair _ 1 _ r1 r2 _ s2 (omega arith) refl
        (rw (read_bstr_field-append_bstr 1 r.key s2 h.key_short) refl)
    ∙ read_pairs-pair _ 2 _ r2 r3 _ s3 (omega arith) refl
        (rw (read_tstr_field-append_tstr 2 r.user s3 h.user_short t.user_text) refl)
    ∙ read_pairs-pair m 3 _ r3 r4 _ s4 (omega arith) refl
        (rw (read_int64_field-append_int r.created_at s4 h.time_i64) refl)
    ∙ optional_pairs r.name r.key r.user r.created_at r.signature r.public_key h.signature_short
        h.public_key_short

head_of-nil : {m n : ℕ} {rest : Bytes} → head_of [] ≡ ok (m, n, rest) → ⊥
unfolding read_head
head_of-nil h = ground arith

unwrap_doc-untagged :
    (b : Bytes) (n : ℕ) (rest : Bytes)
    → head_of b ≡ ok (5, n, rest)
    → unwrap_doc (suc (length b)) b ≡ ok b
unfolding unwrap_doc unwrap_headed
unwrap_doc-untagged b n rest head = rw head refl

pub unmarshal-encode_unchecked :
    (r : Reference) → IsShort r → IsText r → unmarshal (encode_unchecked r) ≡ ok r
unfolding unmarshal read_record
unmarshal-encode_unchecked r h t =
    let b = append_head [] 5 (pair_count_of r) ++ pairs r in
    let head =
      head_of-append_head 5 (pair_count_of r) (pairs r) (omega arith) (pair_count_of-IsU64 r) in
    let untagged = strip_and_check_tags-none b 5 _ (pairs r) head (omega arith) in
    rw
      (
        encode_unchecked-pairs r,
        skip_item-pairs r h,
        untagged,
        unwrap_doc-untagged b _ (pairs r) head,
        head,
      )
      (read_pairs-pairs r h t)
