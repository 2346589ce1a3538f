-- ===== src/Reference/Skipped.antt =====
-- `skip_item` of src/reference.rs on what the encoder writes.
use core_rs.Prelude.{
  ℕ, suc, ◌+◌, ◌*◌, ◌-◌, ◌<◌, ◌^◌, ◌≡◌, refl, ap, ◌∙◌, arith, Bool, false, Option, some, [], ◌∷◌,
  ◌++◌, append_assoc, length, ltb, ok, length-append, drop-append, ◌⊎◌, inl, inr, if◌then◌else◌,
}
use core_rs.Prelude.Bytes.{Bytes, IsU64}
use core_rs.Prelude.Int.{ℤ, pos, negsuc}
use core_rs.Cbor.{append_head, append_bstr, append_tstr, append_int}
use core_rs.Cbor.Head.{read_head-append_head}
use core_rs.Cbor.Ints.{IsI64}
use core_rs.Reference.{Reference, is_empty, pair_count_of}
use core_rs.Reference.Wellformed.{
  Skip, skips, skip_level, skip_item, skip_plain, skip_nested, repeat_item, head_of,
}
use core_rs.Reference.Spelled.{pair, optional_pair, signature_pairs, pairs}

pub head_of-append_head :
    (m n : ℕ) (rest : Bytes)
    → m < 8
    → IsU64 n
    → head_of (append_head [] m n ++ rest) ≡ ok (m, n, rest)
head_of-append_head m n rest hm hn = rw (read_head-append_head m hm n rest hn) refl

module _ (d : Option Skip) where
  skip_number :
      (m n : ℕ) (rest : Bytes)
      → m < 2
      → IsU64 n
      → (skip_level d).item (append_head [] m n ++ rest) ≡ ok rest
  unfolding skip_plain
  skip_number m n rest hm hn = rw (head_of-append_head m n rest (omega arith) hn) (ground arith)

  skip_string :
      (m : ℕ) (s rest : Bytes)
      → (m ≡ 2) ⊎ (m ≡ 3)
      → IsU64 (length s)
      → (skip_level d).item ((append_head [] m (length s) ++ s) ++ rest) ≡ ok rest
  unfolding skip_plain
  skip_string m s rest which hs =
      let enough : ltb (length (s ++ rest)) (length s) ≡ false =
        ground (arith, length-append s rest) in
      rw
        (
          append_assoc (append_head [] m (length s)) s rest,
          head_of-append_head m (length s) (s ++ rest) (ground arith) hs,
        )
        (ground (arith, enough, drop-append (length s) s rest refl))

  skip_bstr :
      (s rest : Bytes) → IsU64 (length s) → (skip_level d).item (append_bstr [] s ++ rest) ≡ ok rest
  unfolding append_bstr
  skip_bstr s rest h = skip_string 2 s rest (inl refl) h

  skip_tstr :
      (s rest : Bytes) → IsU64 (length s) → (skip_level d).item (append_tstr [] s ++ rest) ≡ ok rest
  unfolding append_tstr
  skip_tstr s rest h = skip_string 3 s rest (inr refl) h

  skip_int :
      (v : ℤ) (rest : Bytes) → IsI64 v → (skip_level d).item (append_int [] v ++ rest) ≡ ok rest
  unfolding append_int
  skip_int (pos n) rest h = skip_number 0 n rest (omega arith) (omega arith)
  skip_int (negsuc n) rest h =
      let e : 2 ^ 64 - 1 - (2 ^ 64 - (n + 1)) ≡ n = omega arith in
      rw e (skip_number 1 n rest (omega arith) (omega arith))

  -- A pair is two items.
  repeat-pair :
      (k n : ℕ) (value rest : Bytes)
      → k < 6
      → (skip_level d).item (value ++ rest) ≡ ok rest
      → repeat_item (skip_level d).item (suc (suc n)) (pair k value rest)
        ≡ repeat_item (skip_level d).item n rest
  unfolding repeat_item
  repeat-pair k n value rest hk h =
      rw (skip_number 0 k (value ++ rest) (omega arith) (omega arith), h) refl

-- What the fields' types and `validate` say of the lengths and the time.
pub record IsShort (r : Reference) : Type 0 where
  pub name_short : IsU64 (length r.name)
  pub key_short : IsU64 (length r.key)
  pub user_short : IsU64 (length r.user)
  pub time_i64 : IsI64 r.created_at
  pub signature_short : IsU64 (length r.signature)
  pub public_key_short : IsU64 (length r.public_key)

abbrev pub one_unless : Bool → ℕ
one_unless b = if b then 0 else 1

module _ (d : Option Skip) where
  repeat-optional_pair :
      (k n : ℕ) (s rest : Bytes)
      → k < 6
      → IsU64 (length s)
      → repeat_item
          (skip_level d).item
          (one_unless (is_empty s) + one_unless (is_empty s) + n)
          (optional_pair k s rest)
        ≡ repeat_item (skip_level d).item n rest
  repeat-optional_pair k n [] rest hk h =
      ap (λ m. repeat_item (skip_level d).item m rest) (omega arith)
  repeat-optional_pair k n (x ∷ xs) rest hk h =
      let e : 1 + 1 + n ≡ suc (suc n) = omega arith in
      rw e (repeat-pair d k n (append_bstr [] (x ∷ xs)) rest hk (skip_bstr d (x ∷ xs) rest h))

  repeat-signature_pairs :
      (r : Reference)
      → IsShort r
      → repeat_item
          (skip_level d).item
          (one_unless (is_empty r.signature)
            + one_unless (is_empty r.signature)
            + (one_unless (is_empty r.public_key) + one_unless (is_empty r.public_key) + 0))
          (signature_pairs r)
        ≡ ok []
  unfolding repeat_item
  repeat-signature_pairs r h =
      repeat-optional_pair 4 _ r.signature (optional_pair 5 r.public_key []) (omega arith)
        h.signature_short
      ∙ repeat-optional_pair 5 0 r.public_key [] (omega arith) h.public_key_short

  repeat-pairs :
      (r : Reference)
      → IsShort r
      → repeat_item (skip_level d).item (2 * pair_count_of r) (pairs r) ≡ ok []
  repeat-pairs r h =
      let item = (skip_level d).item in
      let m =
        one_unless (is_empty r.signature)
        + one_unless (is_empty r.signature)
        + (one_unless (is_empty r.public_key) + one_unless (is_empty r.public_key) + 0) in
      let e : 2 * pair_count_of r ≡ suc (suc (suc (suc (suc (suc (suc (suc m))))))) = omega arith in
      let s4 = signature_pairs r in
      let s3 = pair 3 (append_int [] r.created_at) s4 in
      let s2 = pair 2 (append_tstr [] r.user) s3 in
      let s1 = pair 1 (append_bstr [] r.key) s2 in
      ap (λ n. repeat_item item n (pairs r)) e
      ∙ repeat-pair d 0 _ _ s1 (omega arith) (skip_tstr d r.name s1 h.name_short)
      ∙ repeat-pair d 1 _ _ s2 (omega arith) (skip_bstr d r.key s2 h.key_short)
      ∙ repeat-pair d 2 _ _ s3 (omega arith) (skip_tstr d r.user s3 h.user_short)
      ∙ repeat-pair d 3 m _ s4 (omega arith) (skip_int d r.created_at s4 h.time_i64)
      ∙ repeat-signature_pairs r h

pub pair_count_of-IsU64 : (r : Reference) → IsU64 (pair_count_of r)
pair_count_of-IsU64 r = ground arith

pub skip_item-pairs :
    (r : Reference)
    → IsShort r
    → skip_item (append_head [] 5 (pair_count_of r) ++ pairs r) 0 ≡ ok []
unfolding skip_item skips skip_plain skip_nested
skip_item-pairs r h =
    rw (head_of-append_head 5 (pair_count_of r) (pairs r) (omega arith) (pair_count_of-IsU64 r))
      (repeat-pairs (some (skips 30)) r h)
