-- ===== src/Key/Exact.antt =====
-- `parse` of src/key.rs against an independent description of the canonical keys.
use core_rs.Prelude.{
  ℕ, ◌+◌, ◌-◌, ◌/◌, ◌≤◌, ◌<◌, ◌≡◌, ◌↔◌, refl, sym, subst, arith, Option, none, some, length, take,
  replicate, true, false, ◌++◌, All, All-append, All-take, All-reverse, All-replicate,
  length-append, length-take, length-reverse, length-replicate, reverse, ok, Bool-cases, inl, inr,
}
use core_rs.Prelude.Bytes.{Bytes, IsByte, IsU64}
use core_rs.Key.{
  Key, ObjType, IsArray, is_git, length_size, payload_length, hash, to_u8, from_u8, header,
  new_from_hash, new_git_sha1, validate, parse, is_blake3,
}
use core_rs.Key.Layout.{header-lt, size_bits}
use core_rs.Key.RoundTrip.{parse-new_from_hash}
use core_rs.Key.Git.{new_git_sha1-accessors, new_git_sha1-take}
use core_rs.Key.Canonical.{IsCanonical, validate-IsCanonical, payload-IsU64, remade}

-- The keys that the constructors make, on arguments of their Rust types.
pub data Made : Key → Type 0 where
  by_hash :
      (t : ObjType) (n : ℕ) (full : Bytes) {k : Key}
      → IsU64 n
      → IsArray 32 full
      → new_from_hash t n full ≡ some k
      → Made k
  by_sum : (sum : Bytes) {k : Key} → IsArray 20 sum → new_git_sha1 sum ≡ k → Made k

Made-parse : {k : Key} → Made k → parse k.bytes ≡ ok k
Made-parse (by_hash t n full fits hashed e) = (parse-new_from_hash t n full _ fits hashed e).1
Made-parse (by_sum sum a e) =
    subst (λ (x : Key). parse x.bytes ≡ ok x) e (new_git_sha1-accessors sum a).0

pub parse_inversion :
    (b : Bytes) (k : Key) → parse b ≡ ok k → (length b ≡ 32) × (k.bytes ≡ b) × (validate k ≡ ok tt)
unfolding parse
parse_inversion b k h = ground arith

blake3_type :
    (k : Key)
    → header k < 112
    → is_git k ≡ false
    → (t : ObjType) × (to_u8 t ≡ header k / 16) × (is_blake3 t ≡ true)
unfolding is_git
blake3_type k small ng = go (from_u8 (header k / 16)) refl
  where
    go :
        (o : Option ObjType)
        → from_u8 (header k / 16) ≡ o
        → (t : ObjType) × (to_u8 t ≡ header k / 16) × (is_blake3 t ≡ true)
    go none e = absurd (unfold from_u8 in ground arith)
    go (some t) e = (t, unfold from_u8 in ground arith, unfold from_u8 in ground arith)

module _ (k : Key) (a : IsArray 32 k.bytes) (c : IsCanonical k) where
  Made-by_sum : is_git k ≡ true → Made k
  Made-by_sum g =
      by_sum (take 20 k.bytes)
        (record {
          len = omega (arith, length-take 20 k.bytes, a.len);
          byte = All-take IsByte 20 k.bytes a.byte;
        })
        (new_git_sha1-take k a c g)

  padded_hash-IsArray : is_git k ≡ false → IsArray 32 (hash k ++ replicate (length_size k + 1) 0)
  unfolding hash
  padded_hash-IsArray ng =
      let s : (length_size k ≤ 8) =
        unfold length_size in omega (arith, size_bits (header k) (header-lt k a)) in
      let prefix = take (31 - length_size k) k.bytes in
      rw ng (record {
        len = omega (
          arith,
          length-append (reverse prefix) (replicate (length_size k + 1) 0),
          length-replicate (length_size k + 1) (let z : ℕ = 0 in z),
          length-reverse prefix,
          length-take (31 - length_size k) k.bytes,
          a.len,
        );
        byte =
            All-append IsByte (reverse prefix) _
              (All-reverse IsByte prefix (All-take IsByte (31 - length_size k) k.bytes a.byte))
              (All-replicate IsByte (length_size k + 1) 0 (omega arith));
      })

  Made-by_hash : is_git k ≡ false → Made k
  Made-by_hash ng =
      let (t, tag, b3) = blake3_type k c.known_type ng in
      by_hash t (payload_length k) (hash k ++ replicate (length_size k + 1) 0) (payload-IsU64 k a c)
        (padded_hash-IsArray ng) (remade k a c t (replicate (length_size k + 1) 0) ng tag b3)

  canonical-Made : Made k
  canonical-Made = elim (Bool-cases (is_git k)) [ inl g ↦ Made-by_sum g | inr ng ↦ Made-by_hash ng ]

-- On any bytes, `parse` answers the key of exactly those bytes, and does so exactly when that key
-- is one that `new_from_hash` or `new_git_sha1` makes of some arguments.
pub parse_exact : (b : Bytes) (k : Key) → All IsByte b → (parse b ≡ ok k) ↔ ((k.bytes ≡ b) × Made k)
parse_exact b k byte = (
  λ h.
      let (len, same, valid) = parse_inversion b k h in
      let a : IsArray 32 k.bytes =
        subst (IsArray 32) (sym same) (record { len = len; byte = byte }) in
      (same, canonical-Made k a (validate-IsCanonical k a valid)),
  λ h. subst (λ x. parse x ≡ ok k) h.0 (Made-parse h.1),
)
