-- ===== src/Key/Canonical.antt =====
-- `validate` and `parse` of src/key.rs accept exactly the keys that the constructors make.
use core_rs.Prelude.{
  ℕ, suc, subst, ◌+◌, ◌-◌, ◌/◌, ◌%◌, ◌^◌, ◌≤◌, ◌<◌, ◌≡◌, ◌≢◌, sym, ap, ◌∙◌, arith, some, ◌==◌,
  length, take, drop, slice, reverse, reverse-reverse, length-take, length-drop, length-reverse,
  take-append, true, false, ◌++◌, All, All-take, All-drop, get_or, ok, Bool-cases, inl, inr,
}
use native.Mathlib.Nat.{pow-le-pow_right}
use core_rs.Prelude.Bytes.{
  Bytes, IsByte, IsU64, from_le_bytes, to_le_bytes, take-to_le_bytes, to_le_bytes-from_le_bytes,
  le_of_top_byte, from_le_bytes-lt, from_le_bytes-append_zeros,
}
use core_rs.Key.{
  Key, ObjType, IsArray, is_git, length_size, payload_length, hash, from_u8, to_u8, header,
  length_size_for, header_byte, new_from_hash, validate, is_valid, is_blake3, has_git_tail,
}
use core_rs.Key.LengthSize.{length_size_for_unique}
use core_rs.Key.Layout.{
  lay_out, lay_out_fields, header-lt, header_byte_lem, reserved_bit, size_bits,
}
use core_rs.Key.RoundTrip.{top_byte-lay_out}

to_u8-from_u8 : (v : ℕ) (t : ObjType) → from_u8 v ≡ some t → to_u8 t ≡ v
unfolding from_u8
to_u8-from_u8 v t h = ground arith

pub record IsCanonical (k : Key) : Type 0 where
  pub no_reserved_bit : header k / 8 % 2 ≡ 0
  pub known_type : header k < 112
  pub minimal : get_or k.bytes 30 0 ≡ 0 → (length_size k ≡ 1) × (payload_length k ≡ 0)
  pub git_tail : is_git k ≡ true → has_git_tail k ≡ true

pub validate-IsCanonical : (k : Key) → IsArray 32 k.bytes → validate k ≡ ok tt → IsCanonical k
unfolding validate is_valid
validate-IsCanonical k a h =
    let rb = reserved_bit (header k) (header-lt k a) in
    record {
      no_reserved_bit = ground (arith, rb);
      known_type = ground (arith, rb);
      minimal = λ z. (ground (arith, rb), ground (arith, rb));
      git_tail = λ g. ground (arith, rb);
    }

module _ (k : Key) (a : IsArray 32 k.bytes) (c : IsCanonical k) where
  ls : ℕ
  ls = length_size k

  front : Bytes
  front = take (31 - ls) k.bytes

  field : Bytes
  field = slice (31 - ls) 31 k.bytes

  ls_lem : ls ≡ header k % 8 + 1
  unfolding ls length_size
  ls_lem = omega (arith, size_bits (header k) (header-lt k a))

  same : lay_out front field (header k) ≡ k
  unfolding front field
  same = lay_out_fields k ls a

  front-len : length front + ls ≡ 31
  unfolding front
  front-len = omega (arith, ls_lem, length-take (31 - ls) k.bytes, a.len)

  field-len : length field ≡ ls
  unfolding field
  field-len = omega (
    arith,
    ls_lem,
    length-take (31 - (31 - ls)) (drop (31 - ls) k.bytes),
    length-drop (31 - ls) k.bytes,
    a.len,
  )

  field-IsByte : All IsByte field
  unfolding field
  field-IsByte =
      All-take IsByte (31 - (31 - ls)) (drop (31 - ls) k.bytes)
        (All-drop IsByte (31 - ls) k.bytes a.byte)

  payload_length-field : payload_length k ≡ from_le_bytes field
  unfolding payload_length field ls
  payload_length-field = from_le_bytes-append_zeros field (8 - ls)

  payload-lt : payload_length k < 256 ^ ls
  payload-lt =
      rw payload_length-field
        (subst (λ n. from_le_bytes field < 256 ^ n) field-len (from_le_bytes-lt field field-IsByte))

  pub payload-IsU64 : IsU64 (payload_length k)
  payload-IsU64 = omega (
    arith,
    payload-lt,
    pow-le-pow_right {n = 256} (omega arith) {i = ls} {j = 8} (omega (arith, ls_lem)),
  )

  ls-suc : ls ≡ suc (ls - 1)
  ls-suc = omega (arith, ls_lem)

  top_byte : get_or k.bytes 30 0 ≡ get_or field (ls - 1) 0
  top_byte =
      subst (λ (x : Key). get_or x.bytes 30 0 ≡ get_or field (ls - 1) 0) same
        (top_byte-lay_out front field (header k) (ls - 1) (omega (arith, front-len, ls_lem))
          (omega (arith, field-len, ls_lem)))

  top_byte_set : get_or k.bytes 30 0 ≢ 0 → 256 ^ (ls - 1) ≤ payload_length k
  top_byte_set nz = rw payload_length-field (le_of_top_byte (ls - 1) field (λ z. nz (top_byte ∙ z)))

  -- The length field of a canonical key has the least size.
  length_size_for-payload : length_size_for (payload_length k) ≡ ls
  length_size_for-payload = elim (Bool-cases (get_or k.bytes 30 0 == 0)) [
    | inl z ↦ let m = c.minimal (ground arith) in rw m.1 (unfold ls length_size_for in (sym m.0))
    | inr nz ↦
        length_size_for_unique (ls - 1) (payload_length k) payload-IsU64
          (top_byte_set (ground arith)) (subst (λ n. payload_length k < 256 ^ n) ls-suc payload-lt)
        ∙ sym ls-suc
  ]

  hash-front : is_git k ≡ false → hash k ≡ reverse front
  unfolding hash front ls
  hash-front ng = rw ng

  header-lem : header_byte (header k / 16) ls ≡ header k
  header-lem =
      header_byte_lem (header k / 16) ls (omega (arith, c.known_type)) (omega (arith, ls_lem))
        (omega (arith, ls_lem))
      ∙ omega (arith, ls_lem, c.no_reserved_bit)

  field-eq : take ls (to_le_bytes 8 (payload_length k)) ≡ field
  field-eq =
      take-to_le_bytes ls 8 (payload_length k) (omega (arith, ls_lem))
      ∙ rw payload_length-field (
          subst (λ n. to_le_bytes n (from_le_bytes field) ≡ field) field-len
            (to_le_bytes-from_le_bytes field field-IsByte))

  pub remade :
      (t : ObjType) (pad : Bytes)
      → is_git k ≡ false
      → to_u8 t ≡ header k / 16
      → is_blake3 t ≡ true
      → new_from_hash t (payload_length k) (hash k ++ pad) ≡ some k
  unfolding new_from_hash
  remade t pad ng tag b3 =
      let cut : take (31 - ls) (hash k ++ pad) ≡ hash k =
        take-append (31 - ls) (hash k) pad
          (ap length (hash-front ng) ∙ omega (arith, length-reverse front, front-len)) in
      rw
        (
          b3,
          length_size_for-payload,
          cut,
          hash-front ng,
          reverse-reverse front,
          field-eq,
          tag,
          header-lem,
        )
        (ap some same)
