-- ===== src/Key/Layout.antt =====
-- The bytes of a key of src/key.rs, field by field: what each accessor reads from the layout.
use core_rs.Prelude.{
  ℕ, ◌+◌, ◌-◌, ◌*◌, ◌/◌, ◌%◌, ◌≤◌, ◌<◌, ◌≡◌, refl, sym, ap, ◌∙◌, arith, [], ◌∷◌, ◌++◌, length, take,
  drop, slice, bit_and, bit_or, true, same_below, table_sound, length-append, take-append,
  drop-append, get_or-append, take-append-drop, append_assoc, drop_last, drop-drop, All-get_or,
}
use core_rs.Prelude.Bytes.{Bytes, IsByte}
use core_rs.Key.{Key, IsArray, header_byte, header, header_at}

nibbles_table : same_below (λ v. bit_or (v / 16 * 16) (v % 16)) (λ v. v) 256 ≡ true
unfolding same_below
nibbles_table = refl

pub nibbles : (t l : ℕ) → t < 16 → l < 16 → bit_or (t * 16) l ≡ t * 16 + l
nibbles t l ht hl =
    let e : (t * 16 + l) / 16 * 16 ≡ t * 16 = omega arith in
    let f : (t * 16 + l) % 16 ≡ l = omega arith in
    rw (e, f) at
      (table_sound (λ v. bit_or (v / 16 * 16) (v % 16)) (λ v. v) 256 nibbles_table (t * 16 + l)
        (omega arith))

pub header_byte_lem : (t ls : ℕ) → t < 16 → 1 ≤ ls → ls ≤ 8 → header_byte t ls ≡ t * 16 + (ls - 1)
unfolding header_byte
header_byte_lem t ls ht lo hi =
    let e : t * 16 % 256 ≡ t * 16 = omega arith in rw e (nibbles t (ls - 1) ht (omega arith))

size_bits_table : same_below (λ h. bit_and h 0x07) (λ h. h % 8) 256 ≡ true
unfolding same_below
size_bits_table = refl

pub size_bits : (h : ℕ) → h < 256 → bit_and h 0x07 ≡ h % 8
size_bits h = table_sound _ _ 256 size_bits_table h

reserved_bit_table : same_below (λ h. bit_and h 0x08) (λ h. h / 8 % 2 * 8) 256 ≡ true
unfolding same_below
reserved_bit_table = refl

pub reserved_bit : (h : ℕ) → h < 256 → bit_and h 0x08 ≡ h / 8 % 2 * 8
reserved_bit h = table_sound _ _ 256 reserved_bit_table h

-- A key of `front`, a length field and a header.
abbrev pub lay_out : Bytes → Bytes → ℕ → Key
lay_out front field h = record { bytes = front ++ (field ++ h ∷ []) }

module _ (front field : Bytes) (h ls : ℕ) (fits : length front + ls ≡ 31)
    (sized : length field ≡ ls) where
  fields_len : length (front ++ field) ≡ 31
  fields_len = omega (arith, length-append front field)

  pub header-lay_out : header (lay_out front field h) ≡ h
  header-lay_out =
      rw (← append_assoc front field (h ∷ [])) (get_or-append 31 (front ++ field) h 0 [] fields_len)

  pub front-lay_out : take (header_at - ls) (lay_out front field h).bytes ≡ front
  front-lay_out = take-append (31 - ls) front (field ++ h ∷ []) (omega arith)

  pub field-lay_out : slice (header_at - ls) header_at (lay_out front field h).bytes ≡ field
  field-lay_out =
      let e : 31 - (31 - ls) ≡ ls = omega arith in
      rw (e, drop-append (31 - ls) front (field ++ h ∷ []) (omega arith))
        (take-append ls field (h ∷ []) sized)

-- Every array of 32 bytes is laid out so, at any field size.
split_middle : (a b : ℕ) (xs : Bytes) → a ≤ b → xs ≡ take a xs ++ (slice a b xs ++ drop b xs)
split_middle a b xs h =
    let e : a + (b - a) ≡ b = omega arith in
    sym (
      ap (λ r. take a xs ++ (slice a b xs ++ r))
        (sym (drop-drop (b - a) a xs ∙ ap (λ n. drop n xs) e))
      ∙ ap (λ r. take a xs ++ r) (take-append-drop (b - a) (drop a xs))
      ∙ take-append-drop a xs)

pub lay_out_fields :
    (k : Key) (ls : ℕ)
    → IsArray 32 k.bytes
    → lay_out (take (header_at - ls) k.bytes) (slice (header_at - ls) header_at k.bytes) (header k)
      ≡ k
lay_out_fields k ls a =
    let x = k.bytes in
    sym (
      ap (λ (b : Bytes). let y : Key = record { bytes = b } in y)
        (split_middle (31 - ls) 31 x (omega arith)
          ∙ ap (λ r. take (31 - ls) x ++ (slice (31 - ls) 31 x ++ r)) (drop_last 31 x 0 a.len)))

pub header-lt : (k : Key) → IsArray 32 k.bytes → header k < 256
header-lt k a = All-get_or IsByte k.bytes 31 0 a.byte (omega arith)
