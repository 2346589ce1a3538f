-- ===== src/Cbor/Head.antt =====
-- Heads of src/cbor.rs: `read_head` reads what `append_head` wrote, and no head is shorter.
use core_rs.Prelude.{
  ℕ, ◌+◌, ◌*◌, ◌/◌, ◌%◌, ◌^◌, ◌≤◌, ◌<◌, ◌≡◌, refl, ◌∙◌, arith, bit_and, bit_or, true, false, [],
  ◌∷◌, ◌++◌, length, take, ltb, ◌==◌, if◌then◌else◌, ok, same_below, table_sound, length-append,
  length-drop, length-take, take-append, drop-append, All, All-take, subst,
}
use core_rs.Prelude.Bytes.{
  Bytes, IsByte, IsU64, to_be_bytes, from_be_bytes, from_be_bytes-to_be_bytes, length-to_be_bytes,
  from_be_bytes-lt,
}
use core_rs.Cbor.{append_head, read_head, read_argument}

head_byte_table : same_below (λ v. bit_or (v / 32 * 32) (v % 32)) (λ v. v) 256 ≡ true
unfolding same_below
head_byte_table = refl

head_byte : (m x : ℕ) → m < 8 → x < 32 → bit_or (m * 32 % 256) x ≡ m * 32 + x
head_byte m x hm hx =
    let d : m * 32 % 256 ≡ m * 32 = omega arith in
    let e : (m * 32 + x) / 32 * 32 ≡ m * 32 = omega arith in
    let f : (m * 32 + x) % 32 ≡ x = omega arith in
    rw d (
      rw (e, f) at
        (table_sound (λ v. bit_or (v / 32 * 32) (v % 32)) (λ v. v) 256 head_byte_table (m * 32 + x)
          (omega arith)))

info_table : same_below (λ v. bit_and v 0x1f) (λ v. v % 32) 256 ≡ true
unfolding same_below
info_table = refl

pub additional_info : (v : ℕ) → v < 256 → bit_and v 0x1f ≡ v % 32
additional_info v = table_sound _ _ 256 info_table v

-- `append_head` keeps the buffer and writes behind it.
pub append_head_lem : (b : Bytes) (m n : ℕ) → append_head b m n ≡ b ++ append_head [] m n
unfolding append_head
append_head_lem b m n = ground arith

-- The bytes of the argument, and the additional info that announces them.
abbrev pub argument_width : ℕ → ℕ
argument_width n =
    if ltb n 24
    then 0
    else if ltb n (2 ^ 8)
    then 1
    else if ltb n (2 ^ 16)
    then 2
    else if ltb n (2 ^ 32)
    then 4
    else 8

abbrev info_width : ℕ → ℕ
info_width x = if x == 24 then 1 else if x == 25 then 2 else if x == 26 then 4 else 8

-- The head in plain arithmetic.
plain_head : ℕ → ℕ → Bytes
plain_head m n =
    if ltb n 24
    then (m * 32 + n) ∷ []
    else if ltb n (2 ^ 8)
    then (m * 32 + 24) ∷ to_be_bytes 1 n
    else if ltb n (2 ^ 16)
    then (m * 32 + 25) ∷ to_be_bytes 2 n
    else if ltb n (2 ^ 32)
    then (m * 32 + 26) ∷ to_be_bytes 4 n
    else (m * 32 + 27) ∷ to_be_bytes 8 n

one_byte : (n : ℕ) → to_be_bytes 1 n ≡ (n % 256) ∷ []
unfolding to_be_bytes
one_byte n = refl

module _ (m : ℕ) (small : m < 8) where
  append_head-plain : (n : ℕ) → append_head [] m n ≡ plain_head m n
  unfolding append_head plain_head
  append_head-plain n = ground (
    arith,
    head_byte m (n % 256) small,
    head_byte m 24 small,
    head_byte m 25 small,
    head_byte m 26 small,
    head_byte m 27 small,
    one_byte n,
  )

  read_argument-to_be_bytes :
      (w n : ℕ) (rest : Bytes)
      → n < 256 ^ w
      → read_argument w m (to_be_bytes w n ++ rest) ≡ ok (m, n, rest)
  unfolding read_argument
  read_argument-to_be_bytes w n rest h =
      let len = length-to_be_bytes w n in
      let enough : ltb (length (to_be_bytes w n ++ rest)) w ≡ false =
        ground (arith, length-append (to_be_bytes w n) rest) in
      rw (
        enough,
        take-append w (to_be_bytes w n) rest len,
        drop-append w (to_be_bytes w n) rest len,
        from_be_bytes-to_be_bytes w n h,
      )

  read_head_short :
      (x : ℕ) (rest : Bytes) → x < 24 → read_head ((m * 32 + x) ∷ rest) ≡ ok (m, x, rest)
  unfolding read_head
  read_head_short x rest h = ground (arith, additional_info (m * 32 + x))

  read_head_wide :
      (x : ℕ) (b : Bytes)
      → 24 ≤ x
      → x < 28
      → read_head ((m * 32 + x) ∷ b) ≡ read_argument (info_width x) m b
  unfolding read_head
  read_head_wide x b lo hi = ground (arith, additional_info (m * 32 + x))

  -- Every head that `append_head` writes for a u64 is read back, and the bytes behind it are left.
  pub read_head-append_head :
      (n : ℕ) (rest : Bytes) → IsU64 n → read_head (append_head [] m n ++ rest) ≡ ok (m, n, rest)
  unfolding plain_head
  read_head-append_head n rest h = rw append_head-plain (
      ground (
        arith,
        read_head_short n rest,
        read_head_wide 24 (to_be_bytes 1 n ++ rest),
        read_head_wide 25 (to_be_bytes 2 n ++ rest),
        read_head_wide 26 (to_be_bytes 4 n ++ rest),
        read_head_wide 27 (to_be_bytes 8 n ++ rest),
        read_argument-to_be_bytes 1 n rest,
        read_argument-to_be_bytes 2 n rest,
        read_argument-to_be_bytes 4 n rest,
        read_argument-to_be_bytes 8 n rest,
      ))

pub length-append_head : (m n : ℕ) → length (append_head [] m n) ≡ argument_width n + 1
unfolding append_head
length-append_head m n = ground (
  arith,
  length-to_be_bytes 2 (n % 2 ^ 16),
  length-to_be_bytes 4 (n % 2 ^ 32),
  length-to_be_bytes 8 n,
)

read_argument_inversion :
    (w m : ℕ) (b : Bytes) (m' n : ℕ) (rest : Bytes)
    → All IsByte b
    → read_argument w m b ≡ ok (m', n, rest)
    → (m' ≡ m) × (n < 256 ^ w) × (length rest + w ≡ length b)
unfolding read_argument
read_argument_inversion w m b m' n rest bytes h =
    let enough : w ≤ length b = ground arith in
    let fits : from_be_bytes (take w b) < 256 ^ w =
      subst (λ k. from_be_bytes (take w b) < 256 ^ k) (length-take w b ∙ omega arith)
        (from_be_bytes-lt (take w b) (All-take IsByte w b bytes)) in
    ground (arith, length-drop w b)

-- On any bytes, a head that `read_head` accepts carries a major type of 3 bits and a u64, and took
-- at least as many bytes as `append_head` writes for them: what it writes is the shortest form.
pub append_head_shortest :
    (b : Bytes) (m n : ℕ) (rest : Bytes)
    → All IsByte b
    → read_head b ≡ ok (m, n, rest)
    → (m < 8) × IsU64 n × (length (append_head [] m n) + length rest ≤ length b)
unfolding read_head
append_head_shortest [] m n rest bytes h = cc
append_head_shortest (v ∷ b) m n rest (hv, bytes) h = rw length-append_head (
    ground (
      arith,
      additional_info v,
      read_argument_inversion 1 (v / 32) b m n rest bytes,
      read_argument_inversion 2 (v / 32) b m n rest bytes,
      read_argument_inversion 4 (v / 32) b m n rest bytes,
      read_argument_inversion 8 (v / 32) b m n rest bytes,
    ))
