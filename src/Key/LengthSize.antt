-- ===== src/Key/LengthSize.antt =====
-- `length_size_for` of src/key.rs: the least number of bytes that holds a length.
use core_rs.Prelude.{
  ℕ, zero, suc, ◌+◌, ◌*◌, ◌/◌, ◌^◌, ◌≤◌, ◌<◌, ◌≡◌, ◌≢◌, ◌∙◌, arith, inl, inr, Bool-cases, ltb,
  ltb→lt,
}
use core_rs.Prelude.Bytes.{
  IsU64, bit_length, leading_zeros, bit_length-le, lt_pow_of_bit_length, bit_length-le_of_lt,
  pow_2_mul_8, pow_256,
}
use core_rs.Key.{length_size_for}

module _ (n : ℕ) where
  blocks : ℕ
  blocks = (bit_length 64 n + 7) / 8

  length_size_for-blocks : n ≢ 0 → length_size_for n ≡ blocks
  unfolding blocks length_size_for leading_zeros
  length_size_for-blocks h = ground (arith, bit_length-le 64 n)

  lt_pow_blocks : IsU64 n → n < 256 ^ blocks
  unfolding blocks
  lt_pow_blocks h =
      let b = (bit_length 64 n + 7) / 8 in
      rw (← pow_2_mul_8 b) (lt_pow_of_bit_length 64 (8 * b) n h (omega arith))

  -- A number below 256 ^ j needs at most j bytes.
  blocks-le : (j : ℕ) → n < 256 ^ j → blocks ≤ j
  unfolding blocks
  blocks-le j h = omega (arith, bit_length-le_of_lt 64 (8 * j) n (rw (pow_2_mul_8 j) h))

  lt_pow_of_blocks : (j : ℕ) → IsU64 n → blocks ≤ j → n < 256 ^ j
  unfolding blocks
  lt_pow_of_blocks j h le = rw (← pow_2_mul_8 j) (lt_pow_of_bit_length 64 (8 * j) n h (omega arith))

  blocks_pos : n ≢ 0 → IsU64 n → 1 ≤ blocks
  blocks_pos nz h = go blocks (lt_pow_blocks h)
    where
      go : (b : ℕ) → n < 256 ^ b → 1 ≤ b
      go zero p = absurd (nz (omega arith))
      go (suc b) p = omega arith

-- A length field has 1 to 8 bytes.
pub length_size_for_range : (n : ℕ) → IsU64 n → (1 ≤ length_size_for n) × (length_size_for n ≤ 8)
length_size_for_range zero h = unfold length_size_for in omega arith
length_size_for_range (suc n) h =
    let e = length_size_for-blocks (suc n) (omega arith) in
    (
      rw e (blocks_pos (suc n) (omega arith) h),
      rw e (unfold blocks in omega (arith, bit_length-le 64 (suc n))),
    )

pub lt_pow-length_size_for : (n : ℕ) → IsU64 n → n < 256 ^ length_size_for n
lt_pow-length_size_for zero h = unfold length_size_for in omega arith
lt_pow-length_size_for (suc n) h =
    rw (length_size_for-blocks (suc n) (omega arith)) (lt_pow_blocks (suc n) h)

-- No smaller field than `length_size_for` holds the number.
pub length_size_for-le : (j n : ℕ) → 1 ≤ j → n < 256 ^ j → length_size_for n ≤ j
length_size_for-le j zero pos h = unfold length_size_for in pos
length_size_for-le j (suc n) pos h =
    rw (length_size_for-blocks (suc n) (omega arith)) (blocks-le (suc n) j h)

pow_256_pos : (j : ℕ) → 1 ≤ 256 ^ j
pow_256_pos zero = omega arith
pow_256_pos (suc j) = omega (arith, pow_256 j, pow_256_pos j)

-- The number that fills a field of j + 1 bytes to its top byte has that field size.
pub length_size_for_unique :
    (j n : ℕ) → IsU64 n → 256 ^ j ≤ n → n < 256 ^ suc j → length_size_for n ≡ suc j
length_size_for_unique j zero h lo hi = absurd (omega (arith, pow_256_pos j))
length_size_for_unique j (suc n) h lo hi =
    length_size_for-blocks (suc n) (omega arith) ∙ elim (Bool-cases (ltb j (blocks (suc n)))) [
      | inl p ↦ omega (arith, blocks-le (suc n) (suc j) hi, ltb→lt j (blocks (suc n)) p)
      | inr p ↦ absurd (omega (arith, lt_pow_of_blocks (suc n) j h (ground arith)))
    ]

-- `length_size_for` is the least positive number of bytes that holds a u64.
pub length_size_for_least :
    (n : ℕ)
    → IsU64 n
    → (1 ≤ length_size_for n)
      × (length_size_for n ≤ 8)
      × (n < 256 ^ length_size_for n)
      × ((j : ℕ) → 1 ≤ j → n < 256 ^ j → length_size_for n ≤ j)
length_size_for_least n h =
    let r = length_size_for_range n h in
    (r.0, r.1, lt_pow-length_size_for n h, λ j. length_size_for-le j n)
