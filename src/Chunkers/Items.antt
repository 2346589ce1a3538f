-- ===== src/Chunkers/Items.antt =====
-- The item chunker of src/chunkers.rs. The hash function is a parameter.
use core_rs.Prelude.{
  ℕ, zero, suc, ◌-◌, ◌*◌, ◌/◌, ◌%◌, ◌^◌, ◌<◌, ◌≤◌, ◌≡◌, refl, ap, arith, max, bit_and, Bool, true,
  false, take, leb, ltb, ◌==◌, if◌then◌else◌,
}
use core_rs.Prelude.Bytes.{Bytes, from_le_bytes, pow_2_mono}
use core_rs.Prelude.Bits.{bit_and_mask}

pub record ItemChunker : Type 0 where
  pub min_run : ℕ
  pub max_run : ℕ
  pub mask : ℕ

-- ItemChunker::new in 64-bit arithmetic that wraps around. At 62 bits and more `avg * 4` wraps
-- around to 0, or both shifts count modulo 64; a build with overflow checks panics there.
unfoldable pub new : ℕ → ItemChunker
new bits =
    let avg : ℕ = 2 ^ (bits % 64) in
    record {
      min_run = max (avg / 4) 2;
      max_run = avg * 4 % 2 ^ 64;
      mask = if ltb 0 bits then 2 ^ (bits % 64) - 1 else 0;
    }

-- ItemChunker::is_boundary
unfoldable pub is_boundary : (Bytes → Bytes) → ItemChunker → Bytes → ℕ → Bool
is_boundary blake3 c enc run_len =
    if leb c.max_run run_len
    then true
    else if ltb run_len c.min_run
    then false
    else bit_and (from_le_bytes (take 8 (blake3 enc))) c.mask == 0

mask-new : (bits : ℕ) → bits < 62 → (new bits).mask ≡ 2 ^ bits - 1
unfolding new
mask-new zero h = refl
mask-new (suc bits) h = let same : suc bits % 64 ≡ suc bits = omega arith in rw same (ground arith)

max_run-new : (bits : ℕ) → bits < 62 → (new bits).max_run ≡ 4 * 2 ^ bits
unfolding new
max_run-new bits h =
    let same : bits % 64 ≡ bits = omega arith in
    let fits : 2 ^ bits ≤ 2 ^ 61 = pow_2_mono bits 61 (omega arith) in rw same (omega (arith, fits))

min_run-new : (bits : ℕ) → bits < 62 → (new bits).min_run ≡ max (2 ^ bits / 4) 2
unfolding new
min_run-new bits h = let same : bits % 64 ≡ bits = omega arith in ap (λ k. max (2 ^ k / 4) 2) same

-- Between the least and the greatest run length the chunker of 2 ^ bits items on average, for fewer
-- than 62 bits, ends a run exactly at the items whose digest, as a number, is divisible by 2 ^ bits;
-- the two bounds are a quarter of the average, at least 2, and four times the average.
pub is_boundary_exact :
    (blake3 : Bytes → Bytes) (bits : ℕ) (enc : Bytes) (run_len : ℕ)
    → bits < 62
    → is_boundary blake3 (new bits) enc run_len ≡ (
        if leb (4 * 2 ^ bits) run_len
        then true
        else if ltb run_len (max (2 ^ bits / 4) 2)
        then false
        else from_le_bytes (take 8 (blake3 enc)) % 2 ^ bits == 0)
unfolding is_boundary
is_boundary_exact blake3 bits enc run_len h =
    let x = from_le_bytes (take 8 (blake3 enc)) in
    rw (max_run-new bits h, min_run-new bits h, mask-new bits h, bit_and_mask bits x) refl
