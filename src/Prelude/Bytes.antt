-- ===== src/Prelude/Bytes.antt =====
-- Bytes, and the fixed-width integers as bytes: `to_le_bytes`, `from_be_bytes`, `leading_zeros`.
use core_rs.Prelude.{
  ℕ, zero, suc, ◌+◌, ◌-◌, ◌*◌, ◌/◌, ◌%◌, ◌^◌, ◌≤◌, ◌<◌, ◌≡◌, ◌≢◌, refl, get_or, ap, ◌∙◌, arith,
  List, [], ◌∷◌, ◌++◌, reverse, reverse-reverse, length, take, replicate, All, length-reverse,
  All-reverse, subst, ◌==◌, if◌then◌else◌,
}
use native.Mathlib.Nat.{pow-suc}
use native.Mathlib.Numerals.{towards_suc}

abbrev pub IsByte : ℕ → Type 0
IsByte b = b < 256

abbrev pub IsU64 : ℕ → Type 0
IsU64 n = n < 2 ^ 64

abbrev pub Bytes : Type 0
Bytes = List ℕ

-- n.to_le_bytes() at a width of `w` bytes.
unfoldable pub to_le_bytes : ℕ → ℕ → Bytes
to_le_bytes zero n = []
to_le_bytes (suc w) n = (n % 256) ∷ to_le_bytes w (n / 256)

unfoldable pub from_le_bytes : Bytes → ℕ
from_le_bytes [] = 0
from_le_bytes (b ∷ bs) = b + 256 * from_le_bytes bs

unfoldable pub to_be_bytes : ℕ → ℕ → Bytes
unfolding to_le_bytes
to_be_bytes w n = reverse (to_le_bytes w n)

unfoldable pub from_be_bytes : Bytes → ℕ
unfolding from_le_bytes
from_be_bytes bs = from_le_bytes (reverse bs)

pub length-to_le_bytes : (w n : ℕ) → length (to_le_bytes w n) ≡ w
unfolding to_le_bytes
length-to_le_bytes zero n = refl
length-to_le_bytes (suc w) n = ap suc (length-to_le_bytes w (n / 256))

pub to_le_bytes-IsByte : (w n : ℕ) → All IsByte (to_le_bytes w n)
unfolding to_le_bytes
to_le_bytes-IsByte zero n = tt
to_le_bytes-IsByte (suc w) n = (omega arith, to_le_bytes-IsByte w (n / 256))

pub pow_256 : (w : ℕ) → 256 ^ suc w ≡ 256 * 256 ^ w
pow_256 w = rw pow-suc (omega arith)

pub from_le_bytes-to_le_bytes : (w n : ℕ) → n < 256 ^ w → from_le_bytes (to_le_bytes w n) ≡ n
unfolding to_le_bytes from_le_bytes
from_le_bytes-to_le_bytes zero n h = omega arith
from_le_bytes-to_le_bytes (suc w) n h =
    omega (arith, from_le_bytes-to_le_bytes w (n / 256) (omega (arith, pow_256 w)))

pub from_le_bytes-lt : (bs : Bytes) → All IsByte bs → from_le_bytes bs < 256 ^ length bs
unfolding from_le_bytes
from_le_bytes-lt [] h = omega arith
from_le_bytes-lt (b ∷ bs) (hb, hbs) = omega (arith, pow_256 (length bs), from_le_bytes-lt bs hbs)

low_byte : (b x : ℕ) → b < 256 → (b + 256 * x) % 256 ≡ b
low_byte b x h = omega arith

rest_bytes : (b x : ℕ) → b < 256 → (b + 256 * x) / 256 ≡ x
rest_bytes b x h = omega arith

pub to_le_bytes-from_le_bytes :
    (bs : Bytes) → All IsByte bs → to_le_bytes (length bs) (from_le_bytes bs) ≡ bs
unfolding to_le_bytes from_le_bytes
to_le_bytes-from_le_bytes [] h = refl
to_le_bytes-from_le_bytes (b ∷ bs) (hb, hbs) =
    rw (low_byte b (from_le_bytes bs) hb, rest_bytes b (from_le_bytes bs) hb)
      (ap (λ r. b ∷ r) (to_le_bytes-from_le_bytes bs hbs))

pub take-to_le_bytes : (j w n : ℕ) → j ≤ w → take j (to_le_bytes w n) ≡ to_le_bytes j n
unfolding to_le_bytes
take-to_le_bytes zero w n h = refl
take-to_le_bytes (suc j) zero n h = absurd (omega arith)
take-to_le_bytes (suc j) (suc w) n h =
    ap (λ r. n % 256 ∷ r) (take-to_le_bytes j w (n / 256) (omega arith))

pub from_le_bytes-append_zeros :
    (bs : Bytes) (k : ℕ) → from_le_bytes (bs ++ replicate k 0) ≡ from_le_bytes bs
unfolding from_le_bytes
from_le_bytes-append_zeros [] zero = refl
from_le_bytes-append_zeros [] (suc k) = omega (arith, from_le_bytes-append_zeros [] k)
from_le_bytes-append_zeros (b ∷ bs) k = omega (arith, from_le_bytes-append_zeros bs k)

-- The top byte of a little-endian field says whether a shorter field would do.
pub lt_of_top_byte_zero :
    (j n : ℕ) → n < 256 ^ suc j → get_or (to_le_bytes (suc j) n) j 0 ≡ 0 → n < 256 ^ j
unfolding to_le_bytes
lt_of_top_byte_zero zero n h e = omega arith
lt_of_top_byte_zero (suc j) n h e =
    omega (arith, lt_of_top_byte_zero j (n / 256) (omega (arith, pow_256 (suc j))) e, pow_256 j)

pub le_of_top_byte : (j : ℕ) (bs : Bytes) → get_or bs j 0 ≢ 0 → 256 ^ j ≤ from_le_bytes bs
unfolding from_le_bytes
le_of_top_byte j [] h = absurd (h refl)
le_of_top_byte zero (b ∷ bs) h = omega arith
le_of_top_byte (suc j) (b ∷ bs) h = omega (arith, pow_256 j, le_of_top_byte j bs h)

pub length-to_be_bytes : (w n : ℕ) → length (to_be_bytes w n) ≡ w
unfolding to_be_bytes
length-to_be_bytes w n = length-reverse (to_le_bytes w n) ∙ length-to_le_bytes w n

pub from_be_bytes-to_be_bytes : (w n : ℕ) → n < 256 ^ w → from_be_bytes (to_be_bytes w n) ≡ n
unfolding to_be_bytes from_be_bytes
from_be_bytes-to_be_bytes w n h =
    rw (reverse-reverse (to_le_bytes w n)) (from_le_bytes-to_le_bytes w n h)

pub to_be_bytes-IsByte : (w n : ℕ) → All IsByte (to_be_bytes w n)
unfolding to_be_bytes
to_be_bytes-IsByte w n = All-reverse IsByte (to_le_bytes w n) (to_le_bytes-IsByte w n)

pub from_be_bytes-lt : (bs : Bytes) → All IsByte bs → from_be_bytes bs < 256 ^ length bs
unfolding from_be_bytes
from_be_bytes-lt bs h =
    subst (λ n. from_le_bytes (reverse bs) < 256 ^ n) (length-reverse bs)
      (from_le_bytes-lt (reverse bs) (All-reverse IsByte bs h))

-- The number of significant bits of `n` below 2 ^ fuel: 64 - n.leading_zeros() for a u64.
unfoldable pub bit_length : ℕ → ℕ → ℕ
bit_length zero n = 0
bit_length (suc f) n = let rest = bit_length f (n / 2) in if n == 0 then 0 else suc rest

unfoldable pub leading_zeros : ℕ → ℕ
unfolding bit_length
leading_zeros n = 64 - bit_length 64 n

pub pow_2 : (w : ℕ) → 2 ^ suc w ≡ 2 * 2 ^ w
pow_2 w = rw pow-suc (omega arith)

pub pow_2_pos : (w : ℕ) → 0 < 2 ^ w
pow_2_pos zero = omega arith
pow_2_pos (suc w) = omega (arith, pow_2 w, pow_2_pos w)

pub bit_length-le : (f n : ℕ) → bit_length f n ≤ f
unfolding bit_length
bit_length-le zero n = omega arith
bit_length-le (suc f) n = ground (arith, bit_length-le f (n / 2))

-- `bit_length` is at most `k` exactly for the numbers below 2 ^ k.
pub pow_2_mono : (j k : ℕ) → j ≤ k → 2 ^ j ≤ 2 ^ k
pow_2_mono zero k h = omega (arith, pow_2_pos k)
pow_2_mono (suc j) zero h = absurd (omega arith)
pow_2_mono (suc j) (suc k) h = omega (arith, pow_2 j, pow_2 k, pow_2_mono j k (omega arith))

pub lt_pow_of_bit_length : (f k n : ℕ) → n < 2 ^ f → bit_length f n ≤ k → n < 2 ^ k
unfolding bit_length
lt_pow_of_bit_length zero k n h l = omega (arith, pow_2_pos k)
lt_pow_of_bit_length (suc f) zero n h l = ground arith
lt_pow_of_bit_length (suc f) (suc k) n h l =
    ground (arith, pow_2 f, pow_2 k, pow_2_pos k, lt_pow_of_bit_length f k (n / 2))

pub bit_length-le_of_lt : (f k n : ℕ) → n < 2 ^ k → bit_length f n ≤ k
unfolding bit_length
bit_length-le_of_lt zero k n h = omega arith
bit_length-le_of_lt (suc f) zero n h = ground arith
bit_length-le_of_lt (suc f) (suc k) n h = ground (arith, pow_2 k, bit_length-le_of_lt f k (n / 2))

pub pow_2_mul_8 : (j : ℕ) → 2 ^ (8 * j) ≡ 256 ^ j
pow_2_mul_8 zero = refl
pow_2_mul_8 (suc j) =
    let e : 8 * suc j ≡ 8 * j + 8 = omega arith in
    rw e (simp towards_suc (omega (arith, pow_256 j, pow_2_mul_8 j)))
