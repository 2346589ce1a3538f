-- ===== src/Prelude/Bits.antt =====
-- `x & (2^k - 1)` for every k, from the digits that the native `bit_and` stands for.
use Prim.Native.Nat.{digits, bit_and-bitwise, bit_or-bitwise}
use core_rs.Prelude.{
  ℕ, zero, suc, ◌+◌, ◌-◌, ◌*◌, ◌/◌, ◌%◌, ◌^◌, ◌≤◌, ◌<◌, ◌≡◌, refl, sym, ap, ◌∙◌, arith, min, max,
  bit_and, bit_or,
}
use native.Mathlib.Nat.{div-add-mod, div-div-eq-div-mul, add-mul-mod_self_left, mod-eq_of_lt}
use mathlib.Core.Path.{ap₂}
use core_rs.Prelude.Bytes.{pow_2, pow_2_pos}

abbrev meet : ℕ → ℕ → ℕ → ℕ
meet fuel x y = digits (λ _. zero) min fuel x y

-- More fuel than the first number changes nothing.
meet_enough : (f g x y : ℕ) → x ≤ f → x ≤ g → meet f x y ≡ meet g x y
meet_enough zero zero x y p q = refl
meet_enough (suc f) zero zero y p q = refl
meet_enough (suc f) zero (suc x) y p q = absurd (omega arith)
meet_enough zero (suc g) zero y p q = refl
meet_enough zero (suc g) (suc x) y p q = absurd (omega arith)
meet_enough (suc f) (suc g) zero y p q = refl
meet_enough (suc f) (suc g) (suc x) y p q =
    omega (arith, meet_enough f g (suc x / 2) (y / 2) (omega arith) (omega arith))

zero_and : (y : ℕ) → bit_and 0 y ≡ 0
zero_and y = bit_and-bitwise 0 y

and_digit : (x y : ℕ) → bit_and x y ≡ min (x % 2) (y % 2) + 2 * bit_and (x / 2) (y / 2)
and_digit zero y = omega (arith, zero_and (y / 2), zero_and y)
and_digit (suc x) y = omega (
  arith,
  meet_enough x (suc x / 2) (suc x / 2) (y / 2) (omega arith) (omega arith),
  bit_and-bitwise (suc x / 2) (y / 2),
  bit_and-bitwise (suc x) y,
)

and_zero_below : (bound x : ℕ) → x ≤ bound → bit_and x 0 ≡ 0
and_zero_below bound zero h = refl
and_zero_below zero (suc x) h = absurd (omega arith)
and_zero_below (suc bound) (suc x) h =
    omega (arith, and_digit (suc x) 0, and_zero_below bound (suc x / 2) (omega arith))

half_mask : (k : ℕ) → (2 ^ suc k - 1) / 2 ≡ 2 ^ k - 1
half_mask k = omega (arith, pow_2 k, pow_2_pos k)

odd_mask : (k : ℕ) → (2 ^ suc k - 1) % 2 ≡ 1
odd_mask k = omega (arith, pow_2 k, pow_2_pos k)

mod_step : (x k : ℕ) → x % 2 ^ suc k ≡ x % 2 + 2 * (x / 2 % 2 ^ k)
mod_step x k =
    let p : ℕ = 2 ^ k in
    let q : ℕ = x / 2 / p in
    let low : ℕ = x % 2 + 2 * (x / 2 % p) in
    let small : low < 2 ^ suc k = omega (arith, pow_2 k, pow_2_pos k) in
    let whole : x ≡ low + 2 ^ suc k * q =
      omega (arith, ap (λ t. t * q) (pow_2 k), div-add-mod (x / 2) p) in
    ap (λ t. t % 2 ^ suc k) whole ∙ add-mul-mod_self_left low (2 ^ suc k) q ∙ mod-eq_of_lt small

pub bit_and_mask : (k x : ℕ) → bit_and x (2 ^ k - 1) ≡ x % 2 ^ k
bit_and_mask zero x = and_zero_below x x (omega arith) ∙ omega arith
bit_and_mask (suc k) x = omega (
  arith,
  and_digit x (2 ^ suc k - 1),
  ap (bit_and (x / 2)) (half_mask k),
  odd_mask k,
  bit_and_mask k (x / 2),
  mod_step x k,
)

join : ℕ → ℕ → ℕ → ℕ
join fuel x y = digits (λ b. b) max fuel x y

join_enough : (f g x y : ℕ) → x ≤ f → x ≤ g → join f x y ≡ join g x y
unfolding join
join_enough zero zero x y p q = refl
join_enough (suc f) zero zero y p q = refl
join_enough (suc f) zero (suc x) y p q = absurd (omega arith)
join_enough zero (suc g) zero y p q = refl
join_enough zero (suc g) (suc x) y p q = absurd (omega arith)
join_enough (suc f) (suc g) zero y p q = refl
join_enough (suc f) (suc g) (suc x) y p q =
    omega (arith, join_enough f g (suc x / 2) (y / 2) (omega arith) (omega arith))

pub zero-or : (y : ℕ) → bit_or 0 y ≡ y
zero-or y = bit_or-bitwise 0 y

pub or_digit : (x y : ℕ) → bit_or x y ≡ max (x % 2) (y % 2) + 2 * bit_or (x / 2) (y / 2)
unfolding join
or_digit zero y = omega (arith, zero-or (y / 2), zero-or y)
or_digit (suc x) y = omega (
  arith,
  join_enough x (suc x / 2) (suc x / 2) (y / 2) (omega arith) (omega arith),
  bit_or-bitwise (suc x / 2) (y / 2),
  bit_or-bitwise (suc x) y,
)

pub or_zero_below : (bound x : ℕ) → x ≤ bound → bit_or x 0 ≡ x
or_zero_below bound zero h = zero-or 0
or_zero_below zero (suc x) h = absurd (omega arith)
or_zero_below (suc bound) (suc x) h =
    omega (arith, or_digit (suc x) 0, or_zero_below bound (suc x / 2) (omega arith))

-- `x << 3 | d` for a digit of three bits.
pub or_octal : (x d : ℕ) → d < 8 → bit_or (x * 8) d ≡ x * 8 + d
or_octal x d h =
    let e1 : x * 8 / 2 ≡ x * 4 = omega arith in
    let e2 : x * 4 / 2 ≡ x * 2 = omega arith in
    let e3 : x * 2 / 2 ≡ x = omega arith in
    let e4 : d / 2 / 2 / 2 ≡ 0 = omega arith in
    omega (
      arith,
      or_digit (x * 8) d,
      ap (λ y. bit_or y (d / 2)) e1,
      or_digit (x * 4) (d / 2),
      ap (λ y. bit_or y (d / 2 / 2)) e2,
      or_digit (x * 2) (d / 2 / 2),
      ap₂ bit_or e3 e4,
      or_zero_below x x (omega arith),
    )

pub and_double : (x m : ℕ) → bit_and x (2 * m) ≡ 2 * bit_and (x / 2) m
and_double x m =
    let e1 : 2 * m / 2 ≡ m = omega arith in
    let e2 : 2 * m % 2 ≡ 0 = omega arith in
    omega (arith, and_digit x (2 * m), ap (bit_and (x / 2)) e1, e2)

-- A mask shifted to the left takes bits further up.
and_shifted : (k x m : ℕ) → bit_and x (2 ^ k * m) ≡ 2 ^ k * bit_and (x / 2 ^ k) m
and_shifted zero x m =
    let e1 : 1 * m ≡ m = omega arith in
    let e2 : x / 1 ≡ x = omega arith in rw (e1, e2) (omega arith)
and_shifted (suc k) x m =
    let p : ℕ = 2 ^ k in
    let e1 : 2 ^ suc k * m ≡ 2 * (p * m) = ap (λ t. t * m) (pow_2 k) ∙ omega arith in
    let e2 : x / 2 / p ≡ x / 2 ^ suc k =
      div-div-eq-div-mul x 2 p ∙ ap (λ t. x / t) (sym (pow_2 k)) in
    ap (bit_and x) e1
    ∙ and_double x (p * m)
    ∙ ap (λ t. 2 * t) (and_shifted k (x / 2) m)
    ∙ omega (arith, ap (λ t. p * bit_and t m) e2, ap (λ t. t * bit_and (x / 2 ^ suc k) m) (pow_2 k))

-- The four bits of a file type.
pub and_type_mask : (x : ℕ) → bit_and x 0o170000 ≡ 4096 * (x / 4096 % 16)
and_type_mask x = and_shifted 12 x 15 ∙ ap (λ t. 4096 * t) (bit_and_mask 4 (x / 4096))
