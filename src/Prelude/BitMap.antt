-- ===== src/Prelude/BitMap.antt =====
-- A bitmap of 64-bit words: bits[pos / 64] & 1 << (pos % 64), and |=.
use core_rs.Prelude.{
  ℕ, zero, suc, ◌*◌, ◌/◌, ◌%◌, ◌^◌, ◌<◌, ◌≡◌, refl, ap, ◌∙◌, subst, arith, bit_and, bit_or, Bool,
  false, not, ◌||◌, List, [], ◌∷◌, length, get_or, ◌==◌, Bool-cases, inl, inr,
}
use core_rs.Prelude.Bits.{and_double, or_digit, bit_and_mask, or_zero_below}
use core_rs.Prelude.Bytes.{pow_2}

-- w & (1 << i) != 0
abbrev pub test_bit : ℕ → ℕ → Bool
test_bit w i = not (bit_and w (2 ^ i) == 0)

-- xs[i] = f(xs[i])
abbrev pub modify {ℓ} : {A : Type ℓ} → List A → ℕ → (A → A) → List A
modify [] i f = []
modify (x ∷ xs) zero f = f x ∷ xs
modify (x ∷ xs) (suc i) f = x ∷ modify xs i f

abbrev pub test_at : List ℕ → ℕ → Bool
test_at row pos = test_bit (get_or row (pos / 64) 0) (pos % 64)

abbrev pub set_at : List ℕ → ℕ → List ℕ
set_at row pos = modify row (pos / 64) (λ w. bit_or w (2 ^ (pos % 64)))

test_low : (w : ℕ) → test_bit w 0 ≡ (w % 2 == 1)
test_low w = ground (arith, bit_and_mask 1 w)

test_up : (w i : ℕ) → test_bit w (suc i) ≡ test_bit (w / 2) i
test_up w i =
    let e : bit_and w (2 ^ suc i) ≡ 2 * bit_and (w / 2) (2 ^ i) =
      ap (bit_and w) (pow_2 i) ∙ and_double w (2 ^ i) in
    ground (arith, e)

or_low : (w : ℕ) → (bit_or w 1 % 2 ≡ 1) × (bit_or w 1 / 2 ≡ w / 2)
or_low w =
    let e = or_digit w 1 in
    let z = or_zero_below (w / 2) (w / 2) (omega arith) in
    (omega (arith, e, z), omega (arith, e, z))

or_up :
    (w a : ℕ)
    → (bit_or w (2 ^ suc a) % 2 ≡ w % 2) × (bit_or w (2 ^ suc a) / 2 ≡ bit_or (w / 2) (2 ^ a))
or_up w a =
    let m = 2 ^ a in
    let e = or_digit w (2 * m) in
    let h : 2 * m / 2 ≡ m = omega arith in
    let j = ap (bit_or (w / 2)) h in
    let up = ap (bit_or w) (pow_2 a) in (omega (arith, e, j, up), omega (arith, e, j, up))

pub test_bit-or : (w a b : ℕ) → test_bit (bit_or w (2 ^ a)) b ≡ (test_bit w b || (a == b))
test_bit-or w zero zero = ground (arith, test_low (bit_or w 1), (or_low w).0)
test_bit-or w zero (suc b) =
    ground (arith, test_up (bit_or w 1) b, test_up w b, ap (λ x. test_bit x b) (or_low w).1)
test_bit-or w (suc a) zero =
    ground (arith, test_low (bit_or w (2 ^ suc a)), test_low w, (or_up w a).0)
test_bit-or w (suc a) (suc b) = ground (
  arith,
  test_up (bit_or w (2 ^ suc a)) b,
  test_up w b,
  ap (λ x. test_bit x b) (or_up w a).1,
  test_bit-or (w / 2) a b,
)

module _ {ℓ} {A : Type ℓ} where
  pub length-modify : (xs : List A) (i : ℕ) (f : A → A) → length (modify xs i f) ≡ length xs
  length-modify [] i f = refl
  length-modify (x ∷ xs) zero f = refl
  length-modify (x ∷ xs) (suc i) f = ap suc (length-modify xs i f)

  pub get_or-modify :
      (xs : List A) (i : ℕ) (f : A → A) (d : A)
      → i < length xs
      → get_or (modify xs i f) i d ≡ f (get_or xs i d)
  get_or-modify [] i f d h = absurd (omega arith)
  get_or-modify (x ∷ xs) zero f d h = refl
  get_or-modify (x ∷ xs) (suc i) f d h = get_or-modify xs i f d (omega arith)

  pub get_or-modify_other :
      (xs : List A) (i j : ℕ) (f : A → A) (d : A)
      → (i == j) ≡ false
      → get_or (modify xs i f) j d ≡ get_or xs j d
  get_or-modify_other [] i j f d h = refl
  get_or-modify_other (x ∷ xs) zero zero f d h = absurd (ground arith)
  get_or-modify_other (x ∷ xs) zero (suc j) f d h = refl
  get_or-modify_other (x ∷ xs) (suc i) zero f d h = refl
  get_or-modify_other (x ∷ xs) (suc i) (suc j) f d h = get_or-modify_other xs i j f d (ground arith)

pub test_at-set_at :
    (row : List ℕ) (p q : ℕ)
    → p / 64 < length row
    → test_at (set_at row p) q ≡ (test_at row q || (p == q))
test_at-set_at row p q h =
    let f : ℕ → ℕ = λ w. bit_or w (2 ^ (p % 64)) in
    elim (Bool-cases (p / 64 == q / 64)) [
      | inr n ↦
          ground
            (arith, ap (λ w. test_bit w (q % 64)) (get_or-modify_other row (p / 64) (q / 64) f 0 n))
      | inl y ↦
          let e : p / 64 ≡ q / 64 = ground arith in
          let g =
            subst (λ i. get_or (set_at row p) i 0 ≡ f (get_or row i 0)) e
              (get_or-modify row (p / 64) f 0 h) in
          ap (λ w. test_bit w (q % 64)) g
          ∙ ground (arith, test_bit-or (get_or row (q / 64) 0) (p % 64) (q % 64))
    ]
