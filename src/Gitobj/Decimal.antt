-- ===== src/Gitobj/Decimal.antt =====
-- Sizes in src/gitobj.rs: `parse_size` accepts exactly what `to_string` writes.
use core_rs.Prelude.{
  ℕ, zero, suc, ◌+◌, ◌-◌, ◌*◌, ◌/◌, ◌%◌, ◌^◌, ◌≤◌, ◌<◌, ◌≡◌, ◌≢◌, ◌↔◌, refl, sym, ap, ◌∙◌, arith,
  false, some, [], ◌∷◌, ◌++◌, append-nil, append_assoc, length, get_or, ltb, if◌then◌else◌, inl,
  inr, Bool-cases, length-append, get_or-append_left,
}
use native.Mathlib.Nat.{pow-suc}
use core_rs.Prelude.Bytes.{Bytes, IsU64}
use core_rs.Gitobj.{decimal, to_string, size_loop, parse_size}

pow_10 : (f : ℕ) → 10 ^ suc f ≡ 10 * 10 ^ f
pow_10 f = rw pow-suc (omega arith)

digit : (n d : ℕ) → d < 10 → n * 10 + d < 2 ^ 64 → size_loop n ((48 + d) ∷ []) ≡ some (n * 10 + d)
unfolding size_loop
digit n d h fits = ground arith

size_loop-append :
    (n m : ℕ) (xs ys : Bytes) → size_loop n xs ≡ some m → size_loop n (xs ++ ys) ≡ size_loop m ys
unfolding size_loop
size_loop-append n m [] ys h = ground arith
size_loop-append n m (x ∷ xs) ys h = ground (arith, size_loop-append (n * 10 + (x - 48)) m xs ys)

size_loop-decimal : (f n : ℕ) → n < 10 ^ f → IsU64 n → size_loop 0 (decimal f n) ≡ some n
unfolding decimal
size_loop-decimal zero n h fits = let e : n ≡ 0 = omega arith in rw e (unfold size_loop in refl)
size_loop-decimal (suc f) n h fits = elim (Bool-cases (ltb n 10)) [
  | inl small ↦ rw small (digit 0 n (ground arith) (omega arith) ∙ ap some (omega arith))
  | inr big ↦ rw big (
      size_loop-append 0 (n / 10) (decimal f (n / 10)) _
        (size_loop-decimal f (n / 10) (omega (arith, pow_10 f)) (omega arith))
      ∙ digit (n / 10) (n % 10) (omega arith) (omega arith)
      ∙ ap some (omega arith))
]

-- More fuel than digits changes nothing.
decimal_enough :
    (f g n : ℕ) → n < 10 ^ suc f → n < 10 ^ suc g → decimal (suc f) n ≡ decimal (suc g) n
unfolding decimal
decimal_enough zero zero n p q = refl
decimal_enough zero (suc g) n p q = ground arith
decimal_enough (suc f) zero n p q = ground arith
decimal_enough (suc f) (suc g) n p q =
    ap (λ (front : Bytes). if ltb n 10 then (48 + n) ∷ [] else front ++ (48 + n % 10) ∷ [])
      (decimal_enough f g (n / 10) (omega (arith, pow_10 (suc f))) (omega (arith, pow_10 (suc g))))

decimal_step :
    (m d : ℕ)
    → 1 ≤ m
    → d < 10
    → m * 10 + d < 2 ^ 64
    → decimal 20 (m * 10 + d) ≡ decimal 20 m ++ (48 + d) ∷ []
decimal_step m d pos h fits =
    let e : (m * 10 + d) / 10 ≡ m = omega arith in
    let r : (m * 10 + d) % 10 ≡ d = omega arith in
    let big : ltb (m * 10 + d) 10 ≡ false = ground arith in
    unfold_step (m * 10 + d) big
    ∙ rw (e, r)
        (ap (λ (b : Bytes). b ++ (48 + d) ∷ [])
          (decimal_enough 18 19 m (omega arith) (omega arith)))
  where
    unfold_step :
        (n : ℕ) → ltb n 10 ≡ false → decimal 20 n ≡ decimal 19 (n / 10) ++ (48 + n % 10) ∷ []
    unfold_step n b = unfold decimal in rw b

loop_step :
    (m n c : ℕ) (cs : Bytes)
    → size_loop m (c ∷ cs) ≡ some n
    → (48 ≤ c)
      × (c < 58)
      × (m * 10 + (c - 48) < 2 ^ 64)
      × (size_loop (m * 10 + (c - 48)) cs ≡ some n)
unfolding size_loop
loop_step m n c cs h = ground arith

-- What the loop has read behind a number `m` that is not 0 are the digits behind those of `m`.
loop_digits :
    (m n : ℕ) (b : Bytes) → 1 ≤ m → size_loop m b ≡ some n → decimal 20 n ≡ decimal 20 m ++ b
unfolding size_loop
loop_digits m n [] pos h = ground (arith, append-nil (decimal 20 m))
loop_digits m n (c ∷ cs) pos h =
    let s = loop_step m n c cs h in
    let e : 48 + (c - 48) ≡ c = omega (arith, s) in
    loop_digits (m * 10 + (c - 48)) n cs (omega arith) s.3
    ∙ rw (decimal_step m (c - 48) pos (omega (arith, s)) s.2, e)
        (append_assoc (decimal 20 m) (c ∷ []) cs)

decimal_digit : (m : ℕ) → m < 10 → decimal 20 m ≡ (48 + m) ∷ []
unfolding decimal
decimal_digit m h = ground arith

read_canonical : (n : ℕ) (b : Bytes) → parse_size b ≡ some n → b ≡ to_string n
unfolding parse_size to_string
read_canonical n [] h = cc
read_canonical n (c ∷ []) h =
    let s = loop_step 0 n c [] (ground arith) in
    let value : c - 48 ≡ n = unfold size_loop in ground (arith, s.3) in
    let e : 48 + (c - 48) ≡ c = omega (arith, s) in
    sym (ap (decimal 20) (sym value) ∙ rw (decimal_digit (c - 48) (omega (arith, s)), e))
read_canonical n (c ∷ d ∷ cs) h =
    let not_zero : c ≢ 48 = λ z. ground arith in
    let s = loop_step 0 n c (d ∷ cs) (ground arith) in
    let m : ℕ = 0 * 10 + (c - 48) in
    let e : 48 + m ≡ c = omega (arith, s) in
    sym (
      loop_digits m n (d ∷ cs) (omega (arith, not_zero, s)) s.3
      ∙ rw (decimal_digit m (omega (arith, s)), e))

first_digit :
    (f n : ℕ) → 1 ≤ n → n < 10 ^ f → (1 ≤ length (decimal f n)) × (get_or (decimal f n) 0 0 ≢ 48)
unfolding decimal
first_digit zero n pos h = absurd (omega arith)
first_digit (suc f) n pos h = elim (Bool-cases (ltb n 10)) [
  | inl small ↦ rw small (omega arith, omega arith)
  | inr big ↦
      let ih = first_digit f (n / 10) (ground arith) (omega (arith, pow_10 f)) in
      let front = decimal f (n / 10) in
      rw big (
        omega (arith, length-append front ((48 + n % 10) ∷ [])),
        λ e. ih.1 (sym (get_or-append_left front ((48 + n % 10) ∷ []) 0 0 ih.0) ∙ e),
      )
]

write_read : (n : ℕ) → IsU64 n → parse_size (to_string n) ≡ some n
unfolding parse_size to_string
write_read zero fits = unfold decimal size_loop in refl
write_read (suc k) fits = ground (
  arith,
  first_digit 20 (suc k) (omega arith) (omega arith),
  size_loop-decimal 20 (suc k) (omega arith) fits,
)

-- `to_string` of a u64 is read back, and whatever is read is the `to_string` of the number: no sign,
-- no leading zero, and nothing beyond a u64.
pub parse_size_exact : (n : ℕ) (b : Bytes) → IsU64 n → (parse_size b ≡ some n) ↔ (b ≡ to_string n)
parse_size_exact n b fits = (read_canonical n b, λ e. ap parse_size e ∙ write_read n fits)
