-- ===== src/Chunkers/Windows.antt =====
-- Windows measured afresh, against the rolling distance of `ultra_cdc_cutpoint` (src/chunkers.rs).
use core_rs.Prelude.{
  ℕ, zero, suc, ◌+◌, ◌-◌, ◌*◌, ◌/◌, ◌≤◌, ◌<◌, ◌≡◌, ap, ◌∙◌, subst, arith, Option, none, some, [],
  ◌∷◌, length, get_or, take, drop, slice, leb, ◌==◌, if◌then◌else◌, inl, inr, Bool-cases, bit_and,
  length-take,
}
use core_rs.Prelude.Bytes.{Bytes}
use core_rs.Prelude.Lex.{bytes_eq}
use core_rs.Chunkers.{
  count_ones, hamming_to_0xaa, sum_hamming, Inner, cut, through, inner, slide, mask_l,
  low_entropy_string_threshold,
}

count_ones-le : (w b : ℕ) → count_ones w b ≤ w
unfolding count_ones
count_ones-le zero b = omega arith
count_ones-le (suc w) b = omega (arith, count_ones-le w (b / 2))

hamming-le : (b : ℕ) → hamming_to_0xaa b ≤ 8
unfolding hamming_to_0xaa
hamming-le b = count_ones-le 8 _

sum_hamming-le : (bs : Bytes) → sum_hamming bs ≤ 8 * length bs
unfolding sum_hamming
sum_hamming-le [] = omega arith
sum_hamming-le (b ∷ bs) = omega (arith, hamming-le b, sum_hamming-le bs)

-- The last byte of a prefix, counted on its own.
sum-take-suc :
    (w : ℕ) (ys : Bytes)
    → w < length ys
    → sum_hamming (take (suc w) ys) ≡ sum_hamming (take w ys) + hamming_to_0xaa (get_or ys w 0)
unfolding sum_hamming
sum-take-suc w [] h = absurd (omega arith)
sum-take-suc zero (y ∷ ys) h = omega arith
sum-take-suc (suc w) (y ∷ ys) h = omega (arith, sum-take-suc w ys (omega arith))

-- The distance of the eight bytes before `p`.
unfoldable pub window_sum : Bytes → ℕ → ℕ
window_sum bytes p = sum_hamming (slice (p - 8) p bytes)

step_sum :
    (a : ℕ) (bytes : Bytes)
    → a + 8 < length bytes
    → sum_hamming (take 8 (drop (suc a) bytes)) + hamming_to_0xaa (get_or bytes a 0)
      ≡ sum_hamming (take 8 (drop a bytes)) + hamming_to_0xaa (get_or bytes (a + 8) 0)
step_sum a [] h = absurd (omega arith)
step_sum zero (y ∷ ys) h = unfold sum_hamming in omega (arith, sum-take-suc 7 ys (omega arith))
step_sum (suc a) (y ∷ ys) h =
    let e : suc a + 8 ≡ suc (a + 8) = omega arith in rw e (step_sum a ys (omega arith))

window_sum-le : (bytes : Bytes) (p : ℕ) → 8 ≤ p → window_sum bytes p ≤ 64
unfolding window_sum
window_sum-le bytes p h =
    let e : p - (p - 8) ≡ 8 = omega arith in
    rw e (
      omega
        (arith, sum_hamming-le (take 8 (drop (p - 8) bytes)), length-take 8 (drop (p - 8) bytes)))

window_sum_step :
    (bytes : Bytes) (p : ℕ)
    → 8 ≤ p
    → p < length bytes
    → window_sum bytes (p + 1) + hamming_to_0xaa (get_or bytes (p - 8) 0)
      ≡ window_sum bytes p + hamming_to_0xaa (get_or bytes p 0)
unfolding window_sum
window_sum_step bytes p lo hi =
    let e1 : p + 1 - 8 ≡ suc (p - 8) = omega arith in
    let e2 : p + 1 - suc (p - 8) ≡ 8 = omega arith in
    let e3 : p - (p - 8) ≡ 8 = omega arith in
    let e4 : p - 8 + 8 ≡ p = omega arith in
    rw (e1, e2, e3)
      (subst
        (λ q.
          sum_hamming (take 8 (drop (suc (p - 8)) bytes)) + hamming_to_0xaa (get_or bytes (p - 8) 0)
          ≡ sum_hamming (take 8 (drop (p - 8) bytes)) + hamming_to_0xaa (get_or bytes q 0))
        e4 (step_sum (p - 8) bytes (omega arith)))

-- The u64 that the code keeps never wraps: it is the distance of the window.
slide-window_sum :
    (bytes : Bytes) (p : ℕ)
    → 8 ≤ p
    → p < length bytes
    → slide (window_sum bytes p) (get_or bytes (p - 8) 0) (get_or bytes p 0)
      ≡ window_sum bytes (p + 1)
unfolding slide
slide-window_sum bytes p lo hi = omega (
  arith,
  window_sum_step bytes p lo hi,
  window_sum-le bytes p lo,
  window_sum-le bytes (p + 1) (omega arith),
  hamming-le (get_or bytes p 0),
  hamming-le (get_or bytes (p - 8) 0),
)

-- The reference: the first of the positions i + j at which the window before it passes the mask.
unfoldable pub find_cut : Bytes → ℕ → ℕ → ℕ → ℕ → Option ℕ
find_cut bytes mask i zero j = none
find_cut bytes mask i (suc left) j =
    let rest = find_cut bytes mask i left (j + 1) in
    if bit_and (window_sum bytes (i + j)) mask == 0 then some (i + j) else rest

abbrev pub inner_of : Option ℕ → ℕ → Inner
inner_of none d = through d
inner_of (some c) d = cut c

pub inner-find_cut :
    (bytes : Bytes) (mask i left j : ℕ)
    → 8 ≤ i
    → i + j + left ≤ length bytes
    → inner bytes mask i left j (window_sum bytes (i + j))
      ≡ inner_of (find_cut bytes mask i left j) (window_sum bytes (i + j + left))
unfolding inner find_cut
inner-find_cut bytes mask i zero j lo hi = let e : i + j + 0 ≡ i + j = omega arith in rw e
inner-find_cut bytes mask i (suc left) j lo hi =
    let e : i + j + suc left ≡ i + (j + 1) + left = omega arith in
    let f : i + j + 1 ≡ i + (j + 1) = omega arith in
    let s : slide (window_sum bytes (i + j)) (get_or bytes (i + j - 8) 0) (get_or bytes (i + j) 0)
        ≡ window_sum bytes (i + (j + 1)) =
      slide-window_sum bytes (i + j) (omega arith) (omega arith) ∙ ap (window_sum bytes) f in
    rw (e, s)
      (elim (Bool-cases (bit_and (window_sum bytes (i + j)) mask == 0)) [
        | inl t ↦ rw t
        | inr t ↦ rw t (inner-find_cut bytes mask i left (j + 1) lo (omega arith))
      ])

-- The reference scan compares each window with the eight bytes before it.
unfoldable pub find_window : Bytes → ℕ → ℕ → ℕ → ℕ → ℕ → ℕ → ℕ
find_window bytes normal n zero i mask low = n
find_window bytes normal n (suc left) i mask low =
    let mask' = if leb normal i then mask_l else mask in
    let repeated = find_window bytes normal n left (i + 8) mask' (low + 1) in
    if bytes_eq (slice i (i + 8) bytes) (slice (i - 8) i bytes)
    then (if leb low_entropy_string_threshold (low + 1) then i + 8 else repeated)
    else elim (find_cut bytes mask' i 8 0) [
      | some c ↦ c
      | none ↦ find_window bytes normal n left (i + 8) mask' 0
    ]
