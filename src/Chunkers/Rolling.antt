-- ===== src/Chunkers/Rolling.antt =====
-- The scan of `ultra_cdc_cutpoint` in src/chunkers.rs keeps a rolling distance; here it meets a
-- reference that measures every window of eight bytes afresh.
use core_rs.Prelude.{
  ℕ, zero, suc, ◌+◌, ◌-◌, ◌*◌, ◌≤◌, ◌≡◌, refl, sym, ap, ◌∙◌, arith, true, false, none, some, length,
  slice, leb, ltb, if◌then◌else◌, inl, inr, Bool-cases, Option-cases,
}
use core_rs.Prelude.Bytes.{Bytes}
use core_rs.Prelude.Lex.{bytes_eq, bytes_eq→eq}
use core_rs.Chunkers.{sum_hamming, inner, Scan, scan, mask_l, mask_s, rounds, cut_window}
use core_rs.Chunkers.Cutpoint.{
  window_mask, after_same, after_other, scan_same, scan-cut, scan_through,
}
use core_rs.Chunkers.Windows.{window_sum, find_cut, inner_of, inner-find_cut, find_window}

module _ (bytes : Bytes) (normal n left i mask low : ℕ) where
  find_window-some :
      (c : ℕ)
      → bytes_eq (slice i (i + 8) bytes) (slice (i - 8) i bytes) ≡ false
      → find_cut bytes (if leb normal i then mask_l else mask) i 8 0 ≡ some c
      → find_window bytes normal n (suc left) i mask low ≡ c
  unfolding find_window
  find_window-some c e f = rw e (ground arith)

  find_window-none :
      bytes_eq (slice i (i + 8) bytes) (slice (i - 8) i bytes) ≡ false
      → find_cut bytes (if leb normal i then mask_l else mask) i 8 0 ≡ none
      → find_window bytes normal n (suc left) i mask low
        ≡ find_window bytes normal n left (i + 8) (if leb normal i then mask_l else mask) 0
  unfolding find_window
  find_window-none e f = rw e (ground arith)

-- What the loop knows on reaching the window at `i`.
record IsRolling (bytes : Bytes) (i : ℕ) (s : Scan) : Type 0 where
  window : s.out_buf_win ≡ slice (i - 8) i bytes
  distance : s.dist ≡ window_sum bytes i

back_8 : (i : ℕ) → i + 8 - 8 ≡ i
back_8 i = omega arith

module _ (bytes : Bytes) (normal i : ℕ) (s : Scan) (r : IsRolling bytes i s) where
  same_window :
      bytes_eq (slice i (i + 8) bytes) s.out_buf_win
      ≡ bytes_eq (slice i (i + 8) bytes) (slice (i - 8) i bytes)
  same_window = ap (bytes_eq (slice i (i + 8) bytes)) r.window

  after_same-IsRolling :
      bytes_eq (slice i (i + 8) bytes) (slice (i - 8) i bytes) ≡ true
      → IsRolling bytes (i + 8) (after_same normal i s)
  unfolding window_sum
  after_same-IsRolling e =
      let same : slice i (i + 8) bytes ≡ slice (i - 8) i bytes = bytes_eq→eq _ _ e in
      let here : slice (i + 8 - 8) (i + 8) bytes ≡ slice i (i + 8) bytes =
        ap (λ a. slice a (i + 8) bytes) (back_8 i) in
      record {
        window = r.window ∙ sym (here ∙ same);
        distance = r.distance ∙ ap sum_hamming (sym (here ∙ same));
      }

  after_other-IsRolling :
      (d : ℕ)
      → d ≡ window_sum bytes (i + 0 + 8)
      → IsRolling bytes (i + 8) (after_other bytes normal i s d)
  after_other-IsRolling d e = record {
    window = ap (λ a. slice a (i + 8) bytes) (sym (back_8 i));
    distance = e ∙ ap (window_sum bytes) (omega arith);
  }

  inner_lem :
      8 ≤ i
      → i + 8 ≤ length bytes
      → inner bytes (window_mask normal i s) i 8 0 s.dist
        ≡ inner_of (find_cut bytes (window_mask normal i s) i 8 0) (window_sum bytes (i + 0 + 8))
  inner_lem lo hi =
      ap (inner bytes (window_mask normal i s) i 8 0)
        (r.distance ∙ ap (window_sum bytes) (omega arith))
      ∙ inner-find_cut bytes (window_mask normal i s) i 8 0 lo (omega arith)

-- From a state whose window and distance are those of the eight bytes before `i`, the scan cuts where
-- the reference cuts, which keeps neither: the rolling distance is exact in every window, also
-- behind repeated windows, where the code leaves it alone.
scan-find_window :
    (bytes : Bytes) (normal n left i : ℕ) (s : Scan)
    → 8 ≤ i
    → i + 8 * left ≤ length bytes
    → IsRolling bytes i s
    → scan bytes normal n left i s ≡ find_window bytes normal n left i s.mask s.low_entropy_count
scan-find_window bytes normal n zero i s lo hi r = unfold scan find_window in refl
scan-find_window bytes normal n (suc left) i s lo hi r =
    elim (Bool-cases (bytes_eq (slice i (i + 8) bytes) (slice (i - 8) i bytes))) [
      | inl e ↦
          scan_same bytes normal n left i s (same_window bytes normal i s r ∙ e)
          ∙ rw
              (scan-find_window bytes normal n left (i + 8) (after_same normal i s) (omega arith)
                (omega arith) (after_same-IsRolling bytes normal i s r e))
              (unfold find_window in rw e)
      | inr e ↦ elim (Option-cases (find_cut bytes (window_mask normal i s) i 8 0)) [
        | inl f ↦
            let d = window_sum bytes (i + 0 + 8) in
            scan_through bytes normal n left i s d (same_window bytes normal i s r ∙ e)
              (inner_lem bytes normal i s r lo (omega arith) ∙ rw f)
            ∙ scan-find_window bytes normal n left (i + 8) (after_other bytes normal i s d)
                (omega arith) (omega arith) (after_other-IsRolling bytes normal i s r d refl)
            ∙ sym (find_window-none bytes normal n left i s.mask s.low_entropy_count e f)
        | inr (c, f) ↦
            scan-cut bytes normal n left i s c (same_window bytes normal i s r ∙ e)
              (inner_lem bytes normal i s r lo (omega arith) ∙ rw f)
            ∙ sym (find_window-some bytes normal n left i s.mask s.low_entropy_count c e f)
      ]
    ]

start-IsRolling :
    (bytes : Bytes) (m : ℕ)
    → IsRolling bytes (m + 8) (record {
      mask = mask_s;
      low_entropy_count = 0;
      out_buf_win = slice m (m + 8) bytes;
      dist = sum_hamming (slice m (m + 8) bytes);
    })
unfolding window_sum
start-IsRolling bytes m = record {
  window = ap (λ a. slice a (m + 8) bytes) (sym (back_8 m));
  distance = ap (λ a. sum_hamming (slice a (m + 8) bytes)) (sym (back_8 m));
}

-- Where a chunk of `n` bytes at most is cut out of a buffer that holds them, the code's rolling scan
-- answers as the reference does, from the end of the minimal chunk on.
pub cut_window-find_window :
    (min_size normal n : ℕ) (bytes : Bytes)
    → n ≤ length bytes
    → cut_window min_size normal n bytes ≡ (
        if ltb n (min_size + 8)
        then n
        else find_window bytes normal n (rounds (min_size + 8) (n - 8)) (min_size + 8) mask_s 0)
unfolding cut_window rounds
cut_window-find_window min_size normal n bytes fits = elim (Bool-cases (ltb n (min_size + 8))) [
  | inl short ↦ rw short
  | inr long ↦ rw long (
      scan-find_window bytes normal n _ (min_size + 8) _ (omega arith) (ground arith)
        (start-IsRolling bytes min_size))
]
