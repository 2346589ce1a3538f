-- ===== src/Chunkers/Cutpoint.antt =====
-- Where `ultra_cdc_cutpoint` of src/chunkers.rs may cut.
use core_rs.Prelude.{
  ℕ, zero, suc, ◌+◌, ◌-◌, ◌*◌, ◌/◌, ◌≤◌, ◌<◌, ◌≡◌, ◌⊎◌, refl, arith, true, false, length, slice,
  leb, if◌then◌else◌, ok, inl, inr, Bool-cases, get_or, ◌∙◌,
}
use core_rs.Prelude.Bytes.{Bytes}
use core_rs.Prelude.Lex.{bytes_eq}
use core_rs.Chunkers.{
  Resolved, validate, one_gib, Inner, cut, through, inner, slide, Scan, scan, rounds, cut_window,
  ultra_cdc_cutpoint, low_entropy_string_threshold, mask_l,
}

inner_range :
    (bytes : Bytes) (mask i left j dist c : ℕ)
    → inner bytes mask i left j dist ≡ cut c
    → (i + j ≤ c) × (c < i + j + left)
unfolding inner
inner_range bytes mask i zero j dist c h = cc
inner_range bytes mask i (suc left) j dist c h = ground (
  arith,
  inner_range bytes mask i left (j + 1)
      (slide dist (get_or bytes (i + j - 8) 0) (get_or bytes (i + j) 0)) c,
)

-- The mask of the window at `i`, and the loop's variables behind a repeated and another window.
abbrev pub window_mask : ℕ → ℕ → Scan → ℕ
window_mask normal i s = if leb normal i then mask_l else s.mask

abbrev pub after_same : ℕ → ℕ → Scan → Scan
after_same normal i s = record s {
  mask = window_mask normal i s;
  low_entropy_count = s.low_entropy_count + 1;
}

abbrev pub after_other : Bytes → ℕ → ℕ → Scan → ℕ → Scan
after_other bytes normal i s d = record {
  mask = window_mask normal i s;
  low_entropy_count = 0;
  out_buf_win = slice i (i + 8) bytes;
  dist = d;
}

module _ (bytes : Bytes) (normal n left i : ℕ) (s : Scan) where
  pub scan_same :
      bytes_eq (slice i (i + 8) bytes) s.out_buf_win ≡ true
      → scan bytes normal n (suc left) i s ≡ (
          if leb low_entropy_string_threshold (s.low_entropy_count + 1)
          then i + 8
          else scan bytes normal n left (i + 8) (after_same normal i s))
  unfolding scan
  scan_same e = rw e

  pub scan-cut :
      (c : ℕ)
      → bytes_eq (slice i (i + 8) bytes) s.out_buf_win ≡ false
      → inner bytes (window_mask normal i s) i 8 0 s.dist ≡ cut c
      → scan bytes normal n (suc left) i s ≡ c
  unfolding scan
  scan-cut c e f = rw e (ground arith)

  pub scan_through :
      (d : ℕ)
      → bytes_eq (slice i (i + 8) bytes) s.out_buf_win ≡ false
      → inner bytes (window_mask normal i s) i 8 0 s.dist ≡ through d
      → scan bytes normal n (suc left) i s
        ≡ scan bytes normal n left (i + 8) (after_other bytes normal i s d)
  unfolding scan
  scan_through d e f = rw e (ground arith)

  -- One window: a cut in it or at its end, or the rest of the scan.
  scan_cases :
      ((c : ℕ) × (i ≤ c) × (c ≤ i + 8) × (scan bytes normal n (suc left) i s ≡ c))
      ⊎ ((s' : Scan) × (scan bytes normal n (suc left) i s ≡ scan bytes normal n left (i + 8) s'))
  scan_cases = elim (Bool-cases (bytes_eq (slice i (i + 8) bytes) s.out_buf_win)) [
    | inl e ↦ elim (Bool-cases (leb low_entropy_string_threshold (s.low_entropy_count + 1))) [
      | inl f ↦ inl (i + 8, omega arith, omega arith, scan_same e ∙ rw f)
      | inr f ↦ inr (after_same normal i s, scan_same e ∙ rw f)
    ]
    | inr e ↦ other e (inner bytes (window_mask normal i s) i 8 0 s.dist) refl
  ]
    where
      other :
          bytes_eq (slice i (i + 8) bytes) s.out_buf_win ≡ false
          → (r : Inner) → inner bytes (window_mask normal i s) i 8 0 s.dist ≡ r
          → ((c : ℕ) × (i ≤ c) × (c ≤ i + 8) × (scan bytes normal n (suc left) i s ≡ c))
            ⊎ ((s' : Scan) × (scan bytes normal n (suc left) i s
                  ≡ scan bytes normal n left (i + 8) s'))
      other e (cut c) f =
          let b = inner_range bytes (window_mask normal i s) i 8 0 s.dist c f in
          inl (c, omega arith, omega arith, scan-cut c e f)
      other e (through d) f = inr (after_other bytes normal i s d, scan_through d e f)

-- Every window that is left ends by `n`, and so does the cut; it is `n` or stands in a window.
scan_range :
    (bytes : Bytes) (normal n left i : ℕ) (s : Scan)
    → i + 8 * left ≤ n
    → (scan bytes normal n left i s ≤ n)
      × ((scan bytes normal n left i s ≡ n) ⊎ (i ≤ scan bytes normal n left i s))
scan_range bytes normal n zero i s h = unfold scan in (omega arith, inl refl)
scan_range bytes normal n (suc left) i s h = elim (scan_cases bytes normal n left i s) [
  | inl (c, lo, hi, e) ↦ rw e (omega arith, inr lo)
  | inr (s', e) ↦
      let r = scan_range bytes normal n left (i + 8) s' (omega arith) in
      rw e (r.0, omega (arith, r))
]

cut_window_range :
    (min_size normal n : ℕ) (bytes : Bytes)
    → min_size < n
    → (min_size < cut_window min_size normal n bytes) × (cut_window min_size normal n bytes ≤ n)
unfolding cut_window rounds
cut_window_range min_size normal n bytes h = ground (
  arith,
  scan_range bytes normal n ((n - 8 - (min_size + 8)) / 8 + 1) (min_size + 8) (record {
    mask = 0x2f;
    low_entropy_count = 0;
    out_buf_win = slice min_size (min_size + 8) bytes;
    dist = core_rs.Chunkers.sum_hamming (slice min_size (min_size + 8) bytes);
  }),
  scan_range bytes normal n 0 (min_size + 8) (record {
    mask = 0x2f;
    low_entropy_count = 0;
    out_buf_win = slice min_size (min_size + 8) bytes;
    dist = core_rs.Chunkers.sum_hamming (slice min_size (min_size + 8) bytes);
  }),
)

-- The sizes that `validate` accepts.
pub validate_ok :
    (r : Resolved)
    → validate r ≡ ok tt
    → (64 ≤ r.min_size) × (r.min_size < r.normal_size) × (r.normal_size < r.max_size)
unfolding validate
validate_ok r h = ground arith

-- With options that `validate` accepts, a cut lies in the data and within the maximal size; it takes
-- all the data, or more than the minimal size; and it takes a byte at least if there is one.
pub cutpoint_bounds :
    (opts : Resolved) (bytes : Bytes)
    → validate opts ≡ ok tt
    → (ultra_cdc_cutpoint opts bytes ≤ length bytes)
      × (ultra_cdc_cutpoint opts bytes ≤ opts.max_size)
      × ((ultra_cdc_cutpoint opts bytes ≡ length bytes)
          ⊎ (opts.min_size < ultra_cdc_cutpoint opts bytes))
      × (0 < length bytes → 0 < ultra_cdc_cutpoint opts bytes)
unfolding ultra_cdc_cutpoint
cutpoint_bounds opts bytes valid =
    let v = validate_ok opts valid in
    ground (
      arith,
      cut_window_range opts.min_size opts.normal_size opts.max_size bytes,
      cut_window_range opts.min_size (length bytes) (length bytes) bytes,
      cut_window_range opts.min_size opts.normal_size (length bytes) bytes,
    )
