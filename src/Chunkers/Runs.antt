-- ===== src/Chunkers/Runs.antt =====
-- Runs of src/chunkers.rs on concrete inputs, and the theorems at them.
use core_rs.Prelude.{
  ℕ, ◌+◌, ◌-◌, ◌≤◌, ◌<◌, ◌≡◌, ◌⊎◌, refl, arith, Bool, true, false, some, [], ◌++◌, replicate,
  concat, Result, ok, err, map_err, ltb, if◌then◌else◌,
}
use core_rs.Prelude.Bytes.{Bytes}
use core_rs.Prelude.Lex.{bytes_eq}
use core_rs.Chunkers.{
  ByteOpts, Resolved, resolve, validate, ultra_cdc_cutpoint, cut_window, scan, inner, slide, rounds,
  sum_hamming, hamming_to_0xaa, mask_s, bad_min_size,
}
use core_rs.Chunkers.Cutpoint.{cutpoint_bounds}
use core_rs.Chunkers.Windows.{find_window}
use core_rs.Chunkers.Rolling.{cut_window-find_window}
use core_rs.Chunkers.Driver.{callback, split_bytes}
use core_rs.Chunkers.Driver.Chunks.{chunks, feed, Sized, chunks_lem}
use core_rs.Chunkers.Driver.Refill.{split_bytes-chunks}

abbrev small : ByteOpts
small = record { min_size = 64; max_size = 100; normal_size = 80; key = [] }

abbrev small_sizes : Resolved
small_sizes = record { min_size = 64; max_size = 100; normal_size = 80 }

small_valid : validate (resolve (some small)) ≡ ok tt
unfolding validate resolve
small_valid = refl

small_sizes_valid : validate small_sizes ≡ ok tt
unfolding validate
small_sizes_valid = refl

min_refused :
    validate (record { min_size = 90; max_size = 100; normal_size = 80 }) ≡ err bad_min_size
unfolding validate
min_refused = refl

-- A window of 0xaa bytes has distance 0, so the chunk ends at the first position looked at.
cut_at_72 :
    ultra_cdc_cutpoint small_sizes (replicate 64 1 ++ (replicate 8 0xaa ++ replicate 20 2)) ≡ 72
unfolding ultra_cdc_cutpoint cut_window scan inner slide sum_hamming hamming_to_0xaa bytes_eq
cut_at_72 = refl

cutpoint_bounds_example :
    (ultra_cdc_cutpoint small_sizes (replicate 70 1) ≤ 70)
    × (ultra_cdc_cutpoint small_sizes (replicate 70 1) ≤ 100)
    × ((ultra_cdc_cutpoint small_sizes (replicate 70 1) ≡ 70)
        ⊎ (64 < ultra_cdc_cutpoint small_sizes (replicate 70 1)))
    × (0 < 70 → 0 < ultra_cdc_cutpoint small_sizes (replicate 70 1))
cutpoint_bounds_example = cutpoint_bounds small_sizes (replicate 70 1) small_sizes_valid

cut_window-find_window_example : cut_window 64 80 100 (replicate 100 1) ≡ (
    if ltb 100 (64 + 8)
    then 100
    else find_window (replicate 100 1) 80 100 (rounds (64 + 8) (100 - 8)) (64 + 8) mask_s 0)
cut_window-find_window_example = cut_window-find_window 64 80 100 (replicate 100 1) (omega arith)

chunks_lem_example :
    (concat (chunks small_sizes (replicate 170 1)) ≡ replicate 170 1)
    × Sized small_sizes (chunks small_sizes (replicate 170 1))
chunks_lem_example = chunks_lem small_sizes (replicate 170 1) small_sizes_valid

-- A callback that refuses the third chunk.
abbrev keep_two : ℕ → Bytes → Result Bool ℕ
keep_two n c = if ltb n 2 then ok (n + 1) else err true

split_bytes-chunks_example :
    split_bytes (record { content = replicate 170 1; fails = false }) (some small) keep_two 0
    ≡ some (map_err (feed keep_two 0 (chunks (resolve (some small)) (replicate 170 1))) callback)
split_bytes-chunks_example =
    split_bytes-chunks (replicate 170 1) (some small) keep_two 0 small_valid
