-- ===== src/Chunkers.antt =====
-- src/chunkers.rs: the options of the byte chunker, and the cutpoint of UltraCDC. The driver and the
-- item chunker are child modules.
pub mod Cutpoint
pub mod Windows
pub mod Rolling
pub mod Driver
pub mod Items
mod Runs
use core_rs.Prelude.{
  ℕ, zero, suc, ◌+◌, ◌-◌, ◌*◌, ◌/◌, ◌%◌, ◌^◌, bit_and, bit_xor, Bool, true, false, ◌||◌, Option,
  none, some, List, [], ◌∷◌, length, get_or, slice, leb, ltb, ◌==◌, if◌then◌else◌, Result, ok, err,
}
use core_rs.Prelude.Bytes.{Bytes}
use core_rs.Prelude.Lex.{bytes_eq}

abbrev pub default_min_size : ℕ
default_min_size = 32 * 1024

abbrev pub default_normal_size : ℕ
default_normal_size = 512 * 1024

abbrev pub default_max_size : ℕ
default_max_size = 1024 * 1024

pub record ByteOpts : Type 0 where
  pub min_size : ℕ
  pub max_size : ℕ
  pub normal_size : ℕ
  pub key : Bytes

pub data OptionsError : Type 0 where
  bad_normal_size bad_min_size bad_max_size : OptionsError

pub record Resolved : Type 0 where
  pub min_size : ℕ
  pub max_size : ℕ
  pub normal_size : ℕ

abbrev pick : ℕ → ℕ → ℕ
pick v d = if v == 0 then d else v

-- Resolved::new
unfoldable pub resolve : Option ByteOpts → Resolved
resolve none = record {
  min_size = default_min_size;
  max_size = default_max_size;
  normal_size = default_normal_size;
}
resolve (some o) = record {
  min_size = pick o.min_size default_min_size;
  max_size = pick o.max_size default_max_size;
  normal_size = pick o.normal_size default_normal_size;
}

abbrev one_gib : ℕ
one_gib = 1024 * 1024 * 1024

-- Resolved::validate
unfoldable pub validate : Resolved → Result OptionsError (Unit {0})
validate r =
    if ltb r.normal_size 64 || ltb one_gib r.normal_size
    then err bad_normal_size
    else if ltb r.min_size 64 || ltb one_gib r.min_size || leb r.normal_size r.min_size
    then err bad_min_size
    else if ltb r.max_size 64 || ltb one_gib r.max_size || leb r.max_size r.normal_size
    then err bad_max_size
    else ok tt

-- u8::count_ones, bit by bit from the lowest
unfoldable pub count_ones : ℕ → ℕ → ℕ
count_ones zero b = 0
count_ones (suc w) b = b % 2 + count_ones w (b / 2)

-- HAMMING_TO_0XAA[b]
unfoldable pub hamming_to_0xaa : ℕ → ℕ
unfolding count_ones
hamming_to_0xaa b = count_ones 8 (bit_xor b 0xaa)

abbrev pub mask_s : ℕ
mask_s = 0x2f

abbrev pub mask_l : ℕ
mask_l = 0x2c

abbrev pub low_entropy_string_threshold : ℕ
low_entropy_string_threshold = 64

-- `dist += in - out`, with the i64 kept as the u64 that `dist as u64` is.
unfoldable pub slide : ℕ → ℕ → ℕ → ℕ
slide dist out_byte in_byte =
    (dist + hamming_to_0xaa in_byte + 2 ^ 64 - hamming_to_0xaa out_byte) % 2 ^ 64

-- What the loop over j of one window does: return a cut, or go on with the new distance.
pub data Inner : Type 0 where
  cut : ℕ → Inner
  through : ℕ → Inner

-- `for j in 0..8`, with `left` rounds to go
unfoldable pub inner : Bytes → ℕ → ℕ → ℕ → ℕ → ℕ → Inner
inner bytes mask i zero j dist = through dist
inner bytes mask i (suc left) j dist =
    let rest =
      inner bytes mask i left (j + 1)
        (slide dist (get_or bytes (i + j - 8) 0) (get_or bytes (i + j) 0)) in
    if bit_and dist mask == 0 then cut (i + j) else rest

-- The variables of the loop over the windows.
pub record Scan : Type 0 where
  pub mask : ℕ
  pub low_entropy_count : ℕ
  pub out_buf_win : Bytes
  pub dist : ℕ

-- The loop over i, with `left` rounds to go; `n` is where the chunk ends at the latest.
unfoldable pub scan : Bytes → ℕ → ℕ → ℕ → ℕ → Scan → ℕ
scan bytes normal n zero i s = n
scan bytes normal n (suc left) i s =
    let mask = if leb normal i then mask_l else s.mask in
    let in_buf_win = slice i (i + 8) bytes in
    let low = s.low_entropy_count + 1 in
    let same_rest =
      scan bytes normal n left (i + 8) (record s { mask = mask; low_entropy_count = low }) in
    if bytes_eq in_buf_win s.out_buf_win
    then (if leb low_entropy_string_threshold low then i + 8 else same_rest)
    else elim (inner bytes mask i 8 0 s.dist) [
      | cut c ↦ c
      | through d ↦
          scan bytes normal n left (i + 8)
            (record { mask = mask; low_entropy_count = 0; out_buf_win = in_buf_win; dist = d })
    ]

-- (a..=b).step_by(8).count()
unfoldable pub rounds : ℕ → ℕ → ℕ
rounds a b = if ltb b a then 0 else (b - a) / 8 + 1

unfoldable pub sum_hamming : Bytes → ℕ
sum_hamming [] = 0
sum_hamming (b ∷ bs) = hamming_to_0xaa b + sum_hamming bs

-- From the guard of short windows on, with the resolved end and normal point.
unfoldable pub cut_window : ℕ → ℕ → ℕ → Bytes → ℕ
unfolding rounds
cut_window min_size normal n bytes =
    if ltb n (min_size + 8)
    then n
    else scan bytes normal n (rounds (min_size + 8) (n - 8)) (min_size + 8) (record {
      mask = mask_s;
      low_entropy_count = 0;
      out_buf_win = slice min_size (min_size + 8) bytes;
      dist = sum_hamming (slice min_size (min_size + 8) bytes);
    })

-- ultra_cdc_cutpoint
unfoldable pub ultra_cdc_cutpoint : Resolved → Bytes → ℕ
ultra_cdc_cutpoint opts bytes =
    let n = length bytes in
    if leb n opts.min_size
    then n
    else if leb opts.max_size n
    then cut_window opts.min_size opts.normal_size opts.max_size bytes
    else if leb n opts.normal_size
    then cut_window opts.min_size n n bytes
    else cut_window opts.min_size opts.normal_size n bytes
