-- ===== src/Amberpack.antt =====
-- src/amberpack.rs: records and the wire pack. The codecs and CRC-32C are other crates: `Codecs` has
-- what the code calls of them, and `IsCodecs` what their documentation says.
pub mod Layout
pub mod Records
pub mod RoundTrip
pub mod Fields
pub mod Exact
pub mod Stream
mod Runs
use core_rs.Prelude.{
  ℕ, ◌+◌, ◌*◌, ◌^◌, ◌≤◌, ◌<◌, ◌≡◌, ◌-◌, Bool, true, false, not, ◌&&◌, Option, none, some, [], ◌∷◌,
  ◌++◌, length, get_or, take, drop, replicate, leb, ltb, ◌==◌, if◌then◌else◌, Result, ok, err,
  ◌>>=◌, ◌>>◌, ok_or, map_err,
}
use core_rs.Prelude.Bytes.{Bytes, to_be_bytes, from_be_bytes}
use core_rs.Prelude.Int.{ℤ, pos, negsuc}
use core_rs.Key.{Key}
use core_rs.Key as KeyModule

abbrev pub rec_header_size : ℕ
rec_header_size = 46

abbrev pub tag_chunk : ℕ
tag_chunk = 0x01

abbrev pub codec_raw : ℕ
codec_raw = 0

abbrev pub codec_zstd : ℕ
codec_zstd = 1

abbrev pub codec_lz4 : ℕ
codec_lz4 = 2

-- 256 << 20
abbrev pub max_payload : ℕ
max_payload = 268435456

-- The texts of `Corrupt`.
pub data Corrupt : Type 0 where
  truncated_header truncated_payload : Corrupt
  unexpected_tag unknown_flags : ℕ → Corrupt
  raw_length : ℕ → ℕ → Corrupt
  over_limit : ℕ → Corrupt
  not_smaller : ℕ → ℕ → Corrupt
  crc_mismatch : Corrupt
  record_key : KeyModule.Error → Corrupt
  bad_zstd bad_lz4 : Corrupt
  lz4_range : ℕ → Corrupt
  decompressed : ℕ → ℕ → Corrupt

-- The texts of `Malformed` that the reader makes itself.
pub data Malformed : Type 0 where
  reading_magic bad_magic no_end_marker short_header short_payload : Malformed
  pack_version : ℕ → Malformed
  payload_limit : ℕ → Malformed
  bad_record_tag : ℕ → Malformed

-- `malformed_by e` is `Malformed` with the text of `e`.
pub data Error : Type 0 where
  corrupt : Corrupt → Error
  malformed : Malformed → Error
  malformed_by : Error → Error
  too_large : Key → ℕ → Error
  invalid_compression : ℤ → Error

pub data Compression : Type 0 where
  uncompressed : Compression
  zstd : ℤ → Compression
  lz4 : ℤ → Compression

abbrev pub max_zstd_level : ℕ
max_zstd_level = 22

abbrev pub max_lz4_level : ℕ
max_lz4_level = 12

-- Compression::codec
unfoldable pub codec : Compression → ℕ
codec uncompressed = codec_raw
codec (zstd _) = codec_zstd
codec (lz4 _) = codec_lz4

-- (0..=max).contains(&level)
unfoldable pub in_levels : ℕ → ℤ → Bool
in_levels max (pos n) = leb n max
in_levels max (negsuc n) = false

unfoldable pub check_level : ℕ → ℤ → Result Error (Unit {0})
check_level max level = if in_levels max level then ok tt else err (invalid_compression level)

-- Compression::validate
unfoldable pub validate : Compression → Result Error (Unit {0})
validate uncompressed = ok tt
validate (zstd level) = check_level max_zstd_level level
validate (lz4 level) = check_level max_lz4_level level

pub record Record : Type 0 where
  pub key : Key
  pub flags : ℕ
  pub ulen : ℕ
  pub slen : ℕ

-- What the code calls of the crates crc32c, zstd and lz4.
pub record Codecs : Type 0 where
  pub crc32c : Bytes → ℕ
  pub crc32c_append : ℕ → Bytes → ℕ
  pub zstd_default_level : ℤ
  pub zstd_compress : Bytes → ℤ → Option Bytes
  pub zstd_decompress : Bytes → ℕ → Option Bytes
  pub lz4_compress_default : Bytes → Option Bytes
  pub lz4_compress_high : ℤ → Bytes → Option Bytes
  pub lz4_decompress : Bytes → ℕ → Option Bytes

-- A CRC is a u32 that goes on over more bytes; a decompressor gives back what was compressed when
-- it is told the length.
pub record IsCodecs (l : Codecs) : Type 0 where
  pub crc_fits : (b : Bytes) → l.crc32c b < 2 ^ 32
  pub crc_append : (a b : Bytes) → l.crc32c_append (l.crc32c a) b ≡ l.crc32c (a ++ b)
  pub zstd_back :
      (d c : Bytes) (level : ℤ)
      → l.zstd_compress d level ≡ some c
      → l.zstd_decompress c (length d) ≡ some d
  pub lz4_back :
      (d c : Bytes) → l.lz4_compress_default d ≡ some c → l.lz4_decompress c (length d) ≡ some d
  pub lz4_high_back :
      (d c : Bytes) (level : ℤ)
      → l.lz4_compress_high level d ≡ some c
      → l.lz4_decompress c (length d) ≡ some d

unfoldable pub payload_fits : ℕ → Bool
payload_fits n = leb n max_payload

unfoldable pub is_zero : ℤ → Bool
is_zero (pos n) = n == 0
is_zero (negsuc n) = false

-- u32::from_be_bytes of the four bytes from `off` on
unfoldable pub be_u32 : Bytes → ℕ → ℕ
be_u32 b off = from_be_bytes (take 4 (drop off b))

-- The bytes of a record: the tag, the key, the flags, the two lengths, the CRC and the payload.
unfoldable pub record_bytes : Key → ℕ → ℕ → ℕ → ℕ → Bytes → Bytes
record_bytes k flags ulen slen crc payload =
    tag_chunk
    ∷ (k.bytes
        ++ (flags ∷ (to_be_bytes 4 ulen ++ (to_be_bytes 4 slen ++ (to_be_bytes 4 crc ++ payload)))))

-- The payload as it is stored, and the flags.
unfoldable pub choose : Compression → Bytes → Option Bytes → Bytes × ℕ
choose c d none = (d, codec_raw)
choose c d (some p) = (p, codec c)

unfoldable pub smaller : Bytes → Option Bytes → Option Bytes
smaller d none = none
smaller d (some out) = if ltb (length out) (length d) then some out else none

module _ (l : Codecs) where
  unfoldable pub compress_with : Compression → Bytes → Option Bytes
  compress_with uncompressed d = none
  compress_with (zstd level) d =
      l.zstd_compress d (if is_zero level then l.zstd_default_level else level)
  compress_with (lz4 level) d =
      if is_zero level then l.lz4_compress_default d else l.lz4_compress_high level d

  -- compress
  unfoldable pub compress : Compression → Bytes → Option Bytes
  compress c d = if length d == 0 then none else smaller d (compress_with c d)

  -- The CRC is over the record with a zero CRC.
  unfoldable pub seal_record : Key → ℕ → ℕ → Bytes → Bytes
  seal_record k flags ulen payload =
      let n = length payload in
      record_bytes k flags ulen n (l.crc32c (record_bytes k flags ulen n 0 payload)) payload

  -- encode_record_with
  unfoldable pub encode_record_with : Key → Bytes → Compression → Result Error Bytes
  encode_record_with k d c = do
    validate c
    if not (payload_fits (length d))
        then err (too_large k (length d))
        else let (payload, flags) = choose c d (compress c d) in
          ok (seal_record k flags (length d) payload)

  -- encode_record
  unfoldable pub encode_record : Key → Bytes → Result Error Bytes
  encode_record k d = encode_record_with k d uncompressed

  -- parse_record, the checks on the lengths; `b` is at least a header.
  unfoldable pub check_lengths : Bytes → ℕ → ℕ → ℕ → Result Error (Unit {0})
  check_lengths b flags ulen slen =
      if ltb (length b) (rec_header_size + slen)
      then err (corrupt truncated_payload)
      else if flags == codec_raw && not (ulen == slen)
      then err (corrupt (raw_length ulen slen))
      else if ltb max_payload ulen
      then err (corrupt (over_limit ulen))
      else if not (flags == codec_raw) && leb ulen slen
      then err (corrupt (not_smaller slen ulen))
      else ok tt

  -- The CRC over the header up to its field, four zeros, and the payload.
  unfoldable pub record_crc : Bytes → ℕ → ℕ
  record_crc b slen =
      l.crc32c_append (l.crc32c_append (l.crc32c (take 42 b)) (replicate 4 0))
        (take slen (drop rec_header_size b))

  -- parse_record behind the header's lengths
  unfoldable pub parse_body : Bytes → ℕ → ℕ → ℕ → Result Error Record
  parse_body b flags ulen slen = do
    check_lengths b flags ulen slen
    if not (record_crc b slen == be_u32 b 42) then err (corrupt crc_mismatch) else do
      key ← map_err (KeyModule.parse (take 32 (drop 1 b))) (λ e. corrupt (record_key e))
      ok (record { key = key; flags = flags; ulen = ulen; slen = slen })

  -- parse_record
  unfoldable pub parse_record : Bytes → Result Error Record
  parse_record b =
      if ltb (length b) rec_header_size
      then err (corrupt truncated_header)
      else if not (get_or b 0 0 == tag_chunk)
      then err (corrupt (unexpected_tag (get_or b 0 0)))
      else if ltb codec_lz4 (get_or b 33 0)
      then err (corrupt (unknown_flags (get_or b 33 0)))
      else parse_body b (get_or b 33 0) (be_u32 b 34) (be_u32 b 38)

  -- The arms of the match of decode_payload behind the raw one; i32::try_from bounds ulen.
  unfoldable pub decompress : ℕ → ℕ → Bytes → Result Error Bytes
  decompress flags ulen stored =
      if flags == codec_zstd
      then ok_or (l.zstd_decompress stored ulen) (corrupt bad_zstd)
      else if flags == codec_lz4
      then (if leb (2 ^ 31) ulen
          then err (corrupt (lz4_range ulen))
          else ok_or (l.lz4_decompress stored ulen) (corrupt bad_lz4))
      else err (corrupt (unknown_flags flags))

  -- decode_payload
  unfoldable pub decode_payload : ℕ → ℕ → Bytes → Result Error Bytes
  decode_payload flags ulen stored = if flags == codec_raw then ok stored else do
    out ← decompress flags ulen stored
    if not (length out == ulen) then err (corrupt (decompressed (length out) ulen)) else ok out
