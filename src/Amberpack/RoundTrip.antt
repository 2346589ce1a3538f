-- ===== src/Amberpack/RoundTrip.antt =====
-- A record of src/amberpack.rs is read back with its payload decoded.
use core_rs.Prelude.{
  ℕ, ◌+◌, ◌≤◌, ◌<◌, ◌≡◌, ◌≢◌, inl, inr, refl, ap, ◌∙◌, arith, Option, none, some, ◌++◌, length,
  drop, ◌==◌, ==_self, if◌then◌else◌, ok, Bool-cases,
}
use core_rs.Prelude.Bytes.{Bytes, to_be_bytes, length-to_be_bytes}
use core_rs.Prelude.Int.{ℤ}
use core_rs.Key.{Key}
use core_rs.Key as KeyModule
use core_rs.Key.Exact.{parse_inversion}
use core_rs.Amberpack.{
  Codecs, IsCodecs, Record, Compression, uncompressed, zstd, lz4, codec, validate, record_bytes,
  seal_record, parse_record, decode_payload, decompress, choose, compress, compress_with, smaller,
  encode_record_with, payload_fits, is_zero,
}
use core_rs.Amberpack.Layout.{record_bytes-append, behind_crc, length-layout}
use core_rs.Amberpack.Records.{IsHeader, parse_record-record_bytes}

module _ (l : Codecs) (laws : IsCodecs l) where
  smaller_inversion :
      (d p : Bytes) (o : Option Bytes) → smaller d o ≡ some p → (o ≡ some p) × (length p < length d)
  unfolding smaller
  smaller_inversion d p none e = cc
  smaller_inversion d p (some out) e = ground arith

  decompress_checked :
      (flags : ℕ) (d p : Bytes)
      → flags ≢ 0
      → decompress l flags (length d) p ≡ ok d
      → decode_payload l flags (length d) p ≡ ok d
  unfolding decode_payload
  decompress_checked flags d p nz e = ground (arith, ==_self (length d))

  decompress-compress_with :
      (c : Compression) (d p : Bytes)
      → length d ≤ 268435456
      → compress_with l c d ≡ some p
      → decode_payload l (codec c) (length d) p ≡ ok d
  decompress-compress_with uncompressed d p fits e = unfold compress_with in cc
  decompress-compress_with (zstd level) d p fits e =
      let used : ℤ = if is_zero level then l.zstd_default_level else level in
      let back : l.zstd_decompress p (length d) ≡ some d =
        laws.zstd_back d p used (unfold compress_with in e) in
      unfold codec in decompress_checked 1 d p (omega arith) (unfold decompress in ground arith)
  decompress-compress_with (lz4 level) d p fits e =
      let back : l.lz4_decompress p (length d) ≡ some d = elim (Bool-cases (is_zero level)) [
        | inl z ↦ laws.lz4_back d p (unfold compress_with in ground arith)
        | inr z ↦ laws.lz4_high_back d p level (unfold compress_with in ground arith)
      ] in
      unfold codec in decompress_checked 2 d p (omega arith) (unfold decompress in ground arith)

  codec-nonzero :
      (c : Compression) (d p : Bytes) → compress_with l c d ≡ some p → (codec c ≢ 0) × (codec c ≤ 2)
  unfolding codec compress_with
  codec-nonzero uncompressed d p e = cc
  codec-nonzero (zstd level) d p e = (omega arith, omega arith)
  codec-nonzero (lz4 level) d p e = (omega arith, omega arith)

  -- What is stored fits its header, and is decoded to the payload.
  pub stored_lem :
      (c : Compression) (d : Bytes) (o : Option Bytes)
      → length d ≤ 268435456
      → compress l c d ≡ o
      → IsHeader ((choose c d o).1) (length d) (length ((choose c d o).0))
        × (decode_payload l ((choose c d o).1) (length d) ((choose c d o).0) ≡ ok d)
  unfolding choose
  stored_lem c d none fits e = (
    record {
      flags_known = omega arith;
      ulen_le = fits;
      raw_same = λ _. refl;
      less = λ z. absurd (z refl);
    },
    unfold decode_payload in refl,
  )
  stored_lem c d (some p) fits e = elim (Bool-cases (length d == 0)) [
    | inl z ↦ absurd (unfold compress in ground arith)
    | inr z ↦
        let (was, less) =
          smaller_inversion d p (compress_with l c d) (unfold compress in ground arith) in
        let (nz, known) = codec-nonzero c d p was in
        (
          record {
            flags_known = known;
            ulen_le = fits;
            raw_same = λ e'. absurd (nz e');
            less = λ _. less;
          },
          decompress-compress_with c d p fits was,
        )
  ]

  -- What `encode_record_with` makes of a payload that fits, with a compression that is valid.
  pub encode_record_with_lem :
      (k : Key) (c : Compression) (d : Bytes)
      → validate c ≡ ok tt
      → length d ≤ 268435456
      → encode_record_with l k d c
        ≡ ok (
            seal_record l k
              ((choose c d (compress l c d)).1)
              (length d)
              ((choose c d (compress l c d)).0))
  unfolding encode_record_with payload_fits
  encode_record_with_lem k c d valid fits = ground arith

  pub parse_record-seal_record :
      (k : Key) (flags : ℕ) (d p rest : Bytes)
      → KeyModule.parse k.bytes ≡ ok k
      → IsHeader flags (length d) (length p)
      → parse_record l (seal_record l k flags (length d) p ++ rest)
        ≡ ok (record { key = k; flags = flags; ulen = length d; slen = length p })
  unfolding seal_record
  parse_record-seal_record k flags d p rest key_ok h =
      let crc = l.crc32c (record_bytes k flags (length d) (length p) 0 p) in
      ap (parse_record l) (record_bytes-append k flags (length d) (length p) crc p rest)
      ∙ parse_record-record_bytes l laws k flags (length d) crc p rest key_ok h refl

  pub seal_record-drop :
      (k : Key) (flags : ℕ) (d p : Bytes)
      → length k.bytes ≡ 32
      → (drop 46 (seal_record l k flags (length d) p) ≡ p)
        × (length (seal_record l k flags (length d) p) ≡ 46 + length p)
  unfolding seal_record record_bytes
  seal_record-drop k flags d p hk =
      let u = to_be_bytes 4 (length d) in
      let s = to_be_bytes 4 (length p) in
      let c = to_be_bytes 4 (l.crc32c (record_bytes k flags (length d) (length p) 0 p)) in
      let hu = length-to_be_bytes 4 (length d) in
      let hs = length-to_be_bytes 4 (length p) in
      let hc = length-to_be_bytes 4 (l.crc32c (record_bytes k flags (length d) (length p) 0 p)) in
      (
        behind_crc k.bytes flags u s c p hk hu hs hc,
        length-layout k.bytes flags u s c p hk hu hs hc,
      )

  -- With a canonical key, a valid compression and a payload of at most 256 MiB, `encode_record_with`
  -- makes a record. Whatever follows it, `parse_record` reads the key and the lengths back, and
  -- `decode_payload` makes the payload of the bytes behind the header, compressed or not.
  pub parse_record-encode_record_with :
      (k : Key) (c : Compression) (d rest : Bytes)
      → KeyModule.parse k.bytes ≡ ok k
      → validate c ≡ ok tt
      → length d ≤ 268435456
      → (rec : Bytes) × (r : Record) × (encode_record_with l k d c ≡ ok rec)
        × (parse_record l (rec ++ rest) ≡ ok r)
        × (r.key ≡ k)
        × (r.ulen ≡ length d)
        × (length rec ≡ 46 + r.slen)
        × (decode_payload l r.flags r.ulen (drop 46 rec) ≡ ok d)
  parse_record-encode_record_with k c d rest key_ok valid fits =
      let stored = choose c d (compress l c d) in
      let (h, back) = stored_lem c d (compress l c d) fits refl in
      let hk = (parse_inversion k.bytes k key_ok).0 in
      let (behind, len) = seal_record-drop k stored.1 d stored.0 hk in
      (
        seal_record l k stored.1 (length d) stored.0,
        record { key = k; flags = stored.1; ulen = length d; slen = length stored.0 },
        encode_record_with_lem k c d valid fits,
        parse_record-seal_record k stored.1 d stored.0 rest key_ok h,
        refl,
        refl,
        len,
        ap (decode_payload l stored.1 (length d)) behind ∙ back,
      )
