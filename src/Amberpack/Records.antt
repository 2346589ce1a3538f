-- ===== src/Amberpack/Records.antt =====
-- Records written and read back (`encode_record_with`, `parse_record` and `decode_payload` of
-- src/amberpack.rs).
use core_rs.Prelude.{
  ℕ, ◌+◌, ◌^◌, ◌≤◌, ◌<◌, ◌≡◌, ◌≢◌, inl, inr, refl, sym, ap, ◌∙◌, subst, arith, true, false, ◌∷◌,
  ◌++◌, length, get_or, take, drop, replicate, ltb, ◌==◌, ==_self, length-append, ok, take-append,
  Bool-cases,
}
use mathlib.Core.Path.{ap₂}
use core_rs.Prelude.Bytes.{Bytes, to_be_bytes, length-to_be_bytes}
use core_rs.Key.{Key}
use core_rs.Key as KeyModule
use core_rs.Key.Exact.{parse_inversion}
use core_rs.Amberpack.{
  Codecs, IsCodecs, record_bytes, be_u32, check_lengths, record_crc, parse_body, parse_record,
}
use core_rs.Amberpack.Layout.{
  key_field, flags_field, behind_flags, behind_ulen, behind_slen, behind_crc, length-layout,
  up_to_crc, crc_input, be_u32-field,
}

-- The lengths that a record may have.
pub record IsHeader (flags ulen slen : ℕ) : Type 0 where
  pub flags_known : flags ≤ 2
  pub ulen_le : ulen ≤ 268435456
  pub raw_same : flags ≡ 0 → ulen ≡ slen
  pub less : flags ≢ 0 → slen < ulen

module _ (l : Codecs) where
  check_lengths-IsHeader :
      (b : Bytes) (flags ulen slen : ℕ)
      → IsHeader flags ulen slen
      → 46 + slen ≤ length b
      → check_lengths l b flags ulen slen ≡ ok tt
  unfolding check_lengths
  check_lengths-IsHeader b flags ulen slen h long =
      ground (arith, h.flags_known, h.ulen_le, h.raw_same, h.less)

  module _ (laws : IsCodecs l) (k : Key) (flags ulen crc : ℕ) (p rest : Bytes) where
    module _ (key_ok : KeyModule.parse k.bytes ≡ ok k) (h : IsHeader flags ulen (length p)) where
      hk : length k.bytes ≡ 32
      hk = (parse_inversion k.bytes k key_ok).0

      abbrev whole : Bytes
      whole = record_bytes k flags ulen (length p) crc (p ++ rest)

      pub record_crc-record_bytes :
          record_crc l whole (length p) ≡ l.crc32c (record_bytes k flags ulen (length p) 0 p)
      unfolding record_crc record_bytes
      record_crc-record_bytes =
          let u = to_be_bytes 4 ulen in
          let s = to_be_bytes 4 (length p) in
          let c = to_be_bytes 4 crc in
          let hu = length-to_be_bytes 4 ulen in
          let hs = length-to_be_bytes 4 (length p) in
          let hc = length-to_be_bytes 4 crc in
          let t = p ++ rest in
          let front = 1 ∷ (k.bytes ++ (flags ∷ (u ++ s))) in
          let zeros : replicate 4 0 ≡ to_be_bytes 4 0 = unfold to_be_bytes in refl in
          ap₂ (λ x y. l.crc32c_append (l.crc32c_append (l.crc32c x) (replicate 4 0)) y)
            (up_to_crc k.bytes flags u s c t hk hu hs hc)
            (ap (take (length p)) (behind_crc k.bytes flags u s c t hk hu hs hc)
              ∙ take-append (length p) p rest refl)
          ∙ ap (λ x. l.crc32c_append x p) (laws.crc_append front (replicate 4 0))
          ∙ laws.crc_append (front ++ replicate 4 0) p
          ∙ ap l.crc32c (crc_input k.bytes flags u s c t (replicate 4 0) p)
          ∙ ap (λ z. l.crc32c (1 ∷ (k.bytes ++ (flags ∷ (u ++ (s ++ (z ++ p))))))) zeros

      fields :
          (length whole ≡ 46 + length (p ++ rest))
          × (get_or whole 33 0 ≡ flags)
          × (take 32 (drop 1 whole) ≡ k.bytes)
          × (drop 34 whole
              ≡ to_be_bytes 4 ulen
                ++ (to_be_bytes 4 (length p) ++ (to_be_bytes 4 crc ++ (p ++ rest))))
          × (drop 38 whole ≡ to_be_bytes 4 (length p) ++ (to_be_bytes 4 crc ++ (p ++ rest)))
          × (drop 42 whole ≡ to_be_bytes 4 crc ++ (p ++ rest))
      unfolding record_bytes
      fields =
          let u = to_be_bytes 4 ulen in
          let s = to_be_bytes 4 (length p) in
          let c = to_be_bytes 4 crc in
          let t = p ++ rest in
          let hu = length-to_be_bytes 4 ulen in
          let hs = length-to_be_bytes 4 (length p) in
          let hc = length-to_be_bytes 4 crc in
          (
            length-layout k.bytes flags u s c t hk hu hs hc,
            flags_field k.bytes flags u s c t hk hu hs hc,
            key_field k.bytes flags u s c t hk hu hs hc,
            behind_flags k.bytes flags u s c t hk hu hs hc,
            behind_ulen k.bytes flags u s c t hk hu hs hc,
            behind_slen k.bytes flags u s c t hk hu hs hc,
          )

      module _ (sum : crc ≡ l.crc32c (record_bytes k flags ulen (length p) 0 p)) where
        small : (crc < 2 ^ 32) × (length p < 2 ^ 32)
        small = (
          subst (λ n. n < 2 ^ 32) (sym sum)
              (laws.crc_fits (record_bytes k flags ulen (length p) 0 p)),
          elim (Bool-cases (flags == 0)) [
            | inl z ↦ omega (arith, h.ulen_le, h.raw_same (ground arith))
            | inr z ↦ omega (arith, h.ulen_le, h.less (ground arith))
          ],
        )

        parse_body-record_bytes :
            parse_body l whole flags ulen (length p)
            ≡ ok (record { key = k; flags = flags; ulen = ulen; slen = length p })
        unfolding parse_body
        parse_body-record_bytes =
            let (len, _, key, _, _, at_crc) = fields in
            let fit =
              check_lengths-IsHeader whole flags ulen (length p) h
                (omega (arith, len, length-append p rest)) in
            let right : record_crc l whole (length p) ≡ be_u32 whole 42 =
              record_crc-record_bytes
              ∙ sym sum
              ∙ sym (be_u32-field whole 42 crc (p ++ rest) at_crc small.0) in
            let same : (record_crc l whole (length p) == be_u32 whole 42) ≡ true =
              rw right (==_self (be_u32 whole 42)) in
            rw (fit, same, key, key_ok)

        pub parse_record-record_bytes :
            parse_record l whole
            ≡ ok (record { key = k; flags = flags; ulen = ulen; slen = length p })
        unfolding parse_record
        parse_record-record_bytes =
            let (len, at_flags, _, at_ulen, at_slen, _) = fields in
            let u = be_u32-field whole 34 ulen _ at_ulen (omega (arith, h.ulen_le)) in
            let s = be_u32-field whole 38 (length p) _ at_slen small.1 in
            let long : ltb (length whole) 46 ≡ false = ground (arith, len) in
            let tag : get_or whole 0 0 ≡ 1 = unfold record_bytes in refl in
            let known : ltb 2 flags ≡ false = ground (arith, h.flags_known) in
            rw (long, tag, at_flags, known, u, s) parse_body-record_bytes
