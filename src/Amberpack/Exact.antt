-- ===== src/Amberpack/Exact.antt =====
-- `parse_record` of src/amberpack.rs against an independent description of the records.
use core_rs.Prelude.{
  ℕ, ◌+◌, ◌≤◌, ◌≡◌, ◌↔◌, refl, sym, ap, ◌∙◌, subst, arith, ◌∷◌, ◌++◌, length, get_or, take, drop,
  ok, take-append-drop, length-take, length-drop, All,
}
use mathlib.Core.Path.{ap₂}
use core_rs.Prelude.Bytes.{Bytes, IsByte, to_be_bytes}
use core_rs.Key.{Key}
use core_rs.Key as KeyModule
use core_rs.Key.Exact.{parse_inversion}
use core_rs.Amberpack.{
  Codecs, IsCodecs, Record, record_bytes, be_u32, seal_record, record_crc, parse_record,
}
use core_rs.Amberpack.Layout.{record_bytes-append}
use core_rs.Amberpack.Records.{IsHeader, record_crc-record_bytes, parse_record-record_bytes}
use core_rs.Amberpack.Fields.{
  check_lengths_inversion, parse_body_inversion, parse_record_inversion, cut,
}

module _ (l : Codecs) where
  -- A record that stands at the start of the bytes, sealed with its CRC.
  pub record Sealed (b : Bytes) (r : Record) : Type 0 where
    pub payload : Bytes
    pub rest : Bytes
    pub header : IsHeader r.flags r.ulen (length payload)
    pub len : r.slen ≡ length payload
    pub key_ok : KeyModule.parse r.key.bytes ≡ ok r.key
    pub same : b ≡ seal_record l r.key r.flags r.ulen payload ++ rest

  module _ (laws : IsCodecs l) where
    same_record :
        (r : Record) (k : Key) (f u s : ℕ)
        → r.key ≡ k
        → r.flags ≡ f
        → r.ulen ≡ u
        → r.slen ≡ s
        → (let q : Record = record { key = k; flags = f; ulen = u; slen = s } in r ≡ q)
    same_record r k f u s a b c d = cc

    module _ (b : Bytes) (k : Key) (a : All IsByte b) (long : 46 ≤ length b)
        (tag : get_or b 0 0 ≡ 1) where
      abbrev stored : Bytes
      stored = take (be_u32 b 38) (drop 46 b)

      abbrev behind : Bytes
      behind = drop (be_u32 b 38) (drop 46 b)

      as_record :
          k.bytes ≡ take 32 (drop 1 b)
          → b
            ≡ record_bytes k
                (get_or b 33 0)
                (be_u32 b 34)
                (be_u32 b 38)
                (be_u32 b 42)
                (stored ++ behind)
      unfolding record_bytes
      as_record kb =
          cut l b a long tag
          ∙ ap₂
              (λ x y.
                1
                ∷ (x
                    ++ (get_or b 33 0
                        ∷ (to_be_bytes 4 (be_u32 b 34)
                            ++ (to_be_bytes 4 (be_u32 b 38)
                                ++ (to_be_bytes 4 (be_u32 b 42) ++ y))))))
              (sym kb) (sym (take-append-drop (be_u32 b 38) (drop 46 b)))

      -- From what was checked to the record.
      sealed :
          KeyModule.parse (take 32 (drop 1 b)) ≡ ok k
          → IsHeader (get_or b 33 0) (be_u32 b 34) (be_u32 b 38)
          → 46 + be_u32 b 38 ≤ length b
          → record_crc l b (be_u32 b 38) ≡ be_u32 b 42
          → Sealed b
              (record { key = k; flags = get_or b 33 0; ulen = be_u32 b 34; slen = be_u32 b 38 })
      sealed parsed hd fits sum =
          let (_, kb, _) = parse_inversion (take 32 (drop 1 b)) k parsed in
          let key_ok : KeyModule.parse k.bytes ≡ ok k =
            subst (λ x. KeyModule.parse x ≡ ok k) (sym kb) parsed in
          let f = get_or b 33 0 in
          let u = be_u32 b 34 in
          let s = be_u32 b 38 in
          let crc = be_u32 b 42 in
          let ls : length stored ≡ s = omega (arith, length-take s (drop 46 b), length-drop 46 b) in
          let hd' : IsHeader f u (length stored) = subst (IsHeader f u) (sym ls) hd in
          let whole : b ≡ record_bytes k f u (length stored) crc (stored ++ behind) =
            as_record kb ∙ ap (λ n. record_bytes k f u n crc (stored ++ behind)) (sym ls) in
          let crc_is : crc ≡ l.crc32c (record_bytes k f u (length stored) 0 stored) =
            sym sum
            ∙ ap₂ (record_crc l) whole (sym ls)
            ∙ record_crc-record_bytes l laws k f u crc stored behind key_ok hd' in
          record {
            payload = stored;
            rest = behind;
            header = hd';
            len = sym ls;
            key_ok = key_ok;
            same =
                whole
                ∙ sym (record_bytes-append k f u (length stored) crc stored behind)
                ∙ ap (λ n. record_bytes k f u (length stored) n stored ++ behind) crc_is
                ∙ (unfold seal_record in refl);
          }

    read-Sealed : (b : Bytes) (r : Record) → Sealed b r → parse_record l b ≡ ok r
    read-Sealed b r s =
        let crc = l.crc32c (record_bytes r.key r.flags r.ulen (length s.payload) 0 s.payload) in
        let whole =
          record_bytes r.key r.flags r.ulen (length s.payload) crc (s.payload ++ s.rest) in
        let e : b ≡ whole =
          s.same
          ∙ (unfold seal_record in
              record_bytes-append r.key r.flags r.ulen (length s.payload) crc s.payload s.rest) in
        ap (parse_record l) e
        ∙ parse_record-record_bytes l laws r.key r.flags r.ulen crc s.payload s.rest s.key_ok
            s.header refl
        ∙ ap ok (sym (same_record r r.key r.flags r.ulen (length s.payload) refl refl refl s.len))

    Sealed-read : (b : Bytes) (r : Record) → All IsByte b → parse_record l b ≡ ok r → Sealed b r
    Sealed-read b r a e =
        let (long, tag, known, body) = parse_record_inversion l b r e in
        let (checked, sum, parsed, ef, eu, es) =
          parse_body_inversion l b (get_or b 33 0) (be_u32 b 34) (be_u32 b 38) r body in
        let (hd, fits) =
          check_lengths_inversion l b (get_or b 33 0) (be_u32 b 34) (be_u32 b 38) known checked in
        subst (Sealed b)
          (sym (same_record r r.key (get_or b 33 0) (be_u32 b 34) (be_u32 b 38) refl ef eu es))
          (sealed b r.key a long tag parsed hd fits sum)

  -- On any bytes, `parse_record` answers a header exactly where a record with that header stands at
  -- their start: known flags, lengths in their bounds, a canonical key, and the CRC of the record.
  pub parse_record_exact :
      (laws : IsCodecs l) (b : Bytes) (r : Record)
      → All IsByte b
      → (parse_record l b ≡ ok r) ↔ Sealed b r
  parse_record_exact laws b r a = (Sealed-read laws b r a, read-Sealed laws b r)
