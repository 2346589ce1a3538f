-- ===== src/Amberpack/Stream/Objects.antt =====
-- The records of objects, as the `Writer` of src/amberpack.rs puts them one after another, and the
-- `Reader` at one of them.
use core_rs.Prelude.{
  ℕ, ◌≤◌, ◌≡◌, inl, inr, refl, sym, ap, ◌∙◌, arith, false, some, List, [], ◌∷◌, ◌++◌, map, concat,
  length, ltb, ◌==◌, ok, Bool-cases, length-append, take-append, drop-append, append-nil,
  append_assoc,
}
use core_rs.Prelude.Bytes.{Bytes, to_be_bytes, length-to_be_bytes}
use core_rs.Key.{Key}
use core_rs.Key as KeyModule
use core_rs.Key.Exact.{parse_inversion}
use core_rs.Amberpack.{
  Codecs, IsCodecs, Compression, Malformed, be_u32, parse_record, choose, compress, seal_record,
  record_bytes, short_header, short_payload, no_end_marker, Record,
}
use core_rs.Amberpack.Layout.{behind_ulen, length-layout, record_bytes-append, be_u32-field}
use core_rs.Amberpack.Records.{IsHeader}
use core_rs.Amberpack.RoundTrip.{stored_lem, parse_record-seal_record, seal_record-drop}
use core_rs.Amberpack.Stream.{
  Writer, ReaderState, records, read_full, past_magic, chunk, chunk_behind, tagged, next_record,
  decoded, next_object, new_writer, with_compression, add, finish,
}

pub read_full-append :
    (n : ℕ) (x y : Bytes) (st : ReaderState) (what : Malformed)
    → length x ≡ n
    → read_full n (record { br = x ++ y; state = st }) what ≡ ok (x, record { br = y; state = st })
unfolding read_full
read_full-append n x y st what h =
    ground (arith, length-append x y, take-append n x y h, drop-append n x y h)

-- An object that the writer takes.
abbrev pub IsObject : Key × Bytes → Type 0
IsObject (k, d) = (KeyModule.parse k.bytes ≡ ok k) × (length d ≤ 268435456)

module _ (l : Codecs) where
  -- The bytes of one object's record.
  abbrev pub record_of : Compression → Key × Bytes → Bytes
  record_of c (k, d) =
      let stored = choose c d (compress l c d) in seal_record l k stored.1 (length d) stored.0

  -- The objects added one after another.
  unfoldable pub add_all : Writer → List (Key × Bytes) → Writer
  add_all w [] = w
  add_all w ((k, d) ∷ objs) = add_all ((add l w k d).0) objs

  abbrev pub pack_of : Compression → List (Key × Bytes) → Bytes
  pack_of c objs = finish (add_all (with_compression new_writer c) objs)

  -- What follows the magic: the records, and the end marker.
  abbrev pub body_of : Compression → List (Key × Bytes) → Bytes
  body_of c objs = concat (map (record_of c) objs) ++ 0 ∷ []

module _ (l : Codecs) (laws : IsCodecs l) where
  module _ (k : Key) (flags : ℕ) (d p more : Bytes) (key_ok : KeyModule.parse k.bytes ≡ ok k)
      (h : IsHeader flags (length d) (length p)) where
    hk : length k.bytes ≡ 32
    hk = (parse_inversion k.bytes k key_ok).0

    small : length p ≤ 268435456
    small = elim (Bool-cases (flags == 0)) [
      | inl z ↦ omega (arith, h.ulen_le, h.raw_same (ground arith))
      | inr z ↦ omega (arith, h.ulen_le, h.less (ground arith))
    ]

    abbrev crc : ℕ
    crc = l.crc32c (record_bytes k flags (length d) (length p) 0 p)

    -- A record's header without its tag.
    abbrev front : Bytes
    front =
        k.bytes
        ++ (flags
            ∷ (to_be_bytes 4 (length d) ++ (to_be_bytes 4 (length p) ++ (to_be_bytes 4 crc ++ []))))

    front_split : (t : Bytes) → record_bytes k flags (length d) (length p) crc t ≡ (1 ∷ front) ++ t
    front_split t =
        sym (unfold record_bytes in record_bytes-append k flags (length d) (length p) crc [] t)

    front_fields : (length front ≡ 45) × (be_u32 (1 ∷ front) 38 ≡ length p)
    front_fields =
        let u = to_be_bytes 4 (length d) in
        let s = to_be_bytes 4 (length p) in
        let c = to_be_bytes 4 crc in
        let hu = length-to_be_bytes 4 (length d) in
        let hs = length-to_be_bytes 4 (length p) in
        let hc = length-to_be_bytes 4 crc in
        (
          omega (arith, length-layout k.bytes flags u s c [] hk hu hs hc),
          be_u32-field (1 ∷ front) 38 (length p) (c ++ [])
              (behind_ulen k.bytes flags u s c [] hk hu hs hc) (omega (arith, small)),
        )

    abbrev whole : Bytes
    whole = seal_record l k flags (length d) p

    abbrev parsed : Record
    parsed = record { key = k; flags = flags; ulen = length d; slen = length p }

    chunk_behind-front :
        chunk_behind l (1 ∷ front) (record { br = p ++ more; state = records })
        ≡ ok (
          record { br = more; state = records },
          some (record { header = parsed; bytes = whole }),
        )
    unfolding chunk_behind
    chunk_behind-front =
        let (_, slen) = front_fields in
        let fits : ltb 268435456 (length p) ≡ false = ground (arith, small) in
        let full = read_full-append (length p) p more records short_payload refl in
        let same : (1 ∷ front) ++ p ≡ whole = unfold seal_record in sym (front_split p) in
        let parses : parse_record l whole ≡ ok parsed =
          ap (parse_record l) (sym (append-nil whole))
          ∙ parse_record-seal_record l laws k flags d p [] key_ok h in
        rw (slen, fits, full, same, parses) refl

    chunk-front :
        chunk l (record { br = front ++ (p ++ more); state = records })
        ≡ ok (
          record { br = more; state = records },
          some (record { header = parsed; bytes = whole }),
        )
    unfolding chunk
    chunk-front =
        let full = read_full-append 45 front (p ++ more) records short_header front_fields.0 in
        rw full chunk_behind-front

    next_record-whole :
        next_record l (record { br = whole ++ more; state = records })
        ≡ ok (
          record { br = more; state = records },
          some (record { header = parsed; bytes = whole }),
        )
    unfolding next_record past_magic tagged
    next_record-whole =
        let parts : whole ≡ (1 ∷ front) ++ p = unfold seal_record in front_split p in
        let split : whole ++ more ≡ 1 ∷ (front ++ (p ++ more)) =
          ap (λ x. x ++ more) parts ∙ append_assoc (1 ∷ front) p more in
        let one = read_full-append 1 (1 ∷ []) (front ++ (p ++ more)) records no_end_marker refl in
        rw (split, one) chunk-front

  pub next_object-record_of :
      (c : Compression) (o : Key × Bytes) (more : Bytes)
      → IsObject o
      → next_object l (record { br = record_of l c o ++ more; state = records })
        ≡ ok (record { br = more; state = records }, some o)
  unfolding next_object decoded
  next_object-record_of c (k, d) more (key_ok, fits) =
      let stored = choose c d (compress l c d) in
      let (h, back) = stored_lem l laws c d (compress l c d) fits refl in
      let behind =
        (seal_record-drop l laws k stored.1 d stored.0 (parse_inversion k.bytes k key_ok).0).0 in
      rw (next_record-whole k stored.1 d stored.0 more key_ok h, behind, back) refl
