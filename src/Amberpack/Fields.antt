-- ===== src/Amberpack/Fields.antt =====
-- What `parse_record` of src/amberpack.rs has looked at when it answers, and bytes cut into the fields
-- of a record.
use core_rs.Prelude.{
  ℕ, zero, suc, ◌+◌, ◌≤◌, ◌<◌, ◌≡◌, inl, inr, refl, sym, ap, ◌∙◌, arith, [], ◌∷◌, ◌++◌, length,
  get_or, take, drop, ◌==◌, ok, Bool-cases, Result-cases, take-append-drop, drop-drop, length-take,
  length-drop, All, All-take, All-drop, All-reverse, length-reverse, reverse, reverse-reverse,
}
use mathlib.Core.Path.{ap₂}
use core_rs.Prelude.Bytes.{
  Bytes, IsByte, to_be_bytes, from_be_bytes, to_le_bytes, from_le_bytes, to_le_bytes-from_le_bytes,
}
use core_rs.Key.{Key}
use core_rs.Key as KeyModule
use core_rs.Amberpack.{Codecs, Record, be_u32, check_lengths, record_crc, parse_body, parse_record}
use core_rs.Amberpack.Records.{IsHeader}

drop_cons : (n : ℕ) (xs : Bytes) → n < length xs → drop n xs ≡ get_or xs n 0 ∷ drop (n + 1) xs
drop_cons n [] h = absurd (omega arith)
drop_cons zero (x ∷ xs) h = refl
drop_cons (suc n) (x ∷ xs) h =
    let e : suc n + 1 ≡ suc (n + 1) = omega arith in rw e (drop_cons n xs (omega arith))

to_be_bytes-from_be_bytes :
    (w : ℕ) (bs : Bytes) → length bs ≡ w → All IsByte bs → to_be_bytes w (from_be_bytes bs) ≡ bs
unfolding to_be_bytes from_be_bytes
to_be_bytes-from_be_bytes w bs len a =
    ap reverse (
      ap (λ n. to_le_bytes n (from_le_bytes (reverse bs))) (sym (length-reverse bs ∙ len))
      ∙ to_le_bytes-from_le_bytes (reverse bs) (All-reverse IsByte bs a))
    ∙ reverse-reverse bs

-- The four bytes at a place, as the number that is read there.
be_u32_split :
    (off : ℕ) (b : Bytes)
    → All IsByte b
    → off + 4 ≤ length b
    → drop off b ≡ to_be_bytes 4 (be_u32 b off) ++ drop (off + 4) b
unfolding be_u32
be_u32_split off b a h =
    let four : length (take 4 (drop off b)) ≡ 4 =
      omega (arith, length-take 4 (drop off b), length-drop off b) in
    sym (take-append-drop 4 (drop off b))
    ∙ ap₂ (λ x y. x ++ y)
        (sym (
          to_be_bytes-from_be_bytes 4 (take 4 (drop off b)) four
            (All-take IsByte 4 (drop off b) (All-drop IsByte off b a))))
        (drop-drop 4 off b)

module _ (l : Codecs) where
  pub check_lengths_inversion :
      (b : Bytes) (flags ulen slen : ℕ)
      → flags ≤ 2
      → check_lengths l b flags ulen slen ≡ ok tt
      → IsHeader flags ulen slen × (46 + slen ≤ length b)
  unfolding check_lengths
  check_lengths_inversion b flags ulen slen known e = (
    record {
      flags_known = known;
      ulen_le = ground arith;
      raw_same = λ z. ground arith;
      less = λ z. ground arith;
    },
    ground arith,
  )

  pub parse_body_inversion :
      (b : Bytes) (flags ulen slen : ℕ) (r : Record)
      → parse_body l b flags ulen slen ≡ ok r
      → (check_lengths l b flags ulen slen ≡ ok tt)
        × (record_crc l b slen ≡ be_u32 b 42)
        × (KeyModule.parse (take 32 (drop 1 b)) ≡ ok r.key)
        × (r.flags ≡ flags)
        × (r.ulen ≡ ulen)
        × (r.slen ≡ slen)
  unfolding parse_body
  parse_body_inversion b flags ulen slen r e =
      elim (Result-cases (check_lengths l b flags ulen slen)) [
        | inr (x, f) ↦ absurd (ground arith)
        | inl (x, f) ↦ elim (Bool-cases (record_crc l b slen == be_u32 b 42)) [
          | inr g ↦ absurd (ground arith)
          | inl g ↦ elim (Result-cases (KeyModule.parse (take 32 (drop 1 b)))) [
            | inr (y, k) ↦ absurd (ground arith)
            | inl (y, k) ↦ ground arith
          ]
        ]
      ]

  -- What parse_record has looked at when it answers.
  pub parse_record_inversion :
      (b : Bytes) (r : Record)
      → parse_record l b ≡ ok r
      → (46 ≤ length b)
        × (get_or b 0 0 ≡ 1)
        × (get_or b 33 0 ≤ 2)
        × (parse_body l b (get_or b 33 0) (be_u32 b 34) (be_u32 b 38) ≡ ok r)
  unfolding parse_record
  parse_record_inversion b r e = ground arith

  -- Bytes of at least a header, cut into its fields.
  pub cut :
      (b : Bytes)
      → All IsByte b
      → 46 ≤ length b
      → get_or b 0 0 ≡ 1
      → b
        ≡ 1
          ∷ (take 32 (drop 1 b)
              ++ (get_or b 33 0
                  ∷ (to_be_bytes 4 (be_u32 b 34)
                      ++ (to_be_bytes 4 (be_u32 b 38)
                          ++ (to_be_bytes 4 (be_u32 b 42) ++ drop 46 b)))))
  cut [] a h e = absurd (omega arith)
  cut (x ∷ xs) a h e =
      let b = x ∷ xs in
      let at_33 : drop 32 xs ≡ get_or b 33 0 ∷ drop 34 b = drop_cons 32 xs (omega arith) in
      ap₂ (λ y ys. y ∷ ys) e
        (sym (take-append-drop 32 xs)
          ∙ ap (λ ys. take 32 xs ++ ys)
              (at_33
                ∙ ap (λ ys. get_or b 33 0 ∷ ys)
                    (be_u32_split 34 b a (omega arith)
                      ∙ ap (λ ys. to_be_bytes 4 (be_u32 b 34) ++ ys)
                          (be_u32_split 38 b a (omega arith)
                            ∙ ap (λ ys. to_be_bytes 4 (be_u32 b 38) ++ ys)
                                (be_u32_split 42 b a (omega arith))))))
