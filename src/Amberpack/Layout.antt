-- ===== src/Amberpack/Layout.antt =====
-- The fields of a record of src/amberpack.rs, where `parse_record` looks for them.
use core_rs.Prelude.{
  ℕ, ◌+◌, ◌-◌, ◌^◌, ◌<◌, ◌≡◌, sym, ap, ◌∙◌, arith, ◌∷◌, ◌++◌, append_assoc, length, get_or, take,
  drop, length-append, take-append, drop-append, get_or-append_right, drop-append_long, drop-drop,
}
use core_rs.Prelude.Bytes.{
  Bytes, to_be_bytes, from_be_bytes, length-to_be_bytes, from_be_bytes-to_be_bytes,
}
use core_rs.Key.{Key}
use core_rs.Amberpack.{record_bytes, be_u32}

module _ (kb : Bytes) (f : ℕ) (u s c t : Bytes) where
  -- The parts of a record put together.
  abbrev pub layout : Bytes
  layout = 1 ∷ (kb ++ (f ∷ (u ++ (s ++ (c ++ t)))))

  module _ (hk : length kb ≡ 32) (hu : length u ≡ 4) (hs : length s ≡ 4) (hc : length c ≡ 4) where
    pub key_field : take 32 (drop 1 layout) ≡ kb
    key_field = take-append 32 kb (f ∷ (u ++ (s ++ (c ++ t)))) hk

    pub flags_field : get_or layout 33 0 ≡ f
    flags_field = get_or-append_right 32 kb (f ∷ (u ++ (s ++ (c ++ t)))) 0 0 (omega (arith, hk))

    pub behind_flags : drop 34 layout ≡ u ++ (s ++ (c ++ t))
    behind_flags =
        let e : 33 - length kb ≡ 1 = omega (arith, hk) in
        drop-append_long 33 kb (f ∷ (u ++ (s ++ (c ++ t)))) (omega (arith, hk))
        ∙ ap (λ n. drop n (f ∷ (u ++ (s ++ (c ++ t))))) e

    pub behind_ulen : drop 38 layout ≡ s ++ (c ++ t)
    behind_ulen =
        sym (drop-drop 4 34 layout) ∙ ap (drop 4) behind_flags ∙ drop-append 4 u (s ++ (c ++ t)) hu

    pub behind_slen : drop 42 layout ≡ c ++ t
    behind_slen =
        sym (drop-drop 4 38 layout) ∙ ap (drop 4) behind_ulen ∙ drop-append 4 s (c ++ t) hs

    pub behind_crc : drop 46 layout ≡ t
    behind_crc = sym (drop-drop 4 42 layout) ∙ ap (drop 4) behind_slen ∙ drop-append 4 c t hc

    pub length-layout : length layout ≡ 46 + length t
    length-layout = omega (
      arith,
      hk,
      hu,
      hs,
      hc,
      length-append kb (f ∷ (u ++ (s ++ (c ++ t)))),
      length-append u (s ++ (c ++ t)),
      length-append s (c ++ t),
      length-append c t,
    )

    head_split : layout ≡ (1 ∷ (kb ++ (f ∷ (u ++ s)))) ++ (c ++ t)
    head_split =
        ap (λ x. 1 ∷ x)
          (ap (λ x. kb ++ (f ∷ x)) (sym (append_assoc u s (c ++ t)))
            ∙ sym (append_assoc kb (f ∷ (u ++ s)) (c ++ t)))

    pub up_to_crc : take 42 layout ≡ 1 ∷ (kb ++ (f ∷ (u ++ s)))
    up_to_crc =
        ap (take 42) head_split
        ∙ take-append 42 (1 ∷ (kb ++ (f ∷ (u ++ s)))) (c ++ t)
            (omega (arith, hk, hu, hs, length-append kb (f ∷ (u ++ s)), length-append u s))

  -- What the CRC is computed over.
  pub crc_input :
      (z p : Bytes)
      → ((1 ∷ (kb ++ (f ∷ (u ++ s)))) ++ z) ++ p ≡ 1 ∷ (kb ++ (f ∷ (u ++ (s ++ (z ++ p)))))
  crc_input z p =
      append_assoc (1 ∷ (kb ++ (f ∷ (u ++ s)))) z p
      ∙ ap (λ x. 1 ∷ x)
          (append_assoc kb (f ∷ (u ++ s)) (z ++ p)
            ∙ ap (λ x. kb ++ (f ∷ x)) (append_assoc u s (z ++ p)))

module _ (k : Key) (flags ulen slen crc : ℕ) where
  pub record_bytes-append :
      (p rest : Bytes)
      → record_bytes k flags ulen slen crc p ++ rest
        ≡ record_bytes k flags ulen slen crc (p ++ rest)
  unfolding record_bytes
  record_bytes-append p rest =
      let u = to_be_bytes 4 ulen in
      let s = to_be_bytes 4 slen in
      let c = to_be_bytes 4 crc in
      ap (λ x. 1 ∷ x)
        (append_assoc k.bytes (flags ∷ (u ++ (s ++ (c ++ p)))) rest
          ∙ ap (λ x. k.bytes ++ (flags ∷ x))
              (append_assoc u (s ++ (c ++ p)) rest
                ∙ ap (λ x. u ++ x)
                    (append_assoc s (c ++ p) rest ∙ ap (λ x. s ++ x) (append_assoc c p rest))))

pub be_u32-field :
    (b : Bytes) (off n : ℕ) (t : Bytes)
    → drop off b ≡ to_be_bytes 4 n ++ t
    → n < 2 ^ 32
    → be_u32 b off ≡ n
unfolding be_u32
be_u32-field b off n t e fits =
    ap (λ x. from_be_bytes (take 4 x)) e
    ∙ ap from_be_bytes (take-append 4 (to_be_bytes 4 n) t (length-to_be_bytes 4 n))
    ∙ from_be_bytes-to_be_bytes 4 n (omega arith)
