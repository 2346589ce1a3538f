-- ===== src/Footer/Bucket.antt =====
-- The search in the bucket of a key (`search_index_pos` and `search_index` of
-- src/packstore/footer.rs), over the rows in their order.
use core_rs.Prelude.{
  ℕ, zero, suc, ◌+◌, ◌-◌, ◌≤◌, ◌<◌, ◌≡◌, refl, sym, ap, ◌∙◌, arith, Bool, true, false, ◌&&◌, Option,
  none, some, List, [], ◌∷◌, length, get_or, leb, ltb, if◌then◌else◌, All, All-get_or, Bool-cases,
  inl, inr,
}
use mathlib.Core.Path.{ap₂}
use core_rs.Prelude.Lex.{lex_lt, bytes_eq, bytes_eq→eq, lex_lt_irrefl}
use core_rs.Key.{Key}
use core_rs.Footer.{
  IndexEntry, first_byte, partition_point, at_point, bucket_start, search_index_pos, search_bucket,
  located, valued, search_index, row_key,
}
use core_rs.Footer.Sorted.{IsSorted, find}
use core_rs.Footer.Search.{
  partition_point_lem, counting, counting_le, first_le, counting-le_length, below, less_than,
  below_zero, less_than_bucket, sorted_less, find_less,
}
use core_rs.Footer.Rows.{IsEntry, rows, row_key-rows, row_value-rows, counts, get_or-counts}

-- What the lookup of an entry answers.
abbrev pub found : Option IndexEntry → Option (ℕ × ℕ)
found none = none
found (some e) = some (e.off, e.slen)

counting_lt :
    (p q : IndexEntry → Bool) (s : List IndexEntry) (i : ℕ) (d : IndexEntry)
    → ((e : IndexEntry) → p e ≡ true → q e ≡ true)
    → i < length s
    → p (get_or s i d) ≡ false
    → q (get_or s i d) ≡ true
    → counting p s < counting q s
unfolding counting
counting_lt p q [] i d pq h np yq = absurd (omega arith)
counting_lt p q (e ∷ s) zero d pq h np yq =
    let le = counting_le p q s (everywhere s) in rw (np, yq) (omega (arith, le))
  where
    everywhere : (s : List IndexEntry) → All (λ e. p e ≡ true → q e ≡ true) s
    everywhere [] = tt
    everywhere (e ∷ s) = (pq e, everywhere s)
counting_lt p q (e ∷ s) (suc i) d pq h np yq =
    let ih = counting_lt p q s i d pq (omega arith) np yq in
    elim (Bool-cases (p e)) [
      | inl y ↦ rw (y, pq e y) (omega (arith, ih))
      | inr n ↦ elim (Bool-cases (q e)) [
        | inl y ↦ rw (n, y) (omega (arith, ih))
        | inr n' ↦ rw (n, n') ih
      ]
    ]

ltb_shift : (a b c : ℕ) → a ≤ c → ltb (a + b) c ≡ ltb b (c - a)
ltb_shift a b c h = ground arith

nonempty : (s : List IndexEntry) → All IsEntry s → All (λ e. 1 ≤ length e.k.bytes) s
nonempty [] a = tt
nonempty (e ∷ s) (v, a) = (omega (arith, v.key_len), nonempty s a)

module _ (s : List IndexEntry) (valid : All IsEntry s) (o : IsSorted s) (k : Key) where
  module _ (hk : length k.bytes ≡ 32) (hf : first_byte k < 256) where
    abbrev d : IndexEntry
    d = record { k = k; off = 0; slen = 0 }

    d-IsEntry : IsEntry d
    d-IsEntry = record { key_len = hk; first_lt = hf; off_lt = omega arith; slen_lt = omega arith }

    abbrev place : ℕ
    place = less_than k s

    abbrev lo : ℕ
    lo = below (first_byte k) s

    abbrev hi : ℕ
    hi = below (first_byte k + 1) s

    at_row : (i : ℕ) → i < length s → row_key (rows s) i ≡ (get_or s i d).k.bytes
    at_row i h = row_key-rows s i d valid (All-get_or IsEntry s i d valid d-IsEntry) h

    bounds : (lo ≤ place) × (place ≤ hi) × (hi ≤ length s)
    bounds =
        let (a, b) = less_than_bucket k s (omega (arith, hk)) (nonempty s valid) in
        (a, b, counting-le_length (λ e. ltb (first_byte e.k) (first_byte k + 1)) s)

    search :
        partition_point (hi - lo + 1) (λ i. lex_lt (row_key (rows s) (lo + i)) k.bytes) 0 (hi - lo)
        ≡ some (place - lo)
    search =
        let (a, b, c) = bounds in
        partition_point_lem (hi - lo + 1) (λ i. lex_lt (row_key (rows s) (lo + i)) k.bytes)
          (place - lo) 0 (hi - lo) (omega arith) (omega (arith, a, b))
          (λ i _ h.
            let inside : lo + i < length s = omega (arith, a, b, c, h) in
            ap (λ x. lex_lt x k.bytes) (at_row (lo + i) inside)
            ∙ sorted_less k s (lo + i) d o inside
            ∙ ltb_shift lo i place a)
          (omega arith)

    -- A row with the key lies in the key's bucket.
    in_bucket : place < length s → bytes_eq (get_or s place d).k.bytes k.bytes ≡ true → place < hi
    in_bucket h y =
        let same = bytes_eq→eq (get_or s place d).k.bytes k.bytes y in
        let not_less : lex_lt (get_or s place d).k.bytes k.bytes ≡ false =
          ap (λ x. lex_lt x k.bytes) same ∙ lex_lt_irrefl k.bytes in
        let first : first_byte (get_or s place d).k ≡ first_byte k = ap (λ x. get_or x 0 0) same in
        counting_lt (λ e. lex_lt e.k.bytes k.bytes) (λ e. ltb (first_byte e.k) (first_byte k + 1)) s
          place d (λ e t. let le = first_le e.k.bytes k.bytes t in ground arith) h not_less
          (ground (arith, first))

    abbrev hit : Option ℕ
    hit =
        if ltb place (length s) && bytes_eq (get_or s place d).k.bytes k.bytes
        then some place
        else none

    at_point-hit : at_point (rows s) k lo (hi - lo) (place - lo) ≡ hit
    unfolding at_point
    at_point-hit =
        let (a, b, c) = bounds in
        let back : lo + (place - lo) ≡ place = omega (arith, a) in
        elim (Bool-cases (leb (hi - lo) (place - lo))) [
          | inl past ↦
              elim (Bool-cases
                (ltb place (length s) && bytes_eq (get_or s place d).k.bytes k.bytes)) [
                  | inr n ↦ rw (past, n) refl
                  | inl y ↦
                      let inside = in_bucket (ground arith) (ground arith) in absurd (ground arith)
                ]
          | inr here ↦
              let inside : place < length s = ground arith in
              let i : ltb place (length s) ≡ true = ground arith in
              rw (here, back, at_row place inside, i) (ground arith)
        ]

    fanout_at :
        (bucket_start (counts 256 0 s) (first_byte k) ≡ lo)
        × (get_or (counts 256 0 s) (first_byte k) 0 ≡ hi)
    fanout_at = (
      elim (Bool-cases (ltb 0 (first_byte k))) [
        | inl y ↦
            let n : 0 + (first_byte k - 1) + 1 ≡ first_byte k = ground arith in
            rw y
              (get_or-counts 256 0 (first_byte k - 1) s (omega (arith, hf)) ∙ ap (λ x. below x s) n)
        | inr n ↦
            let z : first_byte k ≡ 0 = ground arith in
            rw n (sym (below_zero s) ∙ ap (λ x. below x s) (sym z))
      ],
      get_or-counts 256 0 (first_byte k) s hf ∙ ap (λ x. below x s) (omega arith),
    )

    search_index_pos-hit : search_index_pos (counts 256 0 s) (rows s) k ≡ some hit
    unfolding search_index_pos search_bucket located
    search_index_pos-hit =
        let (start, end) = fanout_at in
        ap₂ (λ lo' hi'. search_bucket (rows s) k lo' (hi' - lo')) start end
        ∙ ap (located (rows s) k lo (hi - lo)) search
        ∙ ap some at_point-hit

    valued-hit :
        valued (rows s) (some hit)
        ≡ some (
            found (
              if ltb place (length s) && bytes_eq (get_or s place d).k.bytes k.bytes
              then some (get_or s place d)
              else none))
    unfolding valued
    valued-hit =
        elim (Bool-cases (ltb place (length s) && bytes_eq (get_or s place d).k.bytes k.bytes)) [
          | inr n ↦ rw n refl
          | inl y ↦
              let inside : place < length s = ground arith in
              let value =
                row_value-rows s place d valid (All-get_or IsEntry s place d valid d-IsEntry)
                  inside in
              rw y (ap (λ v. some (some v)) value)
        ]

    pub search_index-found : search_index (counts 256 0 s) (rows s) k ≡ some (found (find k s))
    unfolding search_index
    search_index-found =
        ap (valued (rows s)) search_index_pos-hit
        ∙ valued-hit
        ∙ ap (λ x. some (found x)) (sym (find_less k s d o))
