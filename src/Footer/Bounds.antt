-- ===== src/Footer/Bounds.antt =====
-- Lookups in any section that `parse_index_section` of src/packstore/footer.rs accepts.
use core_rs.Prelude.{
  ℕ, zero, suc, ◌+◌, ◌-◌, ◌*◌, ◌/◌, ◌^◌, ◌≤◌, ◌<◌, ◌≡◌, refl, sym, ap, ◌∙◌, arith, Bool, false, not,
  Option, some, List, ◌∷◌, length, get_or, drop, leb, ltb, ◌==◌, Bool-cases, Result-cases, inl, inr,
  ok, length-drop, guard_passed, bound_ok, ok_inj,
}
use core_rs.Prelude.Bytes.{Bytes}
use core_rs.Prelude.Lex.{lex_lt, bytes_eq}
use core_rs.Key.{Key}
use core_rs.Amberpack.{be_u32}
use core_rs.Footer.{
  first_byte, parse_index_section, read_fanout, partition_point, at_point, bucket_start,
  search_bucket, located, search_index_pos, row_key,
}

-- The fanout that was read does not fall.
read_fanout_rises :
    (left i prev : ℕ) (b : Bytes) (fanout : List ℕ)
    → read_fanout left i prev b ≡ ok fanout
    → ((j : ℕ) → j < left → prev ≤ get_or fanout j 0)
      × ((j j' : ℕ) → j ≤ j' → j' < left → get_or fanout j 0 ≤ get_or fanout j' 0)
unfolding read_fanout
read_fanout_rises zero i prev b fanout e =
    (λ j h. absurd (omega arith), λ j j' l h. absurd (omega arith))
read_fanout_rises (suc left) i prev b fanout e = elim (Bool-cases (ltb (be_u32 b (i * 4)) prev)) [
  | inl f ↦ absurd (ground arith)
  | inr f ↦ elim (Result-cases (read_fanout left (i + 1) (be_u32 b (i * 4)) b)) [
    | inr (x, g) ↦ absurd (ground arith)
    | inl (rest, g) ↦
        let is : fanout ≡ be_u32 b (i * 4) ∷ rest = ground arith in
        let (low, rises) = read_fanout_rises left (i + 1) (be_u32 b (i * 4)) b rest g in
        let up : prev ≤ be_u32 b (i * 4) = ground arith in
        rw is (
          cons_low prev (be_u32 b (i * 4)) rest left up low,
          cons_rises (be_u32 b (i * 4)) rest left low rises,
        )
  ]
]
  where
    cons_low :
        (prev f : ℕ) (rest : List ℕ) (left : ℕ)
        → prev ≤ f
        → ((j : ℕ) → j < left → f ≤ get_or rest j 0)
        → (j : ℕ) → j < suc left
        → prev ≤ get_or (f ∷ rest) j 0
    cons_low prev f rest left up low zero h = up
    cons_low prev f rest left up low (suc j) h = omega (arith, up, low j (omega arith))

    cons_rises :
        (f : ℕ) (rest : List ℕ) (left : ℕ)
        → ((j : ℕ) → j < left → f ≤ get_or rest j 0)
        → ((j j' : ℕ) → j ≤ j' → j' < left → get_or rest j 0 ≤ get_or rest j' 0)
        → (j j' : ℕ) → j ≤ j'
        → j' < suc left
        → get_or (f ∷ rest) j 0 ≤ get_or (f ∷ rest) j' 0
    cons_rises f rest left low rises zero zero l h = omega arith
    cons_rises f rest left low rises zero (suc j') l h = low j' (omega arith)
    cons_rises f rest left low rises (suc j) zero l h = absurd (omega arith)
    cons_rises f rest left low rises (suc j) (suc j') l h = rises j j' (omega arith) (omega arith)

-- The search ends inside its range, whatever the test.
partition_point_range :
    (fuel : ℕ) (less : ℕ → Bool) (low high : ℕ)
    → low ≤ high
    → high - low < fuel
    → (p : ℕ) × (partition_point fuel less low high ≡ some p) × (p ≤ high)
unfolding partition_point
partition_point_range zero less low high l h = absurd (omega arith)
partition_point_range (suc fuel) less low high l h = elim (Bool-cases (ltb low high)) [
  | inr stop ↦ (low, rw stop refl, l)
  | inl go ↦
      let mid = (low + high) / 2 in
      elim (Bool-cases (less mid)) [
        | inl y ↦
            rw (go, y)
              (partition_point_range fuel less (mid + 1) high (ground arith) (ground arith))
        | inr n ↦
            let (p, e, le) =
              partition_point_range fuel less low mid (ground arith) (ground arith) in
            (p, rw (go, n) e, ground arith)
      ]
]

at_point_range :
    (entries : Bytes) (k : Key) (lo n low pos : ℕ)
    → at_point entries k lo n low ≡ some pos
    → pos < lo + n
unfolding at_point
at_point_range entries k lo n low pos e = elim (Bool-cases (leb n low)) [
  | inl y ↦ absurd (ground arith)
  | inr y ↦ elim (Bool-cases (bytes_eq (row_key entries (lo + low)) k.bytes)) [
    | inl z ↦ ground arith
    | inr z ↦ absurd (ground arith)
  ]
]

not_eq : (a b : ℕ) → not (a == b) ≡ false → a ≡ b
not_eq a b e = ground arith

parse_inversion :
    (b : Bytes) (n : ℕ) (fanout : List ℕ) (entries : Bytes)
    → parse_index_section b n ≡ ok (fanout, entries)
    → (length b ≡ 1024 + n * 44)
      × (read_fanout 256 0 0 b ≡ ok fanout)
      × (get_or fanout 255 0 ≡ n)
      × (entries ≡ drop 1024 b)
unfolding parse_index_section
parse_inversion b n fanout entries e =
    let (_, e1) = guard_passed (leb (2 ^ 32) n) _ _ (fanout, entries) e in
    let (len, e2) = guard_passed (not (length b == 1024 + n * 44)) _ _ (fanout, entries) e1 in
    let (x, (read, e3)) = bound_ok (read_fanout 256 0 0 b) _ (fanout, entries) e2 in
    let (total, e4) = guard_passed (not (get_or x 255 0 == n)) _ _ (fanout, entries) e3 in
    let same : x ≡ fanout = ap (λ p. p.0) (ok_inj e4) in
    (
      not_eq (length b) (1024 + n * 44) len,
      read ∙ ap ok same,
      ap (λ y. get_or y 255 0) (sym same) ∙ not_eq (get_or x 255 0) n total,
      sym (ap (λ p. p.1) (ok_inj e4)),
    )

-- A section that parses holds a row for each of its keys, the bucket of every key is a range of
-- those rows, and the search in it ends; a position that it answers is one of those rows. This holds
-- for any bytes, also where the rows are not in order.
pub search_index_pos_bounds :
    (b : Bytes) (n : ℕ) (fanout : List ℕ) (entries : Bytes) (k : Key)
    → parse_index_section b n ≡ ok (fanout, entries)
    → first_byte k < 256
    → (length entries ≡ n * 44)
      × (bucket_start fanout (first_byte k) ≤ get_or fanout (first_byte k) 0)
      × (get_or fanout (first_byte k) 0 ≤ n)
      × ((r : Option ℕ) × (search_index_pos fanout entries k ≡ some r)
          × ((pos : ℕ) → r ≡ some pos → pos < n))
unfolding search_index_pos search_bucket located
search_index_pos_bounds b n fanout entries k e hf =
    let (len, read, total, is) = parse_inversion b n fanout entries e in
    let (_, rises) = read_fanout_rises 256 0 0 b fanout read in
    let f = first_byte k in
    let hi = get_or fanout f 0 in
    let lo = bucket_start fanout f in
    let below : lo ≤ hi = elim (Bool-cases (ltb 0 f)) [
      | inl y ↦ rw y (rises (f - 1) f (omega arith) hf)
      | inr y ↦ rw y (omega arith)
    ] in
    let top : hi ≤ n = omega (arith, rises f 255 (omega (arith, hf)) (omega arith), total) in
    let test : ℕ → Bool = λ i. lex_lt (row_key entries (lo + i)) k.bytes in
    let (p, at, le) =
      partition_point_range (hi - lo + 1) test 0 (hi - lo) (omega arith) (omega arith) in
    let found = ap (located entries k lo (hi - lo)) at in
    (
      omega (arith, ap length is, length-drop 1024 b, len),
      below,
      top,
      (
        at_point entries k lo (hi - lo) p,
        found,
        λ pos h. omega (arith, at_point_range entries k lo (hi - lo) p pos h, below, top),
      ),
    )
