-- ===== src/Markset/Slots.antt =====
-- Where the mark set of src/packstore/markset.rs keeps a key: two keys have two places.
use core_rs.Prelude.{
  ℕ, zero, suc, ◌+◌, ◌-◌, ◌*◌, ◌≤◌, ◌<◌, ◌≡◌, refl, sym, ap, ◌∙◌, subst, inl, inr, arith, Bool,
  false, not, Option, none, some, List, [], ◌∷◌, length, get_or, leb, ltb, ◌==◌, ok, Bool-cases,
  Option-cases, ok_inj, guard_passed, bound_ok, ◌^◌,
}
use core_rs.Prelude.Bytes.{Bytes}
use core_rs.Prelude.Lex.{lex_lt, bytes_eq, bytes_eq→eq}
use core_rs.Key.{Key}
use core_rs.Footer.{
  first_byte, search_index_pos, search_bucket, located, at_point, bucket_start, partition_point,
  row_key, parse_index_section, read_fanout,
}
use core_rs.Amberpack.{be_u32}
use core_rs.Footer.Bounds.{search_index_pos_bounds}
use core_rs.Markset.{Segment, Loc, in_sealed, found, lookup_pos, locate_sealed}

at_point-key :
    (entries : Bytes) (k : Key) (lo n low pos : ℕ)
    → at_point entries k lo n low ≡ some pos
    → (row_key entries pos ≡ k.bytes) × (pos < lo + n) × (1 ≤ n)
unfolding at_point
at_point-key entries k lo n low pos e = elim (Bool-cases (leb n low)) [
  | inl y ↦ absurd (ground arith)
  | inr y ↦ elim (Bool-cases (bytes_eq (row_key entries (lo + low)) k.bytes)) [
    | inl z ↦
        let at : lo + low ≡ pos = ground arith in
        (
          subst (λ p. row_key entries p ≡ k.bytes) at (bytes_eq→eq _ _ z),
          ground arith,
          ground arith,
        )
    | inr z ↦ absurd (ground arith)
  ]
]

-- A position that the index answers is a row of the bucket, which holds the key.
lookup_pos-key :
    (g : Segment) (k : Key) (pos : ℕ)
    → lookup_pos g k ≡ some pos
    → (row_key g.entries pos ≡ k.bytes) × (pos < get_or g.fanout (first_byte k) 0)
unfolding search_index_pos search_bucket located
lookup_pos-key g k pos e =
    let lo = bucket_start g.fanout (first_byte k) in
    let n = get_or g.fanout (first_byte k) 0 - lo in
    let (row, below, some_row) =
      from_point lo n
        (partition_point (n + 1) (λ i. lex_lt (row_key g.entries (lo + i)) k.bytes) 0 n) e in
    (row, omega (arith, below, some_row))
  where
    from_point :
        (lo n : ℕ) (p : Option ℕ)
        → found (located g.entries k lo n p) ≡ some pos
        → (row_key g.entries pos ≡ k.bytes) × (pos < lo + n) × (1 ≤ n)
    from_point lo n none h = absurd (ground arith)
    from_point lo n (some low) h = at_point-key g.entries k lo n low pos h

-- Every bucket of the fanout ends inside the index.
abbrev pub IsSegment : Segment → Type 0
IsSegment g = (i : ℕ) → get_or g.fanout i 0 ≤ g.key_count

pub lookup_pos_bounds :
    (g : Segment)
    → IsSegment g
    → (k : Key) (pos : ℕ) → lookup_pos g k ≡ some pos
    → pos < g.key_count
lookup_pos_bounds g fits k pos e = omega (arith, (lookup_pos-key g k pos e).1, fits (first_byte k))

read_fanout-length :
    (left i prev : ℕ) (b : Bytes) (fanout : List ℕ)
    → read_fanout left i prev b ≡ ok fanout
    → length fanout ≡ left
unfolding read_fanout
read_fanout-length zero i prev b fanout e = sym (ap length (ok_inj e))
read_fanout-length (suc left) i prev b fanout e =
    let (_, e1) = guard_passed (ltb (be_u32 b (i * 4)) prev) _ _ fanout e in
    let (rest, (g, e2)) = bound_ok (read_fanout left (i + 1) (be_u32 b (i * 4)) b) _ fanout e1 in
    sym (ap length (ok_inj e2))
    ∙ ap suc (read_fanout-length left (i + 1) (be_u32 b (i * 4)) b rest g)

get_or_past : (xs : List ℕ) (i : ℕ) → length xs ≤ i → get_or xs i 0 ≡ 0
get_or_past [] i h = refl
get_or_past (x ∷ xs) zero h = absurd (omega arith)
get_or_past (x ∷ xs) (suc i) h = get_or_past xs i (omega arith)

-- So it is where the section was parsed.
pub parsed-IsSegment :
    (b : Bytes) (n : ℕ) (fanout : List ℕ) (entries : Bytes) (filter : Key → Bool)
    → parse_index_section b n ≡ ok (fanout, entries)
    → IsSegment (record { fanout = fanout; entries = entries; key_count = n; filter = filter })
unfolding parse_index_section
parsed-IsSegment b n fanout entries filter e i = elim (Bool-cases (ltb i 256)) [
  | inl y ↦
      let k : Key = record { bytes = i ∷ [] } in
      (search_index_pos_bounds b n fanout entries k e (ground arith)).2
  | inr y ↦
      let (_, e1) = guard_passed (leb (2 ^ 32) n) _ _ (fanout, entries) e in
      let (_, e2) = guard_passed (not (length b == 1024 + n * 44)) _ _ (fanout, entries) e1 in
      let (x, (read, e3)) = bound_ok (read_fanout 256 0 0 b) _ (fanout, entries) e2 in
      let (_, e4) = guard_passed (not (get_or x 255 0 == n)) _ _ (fanout, entries) e3 in
      let same : x ≡ fanout = ap (λ p. p.0) (ok_inj e4) in
      let len : length fanout ≡ 256 = ap length (sym same) ∙ read_fanout-length 256 0 0 b x read in
      omega (arith, get_or_past fanout i (ground (arith, len)))
]

abbrev pub no_segment : Segment
no_segment = record { fanout = []; entries = []; key_count = 0; filter = λ k. false }

module _ (k : Key) where
  -- What is known of a place that the loop of locate answers.
  locate_sealed-place :
      (i : ℕ) (segs : List Segment) (l : Loc)
      → locate_sealed i segs k ≡ some l
      → (seg pos : ℕ) × (l ≡ in_sealed (i + seg) pos)
        × (seg < length segs)
        × (lookup_pos (get_or segs seg no_segment) k ≡ some pos)
  unfolding locate_sealed
  locate_sealed-place i [] l e = absurd (ground arith)
  locate_sealed-place i (g ∷ gs) l e = elim (Option-cases (locate_sealed (i + 1) gs k)) [
    | inr (l', h) ↦
        let same : l' ≡ l = ground arith in
        let (seg, pos, is, below, finds) = locate_sealed-place (i + 1) gs l' h in
        let at : i + 1 + seg ≡ i + suc seg = omega arith in
        (suc seg, pos, sym same ∙ is ∙ ap (λ x. in_sealed x pos) at, omega arith, finds)
    | inl h ↦ elim (Bool-cases (g.filter k)) [
      | inr f ↦ absurd (ground arith)
      | inl f ↦ elim (Option-cases (lookup_pos g k)) [
        | inl n ↦ absurd (ground arith)
        | inr (pos, finds) ↦ (0, pos, ground (arith, rw (h, f, finds) at e), omega arith, finds)
      ]
    ]
  ]

some_inj : {A : Type 0} {a b : A} → some a ≡ some b → a ≡ b
some_inj e = ground arith

key_of_bytes : (j k : Key) → j.bytes ≡ k.bytes → j ≡ k
key_of_bytes j k e = ap (λ b. (let x : Key = record { bytes = b } in x)) e

-- A place that locate answers is a row of a segment.
pub sealed-place :
    (segs : List Segment) (k : Key) (l : Loc)
    → locate_sealed 0 segs k ≡ some l
    → (seg pos : ℕ) × (l ≡ in_sealed seg pos)
      × (seg < length segs)
      × (lookup_pos (get_or segs seg no_segment) k ≡ some pos)
sealed-place segs k l e =
    let (seg, pos, is, below, finds) = locate_sealed-place k 0 segs l e in
    let at : 0 + seg ≡ seg = omega arith in
    (seg, pos, is ∙ ap (λ x. in_sealed x pos) at, below, finds)

pub sealed_apart :
    (segs : List Segment) (j k : Key) (l : Loc)
    → locate_sealed 0 segs j ≡ some l
    → locate_sealed 0 segs k ≡ some l
    → j ≡ k
sealed_apart segs j k l a b =
    let (s1, p1, is1, _, finds1) = sealed-place segs j l a in
    let (s2, p2, is2, _, finds2) = sealed-place segs k l b in
    let both : in_sealed s1 p1 ≡ in_sealed s2 p2 = sym is1 ∙ is2 in
    let same_seg : s2 ≡ s1 = ground arith in
    let same_pos : p2 ≡ p1 = ground arith in
    let finds : lookup_pos (get_or segs s1 no_segment) k ≡ some p1 =
      subst (λ s. lookup_pos (get_or segs s no_segment) k ≡ some p1) same_seg
        (finds2 ∙ ap some same_pos) in
    key_of_bytes j k (
      sym (lookup_pos-key (get_or segs s1 no_segment) j p1 finds1).0
      ∙ (lookup_pos-key (get_or segs s1 no_segment) k p1 finds).0)
