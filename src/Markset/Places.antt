-- ===== src/Markset/Places.antt =====
-- Writes to the places of the mark set of src/packstore/markset.rs, seen by every key.
use core_rs.Prelude.{
  ℕ, zero, suc, ◌/◌, ◌%◌, ◌<◌, ◌≡◌, ◌≢◌, refl, sym, ap, ◌∙◌, subst, inl, inr, arith, Bool, true,
  false, ◌&&◌, ◌||◌, Option, none, some, List, [], ◌∷◌, length, get_or, replicate, ◌==◌,
  if◌then◌else◌, Bool-cases,
}
use mathlib.Core.Path.{ap₂}
use core_rs.Prelude.BitMap.{test_bit, test_at, modify, get_or-modify, get_or-modify_other}
use core_rs.Key.{Key}
use core_rs.Gc.{same_key}
use core_rs.Gc.Visit.{same_key→eq, same_key_refl}
use core_rs.Markset.{
  Segment, Loc, in_active, in_sealed, is_some, locate_in, locate_sealed, grid_test, sized,
}
use core_rs.Markset.Slots.{sealed_apart}

pub grid_test-modify :
    (grid : List (List ℕ)) (a p b q : ℕ) (f : List ℕ → List ℕ)
    → a < length grid
    → ((i : ℕ) → test_at (f (get_or grid a [])) i ≡ (test_at (get_or grid a []) i || (p == i)))
    → grid_test (modify grid a f) b q ≡ (grid_test grid b q || (a == b && p == q))
grid_test-modify grid a p b q f h set = elim (Bool-cases (a == b)) [
  | inr n ↦ ground (arith, ap (λ r. test_at r q) (get_or-modify_other grid a b f [] n))
  | inl y ↦
      let e : a ≡ b = ground arith in
      let here = ap (λ r. test_at r q) (get_or-modify grid a f [] h) ∙ set q in
      subst (λ x. grid_test (modify grid a f) x q ≡ (grid_test grid x q || (a == x && p == q))) e
        (ground (arith, here))
]

pub get_or-replicate : (n i : ℕ) → (let z : ℕ = 0 in get_or (replicate n z) i z ≡ z)
get_or-replicate zero i = refl
get_or-replicate (suc n) zero = refl
get_or-replicate (suc n) (suc i) = get_or-replicate n i

-- A bitmap of zeros tests as none does.
pub test_at-sized : (words : ℕ) (row : List ℕ) (q : ℕ) → test_at (sized words row) q ≡ test_at row q
test_at-sized words [] q = ap (λ w. test_bit w (q % 64)) (get_or-replicate words (q / 64))
test_at-sized words (w ∷ ws) q = refl

-- What is recorded of a key at its place: a flag of the key or a bit of a grid.
abbrev pub slot_test : (Key → Bool) → List (List ℕ) → Key → Option Loc → Bool
slot_test f grid k none = false
slot_test f grid k (some in_active) = f k
slot_test f grid k (some (in_sealed seg pos)) = grid_test grid seg pos

-- From `f` and `grid` to `g` and `grid'` the place of `k` was written, and nothing else.
abbrev pub IsWrite :
    Key → Option Loc → (Key → Bool) → List (List ℕ) → (Key → Bool) → List (List ℕ) → Type 0
IsWrite k none f grid g grid' = (f ≡ g) × (grid ≡ grid')
IsWrite k (some in_active) f grid g grid' =
    ((j : Key) → g j ≡ (f j || same_key j k)) × (grid ≡ grid')
IsWrite k (some (in_sealed a p)) f grid g grid' =
    (f ≡ g) × ((b q : ℕ) → grid_test grid' b q ≡ (grid_test grid b q || (a == b && p == q)))

module _ (segs : List Segment) (act : Key → Bool) where
  abbrev pub place : Key → Option Loc
  place k = locate_in segs (act k) k

  pub place-sealed :
      (k : Key) (a p : ℕ)
      → place k ≡ some (in_sealed a p)
      → locate_sealed 0 segs k ≡ some (in_sealed a p)
  unfolding locate_in
  place-sealed k a p e = elim (Bool-cases (act k)) [
    | inl y ↦ absurd (ground arith)
    | inr n ↦ sym (ap (λ t. if t then some in_active else locate_sealed 0 segs k) n) ∙ e
  ]

  module _ (j k : Key) (f g : Key → Bool) (grid grid' : List (List ℕ)) where
    apart : (J L : Option Loc) → place j ≡ J → place k ≡ L → J ≢ L → same_key j k ≡ false
    apart J L ej ek ne = elim (Bool-cases (same_key j k)) [
      | inr n ↦ n
      | inl y ↦ absurd (ne (sym ej ∙ ap (λ x. locate_in segs (act x) x) (same_key→eq j k y) ∙ ek))
    ]

    one_place :
        (a p b q : ℕ)
        → place j ≡ some (in_sealed b q)
        → place k ≡ some (in_sealed a p)
        → (a == b && p == q) ≡ same_key j k
    one_place a p b q ej ek = elim (Bool-cases (a == b && p == q)) [
      | inl y ↦
          let ea : a ≡ b = ground arith in
          let ep : p ≡ q = ground arith in
          let at : place j ≡ some (in_sealed a p) = rw (ea, ep) ej in
          let e : j ≡ k =
            sealed_apart segs j k (in_sealed a p) (place-sealed j a p at) (place-sealed k a p ek) in
          y ∙ sym (subst (λ x. same_key j x ≡ true) e (same_key_refl j))
      | inr n ↦
          n
          ∙ sym (
              apart (some (in_sealed b q)) (some (in_sealed a p)) ej ek
                (λ e. absurd (ground arith)))
    ]

    pub write-slots :
        (J L : Option Loc)
        → place j ≡ J
        → place k ≡ L
        → IsWrite k L f grid g grid'
        → slot_test g grid' j J ≡ (slot_test f grid j J || (same_key j k && is_some L))
    write-slots J none ej ek (e, h) =
        let same : slot_test g grid' j J ≡ slot_test f grid j J =
          sym (ap₂ (λ x y. slot_test x y j J) e h) in
        ground (arith, same)
    write-slots none (some in_active) ej ek (w, h) =
        ground (arith, apart none (some in_active) ej ek (λ e. ground arith))
    write-slots none (some (in_sealed a p)) ej ek w =
        ground (arith, apart none (some (in_sealed a p)) ej ek (λ e. ground arith))
    write-slots (some in_active) (some in_active) ej ek (w, h) = ground (arith, w j)
    write-slots (some in_active) (some (in_sealed a p)) ej ek (e, w) = ground (
      arith,
      ap (λ x. x j) e,
      apart (some in_active) (some (in_sealed a p)) ej ek (λ z. ground arith),
    )
    write-slots (some (in_sealed b q)) (some in_active) ej ek (w, h) = ground (
      arith,
      ap (λ x. grid_test x b q) h,
      apart (some (in_sealed b q)) (some in_active) ej ek (λ z. ground arith),
    )
    write-slots (some (in_sealed b q)) (some (in_sealed a p)) ej ek (e, w) =
        ground (arith, w b q, one_place a p b q ej ek)
