-- ===== src/Prelude/ByteMap.antt =====
-- `BTreeMap<Vec<u8>, V>`: the entries in the order of their keys, each key once.
use core_rs.Prelude.{
  ◌≡◌, refl, sym, ◌∙◌, inl, inr, arith, true, Option, none, some, List, [], ◌∷◌, if◌then◌else◌,
  Bool-cases, subst,
}
use core_rs.Prelude.Bytes.{Bytes}
use core_rs.Prelude.Lex.{
  lex_lt, bytes_eq, bytes_eq_iff, bytes_eq_refl, lex_lt_irrefl, lex_lt_trans, lex_lt_connected,
  lex_cases,
}

abbrev pub ByteMap {ℓ} : Type ℓ → Type ℓ
ByteMap V = List (Bytes × V)

module _ {ℓ} {V : Type ℓ} where
  -- m.get(k)
  unfoldable pub get : Bytes → ByteMap V → Option V
  get k [] = none
  get k ((j, w) ∷ m) = if bytes_eq j k then some w else get k m

  -- m.insert(k, v): a key that is there keeps its place and takes the new value.
  unfoldable pub insert : Bytes → V → ByteMap V → ByteMap V
  insert k v [] = (k, v) ∷ []
  insert k v ((j, w) ∷ m) =
      let rest = insert k v m in
      if lex_lt k j then (k, v) ∷ (j, w) ∷ m else if lex_lt j k then (j, w) ∷ rest else (k, v) ∷ m

  -- m.keys()
  abbrev pub keys : ByteMap V → List Bytes
  keys [] = []
  keys ((j, w) ∷ m) = j ∷ keys m

  abbrev pub Above : Bytes → ByteMap V → Type 0
  Above k [] = Unit {0}
  Above k ((j, w) ∷ m) = (lex_lt k j ≡ true) × Above k m

  -- What the type promises.
  abbrev pub IsSorted : ByteMap V → Type 0
  IsSorted [] = Unit {0}
  IsSorted ((j, w) ∷ m) = Above j m × IsSorted m

  Above-trans : (k j : Bytes) (m : ByteMap V) → lex_lt k j ≡ true → Above j m → Above k m
  Above-trans k j [] h a = tt
  Above-trans k j ((i, w) ∷ m) h (a, b) = (lex_lt_trans k j i h a, Above-trans k j m h b)

  get-Above : (k : Bytes) (m : ByteMap V) → Above k m → get k m ≡ none
  unfolding get
  get-Above k [] a = refl
  get-Above k ((i, w) ∷ m) (a, b) =
      ground (arith, get-Above k m b, bytes_eq_iff i k, lex_lt_irrefl k)

  Above-insert :
      (i k : Bytes) (v : V) (m : ByteMap V) → lex_lt i k ≡ true → Above i m → Above i (insert k v m)
  unfolding insert
  Above-insert i k v [] h a = (h, tt)
  Above-insert i k v ((j, w) ∷ m) h (a, b) = ground (arith, Above-insert i k v m h b)

  pub insert-IsSorted : (k : Bytes) (v : V) (m : ByteMap V) → IsSorted m → IsSorted (insert k v m)
  unfolding insert
  insert-IsSorted k v [] s = (tt, tt)
  insert-IsSorted k v ((j, w) ∷ m) (a, s) = elim (Bool-cases (lex_lt k j)) [
    | inl p ↦ rw p ((p, Above-trans k j m p a), (a, s))
    | inr p ↦ elim (Bool-cases (lex_lt j k)) [
      | inl q ↦ rw (p, q) (Above-insert j k v m q a, insert-IsSorted k v m s)
      | inr q ↦ rw (p, q) (rw (lex_lt_connected k j p q) a, s)
    ]
  ]

  pub get-insert :
      (i k : Bytes) (v : V) (m : ByteMap V)
      → get i (insert k v m) ≡ (if bytes_eq k i then some v else get i m)
  unfolding get insert
  get-insert i k v [] = refl
  get-insert i k v ((j, w) ∷ m) = ground (
    arith,
    get-insert i k v m,
    bytes_eq_iff k i,
    bytes_eq_iff j i,
    lex_lt_connected k j,
    lex_lt_irrefl k,
  )

  -- Two entries with the same first key: the tails answer alike.
  same_tail :
      (j : Bytes) (w u : V) (m n : ByteMap V)
      → Above j m
      → Above j n
      → ((k : Bytes) → get k ((j, w) ∷ m) ≡ get k ((j, u) ∷ n))
      → (k : Bytes) → get k m ≡ get k n
  unfolding get
  same_tail j w u m n a b h k = elim (Bool-cases (bytes_eq j k)) [
    | inl p ↦
        let e : j ≡ k = (bytes_eq_iff j k).0 p in
        get-Above k m (subst (λ x. Above x m) e a)
        ∙ sym (get-Above k n (subst (λ x. Above x n) e b))
    | inr p ↦ ground (arith, h k)
  ]

  -- A sorted map is determined by its lookups.
  pub ext : (m n : ByteMap V) → IsSorted m → IsSorted n → ((k : Bytes) → get k m ≡ get k n) → m ≡ n
  unfolding get
  ext [] [] s t h = refl
  ext [] ((j, w) ∷ n) s t h = ground (arith, h j, bytes_eq_refl j)
  ext ((j, w) ∷ m) [] s t h = ground (arith, h j, bytes_eq_refl j)
  ext ((j, w) ∷ m) ((i, u) ∷ n) (a, s) (b, t) h = elim (lex_cases j i) [
    | inl p ↦ absurd (
        ground (
          arith,
          h j,
          bytes_eq_refl j,
          bytes_eq_iff i j,
          lex_lt_irrefl j,
          get-Above j n (Above-trans j i n p b),
        ))
    | inr (inl e) ↦
        let b' = subst (λ x. Above x n) (sym e) b in
        let h' : (k : Bytes) → get k ((j, w) ∷ m) ≡ get k ((j, u) ∷ n) =
          subst (λ x. (k : Bytes) → get k ((j, w) ∷ m) ≡ get k ((x, u) ∷ n)) (sym e) h in
        let same : w ≡ u = ground (arith, h' j, bytes_eq_refl j) in
        cc (e, same, ext m n s t (same_tail j w u m n a b' h'))
    | inr (inr p) ↦ absurd (
        ground (
          arith,
          h i,
          bytes_eq_refl i,
          bytes_eq_iff j i,
          lex_lt_irrefl i,
          get-Above i m (Above-trans i j m p a),
        ))
  ]
