-- ===== src/Footer/Search.antt =====
-- The binary search of `search_index_pos` (src/packstore/footer.rs), and the rows it looks at.
use core_rs.Prelude.{
  ℕ, zero, suc, ◌+◌, ◌-◌, ◌/◌, ◌≤◌, ◌<◌, ◌≡◌, refl, ap, ◌∙◌, arith, Bool, true, false, ◌&&◌, none,
  some, List, [], ◌∷◌, length, get_or, All, Bool-cases, inl, inr, if◌then◌else◌, ltb,
}
use core_rs.Prelude.Bytes.{Bytes}
use core_rs.Prelude.Lex.{
  lex_lt, bytes_eq, lex_cases, lex_lt_trans, lex_lt_irrefl, lex_lt_asymm, bytes_eq→eq,
  bytes_eq_refl,
}
use core_rs.Key.{Key}
use core_rs.Footer.{IndexEntry, entry_lt, first_byte, count, partition_point}
use core_rs.Footer.Sorted.{IsSorted, find}

-- The search finds the place where a test turns false.
pub partition_point_lem :
    (fuel : ℕ) (less : ℕ → Bool) (place low high : ℕ)
    → low ≤ place
    → place ≤ high
    → ((i : ℕ) → low ≤ i → i < high → less i ≡ ltb i place)
    → high - low < fuel
    → partition_point fuel less low high ≡ some place
unfolding partition_point
partition_point_lem zero less place low high lp ph test h = absurd (omega arith)
partition_point_lem (suc fuel) less place low high lp ph test h = elim (Bool-cases (ltb low high)) [
  | inr stop ↦ let e : low ≡ place = ground arith in rw (stop, e) refl
  | inl go ↦
      let mid = (low + high) / 2 in
      let here = test mid (ground arith) (ground arith) in
      elim (Bool-cases (ltb mid place)) [
        | inl left ↦
            rw (go, here, left)
              (partition_point_lem fuel less place (mid + 1) high (ground arith) ph
                (λ i a b. test i (omega (arith, a)) b) (ground arith))
        | inr right ↦
            rw (go, here, right)
              (partition_point_lem fuel less place low mid lp (ground arith)
                (λ i a b. test i a (ground arith)) (ground arith))
      ]
]

-- How many entries pass a test.
unfoldable pub counting : (IndexEntry → Bool) → List IndexEntry → ℕ
counting p [] = 0
counting p (e ∷ s) = let rest = counting p s in if p e then suc rest else rest

pub counting_le :
    (p q : IndexEntry → Bool) (s : List IndexEntry)
    → All (λ e. p e ≡ true → q e ≡ true) s
    → counting p s ≤ counting q s
unfolding counting
counting_le p q [] a = omega arith
counting_le p q (e ∷ s) (pq, a) = elim (Bool-cases (p e)) [
  | inl y ↦ ground (arith, counting_le p q s a, pq y)
  | inr n ↦ ground (arith, counting_le p q s a)
]

pub counting-le_length : (p : IndexEntry → Bool) (s : List IndexEntry) → counting p s ≤ length s
unfolding counting
counting-le_length p [] = omega arith
counting-le_length p (e ∷ s) = ground (arith, counting-le_length p s)

counting_none :
    (p : IndexEntry → Bool) (s : List IndexEntry) → All (λ e. p e ≡ false) s → counting p s ≡ 0
unfolding counting
counting_none p [] a = refl
counting_none p (e ∷ s) (n, a) = rw n (counting_none p s a)

-- The entries whose key starts below `b`, and those whose key is less than `k`.
abbrev pub below : ℕ → List IndexEntry → ℕ
below b s = counting (λ e. ltb (first_byte e.k) b) s

abbrev pub less_than : Key → List IndexEntry → ℕ
less_than k s = counting (λ e. lex_lt e.k.bytes k.bytes) s

pub below_suc : (b : ℕ) (s : List IndexEntry) → below (b + 1) s ≡ below b s + count b s
unfolding counting count
below_suc b [] = refl
below_suc b (e ∷ s) = ground (arith, below_suc b s)

pub below_256 : (s : List IndexEntry) → All (λ e. first_byte e.k < 256) s → below 256 s ≡ length s
unfolding counting
below_256 [] a = refl
below_256 (e ∷ s) (h, a) = ground (arith, below_256 s a)

pub below_zero : (s : List IndexEntry) → below 0 s ≡ 0
unfolding counting
below_zero [] = refl
below_zero (e ∷ s) = ground (arith, below_zero s)

first_lt :
    (a b : Bytes) → 1 ≤ length a → 1 ≤ length b → get_or a 0 0 < get_or b 0 0 → lex_lt a b ≡ true
unfolding lex_lt
first_lt [] b la lb h = absurd (omega arith)
first_lt (x ∷ a) [] la lb h = absurd (omega arith)
first_lt (x ∷ a) (y ∷ b) la lb h = ground arith

pub first_le : (a b : Bytes) → lex_lt a b ≡ true → get_or a 0 0 ≤ get_or b 0 0
unfolding lex_lt
first_le [] b h = omega arith
first_le (x ∷ a) [] h = absurd (ground arith)
first_le (x ∷ a) (y ∷ b) h = ground arith

-- The keys less than `k` end in the bucket of `k`.
pub less_than_bucket :
    (k : Key) (s : List IndexEntry)
    → 1 ≤ length k.bytes
    → All (λ e. 1 ≤ length e.k.bytes) s
    → (below (first_byte k) s ≤ less_than k s) × (less_than k s ≤ below (first_byte k + 1) s)
less_than_bucket k s hk a = (counting_le _ _ s (lower s a), counting_le _ _ s (upper s))
  where
    lower :
        (s : List IndexEntry)
        → All (λ e. 1 ≤ length e.k.bytes) s
        → All (λ e. ltb (first_byte e.k) (first_byte k) ≡ true → lex_lt e.k.bytes k.bytes ≡ true) s
    lower [] a = tt
    lower (e ∷ s) (h, a) = (λ t. first_lt e.k.bytes k.bytes h hk (ground arith), lower s a)

    upper :
        (s : List IndexEntry)
        → All
            (λ e. lex_lt e.k.bytes k.bytes ≡ true → ltb (first_byte e.k) (first_byte k + 1) ≡ true)
            s
    upper [] = tt
    upper (e ∷ s) = (λ t. let le = first_le e.k.bytes k.bytes t in ground arith, upper s)

none_less :
    (k : Key) (a : IndexEntry) (s : List IndexEntry)
    → lex_lt a.k.bytes k.bytes ≡ false
    → All (λ b. entry_lt a b ≡ true) s
    → All (λ b. lex_lt b.k.bytes k.bytes ≡ false) s
none_less k a [] n p = tt
none_less k a (b ∷ s) n (ab, p) = (
  elim (Bool-cases (lex_lt b.k.bytes k.bytes)) [
    | inr f ↦ f
    | inl t ↦ absurd (cc (lex_lt_trans a.k.bytes b.k.bytes k.bytes ab t))
  ],
  none_less k a s n p,
)

-- In sorted rows, those less than `k` come first.
pub sorted_less :
    (k : Key) (s : List IndexEntry) (i : ℕ) (d : IndexEntry)
    → IsSorted s
    → i < length s
    → lex_lt (get_or s i d).k.bytes k.bytes ≡ ltb i (less_than k s)
unfolding counting
sorted_less k [] i d o h = absurd (omega arith)
sorted_less k (e ∷ s) zero d (p, o) h = elim (Bool-cases (lex_lt e.k.bytes k.bytes)) [
  | inl y ↦ ground arith
  | inr n ↦
      let none_here = counting_none (λ e'. lex_lt e'.k.bytes k.bytes) s (none_less k e s n p) in
      ground (arith, none_here)
]
sorted_less k (e ∷ s) (suc i) d (p, o) h =
    let ih = sorted_less k s i d o (omega arith) in
    elim (Bool-cases (lex_lt e.k.bytes k.bytes)) [
      | inl y ↦ ground (arith, ih)
      | inr n ↦
          let none_here = counting_none (λ e'. lex_lt e'.k.bytes k.bytes) s (none_less k e s n p) in
          ground (arith, ih, none_here)
    ]

bytes_differ : (a b : Bytes) → lex_lt a b ≡ true → bytes_eq a b ≡ false
bytes_differ a b y = elim (Bool-cases (bytes_eq a b)) [
  | inr f ↦ f
  | inl t ↦ absurd (cc (bytes_eq→eq a b t, lex_lt_irrefl a))
]

bytes_differ' : (a b : Bytes) → lex_lt b a ≡ true → bytes_eq a b ≡ false
bytes_differ' a b y = elim (Bool-cases (bytes_eq a b)) [
  | inr f ↦ f
  | inl t ↦ absurd (cc (bytes_eq→eq a b t, lex_lt_irrefl a))
]

ltb-suc : (a b : ℕ) → ltb a b ≡ ltb (suc a) (suc b)
ltb-suc a b = ground arith

find_above :
    (k : Key) (a : IndexEntry) (s : List IndexEntry)
    → lex_lt k.bytes a.k.bytes ≡ true
    → All (λ b. entry_lt a b ≡ true) s
    → find k s ≡ none
unfolding find
find_above k a [] h p = refl
find_above k a (b ∷ s) h (ab, p) =
    rw (bytes_differ' b.k.bytes k.bytes (lex_lt_trans k.bytes a.k.bytes b.k.bytes h ab))
      (find_above k a s h p)

-- The entry of a key stands behind all that are less, if anywhere.
pub find_less :
    (k : Key) (s : List IndexEntry) (d : IndexEntry)
    → IsSorted s
    → find k s ≡ (
        if ltb (less_than k s) (length s) && bytes_eq (get_or s (less_than k s) d).k.bytes k.bytes
        then some (get_or s (less_than k s) d)
        else none)
unfolding counting find
find_less k [] d o = refl
find_less k (e ∷ s) d (p, o) = elim (lex_cases e.k.bytes k.bytes) [
  | inl y ↦
      rw (y, bytes_differ e.k.bytes k.bytes y)
        (find_less k s d o
          ∙ ap
              (λ t.
                if t && bytes_eq (get_or s (less_than k s) d).k.bytes k.bytes
                then some (get_or s (less_than k s) d)
                else none)
              (ltb-suc (less_than k s) (length s)))
  | inr (inl same) ↦
      let n : lex_lt e.k.bytes k.bytes ≡ false = rw same (lex_lt_irrefl k.bytes) in
      let y : bytes_eq e.k.bytes k.bytes ≡ true = rw same (bytes_eq_refl k.bytes) in
      let none_here = counting_none (λ e'. lex_lt e'.k.bytes k.bytes) s (none_less k e s n p) in
      ground (arith, none_here)
  | inr (inr above) ↦
      let n : lex_lt e.k.bytes k.bytes ≡ false = lex_lt_asymm k.bytes e.k.bytes above in
      let y = bytes_differ' e.k.bytes k.bytes above in
      let none_here = counting_none (λ e'. lex_lt e'.k.bytes k.bytes) s (none_less k e s n p) in
      ground (arith, none_here, find_above k e s above p)
]
