-- ===== src/Prelude/Lex.antt =====
-- The order of byte strings (`[u8]: Ord`): lexicographic, a prefix first.
use core_rs.Prelude.{
  ◌≡◌, refl, ◌↔◌, ◌⊎◌, inl, inr, arith, Bool, true, false, ◌&&◌, [], ◌∷◌, ltb, ◌==◌, if◌then◌else◌,
  Bool-cases,
}
use core_rs.Prelude.Bytes.{Bytes}

-- a < b
unfoldable pub lex_lt : Bytes → Bytes → Bool
lex_lt [] [] = false
lex_lt [] (y ∷ ys) = true
lex_lt (x ∷ xs) [] = false
lex_lt (x ∷ xs) (y ∷ ys) =
    let rest = lex_lt xs ys in if ltb x y then true else if ltb y x then false else rest

-- a == b
unfoldable pub bytes_eq : Bytes → Bytes → Bool
bytes_eq [] [] = true
bytes_eq [] (y ∷ ys) = false
bytes_eq (x ∷ xs) [] = false
bytes_eq (x ∷ xs) (y ∷ ys) = x == y && bytes_eq xs ys

pub bytes_eq→eq : (a b : Bytes) → bytes_eq a b ≡ true → a ≡ b
unfolding bytes_eq
bytes_eq→eq [] [] h = refl
bytes_eq→eq [] (y ∷ ys) h = cc
bytes_eq→eq (x ∷ xs) [] h = cc
bytes_eq→eq (x ∷ xs) (y ∷ ys) h = ground (arith, bytes_eq→eq xs ys)

pub bytes_eq_refl : (a : Bytes) → bytes_eq a a ≡ true
unfolding bytes_eq
bytes_eq_refl [] = refl
bytes_eq_refl (x ∷ xs) = ground (arith, bytes_eq_refl xs)

pub bytes_eq_iff : (a b : Bytes) → (bytes_eq a b ≡ true) ↔ (a ≡ b)
bytes_eq_iff a b = (bytes_eq→eq a b, λ e. rw e (bytes_eq_refl b))

pub lex_lt_irrefl : (a : Bytes) → lex_lt a a ≡ false
unfolding lex_lt
lex_lt_irrefl [] = refl
lex_lt_irrefl (x ∷ xs) = ground (arith, lex_lt_irrefl xs)

pub lex_lt_trans : (a b c : Bytes) → lex_lt a b ≡ true → lex_lt b c ≡ true → lex_lt a c ≡ true
unfolding lex_lt
lex_lt_trans [] [] c p q = cc
lex_lt_trans [] (y ∷ ys) [] p q = cc
lex_lt_trans [] (y ∷ ys) (z ∷ zs) p q = refl
lex_lt_trans (x ∷ xs) [] c p q = cc
lex_lt_trans (x ∷ xs) (y ∷ ys) [] p q = cc
lex_lt_trans (x ∷ xs) (y ∷ ys) (z ∷ zs) p q = ground (arith, lex_lt_trans xs ys zs)

pub lex_lt_asymm : (a b : Bytes) → lex_lt a b ≡ true → lex_lt b a ≡ false
unfolding lex_lt
lex_lt_asymm [] [] p = cc
lex_lt_asymm [] (y ∷ ys) p = refl
lex_lt_asymm (x ∷ xs) [] p = cc
lex_lt_asymm (x ∷ xs) (y ∷ ys) p = ground (arith, lex_lt_asymm xs ys)

pub lex_lt_connected : (a b : Bytes) → lex_lt a b ≡ false → lex_lt b a ≡ false → a ≡ b
unfolding lex_lt
lex_lt_connected [] [] p q = refl
lex_lt_connected [] (y ∷ ys) p q = cc
lex_lt_connected (x ∷ xs) [] p q = cc
lex_lt_connected (x ∷ xs) (y ∷ ys) p q = ground (arith, lex_lt_connected xs ys)

-- The three cases of a comparison.
pub lex_cases : (a b : Bytes) → (lex_lt a b ≡ true) ⊎ ((a ≡ b) ⊎ (lex_lt b a ≡ true))
lex_cases a b = elim (Bool-cases (lex_lt a b)) [
  | inl p ↦ inl p
  | inr p ↦ elim (Bool-cases (lex_lt b a)) [
    | inl q ↦ inr (inr q)
    | inr q ↦ inr (inl (lex_lt_connected a b p q))
  ]
]

-- The order on texts that are not less than one another is transitive too.
pub lex_lt_neg_trans :
    (x b a : Bytes) → lex_lt x b ≡ false → lex_lt b a ≡ false → lex_lt x a ≡ false
lex_lt_neg_trans x b a p q = elim (Bool-cases (lex_lt x a)) [
  | inl r ↦ elim (lex_cases b x) [
    | inl s ↦ absurd (cc (lex_lt_trans b x a s r))
    | inr (inl e) ↦ cc
    | inr (inr s) ↦ cc
  ]
  | inr r ↦ r
]
