-- ===== src/Cbor/Xattrs/Sorting.antt =====
-- The names in the order of their encodings: the same names, and in order.
use core_rs.Prelude.{
  suc, ◌≡◌, refl, ap, ◌∙◌, arith, Bool, false, ◌||◌, List, [], ◌∷◌, length, All, Bool-cases, inl,
  inr,
}
use core_rs.Prelude.Bytes.{Bytes}
use core_rs.Prelude.Lex.{bytes_eq, lex_lt_asymm, lex_lt_neg_trans}
use core_rs.Cbor.{append_bstr}
use core_rs.Cbor.Xattrs.{name_lt, insert_name, sort_names}

abbrev pub contains : Bytes → List Bytes → Bool
contains k [] = false
contains k (a ∷ l) = bytes_eq a k || contains k l

contains-insert_name :
    (k a : Bytes) (l : List Bytes) → contains k (insert_name a l) ≡ (bytes_eq a k || contains k l)
unfolding insert_name
contains-insert_name k a [] = refl
contains-insert_name k a (b ∷ l) = ground (arith, contains-insert_name k a l)

pub contains-sort_names : (k : Bytes) (l : List Bytes) → contains k (sort_names l) ≡ contains k l
unfolding sort_names
contains-sort_names k [] = refl
contains-sort_names k (a ∷ l) =
    contains-insert_name k a (sort_names l) ∙ ap (λ b. bytes_eq a k || b) (contains-sort_names k l)

length-insert_name : (a : Bytes) (l : List Bytes) → length (insert_name a l) ≡ suc (length l)
unfolding insert_name
length-insert_name a [] = refl
length-insert_name a (b ∷ l) = ground (arith, length-insert_name a l)

pub length-sort_names : (l : List Bytes) → length (sort_names l) ≡ length l
unfolding sort_names
length-sort_names [] = refl
length-sort_names (a ∷ l) = length-insert_name a (sort_names l) ∙ ap suc (length-sort_names l)

-- No name before one whose encoding is less.
abbrev pub IsOrdered : List Bytes → Type 0
IsOrdered [] = Unit {0}
IsOrdered (a ∷ l) = All (λ b. name_lt b a ≡ false) l × IsOrdered l

All-insert_name :
    (c a : Bytes) (l : List Bytes)
    → name_lt a c ≡ false
    → All (λ b. name_lt b c ≡ false) l
    → All (λ b. name_lt b c ≡ false) (insert_name a l)
unfolding insert_name
All-insert_name c a [] h p = (h, tt)
All-insert_name c a (b ∷ l) h (pb, p) = elim (Bool-cases (name_lt b a)) [
  | inl q ↦ rw q (pb, All-insert_name c a l h p)
  | inr q ↦ rw q (h, (pb, p))
]

All-not_lt :
    (a b : Bytes) (l : List Bytes)
    → name_lt b a ≡ false
    → All (λ x. name_lt x b ≡ false) l
    → All (λ x. name_lt x a ≡ false) l
All-not_lt a b [] h p = tt
All-not_lt a b (x ∷ l) h (px, p) = (
  lex_lt_neg_trans (append_bstr [] x) (append_bstr [] b) (append_bstr [] a) px h,
  All-not_lt a b l h p,
)

insert_name-IsOrdered : (a : Bytes) (l : List Bytes) → IsOrdered l → IsOrdered (insert_name a l)
unfolding insert_name
insert_name-IsOrdered a [] o = (tt, tt)
insert_name-IsOrdered a (b ∷ l) (p, o) = elim (Bool-cases (name_lt b a)) [
  | inl q ↦ rw q (
    All-insert_name b a l (lex_lt_asymm (append_bstr [] b) (append_bstr [] a) q) p,
    insert_name-IsOrdered a l o,
  )
  | inr q ↦ rw q ((q, All-not_lt a b l q p), (p, o))
]

-- The names that `encode_xattrs` writes stand in the order of their encodings, and they are the
-- map's names, as many as it has.
pub sort_names_lem :
    (l : List Bytes)
    → IsOrdered (sort_names l)
      × (length (sort_names l) ≡ length l)
      × ((k : Bytes) → contains k (sort_names l) ≡ contains k l)
sort_names_lem l = (ordered l, length-sort_names l, λ k. contains-sort_names k l)
  where
    ordered : (l : List Bytes) → IsOrdered (sort_names l)
    ordered = elim [
      | [] ↦ unfold sort_names in tt
      | a ∷ (l → ih) ↦ unfold sort_names in insert_name-IsOrdered a (sort_names l) ih
    ]
