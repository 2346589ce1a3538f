-- ===== src/Footer/Sorted.antt =====
-- The rows of an index section are the entries in the order of their keys.
use core_rs.Prelude.{
  suc, ◌≡◌, ◌≢◌, refl, sym, ap, ◌∙◌, arith, true, Option, none, some, List, [], ◌∷◌, length, All,
  Bool-cases, inl, inr, if◌then◌else◌,
}
use core_rs.Prelude.Lex.{bytes_eq, lex_lt_connected, lex_lt_trans, bytes_eq→eq}
use core_rs.Key.{Key}
use core_rs.Footer.{IndexEntry, entry_lt, insert_entry, sort_entries}

-- Each key less than all that follow it.
abbrev pub IsSorted : List IndexEntry → Type 0
IsSorted [] = Unit {0}
IsSorted (a ∷ l) = All (λ b. entry_lt a b ≡ true) l × IsSorted l

-- No key twice.
abbrev pub IsDistinct : List IndexEntry → Type 0
IsDistinct [] = Unit {0}
IsDistinct (a ∷ l) = All (λ b. a.k.bytes ≢ b.k.bytes) l × IsDistinct l

-- The entry of a key.
unfoldable pub find : Key → List IndexEntry → Option IndexEntry
find k [] = none
find k (e ∷ es) = let rest = find k es in if bytes_eq e.k.bytes k.bytes then some e else rest

All-insert_entry :
    (P : IndexEntry → Type 0) (a : IndexEntry) (l : List IndexEntry)
    → P a
    → All P l
    → All P (insert_entry a l)
unfolding insert_entry
All-insert_entry P a [] pa p = (pa, tt)
All-insert_entry P a (b ∷ l) pa (pb, p) = elim (Bool-cases (entry_lt b a)) [
  | inl q ↦ rw q (pb, All-insert_entry P a l pa p)
  | inr q ↦ rw q (pa, (pb, p))
]

pub All-sort_entries :
    (P : IndexEntry → Type 0) (l : List IndexEntry) → All P l → All P (sort_entries l)
unfolding sort_entries
All-sort_entries P [] p = tt
All-sort_entries P (a ∷ l) (pa, p) =
    All-insert_entry P a (sort_entries l) pa (All-sort_entries P l p)

length-insert_entry :
    (a : IndexEntry) (l : List IndexEntry) → length (insert_entry a l) ≡ suc (length l)
unfolding insert_entry
length-insert_entry a [] = refl
length-insert_entry a (b ∷ l) = ground (arith, length-insert_entry a l)

pub length-sort_entries : (l : List IndexEntry) → length (sort_entries l) ≡ length l
unfolding sort_entries
length-sort_entries [] = refl
length-sort_entries (a ∷ l) =
    length-insert_entry a (sort_entries l) ∙ ap suc (length-sort_entries l)

All-entry_lt_trans :
    (a b : IndexEntry) (l : List IndexEntry)
    → entry_lt a b ≡ true
    → All (λ x. entry_lt b x ≡ true) l
    → All (λ x. entry_lt a x ≡ true) l
All-entry_lt_trans a b [] h p = tt
All-entry_lt_trans a b (x ∷ l) h (px, p) =
    (lex_lt_trans a.k.bytes b.k.bytes x.k.bytes h px, All-entry_lt_trans a b l h p)

insert_entry-IsSorted :
    (a : IndexEntry) (l : List IndexEntry)
    → All (λ b. a.k.bytes ≢ b.k.bytes) l
    → IsSorted l
    → IsSorted (insert_entry a l)
unfolding insert_entry
insert_entry-IsSorted a [] d s = (tt, tt)
insert_entry-IsSorted a (b ∷ l) (ab, d) (p, s) = elim (Bool-cases (entry_lt b a)) [
  | inl q ↦
      rw q (All-insert_entry (λ x. entry_lt b x ≡ true) a l q p, insert_entry-IsSorted a l d s)
  | inr q ↦ elim (Bool-cases (entry_lt a b)) [
    | inl r ↦ rw q ((r, All-entry_lt_trans a b l r p), (p, s))
    | inr r ↦ absurd (ab (lex_lt_connected a.k.bytes b.k.bytes r q))
  ]
]

pub sort_entries-IsSorted : (l : List IndexEntry) → IsDistinct l → IsSorted (sort_entries l)
unfolding sort_entries
sort_entries-IsSorted [] d = tt
sort_entries-IsSorted (a ∷ l) (ad, d) =
    insert_entry-IsSorted a (sort_entries l) (All-sort_entries (λ b. a.k.bytes ≢ b.k.bytes) l ad)
      (sort_entries-IsSorted l d)

find-insert_entry :
    (k : Key) (a : IndexEntry) (l : List IndexEntry)
    → All (λ b. a.k.bytes ≢ b.k.bytes) l
    → find k (insert_entry a l) ≡ find k (a ∷ l)
unfolding find insert_entry
find-insert_entry k a [] d = refl
find-insert_entry k a (b ∷ l) (ab, d) = elim (Bool-cases (entry_lt b a)) [
  | inr q ↦ rw q refl
  | inl q ↦ elim (Bool-cases (bytes_eq a.k.bytes k.bytes)) [
    | inr n ↦ ground (arith, find-insert_entry k a l d)
    | inl y ↦ elim (Bool-cases (bytes_eq b.k.bytes k.bytes)) [
      | inl z ↦
          absurd (ab (bytes_eq→eq a.k.bytes k.bytes y ∙ sym (bytes_eq→eq b.k.bytes k.bytes z)))
      | inr n ↦ ground (arith, find-insert_entry k a l d)
    ]
  ]
]

pub find-sort_entries :
    (k : Key) (l : List IndexEntry) → IsDistinct l → find k (sort_entries l) ≡ find k l
unfolding find sort_entries
find-sort_entries k [] d = refl
find-sort_entries k (a ∷ l) (ad, d) =
    find-insert_entry k a (sort_entries l) (All-sort_entries (λ b. a.k.bytes ≢ b.k.bytes) l ad)
    ∙ ap (λ r. if bytes_eq a.k.bytes k.bytes then some a else r) (find-sort_entries k l d)
