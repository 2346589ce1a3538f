-- ===== src/Gc.antt =====
-- The mark of the collector (src/gc/collector.rs: mark_live and mark_from), over a mark set, over the
-- store's verified reads and over the links of an object (src/fstree/read.rs), which are parameters.
-- `canceled n` is what the caller's cancel answers at the n-th object. The loop has fuel; `none` is no
-- outcome of the code.
pub mod Visit
pub mod Closure
pub mod Exact
pub mod Fuel
use core_rs.Prelude.{
  ℕ, zero, suc, ◌+◌, ◌%◌, ◌/◌, ◌≡◌, Bool, true, false, not, ◌&&◌, ◌||◌, Option, none, some, List,
  [], ◌∷◌, ◌++◌, reverse, ◌==◌, if◌then◌else◌, Result, ok, err, ◌>>=◌, map_err,
}
use core_rs.Prelude.Bytes.{Bytes}
use core_rs.Prelude.Lex.{bytes_eq}
use core_rs.Key.{Key, header, is_git}
use core_rs.Gitobj.Links.{Link}

pub data Error (E L : Type 0) : Type 0 where
  canceled_mark : Error E L
  missing_from_store : Key → Error E L
  objects : E → Error E L
  children : L → Error E L

-- matches!(k.type_(), Type::Blob | Type::XattrSet)
abbrev pub is_leaf_key : Key → Bool
is_leaf_key k = header k / 16 == 0 || header k / 16 == 4

-- fstree::link_to
abbrev pub link_to : Key → Link
link_to k = record { key = k; leaf = is_leaf_key k }

abbrev pub same_key : Key → Key → Bool
same_key j k = bytes_eq j.bytes k.bytes

-- What the collector asks of a mark set. The snapshot that a set was made of says which keys are
-- `present`; `marked` and `walked` are what the set has recorded.
pub record MarkInterface (M : Type 0) : Type 0 where
  pub mark : Key → M → (Bool × Bool) × M
  pub mark_walked : Key → M → Bool × M
  pub present : Key → Bool
  pub marked : M → Key → Bool
  pub walked : M → Key → Bool
  pub mark-answer : (k : Key) (m : M) → (mark k m).0 ≡ (present k && not (marked m k), present k)
  pub mark-marked :
      (k : Key) (m : M) (j : Key)
      → marked (mark k m).1 j ≡ (marked m j || (same_key j k && present k))
  pub mark-walked : (k : Key) (m : M) (j : Key) → walked (mark k m).1 j ≡ walked m j
  pub mark_walked-answer : (k : Key) (m : M) → (mark_walked k m).0 ≡ (present k && not (walked m k))
  pub mark_walked-marked : (k : Key) (m : M) (j : Key) → marked (mark_walked k m).1 j ≡ marked m j
  pub mark_walked-walked :
      (k : Key) (m : M) (j : Key)
      → walked (mark_walked k m).1 j ≡ (walked m j || (same_key j k && present k))

module _ {M E L : Type 0} (set : MarkInterface M) (get_verified : Key → Result E Bytes)
    (links : Key → Bytes → Result L (List Link)) where
  -- mark_from behind the marks of a link that is no leaf
  unfoldable pub follow : Key → Bool × M → Result (Error E L) (List Link × M)
  follow k (newly, m) = if not newly then ok ([], m) else (do
    data_bytes ← map_err (get_verified k) objects
    ls ← map_err (links k data_bytes) children
    ok (ls, m))

  unfoldable pub marked_link : Link → (Bool × Bool) × M → Result (Error E L) (List Link × M)
  marked_link l ((newly, present), m) =
      if not present
      then err (missing_from_store l.key)
      else if l.leaf
      then ok ([], m)
      else if is_git l.key
      then follow l.key (set.mark_walked l.key m)
      else follow l.key (newly, m)

  -- A round of the loop of mark_from: the links to push, and the set.
  unfoldable pub visit : M → Link → Result (Error E L) (List Link × M)
  visit m l = marked_link l (set.mark l.key m)

module _ {M E L : Type 0} (set : MarkInterface M) (get_verified : Key → Result E Bytes)
    (links : Key → Bytes → Result L (List Link)) (canceled : ℕ → Bool) where
  unfoldable pub walk_on :
      (M → List Link → Option (Result (Error E L) M))
      → List Link
      → Result (Error E L) (List Link × M)
      → Option (Result (Error E L) M)
  walk_on go stack (err e) = some (err e)
  walk_on go stack (ok (ls, m)) = go m (reverse ls ++ stack)

  -- The loop of mark_from at its n-th object; the top of the stack comes first.
  unfoldable pub walk : ℕ → ℕ → M → List Link → Option (Result (Error E L) M)
  walk zero n m stack = none
  walk (suc fuel) n m [] = some (ok m)
  walk (suc fuel) n m (l ∷ stack) =
      let rest = walk_on (walk fuel (n + 1)) stack (visit set get_verified links m l) in
      if n % 1024 == 0 && canceled n then some (err canceled_mark) else rest

  unfoldable pub mark_from : ℕ → M → Key → Option (Result (Error E L) M)
  mark_from fuel m root = walk fuel 0 m (link_to root ∷ [])

  unfoldable pub mark_on :
      (M → Option (Result (Error E L) M))
      → Option (Result (Error E L) M)
      → Option (Result (Error E L) M)
  mark_on go none = none
  mark_on go (some (err e)) = some (err e)
  mark_on go (some (ok m)) = go m

  -- The loop of mark_live over the roots.
  unfoldable pub mark_live : ℕ → M → List Key → Option (Result (Error E L) M)
  mark_live fuel m [] = some (ok m)
  mark_live fuel m (root ∷ roots) = mark_on (λ m'. mark_live fuel m' roots) (mark_from fuel m root)
