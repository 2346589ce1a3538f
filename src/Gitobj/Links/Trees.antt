-- ===== src/Gitobj/Links/Trees.antt =====
-- The links of a tree (`tree_links` of src/gitobj.rs).
use core_rs.Prelude.{
  ℕ, zero, suc, ◌+◌, ◌-◌, ◌*◌, ◌/◌, ◌%◌, ◌^◌, ◌≤◌, ◌<◌, ◌≡◌, ◌≢◌, refl, sym, ap, ◌∙◌, arith, true,
  false, ◌||◌, some, List, [], ◌∷◌, ◌++◌, append-nil, append_assoc, map, concat, length, ltb, ◌==◌,
  if◌then◌else◌, ok, All, length-append, take-append, drop-append, bit_or,
}
use core_rs.Prelude.Bytes.{Bytes}
use core_rs.Prelude.Bits.{or_octal, and_type_mask}
use core_rs.Key.{new_git_sha1}
use core_rs.Gitobj.Frame.{position-append, split_take, split_drop}
use core_rs.Gitobj.Links.{
  Link, mode_loop, entry_link, entry_id, entry_name, entry_mode, tree_entry, tree_loop, tree_links,
}

pub record Entry : Type 0 where
  pub mode : Bytes
  pub name : Bytes
  pub id : Bytes

pub record IsEntry (e : Entry) : Type 0 where
  pub some_mode : 1 ≤ length e.mode
  pub octal : All (λ c. (48 ≤ c) × (c ≤ 55)) e.mode
  pub some_name : 1 ≤ length e.name
  pub no_nul : All (λ c. c ≢ 0) e.name
  pub id_len : length e.id ≡ 20

-- <octal mode> <name>\0<20 bytes>
abbrev pub entry_bytes : Entry → Bytes
entry_bytes e = e.mode ++ (b' ' ∷ (e.name ++ (0 ∷ e.id)))

-- The number that octal digits write, of any length.
unfoldable pub octal_value : ℕ → Bytes → ℕ
octal_value acc [] = acc
octal_value acc (c ∷ cs) = octal_value (acc * 8 + (c - 48)) cs

-- The bits 12 to 15 of the mode: 4 a directory, 8 a file and 10 a symlink, both blobs; the rest are
-- no links.
abbrev pub links_of : Entry → List Link
links_of e =
    let t = octal_value 0 e.mode / 4096 % 16 in
    if t == 4
    then record { key = new_git_sha1 e.id; leaf = false } ∷ []
    else if t == 8 || t == 10
    then record { key = new_git_sha1 e.id; leaf = true } ∷ []
    else []

-- The u32 of the code is the written number, less its high bits.
mode_loop-octal :
    (acc mode : ℕ) (cs : Bytes)
    → All (λ c. (48 ≤ c) × (c ≤ 55)) cs
    → mode ≡ acc % 2 ^ 32
    → (m : ℕ) × (mode_loop mode cs ≡ some m) × (m ≡ octal_value acc cs % 2 ^ 32)
unfolding mode_loop octal_value
mode_loop-octal acc mode [] a e = (mode, refl, e)
mode_loop-octal acc mode (c ∷ cs) ((lo, hi), a) e =
    let split : mode * 8 % 2 ^ 32 ≡ mode % 2 ^ 29 * 8 = omega arith in
    let next : bit_or (mode * 8 % 2 ^ 32) (c - 48) ≡ (acc * 8 + (c - 48)) % 2 ^ 32 =
      rw split (or_octal (mode % 2 ^ 29) (c - 48) (omega arith) ∙ omega arith) in
    let (m, f, g) =
      mode_loop-octal (acc * 8 + (c - 48)) (bit_or (mode * 8 % 2 ^ 32) (c - 48)) cs a next in
    (m, ground arith, g)

entry_link-links_of :
    (e : Entry) (m : ℕ)
    → m ≡ octal_value 0 e.mode % 2 ^ 32
    → entry_link m (new_git_sha1 e.id) ≡ links_of e
unfolding entry_link
entry_link-links_of e m h =
    rw and_type_mask
      (let same : m / 4096 % 16 ≡ octal_value 0 e.mode / 4096 % 16 = omega arith in ground arith)

mode-no_space : (cs : Bytes) → All (λ c. (48 ≤ c) × (c ≤ 55)) cs → All (λ c. c ≢ 32) cs
mode-no_space [] a = tt
mode-no_space (c ∷ cs) (h, a) = (omega arith, mode-no_space cs a)

regroup :
    (e : Entry) (rest : Bytes)
    → entry_bytes e ++ rest ≡ e.mode ++ (b' ' ∷ (e.name ++ (0 ∷ (e.id ++ rest))))
regroup e rest =
    append_assoc e.mode (b' ' ∷ (e.name ++ (0 ∷ e.id))) rest
    ∙ ap (λ r. e.mode ++ (b' ' ∷ r)) (append_assoc e.name (0 ∷ e.id) rest)

tree_entry-entry_bytes :
    (e : Entry) (rest : Bytes)
    → IsEntry e
    → tree_entry (entry_bytes e ++ rest) ≡ ok (links_of e, rest)
unfolding tree_entry entry_mode entry_name entry_id
tree_entry-entry_bytes e rest v =
    let (m, f, g) = mode_loop-octal 0 0 e.mode v.octal (omega arith) in
    let some_mode : (length e.mode == 0) ≡ false = ground (arith, v.some_mode) in
    let some_name : (length e.name == 0) ≡ false = ground (arith, v.some_name) in
    let behind = e.name ++ (0 ∷ (e.id ++ rest)) in
    let long : ltb (length (e.id ++ rest)) 20 ≡ false =
      ground (arith, length-append e.id rest, v.id_len) in
    rw
      (
        regroup e rest,
        position-append 32 e.mode behind (mode-no_space e.mode v.octal),
        some_mode,
        split_take (length e.mode) 32 e.mode behind refl,
        split_drop 32 e.mode behind,
        f,
        position-append 0 e.name (e.id ++ rest) v.no_nul,
        some_name,
        split_drop 0 e.name (e.id ++ rest),
        long,
        take-append 20 e.id rest v.id_len,
        drop-append 20 e.id rest v.id_len,
      )
      (ap (λ (l : List Link). ok (l, rest)) (entry_link-links_of e m g))

tree_loop_step :
    (fuel : ℕ) (out l : List Link) (b rest : Bytes)
    → 1 ≤ length b
    → tree_entry b ≡ ok (l, rest)
    → tree_loop (suc fuel) out b ≡ tree_loop fuel (out ++ l) rest
unfolding tree_loop
tree_loop_step fuel out l [] rest pos e = absurd (omega arith)
tree_loop_step fuel out l (x ∷ b) rest pos e = ground arith

abbrev pub tree_bytes : List Entry → Bytes
tree_bytes es = concat (map entry_bytes es)

tree_loop-tree_bytes :
    (es : List Entry) (fuel : ℕ) (out : List Link)
    → All IsEntry es
    → length (tree_bytes es) < fuel
    → tree_loop fuel out (tree_bytes es) ≡ some (ok (out ++ concat (map links_of es)))
tree_loop-tree_bytes es zero out a h = absurd (omega arith)
tree_loop-tree_bytes [] (suc fuel) out a h =
    unfold tree_loop in ap (λ (l : List Link). some (ok l)) (sym (append-nil out))
tree_loop-tree_bytes (e ∷ es) (suc fuel) out (v, a) h =
    let rest = tree_bytes es in
    let len = length-append (entry_bytes e) rest in
    let len' = length-append e.mode (b' ' ∷ (e.name ++ (0 ∷ e.id))) in
    tree_loop_step fuel out (links_of e) (entry_bytes e ++ rest) rest (omega (arith, len, len'))
      (tree_entry-entry_bytes e rest v)
    ∙ tree_loop-tree_bytes es fuel (out ++ links_of e) a (omega (arith, len, len', h))
    ∙ ap (λ (l : List Link). some (ok l)) (append_assoc out (links_of e) (concat (map links_of es)))

-- From a tree of well-formed entries the links are those of the entries, in their order: a directory
-- is walked on, a file or a symlink is a leaf, a submodule and anything else is no link, whatever the
-- rest of the mode, its length included.
pub tree_links_lem :
    (es : List Entry)
    → All IsEntry es
    → tree_links (tree_bytes es) ≡ some (ok (concat (map links_of es)))
unfolding tree_links
tree_links_lem es a = tree_loop-tree_bytes es (length (tree_bytes es) + 1) [] a (omega arith)
