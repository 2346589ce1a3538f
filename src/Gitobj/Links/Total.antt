-- ===== src/Gitobj/Links/Total.antt =====
-- The walks of src/gitobj.rs end on every payload: no loop runs out of fuel.
use core_rs.Prelude.{
  ℕ, zero, suc, ◌+◌, ◌≤◌, ◌<◌, ◌≡◌, refl, sym, ap, ◌∙◌, arith, Bool, true, false, ◌&&◌, ◌||◌,
  Option, none, some, List, [], ◌∷◌, ◌++◌, length, drop, ltb, ◌==◌, ok, err, ok_or, ◌>>=◌, Result,
  Result-cases, Bool-cases, inl, inr, if◌then◌else◌, not, length-drop, Option-cases, length-append,
  length-take,
}
use core_rs.Prelude.Bytes.{Bytes}
use core_rs.Key.{Key}
use core_rs.Gitobj.{Error, Kind, blob, tree, commit, tag, parse, position}
use core_rs.Gitobj.Links.{
  Link, Links, id_line, id_behind, strip_prefix, hex_bytes, parent_loop, commit_links, has_parent,
  tree_entry, entry_mode, entry_name, entry_id, tree_loop, tree_links, kind_links, links,
  parent_word, mode_loop, tag_links,
}

-- A walk that answers: links, or an error.
abbrev pub Answers : Links → Type 0
Answers w = (r : Result Error (List Link)) × (w ≡ some r)

strip_prefix-shorter :
    (b p : Bytes) (rest : Bytes) → strip_prefix b p ≡ some rest → length rest ≤ length b
unfolding strip_prefix
strip_prefix-shorter b [] rest h = ground arith
strip_prefix-shorter [] (x ∷ p) rest h = cc
strip_prefix-shorter (y ∷ b) (x ∷ p) rest h = ground (arith, strip_prefix-shorter b p rest)

id_behind-shorter :
    (p : Bytes) (o : Option Bytes) (bound : ℕ) (k : Key) (rest : Bytes)
    → ((r : Bytes) → o ≡ some r → length r ≤ bound)
    → id_behind p o ≡ ok (k, rest)
    → length rest < bound
unfolding id_behind
id_behind-shorter p none bound k rest f h = cc
id_behind-shorter p (some r) bound k rest f h = ground (arith, f r refl, length-drop 41 r)

id_line-shorter :
    (b p : Bytes) (k : Key) (rest : Bytes) → id_line b p ≡ ok (k, rest) → length rest < length b
unfolding id_line
id_line-shorter b p k rest h =
    id_behind-shorter p (strip_prefix b p) (length b) k rest (λ r. strip_prefix-shorter b p r) h

parent_loop-Answers :
    (fuel : ℕ) (out : List Link) (rest : Bytes)
    → length rest < fuel
    → Answers (parent_loop fuel out rest)
unfolding parent_loop
parent_loop-Answers zero out rest h = absurd (omega arith)
parent_loop-Answers (suc fuel) out rest h = elim (Bool-cases (has_parent rest)) [
  | inl p ↦ elim (Result-cases (id_line rest parent_word)) [
    | inl ((k, after), e) ↦
        let (r, f) =
          parent_loop-Answers fuel (out ++ record { key = k; leaf = false } ∷ []) after
            (omega (arith, id_line-shorter rest parent_word k after e)) in
        (r, ground arith)
    | inr (x, e) ↦ (err x, ground arith)
  ]
  | inr p ↦ (ok out, ground arith)
]

commit_links-Answers : (b : Bytes) → Answers (commit_links b)
unfolding commit_links
commit_links-Answers b = elim (Result-cases (id_line b core_rs.Gitobj.Links.tree_word)) [
  | inl ((t, rest), e) ↦
      let (r, f) =
        parent_loop-Answers (length rest + 1) (record { key = t; leaf = false } ∷ []) rest
          (omega arith) in
      (r, ground arith)
  | inr (x, e) ↦ (err x, ground arith)
]

entry_id-shorter :
    (mode : ℕ) (b : Bytes) (l : List Link) (rest : Bytes)
    → entry_id mode b ≡ ok (l, rest)
    → length rest < length b
unfolding entry_id
entry_id-shorter mode b l rest h = ground (arith, length-drop 20 b)

entry_name-shorter :
    (mode : ℕ) (b : Bytes) (o : Option ℕ) (l : List Link) (rest : Bytes)
    → entry_name mode b o ≡ ok (l, rest)
    → length rest < length b
unfolding entry_name
entry_name-shorter mode b none l rest h = cc
entry_name-shorter mode b (some nul) l rest h =
    ground (arith, entry_id-shorter mode (drop (nul + 1) b) l rest, length-drop (nul + 1) b)

entry_mode-shorter :
    (b : Bytes) (o : Option ℕ) (l : List Link) (rest : Bytes)
    → entry_mode b o ≡ ok (l, rest)
    → length rest < length b
unfolding entry_mode
entry_mode-shorter b none l rest h = cc
entry_mode-shorter b (some sp) l rest h =
    elim (Option-cases (mode_loop 0 (core_rs.Prelude.take sp b))) [
      | inl e ↦ absurd (ground arith)
      | inr (m, e) ↦
          let b' = drop (sp + 1) b in
          ground (arith, entry_name-shorter m b' (position 0 b') l rest, length-drop (sp + 1) b)
    ]

tree_loop-Answers :
    (fuel : ℕ) (out : List Link) (b : Bytes) → length b < fuel → Answers (tree_loop fuel out b)
unfolding tree_loop
tree_loop-Answers zero out b h = absurd (omega arith)
tree_loop-Answers (suc fuel) out [] h = (ok out, refl)
tree_loop-Answers (suc fuel) out (x ∷ b) h = elim (Result-cases (tree_entry (x ∷ b))) [
  | inl ((l, rest), e) ↦
      let shorter =
        entry_mode-shorter (x ∷ b) (position 32 (x ∷ b)) l rest (unfold tree_entry in e) in
      let (r, f) = tree_loop-Answers fuel (out ++ l) rest (omega (arith, shorter)) in
      (r, ground arith)
  | inr (y, e) ↦ (err y, ground arith)
]

kind_links-Answers : (k : Kind) (content : Bytes) → Answers (kind_links k content)
unfolding kind_links tree_links
kind_links-Answers blob content = (ok [], refl)
kind_links-Answers tree content = tree_loop-Answers (length content + 1) [] content (omega arith)
kind_links-Answers commit content = commit_links-Answers content
kind_links-Answers tag content = (tag_links content, refl)

-- On every payload `links` answers with links or with an error: its loops end.
pub links-Answers : (b : Bytes) → Answers (links b)
unfolding links
links-Answers b = elim (Result-cases (parse b)) [
  | inl ((k, content), e) ↦ let (r, f) = kind_links-Answers k content in (r, ground arith)
  | inr (x, e) ↦ (err x, ground arith)
]
