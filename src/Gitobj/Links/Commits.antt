-- ===== src/Gitobj/Links/Commits.antt =====
-- The links of a commit (`commit_links` of src/gitobj.rs).
use core_rs.Prelude.{
  ℕ, zero, suc, ◌+◌, ◌<◌, ◌≡◌, sym, ap, ◌∙◌, arith, true, false, some, List, [], ◌∷◌, ◌++◌,
  append-nil, append_assoc, map, concat, length, ltb, ok, All, length-append,
}
use core_rs.Prelude.Bytes.{Bytes}
use core_rs.Key.{Key, IsArray, new_git_sha1}
use core_rs.Gitobj.Links.{
  Link, has_parent, parent_loop, commit_links, tree_word, parent_word, starts_with, id_line,
}
use core_rs.Gitobj.Links.Ids.{
  id_text, id_line-id_text, length-id_text, strip_prefix-append, id_text-append, to_hex,
}

abbrev pub link_to : Bytes → Link
link_to sum = record { key = new_git_sha1 sum; leaf = false }

-- The parent lines of a commit.
abbrev pub parent_lines : List Bytes → Bytes
parent_lines ps = concat (map (id_text parent_word) ps)

has_parent-id_text :
    (sum rest : Bytes) → IsArray 20 sum → has_parent (id_text parent_word sum ++ rest) ≡ true
unfolding has_parent
has_parent-id_text sum rest a =
    let line = id_text parent_word sum in
    let long : ltb 47 (length (line ++ rest)) ≡ true =
      ground (arith, length-append line rest, length-id_text parent_word sum, a.len) in
    rw (long, starts)
  where
    starts : starts_with (id_text parent_word sum ++ rest) parent_word ≡ true
    starts =
        unfold starts_with in
        rw (id_text-append parent_word sum rest)
          (ground (arith, strip_prefix-append parent_word (to_hex sum ++ 10 ∷ rest)))

-- The loop at a parent line, and at its end.
parent_loop_step :
    (fuel : ℕ) (out : List Link) (rest after : Bytes) (parent : Key)
    → has_parent rest ≡ true
    → id_line rest parent_word ≡ ok (parent, after)
    → parent_loop (suc fuel) out rest
      ≡ parent_loop fuel (out ++ record { key = parent; leaf = false } ∷ []) after
unfolding parent_loop
parent_loop_step fuel out rest after parent e f = ground arith

parent_loop_end :
    (fuel : ℕ) (out : List Link) (rest : Bytes)
    → has_parent rest ≡ false
    → parent_loop (suc fuel) out rest ≡ some (ok out)
unfolding parent_loop
parent_loop_end fuel out rest e = ground arith

parent_loop-parent_lines :
    (ps : List Bytes) (fuel : ℕ) (out : List Link) (tail : Bytes)
    → All (IsArray 20) ps
    → has_parent tail ≡ false
    → length (parent_lines ps ++ tail) < fuel
    → parent_loop fuel out (parent_lines ps ++ tail) ≡ some (ok (out ++ map link_to ps))
parent_loop-parent_lines ps zero out tail a t h = absurd (omega arith)
parent_loop-parent_lines [] (suc fuel) out tail a t h =
    parent_loop_end fuel out tail t ∙ ap (λ (l : List Link). some (ok l)) (sym (append-nil out))
parent_loop-parent_lines (p ∷ ps) (suc fuel) out tail (ap', a) t h =
    let line = id_text parent_word p in
    let rest = parent_lines ps ++ tail in
    let split : (line ++ parent_lines ps) ++ tail ≡ line ++ rest =
      append_assoc line (parent_lines ps) tail in
    let shorter : length rest < fuel =
      omega (arith, ap length split, length-append line rest, length-id_text parent_word p, h) in
    ap (parent_loop (suc fuel) out) split
    ∙ parent_loop_step fuel out (line ++ rest) rest (new_git_sha1 p) (has_parent-id_text p rest ap')
        (id_line-id_text parent_word p rest ap')
    ∙ parent_loop-parent_lines ps fuel (out ++ link_to p ∷ []) tail a t shorter
    ∙ ap (λ (l : List Link). some (ok l)) (append_assoc out (link_to p ∷ []) (map link_to ps))

-- From a commit whose tree line and parent lines are followed by anything that is no parent line, the
-- links are the tree and then the parents in their order; what follows is not looked at.
pub commit_links_lem :
    (t : Bytes) (ps : List Bytes) (tail : Bytes)
    → IsArray 20 t
    → All (IsArray 20) ps
    → has_parent tail ≡ false
    → commit_links (id_text tree_word t ++ (parent_lines ps ++ tail))
      ≡ some (ok (link_to t ∷ map link_to ps))
unfolding commit_links
commit_links_lem t ps tail at aps end = ground (
  arith,
  id_line-id_text tree_word t (parent_lines ps ++ tail) at,
  parent_loop-parent_lines ps (length (parent_lines ps ++ tail) + 1) (link_to t ∷ []) tail aps end
      (omega arith),
)
