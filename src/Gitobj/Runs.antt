-- ===== src/Gitobj/Runs.antt =====
-- Runs of src/gitobj.rs on concrete inputs, and the theorems at them.
use core_rs.Prelude.{
  ◌≡◌, ◌↔◌, refl, arith, false, Option, some, [], ◌∷◌, ◌++◌, map, concat, replicate, ok, err,
}
use core_rs.Prelude.Bytes.{Bytes}
use core_rs.Prelude.Lex.{bytes_eq}
use core_rs.Key.{IsArray}
use core_rs.Gitobj.{
  blob, malformed, wrong_size, encode, parse, parse_spaced, parse_kind, parse_sized, parse_content,
  parse_size, size_loop, kind_of, position, to_string, decimal,
}
use core_rs.Gitobj.Decimal.{parse_size_exact}
use core_rs.Gitobj.Frame.{parse_frame_exact}
use core_rs.Gitobj.Links.{
  tree_word, links, commit_links, tree_links, has_parent, starts_with, strip_prefix,
}
use core_rs.Gitobj.Links.Ids.{id_text}
use core_rs.Gitobj.Links.Commits.{link_to, parent_lines, commit_links_lem}
use core_rs.Gitobj.Links.Trees.{Entry, IsEntry, tree_bytes, links_of, tree_links_lem}
use core_rs.Gitobj.Links.Total.{Answers, links-Answers}

-- "blob 2\0hi"
abbrev hi_frame : Bytes
hi_frame = b'b' ∷ b'l' ∷ b'o' ∷ b'b' ∷ b' ' ∷ b'2' ∷ 0 ∷ b'h' ∷ b'i' ∷ []

hi_parses : parse hi_frame ≡ ok (blob, b'h' ∷ b'i' ∷ [])
unfolding parse parse_spaced parse_kind parse_sized parse_content parse_size size_loop kind_of
    position bytes_eq
hi_parses = refl

short_content :
    parse (b'b' ∷ b'l' ∷ b'o' ∷ b'b' ∷ b' ' ∷ b'2' ∷ 0 ∷ b'h' ∷ [])
    ≡ err (malformed (wrong_size 2 1))
unfolding parse parse_spaced parse_kind parse_sized parse_content parse_size size_loop kind_of
    position bytes_eq
short_content = refl

hi_frame_encodes : encode blob (b'h' ∷ b'i' ∷ []) ≡ hi_frame
unfolding encode to_string decimal
hi_frame_encodes = refl

parse_size_exact_example :
    (parse_size (b'4' ∷ b'2' ∷ []) ≡ some 42) ↔ (b'4' ∷ b'2' ∷ [] ≡ to_string 42)
parse_size_exact_example = parse_size_exact 42 (b'4' ∷ b'2' ∷ []) (omega arith)

parse_frame_exact_example :
    (parse hi_frame ≡ ok (blob, b'h' ∷ b'i' ∷ [])) ↔ (hi_frame ≡ encode blob (b'h' ∷ b'i' ∷ []))
parse_frame_exact_example = parse_frame_exact hi_frame blob (b'h' ∷ b'i' ∷ []) (omega arith)

-- A digest that is all ones.
abbrev ones : Bytes → Option Bytes
ones b = some (replicate 20 1)

ones_IsArray : IsArray 20 (replicate 20 1)
ones_IsArray = record { len = refl; byte = ground arith }

twos_IsArray : IsArray 20 (replicate 20 2)
twos_IsArray = record { len = refl; byte = ground arith }

author_ends : has_parent (b'a' ∷ b'u' ∷ b't' ∷ b'h' ∷ b'o' ∷ b'r' ∷ []) ≡ false
unfolding has_parent starts_with strip_prefix
author_ends = refl

commit_links_lem_example :
    commit_links (
      id_text tree_word (replicate 20 1)
      ++ (parent_lines (replicate 20 2 ∷ []) ++ b'a' ∷ b'u' ∷ b't' ∷ b'h' ∷ b'o' ∷ b'r' ∷ []))
    ≡ some (ok (link_to (replicate 20 1) ∷ link_to (replicate 20 2) ∷ []))
commit_links_lem_example =
    commit_links_lem (replicate 20 1) (replicate 20 2 ∷ [])
      (b'a' ∷ b'u' ∷ b't' ∷ b'h' ∷ b'o' ∷ b'r' ∷ []) ones_IsArray (twos_IsArray, tt) author_ends

abbrev readme : Entry
readme = record {
  mode = b'1' ∷ b'0' ∷ b'0' ∷ b'6' ∷ b'4' ∷ b'4' ∷ [];
  name = b'r' ∷ [];
  id = replicate 20 1;
}

readme-IsEntry : IsEntry readme
readme-IsEntry = record {
  some_mode = ground arith;
  octal = ground arith;
  some_name = ground arith;
  no_nul = ground arith;
  id_len = refl;
}

tree_links_lem_example :
    tree_links (tree_bytes (readme ∷ [])) ≡ some (ok (concat (map links_of (readme ∷ []))))
tree_links_lem_example = tree_links_lem (readme ∷ []) (readme-IsEntry, tt)

links-Answers_example : Answers (links hi_frame)
links-Answers_example = links-Answers hi_frame
