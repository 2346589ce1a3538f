-- ===== src/Walk/GitLinks.antt =====
-- Every link that src/gitobj.rs reads is to a git object.
use core_rs.Prelude.{
  ℕ, zero, suc, ◌+◌, ◌≡◌, refl, sym, ap, ◌∙◌, subst, inl, inr, arith, true, false, not, ◌||◌,
  Option, none, some, List, [], ◌∷◌, ◌++◌, Result, ok, Bool-cases, Option-cases, length, take,
  get_or, Result-cases, ok_inj, ◌>>=◌, ltb, ◌==◌, ok_or, bound_ok, guard_passed, All, All-append,
  bit_and, length-take, replicate, get_or-append_right, drop,
}
use core_rs.Prelude.Bytes.{Bytes}
use core_rs.Key.{Key, is_git, new_git_sha1}
use core_rs.Gitobj.{
  Error, malformed, no_line, bad_line, not_octal, blob, tree, commit, tag, parse, position, kind_of,
}
use core_rs.Gitobj.Links.{
  Link, word, type_word, is_blob, hex_bytes, id_behind, id_line, hex_cons, hex_byte, hex_digit,
  strip_prefix, parent_word, tree_word, object_word, mode_type_mask, mode_dir, mode_regular,
  mode_symlink, parent_loop, has_parent, commit_links, tag_links, entry_link, entry_id, entry_name,
  entry_mode, tree_entry, tree_loop, tree_links, kind_links, until_nul, mode_loop,
}
use core_rs.Gitobj.Links as Links

some_inj : {A : Type 0} {a b : A} → some a ≡ some b → a ≡ b
some_inj e = ground arith

git_key : (sum : Bytes) → length sum ≡ 20 → is_git (new_git_sha1 sum) ≡ true
unfolding is_git new_git_sha1
git_key sum h =
    let at = get_or-append_right 31 sum (replicate 11 0 ++ (96 ∷ [])) 11 0 (omega (arith, h)) in
    ground (arith, at)

abbrev pub IsGitLink : Link → Type 0
IsGitLink l = is_git l.key ≡ true

hex_bytes-length : (n : ℕ) (r sum : Bytes) → hex_bytes n r ≡ some sum → length sum ≡ n
unfolding hex_bytes hex_cons
hex_bytes-length zero r sum e = sym (ap length (some_inj e))
hex_bytes-length (suc n) [] sum e = absurd (ground arith)
hex_bytes-length (suc n) (a ∷ []) sum e = absurd (ground arith)
hex_bytes-length (suc n) (a ∷ b ∷ r) sum e = elim (Option-cases (hex_bytes n r)) [
  | inl h ↦ elim (Option-cases (hex_byte (hex_digit a) (hex_digit b))) [
    | inl g ↦ absurd (ground arith)
    | inr (x, g) ↦ absurd (ground arith)
  ]
  | inr (ys, h) ↦ elim (Option-cases (hex_byte (hex_digit a) (hex_digit b))) [
    | inl g ↦ absurd (ground arith)
    | inr (x, g) ↦
        let is : x ∷ ys ≡ sum = ground arith in
        sym (ap length is) ∙ ap suc (hex_bytes-length n r ys h)
  ]
]

id_line-git :
    (b prefix : Bytes) (k : Key) (rest : Bytes) → id_line b prefix ≡ ok (k, rest) → is_git k ≡ true
unfolding id_line id_behind
id_line-git b prefix k rest e = behind (strip_prefix b prefix) e
  where
    behind : (o : Option Bytes) → id_behind prefix o ≡ ok (k, rest) → is_git k ≡ true
    behind none h = absurd (ground arith)
    behind (some r) h =
        let (_, h1) =
          guard_passed (ltb (length r) 41 || not (get_or r 40 0 == 10)) _ _ (k, rest) h in
        let (sum, (s, h2)) =
          bound_ok (ok_or (hex_bytes 20 r) (malformed (bad_line (word prefix)))) _ (k, rest) h1 in
        let is : new_git_sha1 sum ≡ k = ap (λ p. p.0) (ok_inj h2) in
        subst (λ x. is_git x ≡ true) is (git_key sum (from_ok (hex_bytes 20 r) refl sum s))
      where
        from_ok :
            (o : Option Bytes)
            → o ≡ hex_bytes 20 r
            → (sum : Bytes) → ok_or o (malformed (bad_line (word prefix))) ≡ ok sum
            → length sum ≡ 20
        from_ok none g sum s = absurd (ground arith)
        from_ok (some t) g sum s = hex_bytes-length 20 r sum (sym g ∙ ap some (ok_inj s))

parent_loop-git :
    (fuel : ℕ) (out : List Link) (rest : Bytes) (ls : List Link)
    → All IsGitLink out
    → parent_loop fuel out rest ≡ some (ok ls)
    → All IsGitLink ls
unfolding parent_loop
parent_loop-git zero out rest ls a e = absurd (ground arith)
parent_loop-git (suc fuel) out rest ls a e = elim (Bool-cases (has_parent rest)) [
  | inr n ↦ let is : out ≡ ls = ground arith in subst (All IsGitLink) is a
  | inl y ↦ elim (Result-cases (id_line rest parent_word)) [
    | inr (x, h) ↦ absurd (ground arith)
    | inl ((k, after), h) ↦
        parent_loop-git fuel (out ++ (record { key = k; leaf = false } ∷ [])) after ls
          (All-append IsGitLink out (record { key = k; leaf = false } ∷ []) a
            (id_line-git rest parent_word k after h, tt))
          (ground (arith))
  ]
]

commit_links-git : (b : Bytes) (ls : List Link) → commit_links b ≡ some (ok ls) → All IsGitLink ls
unfolding commit_links id_line id_behind strip_prefix
commit_links-git b ls e = elim (Result-cases (id_line b tree_word)) [
  | inr (x, h) ↦ absurd (ground arith)
  | inl ((k, rest), h) ↦
      parent_loop-git (length rest + 1) (record { key = k; leaf = false } ∷ []) rest ls
        (id_line-git b tree_word k rest h, tt) (rw h at e)
]

bound_git :
    {A : Type 0} (m : Result Error A) (f : A → Result Error (List Link)) (ls : List Link)
    → (m >>= f) ≡ ok ls
    → ((a : A) → f a ≡ ok ls → All IsGitLink ls)
    → All IsGitLink ls
bound_git m f ls e g = let (a, (_, h)) = bound_ok m f ls e in g a h

tag_links-git : (b : Bytes) (ls : List Link) → tag_links b ≡ ok ls → All IsGitLink ls
unfolding tag_links
tag_links-git b ls e =
    let ((k, rest), (h, e1)) = bound_ok (id_line b object_word) _ ls e in
    bound_git (ok_or (strip_prefix rest type_word) (malformed (no_line (word type_word)))) _ ls e1
      (λ r1 e2.
        bound_git (ok_or (position 10 r1) (malformed (bad_line (word type_word)))) _ ls e2 (λ nl e3.
          bound_git
            (ok_or (kind_of (until_nul (take nl r1))) (malformed (bad_line (word type_word)))) _ ls
            e3
            (λ kind e4.
              let own : All IsGitLink (record { key = k; leaf = is_blob kind } ∷ []) =
                (id_line-git b object_word k rest h, tt) in
              subst (All IsGitLink) (ok_inj e4) own)))

entry_link-git : (mode : ℕ) (k : Key) → is_git k ≡ true → All IsGitLink (entry_link mode k)
unfolding entry_link
entry_link-git mode k h = elim (Bool-cases (bit_and mode mode_type_mask == mode_dir)) [
  | inl y ↦ rw y (h, tt)
  | inr n ↦
      elim (Bool-cases (
        bit_and mode mode_type_mask == mode_regular
        || bit_and mode mode_type_mask == mode_symlink)) [
          | inl y ↦ rw (n, y) (h, tt)
          | inr m ↦ rw (n, m) tt
        ]
]

entry_id-git :
    (mode : ℕ) (b : Bytes) (ls : List Link) (rest : Bytes)
    → entry_id mode b ≡ ok (ls, rest)
    → All IsGitLink ls
unfolding entry_id
entry_id-git mode b ls rest e =
    let (long, e1) = guard_passed (ltb (length b) 20) _ _ (ls, rest) e in
    let is : entry_link mode (new_git_sha1 (take 20 b)) ≡ ls = ap (λ p. p.0) (ok_inj e1) in
    subst (All IsGitLink) is (
      entry_link-git mode (new_git_sha1 (take 20 b))
        (git_key (take 20 b) (ground (arith, length-take 20 b))))

entry_name-git :
    (mode : ℕ) (b : Bytes) (o : Option ℕ) (ls : List Link) (rest : Bytes)
    → entry_name mode b o ≡ ok (ls, rest)
    → All IsGitLink ls
unfolding entry_name
entry_name-git mode b none ls rest e = absurd (ground arith)
entry_name-git mode b (some nul) ls rest e =
    let (_, e1) = guard_passed (nul == 0) _ _ (ls, rest) e in
    entry_id-git mode (drop (nul + 1) b) ls rest e1

entry_mode-git :
    (b : Bytes) (o : Option ℕ) (ls : List Link) (rest : Bytes)
    → entry_mode b o ≡ ok (ls, rest)
    → All IsGitLink ls
unfolding entry_mode
entry_mode-git b none ls rest e = absurd (ground arith)
entry_mode-git b (some sp) ls rest e =
    let (_, e1) = guard_passed (sp == 0) _ _ (ls, rest) e in
    let (mode, (_, e2)) =
      bound_ok (ok_or (mode_loop 0 (take sp b)) (malformed not_octal)) _ (ls, rest) e1 in
    entry_name-git mode (drop (sp + 1) b) (position 0 (drop (sp + 1) b)) ls rest e2

tree_loop-git :
    (fuel : ℕ) (out : List Link) (b : Bytes) (ls : List Link)
    → All IsGitLink out
    → tree_loop fuel out b ≡ some (ok ls)
    → All IsGitLink ls
unfolding tree_loop
tree_loop-git zero out b ls a e = absurd (ground arith)
tree_loop-git (suc fuel) out [] ls a e =
    let is : out ≡ ls = ground arith in subst (All IsGitLink) is a
tree_loop-git (suc fuel) out (x ∷ b) ls a e = elim (Result-cases (tree_entry (x ∷ b))) [
  | inr (y, h) ↦ absurd (ground arith)
  | inl ((l, rest), h) ↦
      tree_loop-git fuel (out ++ l) rest ls
        (All-append IsGitLink out l a (tree_entry-git (x ∷ b) l rest h)) (ground arith)
]
  where
    tree_entry-git :
        (c : Bytes) (l : List Link) (rest : Bytes) → tree_entry c ≡ ok (l, rest) → All IsGitLink l
    tree_entry-git c l rest h = entry_mode-git c (position b' ' c) l rest (unfold tree_entry in h)

-- Whatever the payload holds.
pub Links-git : (b : Bytes) (ls : List Link) → Links.links b ≡ some (ok ls) → All IsGitLink ls
unfolding Links.links kind_links tree_links
Links-git b ls e = elim (Result-cases (parse b)) [
  | inr (x, h) ↦ absurd (ground arith)
  | inl ((blob, content), h) ↦ let is : [] ≡ ls = ground arith in subst (All IsGitLink) is tt
  | inl ((tree, content), h) ↦ tree_loop-git (length content + 1) [] content ls tt (ground arith)
  | inl ((commit, content), h) ↦ commit_links-git content ls (ground arith)
  | inl ((tag, content), h) ↦ tag_links-git content ls (ground arith)
]
