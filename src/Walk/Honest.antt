-- ===== src/Walk/Honest.antt =====
-- The links of an object (links of src/fstree/read.rs) say of a key that is no git object's what the
-- key says.
use core_rs.Prelude.{
  ◌≡◌, refl, sym, subst, inl, inr, arith, none, some, List, [], ◌∷◌, map, Result, ok, err,
  Bool-cases, Result-cases, ok_inj, All,
}
use core_rs.Prelude.Bytes.{Bytes}
use core_rs.Key.{Key, is_git}
use core_rs.Gitobj.Links.{Link}
use core_rs.Gitobj.Links as Links
use core_rs.Gc.{link_to}
use core_rs.Gc.Visit.{IsConsistent}
use core_rs.Gc.Closure.{IsHonest}
use core_rs.Walk.GitLinks.{IsGitLink, Links-git}
use core_rs.Walk.{Decoders, links, git_links, walked, child_keys}
use mathlib.Core.List.Memᴰ
use mathlib.Core.List.Memᴰ.{Memᴰ}

mem_all : (P : Link → Type 0) (ls : List Link) (x : Link) → All P ls → Memᴰ x ls → P x
mem_all P [] x a i = absurd (Memᴰ.not-nil i)
mem_all P (l ∷ ls) x (p, a) i = elim (Memᴰ.cases_cons i) [
  | inl e ↦ subst P (sym e) p
  | inr j ↦ mem_all P ls x a j
]

mapped-IsConsistent : (ks : List Key) (x : Link) → Memᴰ x (map link_to ks) → IsConsistent x
mapped-IsConsistent [] x i = absurd (Memᴰ.not-nil i)
mapped-IsConsistent (k ∷ ks) x i = elim (Memᴰ.cases_cons i) [
  | inl e ↦ subst IsConsistent (sym e) (λ own. refl)
  | inr j ↦ mapped-IsConsistent ks x j
]

module _ {D C : Type 0} (decoders : Decoders D C) where
  walked-git :
      (k : Key) (o : Links.Links) (ls : List Link)
      → walked {D = D} {C = C} k o ≡ ok ls
      → ((r : List Link) → o ≡ some (ok r) → All IsGitLink r)
      → All IsGitLink ls
  unfolding walked
  walked-git k none ls e g = absurd (ground arith)
  walked-git k (some (err x)) ls e g = absurd (ground arith)
  walked-git k (some (ok r)) ls e g = subst (All IsGitLink) (ok_inj e) (g r refl)

  -- Whatever the decoders answer, and whatever an object holds: a link that links gives of it is to a
  -- git object, or says leaf just where the key's own type is a leaf's.
  pub links-IsConsistent :
      (k : Key) (b : Bytes) (ls : List Link)
      → links decoders k b ≡ ok ls
      → (x : Link) → Memᴰ x ls
      → IsConsistent x
  unfolding links
  links-IsConsistent k b ls e x i = elim (Bool-cases (is_git k)) [
    | inl y ↦
        let e1 : git_links k b ≡ ok ls = ground arith in
        let git : All IsGitLink ls = walked-git k (Links.links b) ls e1 (Links-git b) in
        λ own. absurd (ground (arith, mem_all IsGitLink ls x git i))
    | inr n ↦ elim (Result-cases (child_keys decoders k b)) [
      | inr (y, h) ↦ absurd (ground arith)
      | inl (ks, h) ↦
          let is : map link_to ks ≡ ls = ground arith in
          mapped-IsConsistent ks x (subst (Memᴰ x) (sym is) i)
    ]
  ]

  pub links-IsHonest :
      {E : Type 0} (get_verified : Key → Result E Bytes) → IsHonest get_verified (links decoders)
  links-IsHonest get_verified k ls (d, g, h) x i = links-IsConsistent k d ls h x i
