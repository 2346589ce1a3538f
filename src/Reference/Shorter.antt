-- ===== src/Reference/Shorter.antt =====
-- What the loops of src/reference.rs that take tags off leave is not longer.
use core_rs.Prelude.{
  ℕ, zero, suc, ◌≤◌, ◌<◌, ◌≡◌, ap, arith, some, [], ◌∷◌, length, ok, Option-cases, Result-cases,
  inl, inr, length-drop, bound_ok, ok_inj,
}
use core_rs.Prelude.Bytes.{Bytes}
use core_rs.Cbor.{read_head, read_argument}
use core_rs.Reference.Wellformed.{head_of}
use core_rs.Reference.Tags.{
  tag_of, peek_tag, strip_tags, strip_tag, check_tags, strip_and_check_tags,
}

pub head_of-shorter :
    (b : Bytes) (m n : ℕ) (rest : Bytes) → head_of b ≡ ok (m, n, rest) → length rest < length b
unfolding read_head read_argument
head_of-shorter [] m n rest h = absurd (ground arith)
head_of-shorter (v ∷ b) m n rest h =
    ground (arith, length-drop 1 b, length-drop 2 b, length-drop 4 b, length-drop 8 b)

pub peek_tag-shorter :
    (b : Bytes) (tag : ℕ) (rest : Bytes) → peek_tag b ≡ some (tag, rest) → length rest < length b
unfolding peek_tag tag_of
peek_tag-shorter [] tag rest h = absurd (ground arith)
peek_tag-shorter (v ∷ b) tag rest h = elim (Result-cases (head_of (v ∷ b))) [
  | inr (e, f) ↦ absurd (ground arith)
  | inl ((m, n, r), f) ↦ ground (arith, head_of-shorter (v ∷ b) m n r f)
]

strip_tags-shorter : (fuel : ℕ) (b b' : Bytes) → strip_tags fuel b ≡ ok b' → length b' ≤ length b
unfolding strip_tags strip_tag
strip_tags-shorter zero b b' h = absurd (ground arith)
strip_tags-shorter (suc fuel) b b' h = elim (Option-cases (peek_tag b)) [
  | inl n ↦ omega (arith, ap length (ok_inj (rw n at h)))
  | inr ((tag, rest), s) ↦
      ground (arith, strip_tags-shorter fuel rest b', peek_tag-shorter b tag rest s)
]

pub strip_and_check_tags-shorter :
    (b b' : Bytes) → strip_and_check_tags b ≡ ok b' → length b' ≤ length b
unfolding strip_and_check_tags
strip_and_check_tags-shorter b b' h =
    let (c, (s, e)) = bound_ok (strip_tags (suc (length b)) b) _ b' h in
    let (_, (_, e1)) = bound_ok (check_tags (suc (length c)) c) _ b' e in
    omega (arith, strip_tags-shorter (suc (length b)) b c s, ap length (ok_inj e1))
