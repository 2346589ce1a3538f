-- ===== src/Gitobj/Frame.antt =====
-- `parse` of src/gitobj.rs accepts exactly what `encode` writes, and `verify` what it promises.
use core_rs.Prelude.{
  ℕ, zero, suc, ◌+◌, ◌/◌, ◌%◌, ◌≡◌, ◌≢◌, ◌↔◌, refl, ap, ◌∙◌, arith, true, Option, none, some, [],
  ◌∷◌, ◌++◌, length, take, drop, ltb, ◌==◌, Result, ok, err, inl, inr, Bool-cases, Option-cases,
  All, All-append, take-append,
}
use mathlib.Core.Path.{ap₂}
use core_rs.Prelude.Bytes.{Bytes, IsU64}
use core_rs.Prelude.Lex.{bytes_eq, bytes_eq_iff, bytes_eq_refl}
use core_rs.Key.{Key}
use core_rs.Gitobj.{
  Kind, blob, tree, commit, tag, Error, name, kind_of, decimal, to_string, encode, position,
  parse_size, parse_content, parse_sized, parse_kind, parse_spaced, parse, key_of, verify,
}
use core_rs.Gitobj.Decimal.{parse_size_exact}

-- The first place of a byte, and the list split there.
pub position-append :
    (c : ℕ) (xs ys : Bytes) → All (λ x. x ≢ c) xs → position c (xs ++ c ∷ ys) ≡ some (length xs)
unfolding position
position-append c [] ys h = ground arith
position-append c (x ∷ xs) ys (hx, h) = ground (arith, position-append c xs ys h)

position_split :
    (c : ℕ) (b : Bytes) (i : ℕ) → position c b ≡ some i → b ≡ take i b ++ (c ∷ drop (i + 1) b)
unfolding position
position_split c [] i h = cc
position_split c (x ∷ b) i h = elim (Bool-cases (x == c)) [
  | inl e ↦
      let z : i ≡ 0 = ground arith in let same : x ≡ c = ground arith in rw z (ap (λ y. y ∷ b) same)
  | inr e ↦ elim (Option-cases (position c b)) [
    | inl f ↦ absurd (ground arith)
    | inr (j, f) ↦
        let z : i ≡ suc j = ground arith in
        let s : suc j + 1 ≡ suc (j + 1) = omega arith in
        rw (z, s) (ap (λ r. x ∷ r) (position_split c b j f))
  ]
]

kind_of-name : (k : Kind) → kind_of (name k) ≡ some k
unfolding kind_of bytes_eq
kind_of-name blob = refl
kind_of-name tree = refl
kind_of-name commit = refl
kind_of-name tag = refl

kind_of_inversion : (n : Bytes) (k : Kind) → kind_of n ≡ some k → n ≡ name k
unfolding kind_of
kind_of_inversion n k h = ground (
  arith,
  bytes_eq_iff n (name blob),
  bytes_eq_iff n (name tree),
  bytes_eq_iff n (name commit),
  bytes_eq_iff n (name tag),
)

name-no_space : (k : Kind) → All (λ x. x ≢ b' ') (name k)
name-no_space blob = omega arith
name-no_space tree = omega arith
name-no_space commit = omega arith
name-no_space tag = omega arith

decimal-no_nul : (f n : ℕ) → All (λ x. x ≢ 0) (decimal f n)
unfolding decimal
decimal-no_nul zero n = tt
decimal-no_nul (suc f) n = elim (Bool-cases (ltb n 10)) [
  | inl small ↦ rw small (omega arith, tt)
  | inr big ↦ rw big (
      All-append (λ x. x ≢ 0) (decimal f (n / 10)) ((48 + n % 10) ∷ []) (decimal-no_nul f (n / 10))
        (omega arith, tt))
]

-- One position, and what `parse` goes on with behind it.
pub split_take : (n c : ℕ) (xs ys : Bytes) → length xs ≡ n → take n (xs ++ c ∷ ys) ≡ xs
split_take n c xs ys h = take-append n xs (c ∷ ys) h

pub split_drop : (c : ℕ) (xs ys : Bytes) → drop (length xs + 1) (xs ++ c ∷ ys) ≡ ys
split_drop c [] ys = refl
split_drop c (x ∷ xs) ys =
    let e : suc (length xs) + 1 ≡ suc (length xs + 1) = omega arith in rw e (split_drop c xs ys)

parse-encode :
    (k : Kind) (content : Bytes)
    → IsU64 (length content)
    → parse (encode k content) ≡ ok (k, content)
unfolding parse encode parse_spaced parse_kind parse_sized parse_content
parse-encode k content fits =
    let s = to_string (length content) in
    let no_nul : All (λ x. x ≢ 0) s = unfold to_string in decimal-no_nul 20 (length content) in
    rw
      (
        position-append b' ' (name k) (s ++ (0 ∷ content)) (name-no_space k),
        split_take (length (name k)) b' ' (name k) (s ++ (0 ∷ content)) refl,
        split_drop b' ' (name k) (s ++ (0 ∷ content)),
        kind_of-name k,
        position-append 0 s content no_nul,
        split_take (length s) 0 s content refl,
        split_drop 0 s content,
        (parse_size_exact (length content) s fits).1 refl,
      )
      (ground arith)

module _ (k : Kind) (content : Bytes) (fits : IsU64 (length content)) where
  content_inversion :
      (kd : Kind) (o : Option ℕ) (c : Bytes)
      → parse_content kd o c ≡ ok (k, content)
      → (kd ≡ k) × (c ≡ content) × (o ≡ some (length content))
  unfolding parse_content
  content_inversion kd none c h = cc
  content_inversion kd (some n) c h = ground arith

  sized_inversion :
      (kd : Kind) (rest : Bytes) (o : Option ℕ)
      → position 0 rest ≡ o
      → parse_sized kd rest o ≡ ok (k, content)
      → (kd ≡ k) × (rest ≡ to_string (length content) ++ (0 ∷ content))
  unfolding parse_sized
  sized_inversion kd rest none e h = cc
  sized_inversion kd rest (some nul) e h =
      let i = content_inversion kd (parse_size (take nul rest)) (drop (nul + 1) rest) h in
      let digits = (parse_size_exact (length content) (take nul rest) fits).0 i.2 in
      (i.0, position_split 0 rest nul e ∙ ap₂ (λ x y. x ++ (0 ∷ y)) digits i.1)

  kind_inversion :
      (o : Option Kind) (rest : Bytes)
      → parse_kind o rest ≡ ok (k, content)
      → (o ≡ some k) × (rest ≡ to_string (length content) ++ (0 ∷ content))
  unfolding parse_kind
  kind_inversion none rest h = cc
  kind_inversion (some kd) rest h =
      let i = sized_inversion kd rest (position 0 rest) refl h in (ap some i.0, i.1)

  spaced_inversion :
      (b : Bytes) (o : Option ℕ)
      → position b' ' b ≡ o
      → parse_spaced b o ≡ ok (k, content)
      → b ≡ encode k content
  unfolding parse_spaced encode
  spaced_inversion b none e h = cc
  spaced_inversion b (some sp) e h =
      let i = kind_inversion (kind_of (take sp b)) (drop (sp + 1) b) h in
      position_split b' ' b sp e
      ∙ ap₂ (λ x y. x ++ (b' ' ∷ y)) (kind_of_inversion (take sp b) k i.0) i.1

-- On any bytes, `parse` answers a kind and a content, of a length below 2 ^ 64, exactly when the
-- bytes are what `encode` makes of them.
pub parse_frame_exact :
    (b : Bytes) (k : Kind) (content : Bytes)
    → IsU64 (length content)
    → (parse b ≡ ok (k, content)) ↔ (b ≡ encode k content)
parse_frame_exact b k content fits = (
  λ h. spaced_inversion k content fits b (position b' ' b) refl (unfold parse in h),
  λ e. ap parse e ∙ parse-encode k content fits,
)

same_key : (a b : Key) → a.bytes ≡ b.bytes → a ≡ b
same_key a b e = ap (λ (x : Bytes). let k : Key = record { bytes = x } in k) e

-- `verify` passes exactly where the payload has the key and its frame parses: a collision, another
-- key and a bad frame are each refused.
pub verify_exact :
    (sha1 : Bytes → Option Bytes) (k : Key) (b : Bytes)
    → (verify sha1 k b ≡ ok tt) ↔ ((key_of sha1 b ≡ ok k) × ((p : Kind × Bytes) × (parse b ≡ ok p)))
verify_exact sha1 k b = (forth (key_of sha1 b) (parse b) refl refl, back)
  where
    forth :
        (r : Result Error Key) (q : Result Error (Kind × Bytes))
        → key_of sha1 b ≡ r
        → parse b ≡ q
        → verify sha1 k b ≡ ok tt
        → (key_of sha1 b ≡ ok k) × ((p : Kind × Bytes) × (parse b ≡ ok p))
    forth (err e) q er eq h = absurd (unfold verify in ground arith)
    forth (ok want) (err e) er eq h = absurd (unfold verify in ground arith)
    forth (ok want) (ok p) er eq h =
        let same : bytes_eq want.bytes k.bytes ≡ true = unfold verify in ground arith in
        (er ∙ ap ok (same_key want k ((bytes_eq_iff want.bytes k.bytes).0 same)), (p, eq))

    back :
        (key_of sha1 b ≡ ok k) × ((p : Kind × Bytes) × (parse b ≡ ok p)) → verify sha1 k b ≡ ok tt
    back (e, (p, f)) = unfold verify in rw (e, bytes_eq_refl k.bytes, f)
