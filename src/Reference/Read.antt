-- ===== src/Reference/Read.antt =====
-- The readers of a field's value (src/reference.rs) on what the encoder writes.
use core_rs.Prelude.{
  ℕ, suc, ◌+◌, ◌/◌, ◌-◌, ◌^◌, ◌≡◌, ◌≢◌, refl, ap, ◌∙◌, arith, true, false, none, [], ◌∷◌, ◌++◌,
  append_assoc, length, ltb, Result, ok, length-append, take-append, drop-append, ◌>>=◌,
}
use core_rs.Prelude.Bytes.{Bytes, IsU64}
use core_rs.Prelude.Int.{ℤ, pos, negsuc}
use core_rs.Cbor.{append_head, append_bstr, append_tstr, append_int, read_head, read_argument}
use core_rs.Cbor.Ints.{IsI64}
use core_rs.Reference.{DecodeError}
use core_rs.Reference.Wellformed.{head_of}
use core_rs.Reference.Tags.{
  peek_tag, strip_tags, strip_tag, check_tags, check_tag, strip_and_check_tags, string_body,
}
use core_rs.Reference.Fields.{
  is_utf8, text_body, tstr_field, tstr_headed, read_tstr_field, bstr_field, bstr_headed,
  read_bstr_field, int64_field, int64_headed, read_int64_field,
}
use core_rs.Reference.Skipped.{head_of-append_head}

head_of-major :
    (v : ℕ) (b : Bytes) (m n : ℕ) (rest : Bytes) → head_of (v ∷ b) ≡ ok (m, n, rest) → v / 32 ≡ m
unfolding read_head read_argument
head_of-major v b m n rest h = ground arith

-- Bytes that start with another head than a tag's have no tags in front.
no_tag :
    (b : Bytes) (m n : ℕ) (rest : Bytes) → head_of b ≡ ok (m, n, rest) → m ≢ 6 → peek_tag b ≡ none
unfolding peek_tag
no_tag [] m n rest h ne = refl
no_tag (v ∷ b) m n rest h ne = ground (arith, head_of-major v b m n rest h)

strip_tags-none : (fuel : ℕ) (b : Bytes) → peek_tag b ≡ none → strip_tags (suc fuel) b ≡ ok b
unfolding strip_tags strip_tag
strip_tags-none fuel b h = ap (λ t. strip_tag (strip_tags fuel) b t) h

check_tags-none : (fuel : ℕ) (b : Bytes) → peek_tag b ≡ none → check_tags (suc fuel) b ≡ ok tt
unfolding check_tags check_tag
check_tags-none fuel b h = ap (λ t. check_tag (check_tags fuel) t) h

pub strip_and_check_tags-none :
    (b : Bytes) (m n : ℕ) (rest : Bytes)
    → head_of b ≡ ok (m, n, rest)
    → m ≢ 6
    → strip_and_check_tags b ≡ ok b
unfolding strip_and_check_tags
strip_and_check_tags-none b m n rest h ne =
    let none_here = no_tag b m n rest h ne in
    rw (strip_tags-none (length b) b none_here, check_tags-none (length b) b none_here) refl

string_body-append : (s rest : Bytes) → string_body (length s) (s ++ rest) ≡ ok (s, rest)
string_body-append s rest =
    let enough : ltb (length (s ++ rest)) (length s) ≡ false =
      ground (arith, length-append s rest) in
    rw (enough, take-append (length s) s rest refl, drop-append (length s) s rest refl) refl

-- A reader of a value that is no tag goes on behind the head.
headed :
    {A : Type 0} (f : ℕ → Bytes → Result DecodeError A)
    (g : ℕ → Bytes → ℕ × ℕ × Bytes → Result DecodeError A)
    → ((fuel : ℕ) (b : Bytes)
        → f (suc fuel) b ≡ (do b' ← strip_and_check_tags b; h ← head_of b'; g fuel b' h))
    → (b : Bytes) (m n : ℕ) (rest : Bytes) → head_of b ≡ ok (m, n, rest)
    → m ≢ 6
    → f (suc (length b)) b ≡ g (length b) b (m, n, rest)
headed f g step b m n rest h ne =
    step (length b) b
    ∙ ap (λ x. x >>= λ b'. (head_of b' >>= g (length b) b'))
        (strip_and_check_tags-none b m n rest h ne)
    ∙ ap (λ x. x >>= g (length b) b) h

pub read_tstr_field-append_tstr :
    (field : ℕ) (s rest : Bytes)
    → IsU64 (length s)
    → is_utf8 s ≡ true
    → read_tstr_field (append_tstr [] s ++ rest) field ≡ ok (s, rest)
unfolding read_tstr_field append_tstr tstr_field tstr_headed text_body
read_tstr_field-append_tstr field s rest h text =
    let b = (append_head [] 3 (length s) ++ s) ++ rest in
    let split = append_assoc (append_head [] 3 (length s)) s rest in
    let head : head_of b ≡ ok (3, length s, s ++ rest) =
      ap head_of split ∙ head_of-append_head 3 (length s) (s ++ rest) (omega arith) h in
    let e =
      headed (λ fuel b. tstr_field fuel field b)
        (λ fuel b h. tstr_headed (tstr_field fuel field) field b h) (λ fuel b. refl) b 3 (length s)
        (s ++ rest) head (omega arith) in
    e ∙ rw (string_body-append s rest, text) refl

pub read_bstr_field-append_bstr :
    (field : ℕ) (s rest : Bytes)
    → IsU64 (length s)
    → read_bstr_field (append_bstr [] s ++ rest) field ≡ ok (s, rest)
unfolding read_bstr_field append_bstr bstr_field bstr_headed
read_bstr_field-append_bstr field s rest h =
    let b = (append_head [] 2 (length s) ++ s) ++ rest in
    let split = append_assoc (append_head [] 2 (length s)) s rest in
    let head : head_of b ≡ ok (2, length s, s ++ rest) =
      ap head_of split ∙ head_of-append_head 2 (length s) (s ++ rest) (omega arith) h in
    let e =
      headed (λ fuel b. bstr_field fuel field b)
        (λ fuel b h. bstr_headed (bstr_field fuel field) field b h) (λ fuel b. refl) b 2 (length s)
        (s ++ rest) head (omega arith) in
    e ∙ string_body-append s rest

pub read_int64_field-append_int :
    (v : ℤ) (rest : Bytes) → IsI64 v → read_int64_field (append_int [] v ++ rest) ≡ ok (v, rest)
unfolding read_int64_field append_int int64_field int64_headed
read_int64_field-append_int (pos n) rest h =
    let b = append_head [] 0 n ++ rest in
    let e =
      headed int64_field (λ fuel b h. int64_headed (int64_field fuel) b h) (λ fuel b. refl) b 0 n
        rest (head_of-append_head 0 n rest (omega arith) (omega arith)) (omega arith) in
    e ∙ ground arith
read_int64_field-append_int (negsuc n) rest h =
    let m : 2 ^ 64 - 1 - (2 ^ 64 - (n + 1)) ≡ n = omega arith in
    let b = append_head [] 1 n ++ rest in
    let e =
      headed int64_field (λ fuel b h. int64_headed (int64_field fuel) b h) (λ fuel b. refl) b 1 n
        rest (head_of-append_head 1 n rest (omega arith) (omega arith)) (omega arith) in
    rw m (e ∙ ground arith)
