-- ===== src/Reference/Ends.antt =====
-- The loops of src/reference.rs that take tags off do not run out of fuel.
use core_rs.Prelude.{
  ℕ, zero, suc, ◌-◌, ◌^◌, ◌≤◌, ◌<◌, ◌≡◌, refl, ap, ◌∙◌, arith, Bool, true, false, not, [], ◌∷◌,
  length, leb, ltb, Result, ok, err, if◌then◌else◌, ◌>>=◌, Option-cases, Result-cases, inl, inr,
  ok_inj,
}
use core_rs.Prelude.Bytes.{Bytes}
use core_rs.Prelude.Int.{ℤ, pos, negsuc}
use core_rs.Cbor.{Head, read_head}
use core_rs.Reference.{DecodeError, spent, byte_elem_type, wrong_field_type}
use core_rs.Reference.Wellformed.{head_of}
use core_rs.Reference.Tags.{
  peek_tag, strip_tags, strip_tag, check_tags, check_tag, strip_and_check_tags, string_body,
  read_bignum_content, bignum_magnitude,
}
use core_rs.Reference.Fields.{
  is_utf8, text_body, tstr_field, tstr_headed, byte_elem, byte_headed, bstr_field, bstr_headed,
  int64_field, int64_headed, byte_of_bignum, byte_of_negative, int_of_bignum, simple_value,
  read_byte_elems, read_byte_elem,
}
use core_rs.Reference.Decode.{unwrap_doc, unwrap_headed}
use core_rs.Reference.Shorter.{head_of-shorter, peek_tag-shorter, strip_and_check_tags-shorter}

-- The outcome is that the fuel ran out.
abbrev pub is_spent : {A : Type 0} → Result DecodeError A → Bool
is_spent (err spent) = true
is_spent (err _) = false
is_spent (ok a) = false

bound_ends :
    {A B : Type 0} (m : Result DecodeError A) (f : A → Result DecodeError B)
    → is_spent m ≡ false
    → ((a : A) → m ≡ ok a → is_spent (f a) ≡ false)
    → is_spent (m >>= f) ≡ false
bound_ends (ok a) f h g = g a refl
bound_ends (err e) f h g = ground (arith, h)

if_ends :
    {A : Type 0} (t : Bool) (m n : Result DecodeError A)
    → is_spent m ≡ false
    → is_spent n ≡ false
    → is_spent (if t then m else n) ≡ false
if_ends true m n h g = h
if_ends false m n h g = g

head_of-ends : (b : Bytes) → is_spent (head_of b) ≡ false
head_of-ends b = elim (Result-cases (read_head b)) [
  | inl (h, e) ↦ rw e refl
  | inr (x, e) ↦ rw e refl
]

pub strip_tags-ends :
    (fuel : ℕ) (b : Bytes) → length b < fuel → is_spent (strip_tags fuel b) ≡ false
unfolding strip_tags strip_tag
strip_tags-ends zero b h = absurd (omega arith)
strip_tags-ends (suc fuel) b h = elim (Option-cases (peek_tag b)) [
  | inl n ↦ rw n refl
  | inr ((tag, rest), s) ↦
      let less = peek_tag-shorter b tag rest s in
      rw s (
        if_ends _ (strip_tags fuel rest) (ok b) (strip_tags-ends fuel rest (omega (arith, less, h)))
          refl)
]

pub check_tags-ends :
    (fuel : ℕ) (b : Bytes) → length b < fuel → is_spent (check_tags fuel b) ≡ false
unfolding check_tags check_tag
check_tags-ends zero b h = absurd (omega arith)
check_tags-ends (suc fuel) b h = elim (Option-cases (peek_tag b)) [
  | inl n ↦ rw n refl
  | inr ((tag, []), s) ↦ rw s refl
  | inr ((tag, c ∷ rest), s) ↦
      let less = peek_tag-shorter b tag (c ∷ rest) s in
      rw s (
        if_ends _ (err _) (check_tags fuel (c ∷ rest)) refl
          (check_tags-ends fuel (c ∷ rest) (omega (arith, less, h))))
]

strip_and_check_tags-ends : (b : Bytes) → is_spent (strip_and_check_tags b) ≡ false
unfolding strip_and_check_tags
strip_and_check_tags-ends b =
    bound_ends (strip_tags (suc (length b)) b) _ (strip_tags-ends (suc (length b)) b (omega arith))
      (λ c _.
        bound_ends (check_tags (suc (length c)) c) _
          (check_tags-ends (suc (length c)) c (omega arith)) (λ _ _. refl))

string_body-ends : (n : ℕ) (rest : Bytes) → is_spent (string_body n rest) ≡ false
string_body-ends n rest = if_ends (ltb (length rest) n) _ _ refl refl

text_body-ends : (n : ℕ) (rest : Bytes) → is_spent (text_body n rest) ≡ false
unfolding text_body
text_body-ends n rest =
    bound_ends (string_body n rest) _ (string_body-ends n rest)
      (λ p _. if_ends (not (is_utf8 p.0)) _ _ refl refl)

bignum-ends : (b : Bytes) (tag : ℕ) → is_spent (read_bignum_content b tag) ≡ false
unfolding read_bignum_content
bignum-ends b tag =
    bound_ends (head_of b) _ (head_of-ends b) (λ h _. ground (arith, string_body-ends h.1 h.2))

byte_of_bignum-ends : (field : ℕ) (p : Bytes × Bytes) → is_spent (byte_of_bignum field p) ≡ false
unfolding byte_of_bignum
byte_of_bignum-ends field (content, rest) = elim (Option-cases (bignum_magnitude content)) [
  | inl n ↦ rw n refl
  | inr (v, e) ↦ rw e (if_ends (leb v 255) _ _ refl refl)
]

byte_of_negative-ends :
    (field : ℕ) (p : Bytes × Bytes) → is_spent (byte_of_negative field p) ≡ false
unfolding byte_of_negative
byte_of_negative-ends field (content, rest) = elim (Option-cases (bignum_magnitude content)) [
  | inl n ↦ rw n refl
  | inr (v, e) ↦ rw e (if_ends (leb v (2 ^ 63 - 1)) _ _ refl refl)
]

int_of_bignum-ends :
    (negative : Bool) (sign : ℕ → ℤ) (p : Bytes × Bytes)
    → is_spent (int_of_bignum negative sign p) ≡ false
unfolding int_of_bignum
int_of_bignum-ends negative sign (content, rest) = elim (Option-cases (bignum_magnitude content)) [
  | inl n ↦ rw n refl
  | inr (v, e) ↦ rw e (if_ends (leb v (2 ^ 63 - 1)) _ _ refl refl)
]

simple_value-ends :
    {A : Type 0} (f : ℕ → A) (wrong : DecodeError) (n head_len : ℕ)
    → is_spent (let r : Result DecodeError A = err wrong in r) ≡ false
    → is_spent (simple_value f wrong n head_len) ≡ false
simple_value-ends f wrong n head_len h = ground (arith, h)

-- A reader that goes on behind a head, with `front` to take the tags off before it.
module _ {A : Type 0} (front : Bytes → Result DecodeError Bytes)
    (g : (Bytes → Result DecodeError A) → Bytes → Head → Result DecodeError A)
    (f : ℕ → Bytes → Result DecodeError A)
    (front_shorter : (b b' : Bytes) → front b ≡ ok b' → length b' ≤ length b)
    (front_ends : (b : Bytes) → is_spent (front b) ≡ false)
    (local : (go : Bytes → Result DecodeError A) (b : Bytes) (m n : ℕ) (rest : Bytes)
      → ((r : Bytes) → length r ≤ length rest → is_spent (go r) ≡ false)
      → is_spent (g go b (m, n, rest)) ≡ false)
    (step : (fuel : ℕ) (b : Bytes)
      → f (suc fuel) b ≡ (front b >>= λ b'. (head_of b' >>= g (f fuel) b'))) where
  reader-ends : (fuel : ℕ) (b : Bytes) → length b < fuel → is_spent (f fuel b) ≡ false
  reader-ends zero b h = absurd (omega arith)
  reader-ends (suc fuel) b h =
      ap is_spent (step fuel b)
      ∙ bound_ends (front b) _ (front_ends b) (λ b' s.
        bound_ends (head_of b') _ (head_of-ends b') (λ (m, n, rest) t.
          let less = head_of-shorter b' m n rest t in
          let le = front_shorter b b' s in
          local (f fuel) b' m n rest (λ r l. reader-ends fuel r (omega (arith, less, le, l, h)))))

tstr_headed-ends :
    (field : ℕ) (go : Bytes → Result DecodeError (Bytes × Bytes)) (b : Bytes) (m n : ℕ)
    (rest : Bytes)
    → ((r : Bytes) → length r ≤ length rest → is_spent (go r) ≡ false)
    → is_spent (tstr_headed go field b (m, n, rest)) ≡ false
unfolding tstr_headed
tstr_headed-ends field go b m n rest h =
    let inner = h rest (omega arith) in ground (arith, inner, text_body-ends n rest)

byte_headed-ends :
    (field : ℕ) (go : Bytes → Result DecodeError (ℕ × Bytes)) (b : Bytes) (m n : ℕ) (rest : Bytes)
    → ((r : Bytes) → length r ≤ length rest → is_spent (go r) ≡ false)
    → is_spent (byte_headed go field b (m, n, rest)) ≡ false
unfolding byte_headed
byte_headed-ends field go b m n rest h =
    let inner = h rest (omega arith) in
    let two =
      bound_ends (read_bignum_content rest n) (byte_of_bignum field) (bignum-ends rest n)
        (λ p _. byte_of_bignum-ends field p) in
    let three =
      bound_ends (read_bignum_content rest n) (byte_of_negative field) (bignum-ends rest n)
        (λ p _. byte_of_negative-ends field p) in
    let simple =
      simple_value-ends {A = ℕ × Bytes} (λ v. (v, rest)) (byte_elem_type field 7) n
        (length b - length rest) refl in
    ground (arith, inner, two, three, simple)

pub byte_elem-ends :
    (fuel field : ℕ) (b : Bytes) → length b < fuel → is_spent (byte_elem fuel field b) ≡ false
unfolding byte_elem
byte_elem-ends fuel field b h =
    reader-ends strip_and_check_tags (λ go b h. byte_headed go field b h)
      (λ k b. byte_elem k field b) strip_and_check_tags-shorter strip_and_check_tags-ends
      (byte_headed-ends field) (λ k b. refl) fuel b h

byte_elems-ends :
    (n : ℕ) (rest : Bytes) (field : ℕ) → is_spent (read_byte_elems n rest field) ≡ false
unfolding read_byte_elems read_byte_elem
byte_elems-ends zero rest field = refl
byte_elems-ends (suc n) rest field =
    bound_ends (byte_elem (suc (length rest)) field rest) _
      (byte_elem-ends (suc (length rest)) field rest (omega arith))
      (λ p _.
        bound_ends (read_byte_elems n p.1 field) _ (byte_elems-ends n p.1 field) (λ _ _. refl))

bstr_headed-ends :
    (field : ℕ) (go : Bytes → Result DecodeError (Bytes × Bytes)) (b : Bytes) (m n : ℕ)
    (rest : Bytes)
    → ((r : Bytes) → length r ≤ length rest → is_spent (go r) ≡ false)
    → is_spent (bstr_headed go field b (m, n, rest)) ≡ false
unfolding bstr_headed
bstr_headed-ends field go b m n rest h =
    let inner = h rest (omega arith) in
    ground (arith, inner, bignum-ends rest n, string_body-ends n rest, byte_elems-ends n rest field)

int64_headed-ends :
    (go : Bytes → Result DecodeError (ℤ × Bytes)) (b : Bytes) (m n : ℕ) (rest : Bytes)
    → ((r : Bytes) → length r ≤ length rest → is_spent (go r) ≡ false)
    → is_spent (int64_headed go b (m, n, rest)) ≡ false
unfolding int64_headed
int64_headed-ends go b m n rest h =
    let inner = h rest (omega arith) in
    let two =
      bound_ends (read_bignum_content rest n) (int_of_bignum false pos) (bignum-ends rest n)
        (λ p _. int_of_bignum-ends false pos p) in
    let three =
      bound_ends (read_bignum_content rest n) (int_of_bignum true negsuc) (bignum-ends rest n)
        (λ p _. int_of_bignum-ends true negsuc p) in
    let simple =
      simple_value-ends {A = ℤ × Bytes} (λ v. (pos v, rest)) (wrong_field_type 3 7) n
        (length b - length rest) refl in
    ground (arith, inner, two, three, simple)

unwrap_headed-ends :
    (go : Bytes → Result DecodeError Bytes) (b : Bytes) (m n : ℕ) (rest : Bytes)
    → ((r : Bytes) → length r ≤ length rest → is_spent (go r) ≡ false)
    → is_spent (unwrap_headed go b (m, n, rest)) ≡ false
unfolding unwrap_headed
unwrap_headed-ends go b m n rest h =
    let inner =
      bound_ends (strip_and_check_tags rest) go (strip_and_check_tags-ends rest)
        (λ r s. h r (strip_and_check_tags-shorter rest r s)) in
    ground (arith, inner)

pub tstr_field-ends :
    (fuel field : ℕ) (b : Bytes) → length b < fuel → is_spent (tstr_field fuel field b) ≡ false
unfolding tstr_field
tstr_field-ends fuel field b h =
    reader-ends strip_and_check_tags (λ go b h. tstr_headed go field b h)
      (λ k b. tstr_field k field b) strip_and_check_tags-shorter strip_and_check_tags-ends
      (tstr_headed-ends field) (λ k b. refl) fuel b h

pub bstr_field-ends :
    (fuel field : ℕ) (b : Bytes) → length b < fuel → is_spent (bstr_field fuel field b) ≡ false
unfolding bstr_field
bstr_field-ends fuel field b h =
    reader-ends strip_and_check_tags (λ go b h. bstr_headed go field b h)
      (λ k b. bstr_field k field b) strip_and_check_tags-shorter strip_and_check_tags-ends
      (bstr_headed-ends field) (λ k b. refl) fuel b h

pub int64_field-ends :
    (fuel : ℕ) (b : Bytes) → length b < fuel → is_spent (int64_field fuel b) ≡ false
unfolding int64_field
int64_field-ends fuel b h =
    reader-ends strip_and_check_tags (λ go b h. int64_headed go b h) (λ k b. int64_field k b)
      strip_and_check_tags-shorter strip_and_check_tags-ends int64_headed-ends (λ k b. refl) fuel b
      h

pub unwrap_doc-ends :
    (fuel : ℕ) (b : Bytes) → length b < fuel → is_spent (unwrap_doc fuel b) ≡ false
unfolding unwrap_doc
unwrap_doc-ends fuel b h =
    reader-ends ok (λ go b h. unwrap_headed go b h) (λ k b. unwrap_doc k b)
      (λ b b' e. omega (arith, ap length (ok_inj e))) (λ b. refl) unwrap_headed-ends (λ k b. refl)
      fuel b h
