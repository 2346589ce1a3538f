-- ===== src/Reference/Fuel.antt =====
-- The loops of src/reference.rs that take tags off end: their fuel is enough.
use core_rs.Prelude.{
  ℕ, zero, suc, false, ◌≤◌, ◌<◌, ◌≡◌, refl, sym, ap, ◌∙◌, arith, [], ◌∷◌, length, Result, ok, ◌>>=◌,
  Option-cases, Result-cases, inl, inr, ok_inj,
}
use core_rs.Prelude.Bytes.{Bytes}
use core_rs.Prelude.Int.{ℤ}
use core_rs.Cbor.{Head}
use core_rs.Reference.{DecodeError}
use core_rs.Reference.Wellformed.{head_of}
use core_rs.Reference.Tags.{
  peek_tag, strip_tags, strip_tag, check_tags, check_tag, strip_and_check_tags,
}
use core_rs.Reference.Fields.{
  tstr_field, tstr_headed, byte_elem, byte_headed, bstr_field, bstr_headed, int64_field,
  int64_headed,
}
use core_rs.Reference.Decode.{unwrap_doc, unwrap_headed}
use core_rs.Reference.Shorter.{head_of-shorter, peek_tag-shorter, strip_and_check_tags-shorter}
use core_rs.Reference.Ends.{
  is_spent, strip_tags-ends, check_tags-ends, tstr_field-ends, bstr_field-ends, byte_elem-ends,
  int64_field-ends, unwrap_doc-ends,
}

strip_tags-fuel :
    (f f' : ℕ) (b : Bytes) → length b < f → length b < f' → strip_tags f b ≡ strip_tags f' b
unfolding strip_tags strip_tag peek_tag
strip_tags-fuel zero f' b h h' = absurd (omega arith)
strip_tags-fuel (suc f) zero b h h' = absurd (omega arith)
strip_tags-fuel (suc f) (suc f') b h h' = elim (Option-cases (peek_tag b)) [
  | inl n ↦ rw n refl
  | inr ((tag, rest), s) ↦
      let less = peek_tag-shorter b tag rest s in
      rw s (ground (arith, strip_tags-fuel f f' rest (omega arith) (omega arith)))
]

check_tags-fuel :
    (f f' : ℕ) (b : Bytes) → length b < f → length b < f' → check_tags f b ≡ check_tags f' b
unfolding check_tags check_tag peek_tag
check_tags-fuel zero f' b h h' = absurd (omega arith)
check_tags-fuel (suc f) zero b h h' = absurd (omega arith)
check_tags-fuel (suc f) (suc f') b h h' = elim (Option-cases (peek_tag b)) [
  | inl n ↦ rw n refl
  | inr ((tag, []), s) ↦ rw s refl
  | inr ((tag, c ∷ rest), s) ↦
      let less = peek_tag-shorter b tag (c ∷ rest) s in
      rw s (ground (arith, check_tags-fuel f f' (c ∷ rest) (omega arith) (omega arith)))
]

-- A reader that goes on behind a head, with `front` to take the tags off before it.
module _ {A : Type 0} (front : Bytes → Result DecodeError Bytes)
    (g : (Bytes → Result DecodeError A) → Bytes → Head → Result DecodeError A)
    (f : ℕ → Bytes → Result DecodeError A)
    (front_shorter : (b b' : Bytes) → front b ≡ ok b' → length b' ≤ length b)
    (local : (go go' : Bytes → Result DecodeError A) (b : Bytes) (m n : ℕ) (rest : Bytes)
      → ((r : Bytes) → length r ≤ length rest → go r ≡ go' r)
      → g go b (m, n, rest) ≡ g go' b (m, n, rest))
    (step : (fuel : ℕ) (b : Bytes)
      → f (suc fuel) b ≡ (front b >>= λ b'. (head_of b' >>= g (f fuel) b'))) where
  reader-fuel : (k k' : ℕ) (b : Bytes) → length b < k → length b < k' → f k b ≡ f k' b
  reader-fuel zero k' b h h' = absurd (omega arith)
  reader-fuel (suc k) zero b h h' = absurd (omega arith)
  reader-fuel (suc k) (suc k') b h h' =
      step k b
      ∙ elim (Result-cases (front b)) [
        | inr (e, s) ↦ rw s refl
        | inl (b', s) ↦ elim (Result-cases (head_of b')) [
          | inr (e, t) ↦ rw (s, t) refl
          | inl ((m, n, rest), t) ↦
              let less = head_of-shorter b' m n rest t in
              let le = front_shorter b b' s in
              rw (s, t)
                (local (f k) (f k') b' m n rest
                  (λ r l. reader-fuel k k' r (omega (arith, l)) (omega (arith, l))))
        ]
      ]
      ∙ sym (step k' b)

tstr_headed-local :
    (field : ℕ) (go go' : Bytes → Result DecodeError (Bytes × Bytes)) (b : Bytes) (m n : ℕ)
    (rest : Bytes)
    → ((r : Bytes) → length r ≤ length rest → go r ≡ go' r)
    → tstr_headed go field b (m, n, rest) ≡ tstr_headed go' field b (m, n, rest)
unfolding tstr_headed
tstr_headed-local field go go' b m n rest h = let same = h rest (omega arith) in rw same refl

bstr_headed-local :
    (field : ℕ) (go go' : Bytes → Result DecodeError (Bytes × Bytes)) (b : Bytes) (m n : ℕ)
    (rest : Bytes)
    → ((r : Bytes) → length r ≤ length rest → go r ≡ go' r)
    → bstr_headed go field b (m, n, rest) ≡ bstr_headed go' field b (m, n, rest)
unfolding bstr_headed
bstr_headed-local field go go' b m n rest h = let same = h rest (omega arith) in rw same refl

byte_headed-local :
    (field : ℕ) (go go' : Bytes → Result DecodeError (ℕ × Bytes)) (b : Bytes) (m n : ℕ)
    (rest : Bytes)
    → ((r : Bytes) → length r ≤ length rest → go r ≡ go' r)
    → byte_headed go field b (m, n, rest) ≡ byte_headed go' field b (m, n, rest)
unfolding byte_headed
byte_headed-local field go go' b m n rest h = let same = h rest (omega arith) in rw same refl

int64_headed-local :
    (go go' : Bytes → Result DecodeError (ℤ × Bytes)) (b : Bytes) (m n : ℕ) (rest : Bytes)
    → ((r : Bytes) → length r ≤ length rest → go r ≡ go' r)
    → int64_headed go b (m, n, rest) ≡ int64_headed go' b (m, n, rest)
unfolding int64_headed
int64_headed-local go go' b m n rest h = let same = h rest (omega arith) in rw same refl

unwrap_headed-local :
    (go go' : Bytes → Result DecodeError Bytes) (b : Bytes) (m n : ℕ) (rest : Bytes)
    → ((r : Bytes) → length r ≤ length rest → go r ≡ go' r)
    → unwrap_headed go b (m, n, rest) ≡ unwrap_headed go' b (m, n, rest)
unfolding unwrap_headed
unwrap_headed-local go go' b m n rest h = elim (Result-cases (strip_and_check_tags rest)) [
  | inr (e, s) ↦ rw s refl
  | inl (r, s) ↦ let same = h r (strip_and_check_tags-shorter rest r s) in rw s (rw same refl)
]

-- The loop with this fuel does not run out of it, and more fuel changes nothing.
abbrev pub Ends : {A : Type 0} → (ℕ → Bytes → Result DecodeError A) → ℕ → Bytes → Type 0
Ends f fuel b = (is_spent (f fuel b) ≡ false) × (f fuel b ≡ f (suc (length b)) b)

-- Every loop and every recursion of the decoder that takes tags off ends, on any bytes: with fuel
-- for each byte of its input and for one round more it does not run out of it, and more fuel gives
-- the same outcome.
pub fuel_enough :
    (b : Bytes) (fuel field : ℕ)
    → length b < fuel
    → Ends strip_tags fuel b
      × Ends check_tags fuel b
      × Ends (λ k. tstr_field k field) fuel b
      × Ends (λ k. bstr_field k field) fuel b
      × Ends (λ k. byte_elem k field) fuel b
      × Ends int64_field fuel b
      × Ends unwrap_doc fuel b
unfolding tstr_field bstr_field byte_elem int64_field unwrap_doc
fuel_enough b fuel field h =
    let front = strip_and_check_tags in
    let shorter = strip_and_check_tags-shorter in
    let le : length b < suc (length b) = omega arith in
    (
      (strip_tags-ends fuel b h, strip_tags-fuel fuel (suc (length b)) b h le),
      (check_tags-ends fuel b h, check_tags-fuel fuel (suc (length b)) b h le),
      (
        tstr_field-ends fuel field b h,
        reader-fuel front (λ go b h. tstr_headed go field b h) (λ k b. tstr_field k field b) shorter
            (tstr_headed-local field) (λ k b. refl) fuel (suc (length b)) b h le,
      ),
      (
        bstr_field-ends fuel field b h,
        reader-fuel front (λ go b h. bstr_headed go field b h) (λ k b. bstr_field k field b) shorter
            (bstr_headed-local field) (λ k b. refl) fuel (suc (length b)) b h le,
      ),
      (
        byte_elem-ends fuel field b h,
        reader-fuel front (λ go b h. byte_headed go field b h) (λ k b. byte_elem k field b) shorter
            (byte_headed-local field) (λ k b. refl) fuel (suc (length b)) b h le,
      ),
      (
        int64_field-ends fuel b h,
        reader-fuel front (λ go b h. int64_headed go b h) (λ k b. int64_field k b) shorter
            int64_headed-local (λ k b. refl) fuel (suc (length b)) b h le,
      ),
      (
        unwrap_doc-ends fuel b h,
        reader-fuel ok (λ go b h. unwrap_headed go b h) (λ k b. unwrap_doc k b)
            (λ b b' e. omega (arith, ap length (ok_inj e))) unwrap_headed-local (λ k b. refl) fuel
            (suc (length b)) b h le,
      ),
    )
