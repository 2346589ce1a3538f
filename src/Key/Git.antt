-- ===== src/Key/Git.antt =====
-- The keys of git objects (`new_git_sha1`, `git_sha1_sum` of src/key.rs).
use core_rs.Prelude.{
  ℕ, zero, suc, subst, ◌+◌, ◌-◌, ◌*◌, ◌/◌, ◌%◌, ◌≤◌, ◌<◌, ◌≡◌, refl, sym, ap, ◌∙◌, arith, some, not,
  ◌==◌, length, take, slice, replicate, if◌then◌else◌, bit_and, Bool, true, false, [], ◌∷◌, ◌++◌,
  All, All-append, All-replicate, length-append, length-take, length-drop, get_or, ok, append_assoc,
  drop, min, ◌&&◌, leb,
}
use mathlib.Core.Path.{subst₂}
use core_rs.Prelude.Bytes.{Bytes, IsByte}
use core_rs.Key.{
  Key, IsArray, is_git, length_size, payload_length, hash, type_of, header, git_sha1, validate,
  parse, is_valid, has_git_tail, all_zero, new_git_sha1, git_sha1_sum, from_u8,
}
use core_rs.Key.Layout.{
  lay_out, lay_out_fields, header-lt, header-lay_out, front-lay_out, field-lay_out, size_bits,
}
use core_rs.Key.Accessors.{
  length_size-lay_out, payload_length-lay_out, is_git-lay_out, type_of-lay_out,
}
use core_rs.Key.RoundTrip.{parse_of_valid}
use core_rs.Key.Canonical.{IsCanonical}

abbrev zeros : Bytes
zeros = replicate 11 0

module _ (sum : Bytes) (a : IsArray 20 sum) where
  as_field : new_git_sha1 sum ≡ lay_out sum zeros 96
  unfolding new_git_sha1
  as_field = refl

  padded : Bytes
  padded = sum ++ replicate 10 0

  as_short_field : new_git_sha1 sum ≡ lay_out padded (0 ∷ []) 96
  unfolding new_git_sha1 padded
  as_short_field =
      ap (λ (b : Bytes). let y : Key = record { bytes = b } in y)
        (sym (append_assoc sum (replicate 10 0) (0 ∷ 96 ∷ [])))

  padded-len : length padded + 1 ≡ 31
  unfolding padded
  padded-len = omega (arith, length-append sum (replicate 10 0), a.len)

  pub is_git-new_git_sha1 : is_git (new_git_sha1 sum) ≡ true
  is_git-new_git_sha1 =
      rw as_short_field
        (is_git-lay_out padded (0 ∷ []) 96 1 padded-len refl (omega arith) (omega arith))

  bytes_prefix : take 20 (new_git_sha1 sum).bytes ≡ sum
  bytes_prefix = rw as_field (front-lay_out sum zeros 96 11 (omega (arith, a.len)) refl)

  tail : has_git_tail (new_git_sha1 sum) ≡ true
  unfolding has_git_tail all_zero
  tail =
      let fits : length sum + 11 ≡ 31 = omega (arith, a.len) in
      rw as_field
        (rw (header-lay_out sum zeros 96 11 fits refl, field-lay_out sum zeros 96 11 fits refl))

  valid : validate (new_git_sha1 sum) ≡ ok tt
  unfolding validate is_valid
  valid =
      let e1 : length_size (new_git_sha1 sum) ≡ 1 =
        rw as_short_field
          (length_size-lay_out padded (0 ∷ []) 96 1 padded-len refl (omega arith) (omega arith)) in
      let e2 : payload_length (new_git_sha1 sum) ≡ 0 = rw as_short_field (
        payload_length-lay_out padded (0 ∷ []) 96 1 padded-len refl (omega arith) (omega arith)
        ∙ unfold core_rs.Prelude.Bytes.from_le_bytes in refl) in
      let e3 : header (new_git_sha1 sum) ≡ 96 =
        rw as_short_field (header-lay_out padded (0 ∷ []) 96 1 padded-len refl) in
      rw (e1, e2, e3, is_git-new_git_sha1, tail) (ground arith)

  pub new_git_sha1-IsArray : IsArray 32 (new_git_sha1 sum).bytes
  unfolding new_git_sha1
  new_git_sha1-IsArray = record {
    len = omega (arith, length-append sum (zeros ++ 96 ∷ []), a.len);
    byte = All-append IsByte sum (zeros ++ 96 ∷ []) a.byte (
        All-append IsByte zeros (96 ∷ []) (All-replicate IsByte 11 0 (omega arith))
          (omega arith, tt));
  }

  -- `parse` accepts the key of a git object, the SHA-1 that it holds is the one it was made from,
  -- it is the key's hash, and the key's length field reads 0.
  pub new_git_sha1-accessors :
      (parse (new_git_sha1 sum).bytes ≡ ok (new_git_sha1 sum))
      × (git_sha1_sum (new_git_sha1 sum) ≡ some sum)
      × (hash (new_git_sha1 sum) ≡ sum)
      × (type_of (new_git_sha1 sum) ≡ some git_sha1)
      × (payload_length (new_git_sha1 sum) ≡ 0)
  unfolding git_sha1_sum hash from_u8
  new_git_sha1-accessors = (
    parse_of_valid _ new_git_sha1-IsArray.len valid,
    rw is_git-new_git_sha1 (ap some bytes_prefix),
    rw is_git-new_git_sha1 bytes_prefix,
    rw as_short_field
        (type_of-lay_out padded (0 ∷ []) 96 1 padded-len refl (omega arith) (omega arith)),
    rw as_short_field (
        payload_length-lay_out padded (0 ∷ []) 96 1 padded-len refl (omega arith) (omega arith)
        ∙ unfold core_rs.Prelude.Bytes.from_le_bytes in refl),
  )

all_zero-replicate : (bs : Bytes) (n : ℕ) → length bs ≡ n → all_zero bs ≡ true → bs ≡ replicate n 0
unfolding all_zero
all_zero-replicate [] zero l z = refl
all_zero-replicate [] (suc n) l z = absurd (omega arith)
all_zero-replicate (b ∷ bs) zero l z = absurd (omega arith)
all_zero-replicate (b ∷ bs) (suc n) l z = ground (arith, all_zero-replicate bs n)

module _ (k : Key) (a : IsArray 32 k.bytes) (c : IsCanonical k) (g : is_git k ≡ true) where
  middle-len : length (slice 20 31 k.bytes) ≡ 11
  middle-len = omega (arith, length-take 11 (drop 20 k.bytes), length-drop 20 k.bytes, a.len)

  middle : slice 20 31 k.bytes ≡ zeros
  middle = all_zero-replicate (slice 20 31 k.bytes) 11 middle-len zero_tail
    where
      zero_tail : all_zero (slice 20 31 k.bytes) ≡ true
      zero_tail = unfold has_git_tail in ground (arith, c.git_tail g)

  git_header : header k ≡ 96
  unfolding is_git has_git_tail
  git_header = ground (arith, size_bits (header k) (header-lt k a), c.git_tail g, c.no_reserved_bit)

  -- A canonical key of the git type is what `new_git_sha1` makes of its first 20 bytes.
  pub new_git_sha1-take : new_git_sha1 (take 20 k.bytes) ≡ k
  unfolding new_git_sha1
  new_git_sha1-take =
      subst₂ (λ (f : Bytes) (h : ℕ). lay_out (take 20 k.bytes) f h ≡ k) middle git_header
        (lay_out_fields k 11 a)
