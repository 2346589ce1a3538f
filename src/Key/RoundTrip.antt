-- ===== src/Key/RoundTrip.antt =====
-- What the constructors of src/key.rs make: the accessors read it back, and `parse` accepts it.
use core_rs.Prelude.{
  ℕ, zero, suc, subst, All-reverse, ◌+◌, ◌-◌, ◌*◌, ◌/◌, ◌%◌, ◌^◌, ◌<◌, ◌≡◌, ◌≢◌, refl, ◌∙◌, arith,
  some, ◌==◌, length, take, reverse, reverse-reverse, length-take, length-reverse, length-append,
  true, [], ◌∷◌, ◌++◌, All-append, All-take, get_or, get_or-append_left, get_or-append_right, ok,
}
use core_rs.Prelude.Bytes.{
  Bytes, IsByte, IsU64, from_le_bytes, to_le_bytes, length-to_le_bytes, to_le_bytes-IsByte,
  take-to_le_bytes, from_le_bytes-to_le_bytes, lt_of_top_byte_zero,
}
use core_rs.Key.{
  Key, ObjType, IsArray, length_size, payload_length, hash, type_of, to_u8, git_sha1,
  length_size_for, new_from_hash, validate, parse, is_valid, is_blake3,
}
use core_rs.Key.LengthSize.{length_size_for_range, lt_pow-length_size_for, length_size_for-le}
use core_rs.Key.Layout.{lay_out, header-lay_out, header_byte_lem, reserved_bit}
use core_rs.Key.Accessors.{
  length_size-lay_out, payload_length-lay_out, is_git-lay_out, type_of-lay_out, hash-lay_out,
  from_u8-to_u8,
}

-- The byte before the header is the top byte of the length field.
pub top_byte-lay_out :
    (front field : Bytes) (h j : ℕ)
    → length front + suc j ≡ 31
    → length field ≡ suc j
    → get_or (lay_out front field h).bytes 30 0 ≡ get_or field j 0
top_byte-lay_out front field h j fits sized =
    get_or-append_right 30 front (field ++ h ∷ []) j 0 (omega arith)
    ∙ get_or-append_left field (h ∷ []) j 0 (omega arith)

-- What `validate` asks of a key that is not a git object's, field by field.
pub validate-lay_out :
    (front field : Bytes) (h j : ℕ)
    → length front + suc j ≡ 31
    → length field ≡ suc j
    → h < 96
    → h % 16 ≡ j
    → j < 8
    → (get_or field j 0 ≡ 0 → (j ≡ 0) × (from_le_bytes field ≡ 0))
    → validate (lay_out front field h) ≡ ok tt
unfolding validate is_valid
validate-lay_out front field h j fits sized small size_field j8 minimal =
    let e1 = length_size-lay_out front field h (suc j) fits sized (omega arith) (omega arith) in
    let e2 = payload_length-lay_out front field h (suc j) fits sized (omega arith) (omega arith) in
    let e3 = is_git-lay_out front field h (suc j) fits sized (omega arith) (omega arith) in
    let e4 = header-lay_out front field h (suc j) fits sized in
    let e5 = top_byte-lay_out front field h j fits sized in
    rw (e1, e2, e3, e4, e5) (ground (arith, reserved_bit h (omega arith), minimal))

module _ (t : ObjType) (n : ℕ) (full : Bytes) (not_git : t ≢ git_sha1) (fits : IsU64 n)
    (hashed : IsArray 32 full) where
  ls : ℕ
  ls = length_size_for n

  made : Key
  unfolding ls
  made = lay_out (reverse (take (31 - ls) full)) (to_le_bytes ls n) (to_u8 t * 16 + (ls - 1))

  tag-lt : to_u8 t < 6
  tag-lt = ground arith

  new_from_hash-made : new_from_hash t n full ≡ some made
  unfolding new_from_hash made ls
  new_from_hash-made =
      let r = length_size_for_range n fits in
      rw (
        take-to_le_bytes (length_size_for n) 8 n r.1,
        header_byte_lem (to_u8 t) (length_size_for n) (omega (arith, tag-lt)) r.0 r.1,
        blake,
      )
    where
      blake : is_blake3 t ≡ true
      blake = ground arith

  front-len : length (reverse (take (31 - ls) full)) + ls ≡ 31
  unfolding ls
  front-len = omega (
    arith,
    length-reverse (take (31 - length_size_for n) full),
    length-take (31 - length_size_for n) full,
    hashed.len,
    length_size_for_range n fits,
  )

  header_fields :
      (to_u8 t * 16 + (ls - 1) < 96)
      × ((to_u8 t * 16 + (ls - 1)) % 8 + 1 ≡ ls)
      × ((to_u8 t * 16 + (ls - 1)) / 16 ≡ to_u8 t)
      × ((to_u8 t * 16 + (ls - 1)) % 16 + 1 ≡ ls)
  unfolding ls
  header_fields =
      let a = tag-lt in
      let r = length_size_for_range n fits in
      (omega (arith, a, r), omega (arith, a, r), omega (arith, a, r), omega (arith, a, r))

  -- The accessors of a made key read back what it was made of.
  made_fields :
      (type_of made ≡ some t)
      × (length_size made ≡ length_size_for n)
      × (payload_length made ≡ n)
      × (hash made ≡ take (31 - length_size_for n) full)
  unfolding made
  made_fields =
      let r = reverse (take (31 - ls) full) in
      let f = to_le_bytes ls n in
      let h : ℕ = to_u8 t * 16 + (ls - 1) in
      let sized = length-to_le_bytes ls n in
      let hf = header_fields in
      let small : h < 256 = omega arith in
      (
        type_of-lay_out r f h ls front-len sized small hf.1 ∙ (rw hf.2 (from_u8-to_u8 t)),
        unfold ls in length_size-lay_out r f h ls front-len sized small hf.1,
        payload_length-lay_out r f h ls front-len sized small hf.1
            ∙ from_le_bytes-to_le_bytes ls n (unfold ls in lt_pow-length_size_for n fits),
        hash-lay_out r f h ls front-len sized small hf.1 (omega (arith, hf.2, tag-lt))
            ∙ unfold ls in reverse-reverse (take (31 - length_size_for n) full),
      )

  minimal_field :
      (j : ℕ)
      → ls ≡ suc j
      → get_or (to_le_bytes ls n) j 0 ≡ 0
      → (j ≡ 0) × (from_le_bytes (to_le_bytes ls n) ≡ 0)
  unfolding ls
  minimal_field j e top =
      let field = to_le_bytes (length_size_for n) n in
      let bound : n < 256 ^ suc j = rw (← e) (lt_pow-length_size_for n fits) in
      let small : n < 256 ^ j =
        lt_of_top_byte_zero j n bound (subst (λ w. get_or (to_le_bytes w n) j 0 ≡ 0) e top) in
      let read : from_le_bytes field ≡ n =
        from_le_bytes-to_le_bytes (length_size_for n) n (lt_pow-length_size_for n fits) in
      (short j e small, read ∙ shrink j e small)
    where
      short : (i : ℕ) → length_size_for n ≡ suc i → n < 256 ^ i → i ≡ 0
      short zero d s = refl
      short (suc i) d s = absurd (omega (arith, length_size_for-le (suc i) n (omega arith) s))

      shrink : (i : ℕ) → length_size_for n ≡ suc i → n < 256 ^ i → n ≡ 0
      shrink zero d s = omega arith
      shrink (suc i) d s = absurd (omega (arith, length_size_for-le (suc i) n (omega arith) s))

  made-valid : validate made ≡ ok tt
  unfolding made
  made-valid =
      let r = length_size_for_range n fits in
      let hf = header_fields in
      let e : ls ≡ suc (ls - 1) = unfold ls in omega arith in
      validate-lay_out (reverse (take (31 - ls) full)) (to_le_bytes ls n) (to_u8 t * 16 + (ls - 1))
        (ls - 1) (omega (arith, front-len)) (omega (arith, length-to_le_bytes ls n)) hf.0
        (omega (arith, hf.3)) (unfold ls in omega (arith, r)) (minimal_field (ls - 1) e)

  made-IsArray : IsArray 32 made.bytes
  unfolding made
  made-IsArray = record {
    len =
        length-append (reverse (take (31 - ls) full)) (to_le_bytes ls n ++ _ ∷ [])
        ∙ omega (arith, length-append (to_le_bytes ls n) _, length-to_le_bytes ls n, front-len);
    byte =
        All-append IsByte (reverse (take (31 - ls) full)) _
          (All-reverse IsByte _ (All-take IsByte (31 - ls) full hashed.byte))
          (All-append IsByte (to_le_bytes ls n) _ (to_le_bytes-IsByte ls n)
            (omega (arith, header_fields), tt));
  }

-- Outside git objects the constructor does not panic, and the accessors of the key that it makes
-- read back the type, the length in its least field, and the prefix of the digest that fits.
pub new_from_hash-accessors :
    (t : ObjType) (n : ℕ) (full : Bytes)
    → t ≢ git_sha1
    → IsU64 n
    → IsArray 32 full
    → (k : Key) × (new_from_hash t n full ≡ some k)
      × (type_of k ≡ some t)
      × (length_size k ≡ length_size_for n)
      × (payload_length k ≡ n)
      × (hash k ≡ take (31 - length_size_for n) full)
new_from_hash-accessors t n full ng fits hashed =
    let f = made_fields t n full ng fits hashed in
    (made t n full ng fits hashed, new_from_hash-made t n full ng fits hashed, f.0, f.1, f.2, f.3)

made_not_git :
    (t : ObjType) (n : ℕ) (full : Bytes) (k : Key) → new_from_hash t n full ≡ some k → t ≢ git_sha1
unfolding new_from_hash
made_not_git t n full k e g = ground arith

pub parse_of_valid : (k : Key) → length k.bytes ≡ 32 → validate k ≡ ok tt → parse k.bytes ≡ ok k
unfolding parse
parse_of_valid k len valid = let e : (length k.bytes == 32) ≡ true = ground arith in rw (e, valid)

-- Every key that `new_from_hash` makes is an array of 32 bytes that `parse` accepts unchanged.
pub parse-new_from_hash :
    (t : ObjType) (n : ℕ) (full : Bytes) (k : Key)
    → IsU64 n
    → IsArray 32 full
    → new_from_hash t n full ≡ some k
    → IsArray 32 k.bytes × (parse k.bytes ≡ ok k)
parse-new_from_hash t n full k fits hashed e =
    let ng = made_not_git t n full k e in
    let same : made t n full ng fits hashed ≡ k =
      cc (e, new_from_hash-made t n full ng fits hashed) in
    let a = made-IsArray t n full ng fits hashed in
    subst (λ (x : Key). IsArray 32 x.bytes × (parse x.bytes ≡ ok x)) same
      (a, parse_of_valid _ a.len (made-valid t n full ng fits hashed))
