-- ===== src/Key/Accessors.antt =====
-- The accessors of src/key.rs on a key laid out from its fields.
use core_rs.Prelude.{
  ℕ, ◌+◌, ◌-◌, ◌/◌, ◌%◌, ◌<◌, ◌≡◌, ◌≢◌, ap, arith, some, ◌==◌, length, reverse, false,
}
use core_rs.Prelude.Bytes.{Bytes, from_le_bytes, from_le_bytes-append_zeros}
use core_rs.Key.{ObjType, is_git, length_size, payload_length, hash, type_of, from_u8, to_u8}
use core_rs.Key.Layout.{lay_out, header-lay_out, front-lay_out, field-lay_out, size_bits}

pub from_u8-to_u8 : (t : ObjType) → from_u8 (to_u8 t) ≡ some t
unfolding from_u8
from_u8-to_u8 t = ground arith

module _ (front field : Bytes) (h ls : ℕ) (fits : length front + ls ≡ 31)
    (sized : length field ≡ ls) (small : h < 256) (size_field : h % 8 + 1 ≡ ls) where
  pub length_size-lay_out : length_size (lay_out front field h) ≡ ls
  unfolding length_size
  length_size-lay_out =
      rw (header-lay_out front field h ls fits sized) (omega (arith, size_bits h small))

  pub payload_length-lay_out : payload_length (lay_out front field h) ≡ from_le_bytes field
  unfolding payload_length
  payload_length-lay_out =
      rw length_size-lay_out
        (rw (field-lay_out front field h ls fits sized) (from_le_bytes-append_zeros field (8 - ls)))

  pub is_git-lay_out : is_git (lay_out front field h) ≡ (h / 16 == 6)
  unfolding is_git
  is_git-lay_out = rw (header-lay_out front field h ls fits sized)

  pub type_of-lay_out : type_of (lay_out front field h) ≡ from_u8 (h / 16)
  unfolding type_of
  type_of-lay_out = rw (header-lay_out front field h ls fits sized)

  pub hash-lay_out : h / 16 ≢ 6 → hash (lay_out front field h) ≡ reverse front
  unfolding hash
  hash-lay_out ng =
      let no_git : (h / 16 == 6) ≡ false = ground arith in
      rw (is_git-lay_out, no_git, length_size-lay_out)
        (ap reverse (front-lay_out front field h ls fits sized))
