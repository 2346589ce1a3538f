-- ===== src/Cbor/Ints.antt =====
-- Integers of src/cbor.rs.
use core_rs.Prelude.{
  ℕ, ◌+◌, ◌-◌, ◌^◌, ◌<◌, ◌≡◌, refl, arith, Option, none, some, [], ◌++◌, ◌==◌, if◌then◌else◌, ok,
}
use core_rs.Prelude.Bytes.{Bytes}
use core_rs.Prelude.Int.{ℤ, pos, negsuc}
use core_rs.Cbor.{append_int, read_head}
use core_rs.Cbor.Head.{read_head-append_head}

abbrev pub IsI64 : ℤ → Type 0
IsI64 (pos n) = n < 2 ^ 63
IsI64 (negsuc n) = n < 2 ^ 63

-- The integer that a head of major type 0 or 1 stands for (RFC 8949 section 3.1).
abbrev pub head_value : ℕ → ℕ → Option ℤ
head_value m n = if m == 0 then some (pos n) else if m == 1 then some (negsuc n) else none

abbrev pub int_head : ℤ → ℕ × ℕ
int_head (pos n) = (0, n)
int_head (negsuc n) = (1, n)

-- `append_int` writes one head, and that head stands for the integer, i64::MIN included.
pub read_head-append_int :
    (v : ℤ) (rest : Bytes)
    → IsI64 v
    → (m : ℕ) × (n : ℕ) × (read_head (append_int [] v ++ rest) ≡ ok (m, n, rest))
      × (head_value m n ≡ some v)
unfolding append_int
read_head-append_int (pos n) rest h =
    (0, n, read_head-append_head 0 (omega arith) n rest (omega arith), refl)
read_head-append_int (negsuc n) rest h =
    let e : 2 ^ 64 - 1 - (2 ^ 64 - (n + 1)) ≡ n = omega arith in
    (1, n, rw e (read_head-append_head 1 (omega arith) n rest (omega arith)), refl)
