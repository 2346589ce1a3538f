-- ===== src/Cbor/Strings.antt =====
-- Byte strings of src/cbor.rs.
use core_rs.Prelude.{
  ◌≡◌, refl, ap, ◌∙◌, arith, false, [], ◌++◌, append_assoc, length, ltb, ok, length-append,
  take-append, drop-append,
}
use core_rs.Prelude.Bytes.{Bytes, IsU64}
use core_rs.Cbor.{append_head, append_bstr, read_body, read_bstr}
use core_rs.Cbor.Head.{append_head_lem, read_head-append_head}

pub append_bstr_lem : (b s : Bytes) → append_bstr b s ≡ b ++ append_bstr [] s
unfolding append_bstr
append_bstr_lem b s =
    ap (λ h. h ++ s) (append_head_lem b 2 (length s))
    ∙ append_assoc b (append_head [] 2 (length s)) s

read_body-append : (s rest : Bytes) → read_body (2, length s, s ++ rest) ≡ ok (s, rest)
unfolding read_body
read_body-append s rest =
    let enough : ltb (length (s ++ rest)) (length s) ≡ false =
      ground (arith, length-append s rest) in
    rw (enough, take-append (length s) s rest refl, drop-append (length s) s rest refl)

-- A byte string that `append_bstr` wrote is read back, and the bytes behind it are left.
pub read_bstr-append_bstr :
    (s rest : Bytes) → IsU64 (length s) → read_bstr (append_bstr [] s ++ rest) ≡ ok (s, rest)
unfolding read_bstr append_bstr
read_bstr-append_bstr s rest h =
    rw
      (
        append_assoc (append_head [] 2 (length s)) s rest,
        read_head-append_head 2 (omega arith) (length s) (s ++ rest) h,
      )
      (read_body-append s rest)
