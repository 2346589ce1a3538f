-- ===== src/Gitobj/Links/Ids.antt =====
-- `id_line` of src/gitobj.rs reads back a line with an id in hex.
use core_rs.Prelude.{
  ℕ, zero, suc, ◌+◌, ◌*◌, ◌/◌, ◌%◌, ◌<◌, ◌≡◌, refl, sym, ap, ◌∙◌, arith, false, some, [], ◌∷◌, ◌++◌,
  append_assoc, length, drop, ltb, if◌then◌else◌, ok, length-append, get_or-append, drop-append,
  All,
}
use core_rs.Prelude.Bytes.{Bytes, IsByte}
use core_rs.Key.{IsArray, new_git_sha1}
use core_rs.Key.Layout.{nibbles}
use core_rs.Gitobj.Links.{
  hex_digit, hex_byte, hex_cons, hex_bytes, strip_prefix, id_behind, id_line,
}

-- A digit in lower case.
abbrev pub hex_char : ℕ → ℕ
hex_char d = if ltb d 10 then 48 + d else 87 + d

unfoldable pub to_hex : Bytes → Bytes
to_hex [] = []
to_hex (b ∷ bs) = hex_char (b / 16) ∷ hex_char (b % 16) ∷ to_hex bs

hex_digit-hex_char : (d : ℕ) → d < 16 → hex_digit (hex_char d) ≡ some d
unfolding hex_digit
hex_digit-hex_char d h = ground arith

hex_byte-split :
    (b : ℕ)
    → b < 256
    → hex_byte (hex_digit (hex_char (b / 16))) (hex_digit (hex_char (b % 16))) ≡ some b
unfolding hex_byte
hex_byte-split b h =
    let e : b / 16 * 16 % 256 ≡ b / 16 * 16 = omega arith in
    rw
      (
        hex_digit-hex_char (b / 16) (omega arith),
        hex_digit-hex_char (b % 16) (omega arith),
        e,
        nibbles (b / 16) (b % 16) (omega arith) (omega arith),
      )
      (ap some (omega arith))

hex_bytes-to_hex :
    (n : ℕ) (sum rest : Bytes)
    → length sum ≡ n
    → All IsByte sum
    → hex_bytes n (to_hex sum ++ rest) ≡ some sum
unfolding hex_bytes to_hex
hex_bytes-to_hex zero [] rest l a = refl
hex_bytes-to_hex zero (b ∷ sum) rest l a = absurd (omega arith)
hex_bytes-to_hex (suc n) [] rest l a = absurd (omega arith)
hex_bytes-to_hex (suc n) (b ∷ sum) rest l (hb, a) =
    rw (hex_byte-split b hb, hex_bytes-to_hex n sum rest (omega arith) a) (unfold hex_cons in refl)

length-to_hex : (sum : Bytes) → length (to_hex sum) ≡ 2 * length sum
unfolding to_hex
length-to_hex [] = refl
length-to_hex (b ∷ sum) = omega (arith, length-to_hex sum)

pub strip_prefix-append : (p b : Bytes) → strip_prefix (p ++ b) p ≡ some b
unfolding strip_prefix
strip_prefix-append [] b = refl
strip_prefix-append (x ∷ p) b = ground (arith, strip_prefix-append p b)

-- A line of the prefix and an id.
unfoldable pub id_text : Bytes → Bytes → Bytes
id_text prefix sum = prefix ++ (to_hex sum ++ 10 ∷ [])

pub id_text-append :
    (prefix sum rest : Bytes) → id_text prefix sum ++ rest ≡ prefix ++ (to_hex sum ++ 10 ∷ rest)
unfolding id_text
id_text-append prefix sum rest =
    append_assoc prefix (to_hex sum ++ 10 ∷ []) rest
    ∙ ap (λ r. prefix ++ r) (append_assoc (to_hex sum) (10 ∷ []) rest)

pub length-id_text :
    (prefix sum : Bytes) → length (id_text prefix sum) ≡ length prefix + 2 * length sum + 1
unfolding id_text
length-id_text prefix sum = omega (
  arith,
  length-append prefix (to_hex sum ++ 10 ∷ []),
  length-append (to_hex sum) (10 ∷ []),
  length-to_hex sum,
)

id_behind-hex :
    (prefix sum rest : Bytes)
    → IsArray 20 sum
    → id_behind prefix (some (to_hex sum ++ 10 ∷ rest)) ≡ ok (new_git_sha1 sum, rest)
unfolding id_behind
id_behind-hex prefix sum rest a =
    let len : length (to_hex sum) ≡ 40 = omega (arith, length-to_hex sum, a.len) in
    let all_len : length (to_hex sum ++ 10 ∷ rest) ≡ 41 + length rest =
      omega (arith, length-append (to_hex sum) (10 ∷ rest), len) in
    let long : ltb (length (to_hex sum ++ 10 ∷ rest)) 41 ≡ false = ground (arith, all_len) in
    let newline = get_or-append 40 (to_hex sum) 10 0 rest len in
    let behind : drop 41 (to_hex sum ++ 10 ∷ rest) ≡ rest =
      ap (drop 41) (sym (append_assoc (to_hex sum) (10 ∷ []) rest))
      ∙ drop-append 41 (to_hex sum ++ 10 ∷ []) rest
          (length-append (to_hex sum) (10 ∷ []) ∙ omega arith) in
    rw (long, newline, hex_bytes-to_hex 20 sum (10 ∷ rest) a.len a.byte, behind)

-- A line of the prefix, an id in hex and a newline is read as the key of that id, and what follows
-- the line is left.
pub id_line-id_text :
    (prefix sum rest : Bytes)
    → IsArray 20 sum
    → id_line (id_text prefix sum ++ rest) prefix ≡ ok (new_git_sha1 sum, rest)
unfolding id_line
id_line-id_text prefix sum rest a =
    rw (id_text-append prefix sum rest, strip_prefix-append prefix (to_hex sum ++ 10 ∷ rest))
      (id_behind-hex prefix sum rest a)
