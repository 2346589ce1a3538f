-- ===== src/Reference/Spelled.antt =====
-- What `encode_unchecked` of src/reference.rs writes, as its fields one behind the other.
use core_rs.Prelude.{
  ℕ, ◌≡◌, refl, sym, ap, ◌∙◌, [], ◌∷◌, ◌++◌, append-nil, append_assoc, length, if◌then◌else◌,
}
use core_rs.Prelude.Bytes.{Bytes}
use core_rs.Prelude.Int.{ℤ, pos, negsuc}
use core_rs.Cbor.{append_head, append_bstr, append_tstr, append_int}
use core_rs.Cbor.Head.{append_head_lem}
use core_rs.Cbor.Strings.{append_bstr_lem}
use core_rs.Reference.{Reference, is_empty, optional_field, pair_count_of, encode_unchecked}

-- A key and a value, with the bytes that follow.
abbrev pub pair : ℕ → Bytes → Bytes → Bytes
pair k value rest = append_head [] 0 k ++ (value ++ rest)

abbrev pub optional_pair : ℕ → Bytes → Bytes → Bytes
optional_pair k s rest = if is_empty s then rest else pair k (append_bstr [] s) rest

abbrev pub signature_pairs : Reference → Bytes
signature_pairs r = optional_pair 4 r.signature (optional_pair 5 r.public_key [])

abbrev pub pairs : Reference → Bytes
pairs r = pair 0 (append_tstr [] r.name) (
    pair 1 (append_bstr [] r.key)
      (pair 2 (append_tstr [] r.user) (pair 3 (append_int [] r.created_at) (signature_pairs r))))

append_tstr_lem : (b s : Bytes) → append_tstr b s ≡ b ++ append_tstr [] s
unfolding append_tstr
append_tstr_lem b s =
    ap (λ h. h ++ s) (append_head_lem b 3 (length s))
    ∙ append_assoc b (append_head [] 3 (length s)) s

append_int_lem : (b : Bytes) (v : ℤ) → append_int b v ≡ b ++ append_int [] v
unfolding append_int
append_int_lem b (pos n) = append_head_lem b 0 n
append_int_lem b (negsuc n) = append_head_lem b 1 _

-- A writer that keeps the buffer, behind a key.
keyed :
    (f : Bytes → Bytes) (value : Bytes)
    → ((b : Bytes) → f b ≡ b ++ value)
    → (b : Bytes) (k : ℕ) (rest : Bytes) → f (append_head b 0 k) ++ rest ≡ b ++ pair k value rest
keyed f value h b k rest =
    ap (λ x. x ++ rest) (h (append_head b 0 k))
    ∙ append_assoc (append_head b 0 k) value rest
    ∙ ap (λ x. x ++ (value ++ rest)) (append_head_lem b 0 k)
    ∙ append_assoc b (append_head [] 0 k) (value ++ rest)

optional_field_lem :
    (b : Bytes) (k : ℕ) (s rest : Bytes)
    → optional_field b k s ++ rest ≡ b ++ optional_pair k s rest
optional_field_lem b k [] rest = refl
optional_field_lem b k (x ∷ xs) rest =
    keyed (λ b. append_bstr b (x ∷ xs)) _ (λ b. append_bstr_lem b (x ∷ xs)) b k rest

pub encode_unchecked-pairs :
    (r : Reference) → encode_unchecked r ≡ append_head [] 5 (pair_count_of r) ++ pairs r
unfolding encode_unchecked
encode_unchecked-pairs r =
    let b0 = append_head [] 5 (pair_count_of r) in
    let b1 = append_tstr (append_head b0 0 0) r.name in
    let b2 = append_bstr (append_head b1 0 1) r.key in
    let b3 = append_tstr (append_head b2 0 2) r.user in
    let b4 = append_int (append_head b3 0 3) r.created_at in
    let s5 = optional_pair 5 r.public_key [] in
    let s4 = signature_pairs r in
    let s3 = pair 3 (append_int [] r.created_at) s4 in
    let s2 = pair 2 (append_tstr [] r.user) s3 in
    let s1 = pair 1 (append_bstr [] r.key) s2 in
    sym (append-nil (optional_field (optional_field b4 4 r.signature) 5 r.public_key))
    ∙ optional_field_lem (optional_field b4 4 r.signature) 5 r.public_key []
    ∙ optional_field_lem b4 4 r.signature s5
    ∙ keyed (λ b. append_int b r.created_at) _ (λ b. append_int_lem b r.created_at) b3 3 s4
    ∙ keyed (λ b. append_tstr b r.user) _ (λ b. append_tstr_lem b r.user) b2 2 s3
    ∙ keyed (λ b. append_bstr b r.key) _ (λ b. append_bstr_lem b r.key) b1 1 s2
    ∙ keyed (λ b. append_tstr b r.name) _ (λ b. append_tstr_lem b r.name) b0 0 s1
