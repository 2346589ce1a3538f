-- ===== src/Fstree/Sizes.antt =====
-- The keys of the objects of src/fstree/encode.rs: their types and lengths.
use core_rs.Prelude.{
  ℕ, ◌+◌, ◌%◌, ◌^◌, ◌<◌, ◌≡◌, ◌≢◌, ap, ◌∙◌, subst, arith, Option, some, List, [], ◌∷◌, map, length,
  All, ok, ◌>>=◌,
}
use core_rs.Prelude.Bytes.{Bytes, IsU64}
use core_rs.Key.{
  Key, ObjType, IsArray, blob, file_node, dir_node, git_sha1, payload_length, type_of,
}
use core_rs.Key as KeyModule
use core_rs.Key.RoundTrip.{new_from_hash-accessors, parse-new_from_hash}
use core_rs.Cbor.{append_head, append_bstr, major_array}
use core_rs.Fstree.{
  Object, DirPair, object, with_key, append_children, sum_pairs, encode_blob, encode_file_node,
  encode_dir_node, marshal_pairs,
}

-- An object under a canonical key of the type and the length.
abbrev pub IsObject : ObjType → ℕ → Option Object → Type 0
IsObject t n made =
    (o : Object) × (made ≡ some o)
    × (type_of o.key ≡ some t)
    × (payload_length o.key ≡ n)
    × (KeyModule.parse o.key.bytes ≡ ok o.key)

-- The lengths of keys put together.
unfoldable pub total : List Key → ℕ
total [] = 0
total (k ∷ ks) = payload_length k + total ks

abbrev pub pair_of : Bytes × Key → DirPair
pair_of (sep, k) = record { sep_name = sep; child_key = k.bytes }

append_children-total :
    (b : Bytes) (sum : ℕ) (ks : List Key)
    → (append_children b sum ks).1 % 2 ^ 64 ≡ (sum + total ks) % 2 ^ 64
unfolding append_children total
append_children-total b sum [] = ap (λ n. n % 2 ^ 64) (omega arith)
append_children-total b sum (k ∷ ks) =
    append_children-total (append_bstr b k.bytes) ((sum + payload_length k) % 2 ^ 64) ks
    ∙ omega arith

append_children-lt :
    (b : Bytes) (sum : ℕ) (ks : List Key) → sum < 2 ^ 64 → (append_children b sum ks).1 < 2 ^ 64
unfolding append_children
append_children-lt b sum [] h = h
append_children-lt b sum (k ∷ ks) h =
    append_children-lt (append_bstr b k.bytes) ((sum + payload_length k) % 2 ^ 64) ks (omega arith)

sum_pairs-total :
    (sub : ℕ) (ps : List (Bytes × Key))
    → sub < 2 ^ 64
    → All (λ p. KeyModule.parse p.1.bytes ≡ ok p.1) ps
    → sum_pairs sub (map pair_of ps) ≡ ok ((sub + total (map (λ p. p.1) ps)) % 2 ^ 64)
unfolding sum_pairs total
sum_pairs-total sub [] h a = ap ok (omega (arith, h))
sum_pairs-total sub ((sep, k) ∷ ps) h (e, a) =
    rw e
      (sum_pairs-total ((sub + payload_length k) % 2 ^ 64) ps (omega arith) a ∙ ap ok (omega arith))

module _ (blake3 : Bytes → Bytes) (hashes : (b : Bytes) → IsArray 32 (blake3 b)) where
  object-IsObject :
      (t : ObjType) (n : ℕ) (b : Bytes)
      → t ≢ git_sha1
      → IsU64 n
      → IsObject t n (object blake3 t n b)
  unfolding object with_key KeyModule.new
  object-IsObject t n b ng fits =
      let (k, made, ty, _, len, _) = new_from_hash-accessors t n (blake3 b) ng fits (hashes b) in
      let (_, parsed) = parse-new_from_hash t n (blake3 b) k fits (hashes b) made in
      let o : Object = record { key = k; bytes = b } in (o, ap (with_key b) made, ty, len, parsed)

  -- With a hash of 32 bytes the keys are canonical and have their types. A blob's length is that of
  -- its bytes; a file node's is the sum of its children's; a directory node of pairs whose keys are
  -- canonical has its own bytes and the sum of its children's. Sums are taken modulo 2 ^ 64.
  pub encoded_lengths :
      (data' : Bytes) (children : List Key) (pairs : List (Bytes × Key))
      → IsU64 (length data')
      → All (λ p. KeyModule.parse p.1.bytes ≡ ok p.1) pairs
      → IsObject blob (length data') (encode_blob blake3 data')
        × IsObject file_node (total children % 2 ^ 64) (encode_file_node blake3 children)
        × ((o : Option Object) × (encode_dir_node blake3 (map pair_of pairs) ≡ ok o)
            × IsObject dir_node
                ((length (marshal_pairs (map pair_of pairs)) + total (map (λ p. p.1) pairs))
                  % 2 ^ 64)
                o)
  unfolding encode_blob encode_file_node encode_dir_node
  encoded_lengths data' children pairs fits canonical =
      let b = append_head [] major_array (length children) in
      let sum = append_children-total b 0 children in
      let lt = append_children-lt b 0 children (omega arith) in
      let is : (append_children b 0 children).1 ≡ total children % 2 ^ 64 =
        omega (arith, sum, lt) in
      let bytes = marshal_pairs (map pair_of pairs) in
      let ks = map (λ (p : Bytes × Key). p.1) pairs in
      let n : (length bytes + (0 + total ks) % 2 ^ 64) % 2 ^ 64
          ≡ (length bytes + total ks) % 2 ^ 64 =
        omega arith in
      (
        object-IsObject blob (length data') data' (λ e. ground arith) fits,
        subst
            (λ m. IsObject file_node m (
              object blake3 file_node (append_children b 0 children).1
                (append_children b 0 children).0))
            is (object-IsObject file_node _ _ (λ e. ground arith) lt),
        (
          object blake3 dir_node ((length bytes + (0 + total ks) % 2 ^ 64) % 2 ^ 64) bytes,
          ap (λ r. r >>= λ sub. ok (object blake3 dir_node ((length bytes + sub) % 2 ^ 64) bytes))
              (sum_pairs-total 0 pairs (omega arith) canonical),
          subst
              (λ m.
                IsObject dir_node m (
                  object blake3 dir_node ((length bytes + (0 + total ks) % 2 ^ 64) % 2 ^ 64) bytes))
              n
              (object-IsObject dir_node ((length bytes + (0 + total ks) % 2 ^ 64) % 2 ^ 64) bytes
                (λ e. ground arith) (omega arith)),
        ),
      )
