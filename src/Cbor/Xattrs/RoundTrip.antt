-- ===== src/Cbor/Xattrs/RoundTrip.antt =====
-- `decode_xattrs` reads back the map that `encode_xattrs` wrote.
use core_rs.Prelude.{
  ℕ, suc, ◌+◌, ◌*◌, ◌/◌, ◌≤◌, ◌≡◌, refl, sym, ap, ◌∙◌, subst, arith, true, false, Option, none,
  some, List, [], ◌∷◌, ◌++◌, append-nil, append_assoc, length, ltb, if◌then◌else◌, ok, All,
  length-append, Bool-cases, inl, inr,
}
use core_rs.Prelude.Bytes.{Bytes, IsU64}
use core_rs.Prelude.Lex.{bytes_eq, bytes_eq_iff, bytes_eq_refl}
use core_rs.Prelude.ByteMap
use core_rs.Prelude.ByteMap.{ByteMap, get, keys, IsSorted, insert-IsSorted, get-insert}
use core_rs.Cbor.{append_head, append_bstr}
use core_rs.Cbor.Head.{read_head-append_head, length-append_head}
use core_rs.Cbor.Strings.{append_bstr_lem, read_bstr-append_bstr}
use core_rs.Cbor.Xattrs.{
  Xattrs, sort_names, write_pairs, encode_xattrs, read_pairs, finish, read_map, decode_xattrs,
}
use core_rs.Cbor.Xattrs.Sorting.{contains, contains-sort_names, length-sort_names}

-- The map has the name, and both strings have a length that a head can hold.
abbrev Present : Xattrs → Bytes → Type 0
Present m n = (v : Bytes) × (get n m ≡ some v) × IsU64 (length n) × IsU64 (length v)

abbrev value_or_nil : Option Bytes → Bytes
value_or_nil none = []
value_or_nil (some v) = v

-- What the decoding loop has inserted after the names `ns`.
collect : Xattrs → Xattrs → List Bytes → Xattrs
collect m acc [] = acc
collect m acc (n ∷ ns) = collect m (ByteMap.insert n (value_or_nil (get n m)) acc) ns

collect-IsSorted : (m acc : Xattrs) (ns : List Bytes) → IsSorted acc → IsSorted (collect m acc ns)
unfolding collect
collect-IsSorted m acc [] s = s
collect-IsSorted m acc (n ∷ ns) s =
    collect-IsSorted m (ByteMap.insert n (value_or_nil (get n m)) acc) ns
      (insert-IsSorted n (value_or_nil (get n m)) acc s)

get-collect :
    (m acc : Xattrs) (ns : List Bytes) (k : Bytes)
    → All (Present m) ns
    → get k (collect m acc ns) ≡ (if contains k ns then get k m else get k acc)
unfolding collect
get-collect m acc [] k h = refl
get-collect m acc (n ∷ ns) k ((v, e, _, _), h) = ground (
  arith,
  get-collect m (ByteMap.insert n (value_or_nil (get n m)) acc) ns k h,
  get-insert k n (value_or_nil (get n m)) acc,
  bytes_eq_iff n k,
  e,
)

-- One pair as it is written.
pair_bytes : Bytes → Bytes → Bytes
pair_bytes n v = append_bstr [] n ++ append_bstr [] v

write_pair : (out n v : Bytes) → append_bstr (append_bstr out n) v ≡ out ++ pair_bytes n v
unfolding pair_bytes
write_pair out n v =
    append_bstr_lem (append_bstr out n) v
    ∙ ap (λ b. b ++ append_bstr [] v) (append_bstr_lem out n)
    ∙ append_assoc out (append_bstr [] n) (append_bstr [] v)

length-pair_bytes : (n v : Bytes) → 2 ≤ length (pair_bytes n v)
unfolding pair_bytes append_bstr
length-pair_bytes n v = omega (
  arith,
  length-append (append_head [] 2 (length n) ++ n) (append_head [] 2 (length v) ++ v),
  length-append (append_head [] 2 (length n)) n,
  length-append (append_head [] 2 (length v)) v,
  length-append_head 2 (length n),
  length-append_head 2 (length v),
)

write_pairs_step :
    (m : Xattrs) (out n v : Bytes) (ns : List Bytes)
    → get n m ≡ some v
    → write_pairs m out (n ∷ ns) ≡ write_pairs m (append_bstr (append_bstr out n) v) ns
unfolding write_pairs
write_pairs_step m out n v ns e = ground arith

read_pair :
    (left i : ℕ) (acc : Xattrs) (n v rest : Bytes)
    → IsU64 (length n)
    → IsU64 (length v)
    → read_pairs (suc left) i acc (pair_bytes n v ++ rest)
      ≡ read_pairs left (i + 1) (ByteMap.insert n v acc) rest
unfolding pair_bytes read_pairs
read_pair left i acc n v rest hn hv = rw (
  append_assoc (append_bstr [] n) (append_bstr [] v) rest,
  read_bstr-append_bstr n (append_bstr [] v ++ rest) hn,
  read_bstr-append_bstr v rest hv,
)

-- The two loops, over any names of the map.
record Written (m : Xattrs) (ns : List Bytes) (out : Bytes) : Type 0 where
  tail : Bytes
  wrote : write_pairs m out ns ≡ some (out ++ tail)
  reads :
      (i : ℕ) (acc : Xattrs) (rest : Bytes)
      → read_pairs (length ns) i acc (tail ++ rest) ≡ ok (collect m acc ns, rest)
  long : 2 * length ns ≤ length tail

write_read : (m : Xattrs) (ns : List Bytes) (out : Bytes) → All (Present m) ns → Written m ns out
write_read m [] out h = record {
  tail = [];
  wrote = unfold write_pairs in ap some (sym (append-nil out));
  reads = λ i acc rest. unfold read_pairs collect in refl;
  long = omega arith;
}
write_read m (n ∷ ns) out ((v, e, hn, hv), h) =
    let w = write_read m ns (append_bstr (append_bstr out n) v) h in
    record {
      tail = pair_bytes n v ++ w.tail;
      wrote =
          write_pairs_step m out n v ns e
          ∙ w.wrote
          ∙ ap (λ (b : Bytes). some (b ++ w.tail)) (write_pair out n v)
          ∙ ap (λ (b : Bytes). some b) (append_assoc out (pair_bytes n v) w.tail);
      reads = λ i acc rest.
          rw
            (
              append_assoc (pair_bytes n v) w.tail rest,
              read_pair (length ns) i acc n v (w.tail ++ rest) hn hv,
            )
            (w.reads (i + 1) (ByteMap.insert n v acc) rest ∙ unfold collect in rw e);
      long = omega (arith, length-append (pair_bytes n v) w.tail, length-pair_bytes n v, w.long);
    }

-- A map whose strings all have lengths below 2 ^ 64, as they have in memory.
abbrev pub Fits : Xattrs → Type 0
Fits m = All (λ (p : Bytes × Bytes). IsU64 (length p.0) × IsU64 (length p.1)) m

Present-of_contains : (m : Xattrs) (k : Bytes) → Fits m → contains k (keys m) ≡ true → Present m k
unfolding get
Present-of_contains [] k f c = cc
Present-of_contains ((j, w) ∷ m) k ((fj, fw), f) c = elim (Bool-cases (bytes_eq j k)) [
  | inl p ↦ (w, rw p, subst (λ (x : Bytes). IsU64 (length x)) ((bytes_eq_iff j k).0 p) fj, fw)
  | inr p ↦ let (v, e, hk, hv) = Present-of_contains m k f (ground arith) in (v, rw p e, hk, hv)
]

get_of_not_contains : (m : Xattrs) (k : Bytes) → contains k (keys m) ≡ false → get k m ≡ none
unfolding get
get_of_not_contains [] k c = refl
get_of_not_contains ((j, w) ∷ m) k c = ground (arith, get_of_not_contains m k)

All-of_contains :
    {P : Bytes → Type 0} (l : List Bytes) → ((k : Bytes) → contains k l ≡ true → P k) → All P l
All-of_contains [] h = tt
All-of_contains (a ∷ l) h =
    (h a (ground (arith, bytes_eq_refl a)), All-of_contains l (λ k c. h k (ground arith)))

length-keys : (m : Xattrs) → length (keys m) ≡ length m
length-keys [] = refl
length-keys ((j, w) ∷ m) = ap suc (length-keys m)

module _ (m : Xattrs) (sorted : IsSorted m) (fits : Fits m) (few : IsU64 (length m)) where
  names : List Bytes
  names = sort_names (keys m)

  names-Present : All (Present m) names
  unfolding names
  names-Present =
      All-of_contains (sort_names (keys m))
        (λ k c. Present-of_contains m k fits (sym (contains-sort_names k (keys m)) ∙ c))

  names-len : length names ≡ length m
  unfolding names
  names-len = length-sort_names (keys m) ∙ length-keys m

  collected : collect m [] names ≡ m
  collected =
      ByteMap.ext (collect m [] names) m (collect-IsSorted m [] names tt) sorted
        (λ k. get-collect m [] names k names-Present ∙ same k)
    where
      same : (k : Bytes) → (if contains k names then get k m else get k []) ≡ get k m
      same k = elim (Bool-cases (contains k names)) [
        | inl p ↦ rw p
        | inr p ↦ rw p (
            unfold get in
            sym
              (get_of_not_contains m k (sym (contains-sort_names k (keys m)) ∙ unfold names in p)))
      ]

  head_bytes : Bytes
  head_bytes = append_head [] 5 (length m)

  written : Written m names head_bytes
  written = write_read m names head_bytes names-Present

  reads_all : read_map (5, length m, written.tail) ≡ ok m
  unfolding read_map finish
  reads_all =
      let w = written in
      let r : read_pairs (length m) 0 [] w.tail ≡ ok (m, []) =
        subst (λ n. read_pairs n 0 [] w.tail ≡ ok (m, [])) names-len
          (ap (λ (b : Bytes). read_pairs (length names) 0 [] b) (sym (append-nil w.tail))
            ∙ w.reads 0 [] []
            ∙ ap (λ x. ok (x, [])) collected) in
      let enough : ltb (length w.tail / 2) (length m) ≡ false = ground (arith, w.long, names-len) in
      rw (enough, r)

  -- `encode_xattrs` never misses a key that it looks up, and `decode_xattrs` gives back the map,
  -- whatever the order in which the names were written.
  pub decode_xattrs-encode_xattrs :
      (out : Bytes) × (encode_xattrs m ≡ some out) × (decode_xattrs out ≡ ok m)
  unfolding encode_xattrs decode_xattrs
  decode_xattrs-encode_xattrs =
      let w = written in
      (
        head_bytes ++ w.tail,
        unfold head_bytes names in w.wrote,
        unfold head_bytes in
            rw (read_head-append_head 5 (omega arith) (length m) w.tail few) reads_all,
      )
