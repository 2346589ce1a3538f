-- ===== src/Footer/Rows.antt =====
-- The rows and the fanout of an index section (src/packstore/footer.rs), where they are read.
use core_rs.Prelude.{
  ℕ, zero, suc, ◌+◌, ◌*◌, ◌^◌, ◌<◌, ◌≡◌, refl, sym, ap, ◌∙◌, arith, false, List, [], ◌∷◌, ◌++◌, map,
  concat, append_assoc, append-nil, length, get_or, take, drop, ltb, All, ok, length-append,
  take-append, drop-append, drop-drop,
}
use mathlib.Core.Path.{ap₂}
use core_rs.Prelude.Bytes.{
  Bytes, to_be_bytes, from_be_bytes, length-to_be_bytes, from_be_bytes-to_be_bytes,
}
use core_rs.Amberpack.{be_u32}
use core_rs.Amberpack.Layout.{be_u32-field}
use core_rs.Footer.{IndexEntry, row_bytes, row_key, row_value, fanout_bytes, read_fanout, count}
use core_rs.Footer.Search.{below, below_suc, counting-le_length}

-- An entry of the Rust types' ranges.
pub record IsEntry (e : IndexEntry) : Type 0 where
  pub key_len : length e.k.bytes ≡ 32
  pub first_lt : get_or e.k.bytes 0 0 < 256
  pub off_lt : e.off < 2 ^ 64
  pub slen_lt : e.slen < 2 ^ 32

abbrev pub rows : List IndexEntry → Bytes
rows s = concat (map row_bytes s)

length-row_bytes : (e : IndexEntry) → IsEntry e → length (row_bytes e) ≡ 44
length-row_bytes e v = omega (
  arith,
  v.key_len,
  length-append e.k.bytes (to_be_bytes 8 e.off ++ to_be_bytes 4 e.slen),
  length-append (to_be_bytes 8 e.off) (to_be_bytes 4 e.slen),
  length-to_be_bytes 8 e.off,
  length-to_be_bytes 4 e.slen,
)

pub length-rows : (s : List IndexEntry) → All IsEntry s → length (rows s) ≡ length s * 44
length-rows [] a = refl
length-rows (e ∷ s) (v, a) =
    omega (arith, length-append (row_bytes e) (rows s), length-row_bytes e v, length-rows s a)

drop-rows :
    (s : List IndexEntry) (i : ℕ) (d : IndexEntry)
    → All IsEntry s
    → i < length s
    → drop (i * 44) (rows s) ≡ row_bytes (get_or s i d) ++ rows (drop (i + 1) s)
drop-rows [] i d a h = absurd (omega arith)
drop-rows (e ∷ s) zero d a h = refl
drop-rows (e ∷ s) (suc i) d (v, a) h =
    let len = length-row_bytes e v in
    let n : suc i * 44 ≡ 44 + i * 44 = omega arith in
    let n' : suc i + 1 ≡ suc (i + 1) = omega arith in
    ap (λ k. drop k (row_bytes e ++ rows s)) n
    ∙ sym (drop-drop (i * 44) 44 (row_bytes e ++ rows s))
    ∙ ap (drop (i * 44)) (drop-append 44 (row_bytes e) (rows s) len)
    ∙ drop-rows s i d a (omega arith)
    ∙ ap (λ k. row_bytes (get_or s i d) ++ rows (drop k (e ∷ s))) (sym n')

pub row_key-rows :
    (s : List IndexEntry) (i : ℕ) (d : IndexEntry)
    → All IsEntry s
    → IsEntry (get_or s i d)
    → i < length s
    → row_key (rows s) i ≡ (get_or s i d).k.bytes
row_key-rows s i d a v h =
    let e = get_or s i d in
    let tail = to_be_bytes 8 e.off ++ to_be_bytes 4 e.slen in
    ap (take 32) (drop-rows s i d a h ∙ append_assoc e.k.bytes tail (rows (drop (i + 1) s)))
    ∙ take-append 32 e.k.bytes (tail ++ rows (drop (i + 1) s)) v.key_len

pub row_value-rows :
    (s : List IndexEntry) (i : ℕ) (d : IndexEntry)
    → All IsEntry s
    → IsEntry (get_or s i d)
    → i < length s
    → row_value (rows s) i ≡ ((get_or s i d).off, (get_or s i d).slen)
row_value-rows s i d a v h =
    let e = get_or s i d in
    let o = to_be_bytes 8 e.off in
    let n = to_be_bytes 4 e.slen in
    let whole : take 44 (drop (i * 44) (rows s)) ≡ row_bytes e =
      ap (take 44) (drop-rows s i d a h)
      ∙ take-append 44 (row_bytes e) (rows (drop (i + 1) s)) (length-row_bytes e v) in
    let at_off : from_be_bytes (take 8 (drop 32 (row_bytes e))) ≡ e.off =
      ap (λ x. from_be_bytes (take 8 x)) (drop-append 32 e.k.bytes (o ++ n) v.key_len)
      ∙ ap from_be_bytes (take-append 8 o n (length-to_be_bytes 8 e.off))
      ∙ from_be_bytes-to_be_bytes 8 e.off (omega (arith, v.off_lt)) in
    let behind : drop 40 (row_bytes e) ≡ n ++ [] =
      sym (drop-drop 8 32 (row_bytes e))
      ∙ ap (drop 8) (drop-append 32 e.k.bytes (o ++ n) v.key_len)
      ∙ drop-append 8 o n (length-to_be_bytes 8 e.off)
      ∙ sym (append-nil n) in
    let at_slen = be_u32-field (row_bytes e) 40 e.slen [] behind v.slen_lt in
    ap (λ x. (from_be_bytes (take 8 (drop 32 x)), be_u32 x 40)) whole
    ∙ ap₂ (λ x y. (x, y)) at_off at_slen

-- The counts that the fanout holds from `i` on.
unfoldable pub counts : ℕ → ℕ → List IndexEntry → List ℕ
counts zero i s = []
counts (suc left) i s = below (i + 1) s ∷ counts left (i + 1) s

pub get_or-counts :
    (left i j : ℕ) (s : List IndexEntry)
    → j < left
    → get_or (counts left i s) j 0 ≡ below (i + j + 1) s
unfolding counts
get_or-counts zero i j s h = absurd (omega arith)
get_or-counts (suc left) i zero s h = ap (λ n. below n s) (omega arith)
get_or-counts (suc left) i (suc j) s h =
    let e : i + 1 + j + 1 ≡ i + suc j + 1 = omega arith in
    get_or-counts left (i + 1) j s (omega arith) ∙ ap (λ n. below n s) e

pub length-fanout_bytes :
    (left b cum : ℕ) (s : List IndexEntry) → length (fanout_bytes left b cum s) ≡ left * 4
unfolding fanout_bytes
length-fanout_bytes zero b cum s = refl
length-fanout_bytes (suc left) b cum s = omega (
  arith,
  length-append (to_be_bytes 4 (cum + count b s)) (fanout_bytes left (b + 1) (cum + count b s) s),
  length-to_be_bytes 4 (cum + count b s),
  length-fanout_bytes left (b + 1) (cum + count b s) s,
)

-- The fanout is read back: monotonic counts.
pub read_fanout-fanout_bytes :
    (left i : ℕ) (s : List IndexEntry) (whole rest : Bytes)
    → length s < 2 ^ 32
    → drop (i * 4) whole ≡ fanout_bytes left i (below i s) s ++ rest
    → read_fanout left i (below i s) whole ≡ ok (counts left i s)
unfolding read_fanout counts
read_fanout-fanout_bytes zero i s whole rest fits e = refl
read_fanout-fanout_bytes (suc left) i s whole rest fits e =
    let cum = below i s + count i s in
    let is : below (i + 1) s ≡ cum = below_suc i s in
    let le = counting-le_length (λ x. ltb (get_or x.k.bytes 0 0) (i + 1)) s in
    let later = fanout_bytes left (i + 1) cum s in
    let e' : drop (i * 4) whole ≡ to_be_bytes 4 cum ++ (later ++ rest) =
      e ∙ (unfold fanout_bytes in append_assoc (to_be_bytes 4 cum) later rest) in
    let here : be_u32 whole (i * 4) ≡ below (i + 1) s =
      be_u32-field whole (i * 4) cum (later ++ rest) e' (omega (arith, le, is, fits)) ∙ sym is in
    let n : (i + 1) * 4 ≡ i * 4 + 4 = omega arith in
    let next : drop ((i + 1) * 4) whole ≡ fanout_bytes left (i + 1) (below (i + 1) s) s ++ rest =
      ap (λ k. drop k whole) n
      ∙ sym (drop-drop 4 (i * 4) whole)
      ∙ ap (drop 4) e'
      ∙ drop-append 4 (to_be_bytes 4 cum) (later ++ rest) (length-to_be_bytes 4 cum)
      ∙ ap (λ c. fanout_bytes left (i + 1) c s ++ rest) (sym is) in
    let mono : ltb (below (i + 1) s) (below i s) ≡ false = ground (arith, is) in
    rw (here, mono, read_fanout-fanout_bytes left (i + 1) s whole rest fits next) refl
