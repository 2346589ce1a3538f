-- ===== src/Amberpack/Stream/Packs.antt =====
-- A pack that the `Writer` of src/amberpack.rs wrote is read back by the `Reader`.
use core_rs.Prelude.{
  ℕ, zero, suc, ◌+◌, ◌≤◌, ◌<◌, ◌≡◌, refl, sym, ap, ◌∙◌, arith, true, none, some, List, [], ◌∷◌,
  ◌++◌, map, concat, All, length, ok, append_assoc,
}
use core_rs.Prelude.Bytes.{Bytes}
use core_rs.Prelude.Lex.{bytes_eq}
use core_rs.Key.{Key}
use core_rs.Amberpack.{Codecs, IsCodecs, Compression, validate, reading_magic}
use core_rs.Amberpack.RoundTrip.{encode_record_with_lem}
use core_rs.Amberpack.Stream.{
  Writer, Reader, magic, records, done, read_full, read_magic, check_magic, past_magic, tagged,
  next_record, decoded, next_object, outcome, step_with, step, items, item_cons, new_reader,
  with_compression, ensure_header, add, added, finish, pack_magic,
}
use core_rs.Amberpack.Stream.Fused.{items_item, items_end}
use core_rs.Amberpack.Stream.Objects.{
  read_full-append, IsObject, record_of, add_all, pack_of, body_of, next_object-record_of,
}

module _ (l : Codecs) (laws : IsCodecs l) where
  module _ (c : Compression) (valid : validate c ≡ ok tt) where
    add-record_of :
        (b : Bytes) (k : Key) (d : Bytes)
        → length d ≤ 268435456
        → (let w : Writer = record { bw = b; wrote_header = true; compression = c } in
            let w' : Writer = record {
              bw = b ++ record_of l c (k, d);
              wrote_header = true;
              compression = c;
            } in
            (add l w k d).0 ≡ w')
    unfolding add added ensure_header
    add-record_of b k d fits =
        let w : Writer = record { bw = b; wrote_header = true; compression = c } in
        ap (λ r. (added l w r).0) (encode_record_with_lem l laws k c d valid fits)

    finish-add_all :
        (objs : List (Key × Bytes)) (b : Bytes)
        → All IsObject objs
        → finish (add_all l (record { bw = b; wrote_header = true; compression = c }) objs)
          ≡ b ++ body_of l c objs
    unfolding add_all
    finish-add_all [] b a = unfold finish ensure_header in refl
    finish-add_all ((k, d) ∷ objs) b ((_, fits), a) =
        let rec = record_of l c (k, d) in
        ap (λ w. finish (add_all l w objs)) (add-record_of b k d fits)
        ∙ finish-add_all objs (b ++ rec) a
        ∙ append_assoc b rec (body_of l c objs)
        ∙ ap (λ x. b ++ x) (sym (append_assoc rec (concat (map (record_of l c) objs)) (0 ∷ [])))

    pack_of_lem :
        (objs : List (Key × Bytes))
        → All IsObject objs
        → pack_of l c objs ≡ pack_magic ++ body_of l c objs
    pack_of_lem [] a = unfold add_all finish ensure_header with_compression in refl
    pack_of_lem ((k, d) ∷ objs) a =
        let w : Writer = record { bw = pack_magic; wrote_header = true; compression = c } in
        let first : pack_of l c ((k, d) ∷ objs) ≡ finish (add_all l w ((k, d) ∷ objs)) =
          unfold add_all add ensure_header with_compression in refl in
        first ∙ finish-add_all ((k, d) ∷ objs) pack_magic a

  past_header :
      (b : Bytes)
      → next_object l (new_reader (pack_magic ++ b))
        ≡ next_object l (record { br = b; state = records })
  unfolding next_object next_record past_magic
  past_header b =
      let right : check_magic pack_magic ≡ ok tt = unfold check_magic bytes_eq in refl in
      let full = read_full-append 8 pack_magic b magic reading_magic refl in
      let past : read_magic (new_reader (pack_magic ++ b))
          ≡ ok (record { br = b; state = records }) =
        unfold read_magic in rw (full, right) refl in
      rw past refl

  at_end :
      next_object l (record { br = 0 ∷ []; state = records })
      ≡ ok (record { br = []; state = records }, none)
  unfolding next_object next_record past_magic read_full tagged decoded
  at_end = refl

  -- From a reader that stands before the records of some objects, the items are those objects.
  items-body_of :
      (c : Compression) (objs : List (Key × Bytes)) (fuel : ℕ) (r : Reader)
      → All IsObject objs
      → step (next_object l) r ≡ outcome (next_object l) r (next_object l r)
      → next_object l r ≡ next_object l (record { br = body_of l c objs; state = records })
      → length objs < fuel
      → items (next_object l) fuel r ≡ some (map (λ o. ok o) objs)
  items-body_of c objs zero r a alive at h = absurd (omega arith)
  items-body_of c [] (suc fuel) r a alive at h =
      let ended : Reader = record { br = []; state = done } in
      items_end (next_object l) fuel r ended
        (alive ∙ ap (outcome (next_object l) r) (at ∙ at_end) ∙ (unfold outcome in refl))
  items-body_of c (o ∷ objs) (suc fuel) r (ob, a) alive at h =
      let next : Reader = record { br = body_of l c objs; state = records } in
      let read : next_object l r ≡ ok (next, some o) =
        at
        ∙ ap (λ b. next_object l (record { br = b; state = records }))
            (append_assoc (record_of l c o) (concat (map (record_of l c) objs)) (0 ∷ []))
        ∙ next_object-record_of l laws c o (body_of l c objs) ob in
      items_item (next_object l) fuel r next (ok o)
        (alive ∙ ap (outcome (next_object l) r) read ∙ (unfold outcome in refl))
      ∙ ap (item_cons (next_object l) (ok o))
          (items-body_of c objs fuel next a (unfold step step_with in refl) refl (omega arith))
      ∙ (unfold item_cons in refl)

  -- Objects with canonical keys, of at most 256 MiB each, added to a new `Writer` with a valid
  -- compression, are what the `Reader` yields from the finished pack: all of them, in their order,
  -- and no error. One step for each object and one for the end are enough.
  pub items-pack_of :
      (c : Compression) (objs : List (Key × Bytes))
      → validate c ≡ ok tt
      → All IsObject objs
      → items (next_object l) (length objs + 1) (new_reader (pack_of l c objs))
        ≡ some (map (λ o. ok o) objs)
  items-pack_of c objs valid a =
      ap (λ b. items (next_object l) (length objs + 1) (new_reader b)) (pack_of_lem c valid objs a)
      ∙ items-body_of c objs (length objs + 1) (new_reader (pack_magic ++ body_of l c objs)) a
          (unfold step step_with in refl) (past_header (body_of l c objs)) (omega arith)
