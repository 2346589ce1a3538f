-- ===== src/Amberpack/Stream/Fused.antt =====
-- The iterators of src/amberpack.rs end on every stream, and an error is the last item.
use core_rs.Prelude.{
  ℕ, zero, suc, ◌+◌, ◌≤◌, ◌<◌, ◌≡◌, ◌⊎◌, inl, inr, refl, ap, ◌∙◌, arith, Option, none, some, List,
  [], ◌∷◌, ◌++◌, map, length, get_or, drop, ltb, ◌==◌, Result, ok, err, Bool-cases, Result-cases,
  length-drop,
}
use core_rs.Prelude.Bytes.{Bytes}
use core_rs.Key.{Key}
use core_rs.Amberpack.{
  Codecs, Error, Malformed, reading_magic, short_header, short_payload, no_end_marker, be_u32,
  parse_record, decode_payload, max_payload,
}
use core_rs.Amberpack.Stream.{
  Reader, ReaderState, RawRecord, magic, records, done, read_full, read_magic, check_magic,
  past_magic, chunk, chunk_behind, tagged, next_record, decoded, next_object, outcome, step_with,
  step, items, item_cons, go_on, new_reader,
}

module _ {T : Type 0} where
  -- Good items, and at most one error behind them.
  abbrev pub Ends : List (Result Error T) → Type 0
  Ends xs =
      (good : List T) × ((xs ≡ map (λ v. ok v) good)
        ⊎ ((e : Error) × (xs ≡ map (λ v. ok v) good ++ err e ∷ [])))

  abbrev pub Answer : Option (List (Result Error T)) → Type 0
  Answer o = (xs : List (Result Error T)) × (o ≡ some xs) × Ends xs

module _ {T : Type 0} (read : Reader → Result Error (Reader × Option T)) where
  after_end :
      (fuel : ℕ) (b : Bytes) → items read (suc fuel) (record { br = b; state = done }) ≡ some []
  unfolding items step step_with go_on
  after_end fuel b = refl

  pub items_item :
      (fuel : ℕ) (r r' : Reader) (x : Result Error T)
      → step read r ≡ (r', some x)
      → items read (suc fuel) r ≡ item_cons read x (items read fuel r')
  unfolding items go_on
  items_item fuel r r' x e =
      ap (λ (p : Reader × Option (Result Error T)). go_on read p.1 (items read fuel p.0)) e

  pub items_end :
      (fuel : ℕ) (r r' : Reader) → step read r ≡ (r', none) → items read (suc fuel) r ≡ some []
  unfolding items go_on
  items_end fuel r r' e =
      ap (λ (p : Reader × Option (Result Error T)). go_on read p.1 (items read fuel p.0)) e

  Answer-cons :
      (v : T) (o : Option (List (Result Error T))) → Answer o → Answer (item_cons read (ok v) o)
  unfolding item_cons
  Answer-cons v o (xs, e, (good, inl f)) =
      rw e (ok v ∷ xs, refl, (v ∷ good, inl (ap (λ ys. ok v ∷ ys) f)))
  Answer-cons v o (xs, e, (good, inr (x, f))) =
      rw e (ok v ∷ xs, refl, (v ∷ good, inr (x, ap (λ ys. ok v ∷ ys) f)))

  -- A reading that takes bytes with every item it answers.
  abbrev pub Shrinks : Type 0
  Shrinks = (r r' : Reader) (v : T) → read r ≡ ok (r', some v) → length r'.br < length r.br

  module _ (shrinks : Shrinks) where
    -- A step: the end, an item with fewer bytes left, or an error and the end.
    abbrev Progress : Reader → Reader × Option (Result Error T) → Type 0
    Progress r o =
        ((r' : Reader) × (o ≡ (r', none)))
        ⊎ (((r' : Reader) × (v : T) × (o ≡ (r', some (ok v))) × (length r'.br < length r.br))
            ⊎ ((e : Error) × (o ≡ (record { br = r.br; state = done }, some (err e)))))

    outcome-Progress :
        (r : Reader) (o : Result Error (Reader × Option T))
        → read r ≡ o
        → Progress r (outcome read r o)
    unfolding outcome
    outcome-Progress r (ok (r', none)) e = inl (record { br = r'.br; state = done }, refl)
    outcome-Progress r (ok (r', some v)) e = inr (inl (r', v, refl, shrinks r r' v e))
    outcome-Progress r (err x) e = inr (inr (x, refl))

    step_with-Progress : (r : Reader) (st : ReaderState) → Progress r (step_with read r st)
    unfolding step_with
    step_with-Progress r done = inl (r, refl)
    step_with-Progress r magic = outcome-Progress r (read r) refl
    step_with-Progress r records = outcome-Progress r (read r) refl

    items-Answer : (fuel : ℕ) (r : Reader) → length r.br + 2 ≤ fuel → Answer (items read fuel r)
    items-Answer zero r h = absurd (omega arith)
    items-Answer (suc zero) r h = absurd (omega arith)
    items-Answer (suc (suc f)) r h = elim (step_with-Progress r r.state) [
      | inl (r', e) ↦ ([], items_end (suc f) r r' (unfold step in e), ([], inl refl))
      | inr (inl (r', v, e, less)) ↦
          let ih = items-Answer (suc f) r' (omega (arith, less)) in
          let here : items read (suc (suc f)) r ≡ item_cons read (ok v) (items read (suc f) r') =
            items_item (suc f) r r' (ok v) (unfold step in e) in
          rw here (Answer-cons v _ ih)
      | inr (inr (x, e)) ↦
          let ended : Reader = record { br = r.br; state = done } in
          let here : items read (suc (suc f)) r ≡ some (err x ∷ []) =
            items_item (suc f) r ended (err x) (unfold step in e)
            ∙ ap (item_cons read (err x)) (after_end f r.br)
            ∙ (unfold item_cons in refl) in
          (err x ∷ [], here, ([], inr (x, refl)))
    ]

read_full-length :
    (n : ℕ) (r r' : Reader) (what : Malformed) (x : Bytes)
    → read_full n r what ≡ ok (x, r')
    → (length r'.br + n ≡ length r.br) × (r'.state ≡ r.state)
unfolding read_full
read_full-length n r r' what x e = ground (arith, length-drop n r.br)

past_magic-length :
    (r r' : Reader) (st : ReaderState) → past_magic r st ≡ ok r' → length r'.br ≤ length r.br
unfolding past_magic read_magic
past_magic-length r r' done e = ground arith
past_magic-length r r' records e = ground arith
past_magic-length r r' magic e = elim (Result-cases (read_full 8 r reading_magic)) [
  | inr (x, f) ↦ absurd (ground arith)
  | inl ((m, r''), f) ↦ elim (Result-cases (check_magic m)) [
    | inr (y, g) ↦ absurd (ground arith)
    | inl (y, g) ↦ let l = read_full-length 8 r r'' _ m f in ground (arith, l)
  ]
]

module _ (l : Codecs) where
  chunk_behind-length :
      (hdr : Bytes) (r r' : Reader) (v : RawRecord)
      → chunk_behind l hdr r ≡ ok (r', some v)
      → length r'.br ≤ length r.br
  unfolding chunk_behind
  chunk_behind-length hdr r r' v e = elim (Bool-cases (ltb max_payload (be_u32 hdr 38))) [
    | inl b ↦ absurd (ground arith)
    | inr b ↦ elim (Result-cases (read_full (be_u32 hdr 38) r short_payload)) [
      | inr (x, f) ↦ absurd (ground arith)
      | inl ((p, r''), f) ↦ elim (Result-cases (parse_record l (hdr ++ p))) [
        | inr (y, g) ↦ absurd (ground arith)
        | inl (y, g) ↦
            let len = read_full-length (be_u32 hdr 38) r r'' short_payload p f in
            ground (arith, len)
      ]
    ]
  ]

  chunk-length :
      (r r' : Reader) (v : RawRecord) → chunk l r ≡ ok (r', some v) → length r'.br ≤ length r.br
  unfolding chunk
  chunk-length r r' v e = elim (Result-cases (read_full 45 r short_header)) [
    | inr (x, f) ↦ absurd (ground arith)
    | inl ((rest, r''), f) ↦
        let len = read_full-length 45 r r'' short_header rest f in
        let less = chunk_behind-length (1 ∷ rest) r'' r' v (ground arith) in
        omega (arith, len, less)
  ]

  tagged-length :
      (tag : Bytes) (r r' : Reader) (v : RawRecord)
      → tagged l tag r ≡ ok (r', some v)
      → length r'.br ≤ length r.br
  unfolding tagged
  tagged-length tag r r' v e = elim (Bool-cases (get_or tag 0 0 == 0)) [
    | inl z ↦ absurd (ground arith)
    | inr z ↦ elim (Bool-cases (get_or tag 0 0 == 1)) [
      | inl o ↦ chunk-length r r' v (ground arith)
      | inr o ↦ absurd (ground arith)
    ]
  ]

  next_record-Shrinks : Shrinks (next_record l)
  unfolding next_record
  next_record-Shrinks r r' v e = elim (Result-cases (past_magic r r.state)) [
    | inr (x, f) ↦ absurd (ground arith)
    | inl (a, f) ↦ elim (Result-cases (read_full 1 a no_end_marker)) [
      | inr (x, g) ↦ absurd (ground arith)
      | inl ((tag, b), g) ↦
          let before = past_magic-length r a r.state f in
          let one = read_full-length 1 a b no_end_marker tag g in
          let less = tagged-length tag b r' v (ground arith) in omega (arith, before, one, less)
    ]
  ]

  decoded_inversion :
      (r r' : Reader) (o : Option RawRecord) (v : Key × Bytes)
      → decoded l (r, o) ≡ ok (r', some v)
      → (r ≡ r') × ((raw : RawRecord) × (o ≡ some raw))
  unfolding decoded
  decoded_inversion r r' none v e = absurd (ground arith)
  decoded_inversion r r' (some raw) v e =
      elim (Result-cases (decode_payload l raw.header.flags raw.header.ulen (drop 46 raw.bytes))) [
        | inl (p, f) ↦ (ground arith, (raw, refl))
        | inr (x, f) ↦ absurd (ground arith)
      ]

  next_object-Shrinks : Shrinks (next_object l)
  unfolding next_object
  next_object-Shrinks r r' v e = elim (Result-cases (next_record l r)) [
    | inr (x, f) ↦ absurd (ground arith)
    | inl ((a, o), f) ↦
        let (same, (raw, is)) = decoded_inversion a r' o v (ground arith) in
        let less = next_record-Shrinks r a raw (f ∙ ap (λ p. ok (a, p)) is) in
        ground (arith, less, ap (λ (x : Reader). length x.br) same)
  ]

  -- On every stream both iterators end: `Reader` and `Records` yield items and then stop, and only
  -- the last item can be an error.
  pub items-Ends :
      (b : Bytes)
      → Answer (items (next_object l) (length b + 2) (new_reader b))
        × Answer (items (next_record l) (length b + 2) (new_reader b))
  items-Ends b = (
    items-Answer (next_object l) next_object-Shrinks (length b + 2) (new_reader b) (omega arith),
    items-Answer (next_record l) next_record-Shrinks (length b + 2) (new_reader b) (omega arith),
  )
