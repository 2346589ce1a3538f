-- ===== src/Chunkers/Driver/Chunks.antt =====
-- `split_bytes` of src/chunkers.rs hands over the chunks of the content, however it refills.
use core_rs.Prelude.{
  ℕ, zero, suc, ◌+◌, ◌≤◌, ◌<◌, ◌≡◌, ◌⊎◌, refl, ap, ◌∙◌, arith, false, List, [], ◌∷◌, ◌++◌, length,
  take, drop, ◌==◌, if◌then◌else◌, Result, ok, ◌>>=◌, concat, inl, inr, length-take, length-drop,
  take-append-drop, drop_all,
}
use core_rs.Prelude.Bytes.{Bytes}
use core_rs.Chunkers.{ByteOpts, Resolved, resolve, validate, ultra_cdc_cutpoint}
use core_rs.Chunkers.Cutpoint.{cutpoint_bounds}

-- The chunks of a content that lies whole in memory: each is cut out of the next max_size bytes.
unfoldable pub chunk_list : Resolved → ℕ → Bytes → List Bytes
chunk_list opts zero bytes = []
chunk_list opts (suc fuel) bytes =
    let c = ultra_cdc_cutpoint opts (take opts.max_size bytes) in
    let rest = chunk_list opts fuel (drop c bytes) in
    if length bytes == 0 then [] else take c bytes ∷ rest

-- A chunk takes a byte at least, so one round for each byte is enough.
unfoldable pub chunks : Resolved → Bytes → List Bytes
chunks opts bytes = chunk_list opts (length bytes + 1) bytes

-- The callback over a list of chunks; the first error ends it.
unfoldable pub feed : {E S : Type 0} → (S → Bytes → Result E S) → S → List Bytes → Result E S
feed f s [] = ok s
feed f s (c ∷ cs) = do s' ← f s c; feed f s' cs

-- Each chunk has a size between 1 and max_size, and only the last may be as small as min_size.
abbrev pub Sized : Resolved → List Bytes → Type 0
Sized opts [] = Unit {0}
Sized opts (c ∷ cs) =
    (1 ≤ length c)
    × (length c ≤ opts.max_size)
    × ((cs ≡ []) ⊎ (opts.min_size < length c))
    × Sized opts cs

module _ (opts : Resolved) (valid : validate opts ≡ ok tt) where
  unfoldable pub next_cut : Bytes → ℕ
  next_cut bytes = ultra_cdc_cutpoint opts (take opts.max_size bytes)

  pub next_cut_range :
      (bytes : Bytes)
      → (next_cut bytes ≤ length bytes)
        × (next_cut bytes ≤ opts.max_size)
        × (next_cut bytes ≤ length (take opts.max_size bytes))
        × ((next_cut bytes ≡ length bytes) ⊎ (opts.min_size < next_cut bytes))
        × (0 < length bytes → 0 < next_cut bytes)
  unfolding next_cut
  next_cut_range bytes =
      let b = cutpoint_bounds opts (take opts.max_size bytes) valid in
      let v = core_rs.Chunkers.Cutpoint.validate_ok opts valid in
      let l = length-take opts.max_size bytes in ground (arith, b, v, l)

  pub chunk_list-nil : (fuel : ℕ) → chunk_list opts fuel [] ≡ []
  unfolding chunk_list
  chunk_list-nil zero = refl
  chunk_list-nil (suc fuel) = refl

  pub chunk_list-cons :
      (fuel : ℕ) (bytes : Bytes)
      → 0 < length bytes
      → chunk_list opts (suc fuel) bytes
        ≡ take (next_cut bytes) bytes ∷ chunk_list opts fuel (drop (next_cut bytes) bytes)
  unfolding chunk_list next_cut
  chunk_list-cons fuel bytes h = let e : (length bytes == 0) ≡ false = ground arith in rw e

  last_or_long :
      (fuel : ℕ) (bytes : Bytes)
      → (chunk_list opts fuel (drop (next_cut bytes) bytes) ≡ [])
        ⊎ (opts.min_size < length (take (next_cut bytes) bytes))
  last_or_long fuel bytes =
      let r = next_cut_range bytes in
      elim (r.3) [
        | inl e ↦ inl (
            ap (chunk_list opts fuel) (ap (λ n. drop n bytes) e ∙ drop_all bytes)
            ∙ chunk_list-nil fuel)
        | inr long ↦ inr (omega (arith, long, length-take (next_cut bytes) bytes, r))
      ]

  chunk_list_lem :
      (fuel : ℕ) (bytes : Bytes)
      → length bytes < fuel
      → (concat (chunk_list opts fuel bytes) ≡ bytes) × Sized opts (chunk_list opts fuel bytes)
  chunk_list_lem zero bytes h = absurd (omega arith)
  chunk_list_lem (suc fuel) [] h = unfold chunk_list in (refl, tt)
  chunk_list_lem (suc fuel) (x ∷ xs) h =
      let bytes : Bytes = x ∷ xs in
      let c = next_cut bytes in
      let r = next_cut_range bytes in
      let some_byte : 0 < length bytes = omega arith in
      let pos : 0 < c = r.4 some_byte in
      let size = length-take c bytes in
      let ih = chunk_list_lem fuel (drop c bytes) (omega (arith, length-drop c bytes, pos)) in
      rw (chunk_list-cons fuel bytes some_byte) (
        ap (λ l. take c bytes ++ l) ih.0 ∙ take-append-drop c bytes,
        (omega (arith, size, pos, r), omega (arith, size, r), last_or_long fuel bytes, ih.1),
      )

-- With valid options the chunks of a content, put together, are the content; none is empty or longer
-- than the maximal size, and each but the last is longer than the minimal size.
pub chunks_lem :
    (opts : Resolved) (bytes : Bytes) (valid : validate opts ≡ ok tt)
    → (concat (chunks opts bytes) ≡ bytes) × Sized opts (chunks opts bytes)
unfolding chunks
chunks_lem opts bytes valid = chunk_list_lem opts valid (length bytes + 1) bytes (omega arith)
