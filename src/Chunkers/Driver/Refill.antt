-- ===== src/Chunkers/Driver/Refill.antt =====
-- The refills of `split_bytes` in src/chunkers.rs change nothing: the chunks are those of the content.
use core_rs.Prelude.{
  ℕ, zero, suc, ◌+◌, ◌≤◌, ◌<◌, ◌≡◌, refl, sym, ap, ◌∙◌, arith, true, false, Option, none, some,
  List, [], ◌∷◌, ◌++◌, length, take, drop, ◌==◌, Result, ok, err, map_err, inl, inr, Bool-cases,
  Result-cases, length-take, length-drop, take-append_short, drop-append_short, take-append-drop,
  min,
}
use core_rs.Prelude.Bytes.{Bytes}
use mathlib.Core.Path.{ap₂}
use core_rs.Chunkers.{ByteOpts, Resolved, resolve, validate, ultra_cdc_cutpoint}
use core_rs.Chunkers.Cutpoint.{validate_ok}
use core_rs.Chunkers.Driver.{
  SplitError, callback, Buffer, refill, emit, round, split_loop, split_bytes,
}
use core_rs.Chunkers.Driver.Chunks.{
  chunk_list, chunks, feed, next_cut, next_cut_range, chunk_list-nil, chunk_list-cons,
}
use core_rs.Chunkers.Driver.Buffers.{remaining, IsReady, nil_of_length, Refilled, refill_lem}

module _ {E S : Type 0} (opts : Resolved) (valid : validate opts ≡ ok tt)
    (f : S → Bytes → Result E S) where
  abbrev answer : Result E S → Option (Result (SplitError E) S)
  answer r = some (map_err r callback)

  -- One round, by what the callback answers.
  module _ (fuel : ℕ) (s : S) (b next : Buffer)
      (done : refill {E = E} opts.max_size b ≡ ok next) where
    round-emit : round opts f s b ≡ emit opts f s next
    unfolding round
    round-emit = rw done

    end_of_input : (length next.buf == 0) ≡ true → split_loop opts f (suc fuel) s b ≡ some (ok s)
    unfolding split_loop
    end_of_input e = ground (arith, end)
      where
        end : round opts f s b ≡ ok none
        end = round-emit ∙ unfold emit in rw e

    refused :
        (x : E)
        → (length next.buf == 0) ≡ false
        → f s (take (ultra_cdc_cutpoint opts next.buf) next.buf) ≡ err x
        → split_loop opts f (suc fuel) s b ≡ some (err (callback x))
    unfolding split_loop
    refused x e c = ground (arith, failed)
      where
        failed : round opts f s b ≡ err (callback x)
        failed = round-emit ∙ unfold emit in rw (e, c)

    handed_over :
        (s' : S)
        → (length next.buf == 0) ≡ false
        → f s (take (ultra_cdc_cutpoint opts next.buf) next.buf) ≡ ok s'
        → split_loop opts f (suc fuel) s b
          ≡ split_loop opts f fuel s'
              (record next { buf = drop (ultra_cdc_cutpoint opts next.buf) next.buf })
    unfolding split_loop
    handed_over s' e c = ground (arith, handed)
      where
        handed :
            round opts f s b
            ≡ ok (some (s', record next { buf = drop (ultra_cdc_cutpoint opts next.buf) next.buf }))
        handed = round-emit ∙ unfold emit in rw (e, c)

  -- The window of one round holds the next chunk of what remains, and the rest remains behind it.
  module _ (b : Buffer) (w : Refilled E opts.max_size b) where
    split_rem : w.next.buf ++ w.next.reader.content ≡ remaining b
    split_rem = ap₂ (λ x y. x ++ y) w.window w.behind ∙ take-append-drop opts.max_size (remaining b)

    cut_same : ultra_cdc_cutpoint opts w.next.buf ≡ next_cut opts valid (remaining b)
    unfolding next_cut
    cut_same = ap (ultra_cdc_cutpoint opts) w.window

    cut_fits : ultra_cdc_cutpoint opts w.next.buf ≤ length w.next.buf
    cut_fits = rw (cut_same, w.window) ((next_cut_range opts valid (remaining b)).2)

    chunk_same :
        take (ultra_cdc_cutpoint opts w.next.buf) w.next.buf
        ≡ take (next_cut opts valid (remaining b)) (remaining b)
    chunk_same =
        sym (take-append_short _ w.next.buf w.next.reader.content cut_fits)
        ∙ ap (take (ultra_cdc_cutpoint opts w.next.buf)) split_rem
        ∙ ap (λ n. take n (remaining b)) cut_same

    rest_same :
        drop (ultra_cdc_cutpoint opts w.next.buf) w.next.buf ++ w.next.reader.content
        ≡ drop (next_cut opts valid (remaining b)) (remaining b)
    rest_same =
        sym (drop-append_short _ w.next.buf w.next.reader.content cut_fits)
        ∙ ap (drop (ultra_cdc_cutpoint opts w.next.buf)) split_rem
        ∙ ap (λ n. drop n (remaining b)) cut_same

    window_len : length w.next.buf ≡ min opts.max_size (length (remaining b))
    window_len = ap length w.window ∙ length-take opts.max_size (remaining b)

    next_IsReady :
        IsReady opts.max_size
          (record w.next { buf = drop (ultra_cdc_cutpoint opts w.next.buf) w.next.buf })
    next_IsReady = record {
      small =
          omega (arith, length-drop (ultra_cdc_cutpoint opts w.next.buf) w.next.buf, window_len);
      ended = w.ended;
      sound = w.sound;
    }

  feed_ok :
      (s s' : S) (c : Bytes) (cs : List Bytes) → f s c ≡ ok s' → feed f s (c ∷ cs) ≡ feed f s' cs
  unfolding feed
  feed_ok s s' c cs e = rw e

  feed_err :
      (s : S) (x : E) (c : Bytes) (cs : List Bytes) → f s c ≡ err x → feed f s (c ∷ cs) ≡ err x
  unfolding feed
  feed_err s x c cs e = rw e

  split_loop-chunk_list :
      (fuel : ℕ) (s : S) (b : Buffer)
      → length (remaining b) < fuel
      → IsReady opts.max_size b
      → split_loop opts f fuel s b ≡ answer (feed f s (chunk_list opts fuel (remaining b)))
  split_loop-chunk_list zero s b h r = absurd (omega arith)
  split_loop-chunk_list (suc fuel) s b h r =
      let w = refill_lem {E = E} opts.max_size b r in
      let v = validate_ok opts valid in
      let c = next_cut opts valid (remaining b) in
      let cp = ultra_cdc_cutpoint opts w.next.buf in
      let more : Buffer = record w.next { buf = drop cp w.next.buf } in
      let len = window_len b w in
      let same : f s (take cp w.next.buf) ≡ f s (take c (remaining b)) =
        ap (f s) (chunk_same b w) in
      elim (Bool-cases (length w.next.buf == 0)) [
        | inl e ↦
            let empty : remaining b ≡ [] = nil_of_length (remaining b) (ground (arith, len, v)) in
            end_of_input fuel s b w.next w.done e
            ∙ rw (empty, chunk_list-nil opts valid (suc fuel)) (unfold feed in refl)
        | inr e ↦
            let some_byte : 0 < length (remaining b) = ground (arith, len) in
            let cons = chunk_list-cons opts valid fuel (remaining b) some_byte in
            let range = next_cut_range opts valid (remaining b) in
            elim (Result-cases (f s (take cp w.next.buf))) [
              | inl (s', handed) ↦
                  handed_over fuel s b w.next w.done s' e handed
                  ∙ split_loop-chunk_list fuel s' more
                      (rw (rest_same b w)
                        (omega (arith, length-drop c (remaining b), range.4 some_byte, range.0)))
                      (next_IsReady b w)
                  ∙ ap answer (
                      ap (λ l. feed f s' (chunk_list opts fuel l)) (rest_same b w)
                      ∙ sym (
                          ap (feed f s) cons
                          ∙ feed_ok s s' (take c (remaining b)) _ (sym same ∙ handed)))
              | inr (x, failed) ↦
                  refused fuel s b w.next w.done x e failed
                  ∙ ap (λ q. some (map_err q callback))
                      (sym (
                        ap (feed f s) cons
                        ∙ feed_err s x (take c (remaining b)) _ (sym same ∙ failed)))
            ]
      ]

-- From a reader that does not fail, with valid options, `split_bytes` feeds the callback with the
-- chunks of the content, and ends with its last state or with its first error.
pub split_bytes-chunks :
    {E S : Type 0} (content : Bytes) (o : Option ByteOpts) (f : S → Bytes → Result E S) (s : S)
    → validate (resolve o) ≡ ok tt
    → split_bytes (record { content = content; fails = false }) o f s
      ≡ some (map_err (feed f s (chunks (resolve o) content)) callback)
unfolding split_bytes chunks
split_bytes-chunks {E} {S} content o f s valid =
    let start : Buffer = record {
      buf = [];
      eof = false;
      reader = record { content = content; fails = false };
    } in
    let looped : split_loop (resolve o) f (length content + 1) s start
        ≡ some (map_err (feed f s (chunk_list (resolve o) (length content + 1) content)) callback) =
      split_loop-chunk_list {E = E} {S = S} (resolve o) valid f (length content + 1) s start
        (omega arith) (record { small = omega arith; ended = λ p. cc; sound = refl }) in
    ground (arith, looped)
