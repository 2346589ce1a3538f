-- ===== src/Chunkers/Driver/Buffers.antt =====
-- The buffer of `split_bytes` (src/chunkers.rs) after a refill.
use core_rs.Prelude.{
  ℕ, zero, suc, ◌-◌, ◌≤◌, ◌≡◌, refl, sym, arith, true, false, [], ◌∷◌, ◌++◌, append-nil, length,
  take, drop, ltb, ok, inl, inr, Bool-cases, length-take, length-drop, take-append, drop-append,
  take-append_long, drop-append_long, take_all,
}
use core_rs.Prelude.Bytes.{Bytes}
use core_rs.Chunkers.Driver.{Buffer, read_up_to, refill}

-- The bytes that are still to be cut.
abbrev pub remaining : Buffer → Bytes
remaining b = b.buf ++ b.reader.content

pub record IsReady (max_size : ℕ) (b : Buffer) : Type 0 where
  pub small : length b.buf ≤ max_size
  pub ended : b.eof ≡ true → length b.reader.content ≡ 0
  pub sound : b.reader.fails ≡ false

pub nil_of_length : (xs : Bytes) → length xs ≡ 0 → xs ≡ []
nil_of_length [] h = refl
nil_of_length (x ∷ xs) h = absurd (omega arith)

pub record Refilled (E : Type 0) (max_size : ℕ) (b : Buffer) : Type 0 where
  pub next : Buffer
  pub done : refill {E = E} max_size b ≡ ok next
  pub window : next.buf ≡ take max_size (remaining b)
  pub behind : next.reader.content ≡ drop max_size (remaining b)
  pub ended : next.eof ≡ true → length next.reader.content ≡ 0
  pub sound : next.reader.fails ≡ false

module _ {E : Type 0} (max_size : ℕ) (b : Buffer) (r : IsReady max_size b) where
  keep_full : b.eof ≡ false → ltb (length b.buf) max_size ≡ false → Refilled E max_size b
  keep_full e full =
      let exact : length b.buf ≡ max_size = ground (arith, r.small) in
      record {
        next = b;
        done = unfold refill in rw (e, full);
        window = sym (take-append max_size b.buf b.reader.content exact);
        behind = sym (drop-append max_size b.buf b.reader.content exact);
        ended = r.ended;
        sound = r.sound;
      }

  keep_ended : b.eof ≡ true → Refilled E max_size b
  keep_ended e =
      let none_left : b.reader.content ≡ [] = nil_of_length b.reader.content (r.ended e) in
      record {
        next = b;
        done = unfold refill in rw e;
        window = rw (none_left, append-nil b.buf) (sym (take_all max_size b.buf r.small));
        behind = rw (none_left, append-nil b.buf) (sym (drop_long max_size b.buf r.small));
        ended = r.ended;
        sound = r.sound;
      }
    where
      drop_long : (n : ℕ) (xs : Bytes) → length xs ≤ n → drop n xs ≡ []
      drop_long zero [] h = refl
      drop_long zero (x ∷ xs) h = absurd (omega arith)
      drop_long (suc n) [] h = refl
      drop_long (suc n) (x ∷ xs) h = drop_long n xs (omega arith)

  read_more : b.eof ≡ false → ltb (length b.buf) max_size ≡ true → Refilled E max_size b
  read_more e room =
      let want = max_size - length b.buf in
      let c = b.reader.content in
      record {
        next = record {
          buf = b.buf ++ take want c;
          eof = ltb (length (take want c)) want;
          reader = record { content = drop want c; fails = b.reader.fails };
        };
        done = unfold refill read_up_to in rw (e, room, r.sound) (ground arith);
        window = sym (take-append_long max_size b.buf c r.small);
        behind = sym (drop-append_long max_size b.buf c r.small);
        ended = λ short. ground (arith, length-take want c, length-drop want c);
        sound = r.sound;
      }

  pub refill_lem : Refilled E max_size b
  refill_lem = elim (Bool-cases b.eof) [
    | inl e ↦ keep_ended e
    | inr e ↦ elim (Bool-cases (ltb (length b.buf) max_size)) [
      | inl room ↦ read_more e room
      | inr full ↦ keep_full e full
    ]
  ]
