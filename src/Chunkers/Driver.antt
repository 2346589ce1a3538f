-- ===== src/Chunkers/Driver.antt =====
-- `split_bytes` of src/chunkers.rs: refill, cut, hand the chunk over, and again.
-- A reader is the bytes that it still delivers, and whether it then fails or ends. The callback is a
-- function of its own state. `none` is no outcome of the code: the loop's fuel ran out.
pub mod Chunks
pub mod Buffers
pub mod Refill
use core_rs.Prelude.{
  ℕ, zero, suc, ◌+◌, ◌-◌, ◌*◌, Bool, true, false, not, ◌&&◌, Option, none, some, List, [], ◌∷◌,
  ◌++◌, length, take, drop, ltb, ◌==◌, if◌then◌else◌, Result, ok, err, ◌>>=◌, map_err,
}
use core_rs.Prelude.Bytes.{Bytes}
use core_rs.Chunkers.{ByteOpts, OptionsError, Resolved, resolve, validate, ultra_cdc_cutpoint}

pub record Reader : Type 0 where
  pub content : Bytes
  pub fails : Bool

pub data SplitError (E : Type 0) : Type 0 where
  options : OptionsError → SplitError E
  io : SplitError E
  callback : E → SplitError E

-- The buffer, whether the reader has ended, and the reader.
pub record Buffer : Type 0 where
  pub buf : Bytes
  pub eof : Bool
  pub reader : Reader

module _ {E : Type 0} where
  -- reader.by_ref().take(want).read_to_end(&mut buf), and `if got < want { eof = true }`
  unfoldable pub read_up_to : ℕ → Buffer → Result (SplitError E) Buffer
  read_up_to want b =
      let got = length (take want b.reader.content) in
      if ltb got want && b.reader.fails
      then err io
      else ok (record {
        buf = b.buf ++ take want b.reader.content;
        eof = ltb got want;
        reader = record { content = drop want b.reader.content; fails = b.reader.fails };
      })

  -- Refill to max_size bytes, or to the end.
  unfoldable pub refill : ℕ → Buffer → Result (SplitError E) Buffer
  refill max_size b =
      if not b.eof && ltb (length b.buf) max_size
      then read_up_to (max_size - length b.buf) b
      else ok b

  module _ {S : Type 0} (opts : Resolved) (f : S → Bytes → Result E S) where
    -- One round behind the refill: `none` at the end of the input, else the chunk is handed over.
    unfoldable pub emit : S → Buffer → Result (SplitError E) (Option (S × Buffer))
    emit s b =
        if length b.buf == 0
        then ok none
        else let cutpoint = ultra_cdc_cutpoint opts b.buf in
          do
            s' ← map_err (f s (take cutpoint b.buf)) callback
            ok (some (s', record b { buf = drop cutpoint b.buf }))

    unfoldable pub round : S → Buffer → Result (SplitError E) (Option (S × Buffer))
    round s b = refill opts.max_size b >>= emit s

    -- The loop, with the callback's last state as its result.
    unfoldable pub split_loop : ℕ → S → Buffer → Option (Result (SplitError E) S)
    split_loop zero s b = none
    split_loop (suc fuel) s b = elim (round s b) [
      | err e ↦ some (err e)
      | ok none ↦ some (ok s)
      | ok (some (s', b')) ↦ split_loop fuel s' b'
    ]

  -- split_bytes; each round takes a byte at least.
  unfoldable pub split_bytes :
      {S : Type 0}
      → Reader
      → Option ByteOpts
      → (S → Bytes → Result E S)
      → S
      → Option (Result (SplitError E) S)
  split_bytes reader opts f s = elim (validate (resolve opts)) [
    | err e ↦ some (err (options e))
    | ok _ ↦
        split_loop (resolve opts) f (length reader.content + 1) s
          (record { buf = []; eof = false; reader = reader })
  ]
