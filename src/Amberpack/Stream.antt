-- ===== src/Amberpack/Stream.antt =====
-- The wire pack of src/amberpack.rs: `Writer`, `Reader` and its iterators. The sink takes all bytes;
-- the source is its bytes up to its end or its failure, which the code reports alike.
pub mod Fused
pub mod Objects
pub mod Packs
use core_rs.Prelude.{
  ℕ, zero, suc, ◌+◌, ◌<◌, Bool, true, false, not, ◌&&◌, Option, none, some, List, [], ◌∷◌, ◌++◌,
  length, get_or, take, drop, ltb, ◌==◌, if◌then◌else◌, Result, ok, err, ◌>>=◌, ◌>>◌, map_err,
}
use core_rs.Prelude.Bytes.{Bytes}
use core_rs.Prelude.Lex.{bytes_eq}
use core_rs.Key.{Key}
use core_rs.Amberpack.{
  Codecs, Compression, uncompressed, Record, Error, Malformed, malformed, malformed_by,
  reading_magic, bad_magic, no_end_marker, short_header, short_payload, pack_version, payload_limit,
  bad_record_tag, rec_header_size, tag_chunk, max_payload, be_u32, encode_record_with, parse_record,
  decode_payload,
}

-- "AMBERPK\x04"
abbrev pub pack_magic : Bytes
pack_magic = b'A' ∷ b'M' ∷ b'B' ∷ b'E' ∷ b'R' ∷ b'P' ∷ b'K' ∷ 4 ∷ []

abbrev pub tag_end : ℕ
tag_end = 0x00

pub record Writer : Type 0 where
  pub bw : Bytes
  pub wrote_header : Bool
  pub compression : Compression

-- Writer::new
abbrev pub new_writer : Writer
new_writer = record { bw = []; wrote_header = false; compression = uncompressed }

-- Writer::compression
unfoldable pub with_compression : Writer → Compression → Writer
with_compression w c = record w { compression = c }

unfoldable pub ensure_header : Writer → Writer
ensure_header w =
    if w.wrote_header then w else record w { bw = w.bw ++ pack_magic; wrote_header = true }

-- Writer::add_record
unfoldable pub add_record : Writer → Bytes → Writer
add_record w rec = let w' = ensure_header w in record w' { bw = w'.bw ++ rec }

-- Writer::finish
unfoldable pub finish : Writer → Bytes
finish w = let w' = ensure_header w in w'.bw ++ tag_end ∷ []

pub record RawRecord : Type 0 where
  pub header : Record
  pub bytes : Bytes

pub data ReaderState : Type 0 where
  magic records done : ReaderState

pub record Reader : Type 0 where
  pub br : Bytes
  pub state : ReaderState

-- Reader::new
abbrev pub new_reader : Bytes → Reader
new_reader b = record { br = b; state = magic }

-- Reader::read_full
unfoldable pub read_full : ℕ → Reader → Malformed → Result Error (Bytes × Reader)
read_full n r what =
    if ltb (length r.br) n
    then err (malformed what)
    else ok (take n r.br, record r { br = drop n r.br })

-- The check of the magic in Reader::next_record
unfoldable pub check_magic : Bytes → Result Error (Unit {0})
check_magic m =
    if bytes_eq (take 7 m) (take 7 pack_magic) && not (get_or m 7 0 == get_or pack_magic 7 0)
    then err (malformed (pack_version (get_or m 7 0)))
    else if not (bytes_eq m pack_magic)
    then err (malformed bad_magic)
    else ok tt

unfoldable pub read_magic : Reader → Result Error Reader
read_magic r = do
  (m, r') ← read_full 8 r reading_magic
  check_magic m
  ok (record r' { state = records })

-- `if matches!(self.state, ReaderState::Magic)`
unfoldable pub past_magic : Reader → ReaderState → Result Error Reader
past_magic r magic = read_magic r
past_magic r records = ok r
past_magic r done = ok r

module _ (l : Codecs) where
  unfoldable pub added : Writer → Result Error Bytes → Writer × Result Error (Unit {0})
  added w (err e) = (w, err e)
  added w (ok rec) = (record w { bw = w.bw ++ rec }, ok tt)

  -- Writer::add: the header is written also where the record is refused.
  unfoldable pub add : Writer → Key → Bytes → Writer × Result Error (Unit {0})
  add w k d = let w' = ensure_header w in added w' (encode_record_with l k d w'.compression)

  -- The payload behind a header, and the whole record parsed.
  unfoldable pub chunk_behind : Bytes → Reader → Result Error (Reader × Option RawRecord)
  chunk_behind hdr r =
      if ltb max_payload (be_u32 hdr 38)
      then err (malformed (payload_limit (be_u32 hdr 38)))
      else do
        (payload, r') ← read_full (be_u32 hdr 38) r short_payload
        rec ← map_err (parse_record l (hdr ++ payload)) malformed_by
        ok (r', some (record { header = rec; bytes = hdr ++ payload }))

  -- The arm of TAG_CHUNK
  unfoldable pub chunk : Reader → Result Error (Reader × Option RawRecord)
  chunk r = do (rest, r') ← read_full 45 r short_header; chunk_behind (tag_chunk ∷ rest) r'

  -- The match on the tag
  unfoldable pub tagged : Bytes → Reader → Result Error (Reader × Option RawRecord)
  tagged tag r =
      if get_or tag 0 0 == tag_end
      then ok (r, none)
      else if get_or tag 0 0 == tag_chunk
      then chunk r
      else err (malformed (bad_record_tag (get_or tag 0 0)))

  -- Reader::next_record
  unfoldable pub next_record : Reader → Result Error (Reader × Option RawRecord)
  next_record r = do
    r' ← past_magic r r.state
    (tag, r'') ← read_full 1 r' no_end_marker
    tagged tag r''

  unfoldable pub decoded : Reader × Option RawRecord → Result Error (Reader × Option (Key × Bytes))
  decoded (r, none) = ok (r, none)
  decoded (r, some raw) = do
    payload ←
        map_err (decode_payload l raw.header.flags raw.header.ulen (drop rec_header_size raw.bytes))
          malformed_by
    ok (r, some (raw.header.key, payload))

  -- Reader::next_object
  unfoldable pub next_object : Reader → Result Error (Reader × Option (Key × Bytes))
  next_object r = next_record r >>= decoded

module _ {T : Type 0} (read : Reader → Result Error (Reader × Option T)) where
  abbrev finished : Reader → Reader
  finished r = record r { state = done }

  -- The match on what was read
  unfoldable pub outcome :
      Reader → Result Error (Reader × Option T) → Reader × Option (Result Error T)
  outcome r (ok (r', some v)) = (r', some (ok v))
  outcome r (ok (r', none)) = (finished r', none)
  outcome r (err e) = (finished r, some (err e))

  unfoldable pub step_with : Reader → ReaderState → Reader × Option (Result Error T)
  step_with r done = (r, none)
  step_with r magic = outcome r (read r)
  step_with r records = outcome r (read r)

  -- Reader::step; what is left of the source behind an error is not read again.
  unfoldable pub step : Reader → Reader × Option (Result Error T)
  step r = step_with r r.state

  unfoldable pub item_cons :
      Result Error T → Option (List (Result Error T)) → Option (List (Result Error T))
  item_cons x none = none
  item_cons x (some xs) = some (x ∷ xs)

  unfoldable pub go_on :
      Option (Result Error T) → Option (List (Result Error T)) → Option (List (Result Error T))
  go_on none later = some []
  go_on (some x) later = item_cons x later

  -- All that the iterator yields, with a step of fuel for each item and one for the end.
  unfoldable pub items : ℕ → Reader → Option (List (Result Error T))
  items zero r = none
  items (suc fuel) r = let (r', o) = step r in go_on o (items fuel r')
