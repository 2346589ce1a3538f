-- ===== src/Lib.antt =====
-- Amber-Store Core: a content-addressable store for filesystem trees, the Rust crate in src/.
--
-- The program. A tree of files is cut into objects: file content by a content-defined chunker,
-- directories and indexes by an item chunker. Each object is serialized in deterministic CBOR and
-- named by a 32-byte key that holds its type, its logical length and a prefix of its BLAKE3 digest (a
-- git object's key holds its SHA-1). The pack store keeps the objects, references name roots, and a
-- collector removes what no root reaches.
--
-- What is modelled, by module:
--
--   Key        src/key.rs. `ObjType` is `Type`, `Key` the array, `new_from_hash`, `new_git_sha1`,
--              `validate`, `parse`; `type_of` is `type_`, `payload_length` is `length`. A panic is `none`.
--              The digest is an argument.
--   Cbor       src/cbor.rs. `append_head`, `read_head`, the strings and integers. `Cbor.Xattrs` has
--              `encode_xattrs` and `decode_xattrs`, over `Prelude.ByteMap` for `BTreeMap<Vec<u8>, _>`.
--   Chunkers   src/chunkers.rs. The options, `ultra_cdc_cutpoint` with its two loops (`scan` over
--              the windows, `inner` over a window), `Chunkers.Driver` for `split_bytes`, and
--              `Chunkers.Items` for `ItemChunker`.
--   Gitobj     src/gitobj.rs. `encode` and `parse` of the frame, `verify`, and the links of commits,
--              trees and tags.
--   Amberpack  src/amberpack.rs. Records (`encode_record_with`, `parse_record`, `decode_payload`) and
--              in `Amberpack.Stream` the wire pack: `Writer`, `Reader`, and `items` for the iterators.
--              The crates zstd, lz4 and crc32c are the record `Codecs` with the laws `IsCodecs`.
--   Footer     src/packstore/footer.rs. The index section of a sealed segment: `build_index_section`,
--              `parse_index_section`, and the lookups `search_index_pos` and `search_index`.
--   Fstree     src/fstree/encode.rs and builder.rs. The objects of blobs, index nodes and attribute
--              sets, and `Fstree.Index` for `IndexBuilder`: `add_at` is `add` with `close_level`.
--   Reference  src/reference.rs. `validate`, `encode`, `signature_payload`, and the lenient decoder:
--              `skip_item` (`Wellformed`), the tags (`Tags`), the field readers (`Fields`), `unmarshal`
--              and `decode` (`Decode`).
--   Refstore   src/refstore/mod.rs and cas.rs. The operations on the table of references; the
--              statements of queries.rs are the record `Database` with the laws `Laws`.
--   Gate       src/packstore/gate.rs. The lock file between write spans and sweeps: the critical
--              sections of `Gate` as functions of its `State`, `Move` for the threads of a store, and
--              `Gate.System` for the stores of a directory, of which any moves next or dies.
--   Gc         src/gc/collector.rs. The mark: `visit` is a round of the loop of `mark_from`, over a mark
--              set (`MarkInterface`, with laws), verified reads, and the links of an object.
--              `Gc.Closure.Reach` says what the roots lead to.
--   Markset    src/packstore/markset.rs. `new_mark_set`, `locate`, `mark`, `mark_walked` and `contains`
--              over bitmaps and the index of `Footer`; `store_marks` fills the interface of `Gc`. The
--              answers of a segment's filter are a parameter.
--   Walk       src/fstree/read.rs. `child_keys` and `links` over the decoders, which are parameters, and
--              `check_complete`, level by level with `Visits`; `parallel_map` is its answers in order.
--              `Walk.Kept` puts the links, the mark set and the mark together.
--   Barrier    src/packstore/barrier.rs, with the test of compact.rs for a live key.
--   Prelude    names and lemmas that the components share: `Result` with `?`, byte strings and their
--              order, fixed-width integers as bytes, bits, ordered maps.
--
-- How the model stands to the code. A byte is a number below 256, a slice or vector a list of bytes,
-- an unsigned integer a number, with the cut to its width written out where the code has one. What
-- the code appends to a buffer is returned behind the buffer; a reader returns what it read with the
-- bytes that follow. Error values keep their data and leave out their texts.
--
-- Bounds and fuel. Loops over a range or a collection are recursions on the rounds or on the list.
-- The loop of `split_bytes` has fuel, one round for each byte and one more, and its theorem shows
-- that this is enough: each round takes a byte. The loops of `tree_links` and `commit_links` have the
-- length of their input as fuel for the same reason, and so has `items`, whose items take bytes.
-- The binary search has a round for each row of its range. `add_at` climbs a level each time, and
-- `finish_at` uses up a level or a child each round; that this is enough is part of their theorem.
-- What takes tags off a CBOR value has fuel for each byte and one round, as a tag takes a byte.
-- The mark of the collector has fuel for each root: each round takes a link off the stack, and the
-- links of an object are pushed once.
-- `check_complete` has fuel for each level: a level acts on a key that is in the store, and on each key
-- at most twice.
-- `skip_item` recurses on the levels left below MAX_NESTED_LEVELS. The generation in the lock file is
-- a u64 that wraps around; a sweep of the model starts below its last value.
--
-- Not modelled: I/O, memory maps, threads of packstore (but for the gate), of gc (but for the mark), refstore, inbox and ingest; the
-- compression codecs; SQLite itself, its set-up and the migration to it; SHA-1, BLAKE3 and CRC-32C, which are arguments where a component uses
-- them; the decoders of directory objects and commits (fx.rs, decode.rs, commit.rs), which are arguments of
-- `child_keys`; the files of src/ that are not named above, and the filter section and trailer of a segment.
pub mod Prelude
pub mod Key
pub mod Cbor
pub mod Chunkers
pub mod Gitobj
pub mod Amberpack
pub mod Footer
pub mod Fstree
pub mod Reference
pub mod Refstore
pub mod Gate
pub mod Gc
pub mod Markset
pub mod Walk
pub mod Barrier
