-- ===== src/Fstree.antt =====
-- The objects of src/fstree: blobs, index nodes and extended-attribute sets (encode.rs). A panic of
-- `Key::new` is `none`. Entries of directory leaves are not part of it.
pub mod Index
pub mod Sizes
mod Runs
use core_rs.Prelude.{
  ℕ, ◌+◌, ◌%◌, ◌^◌, Bool, Option, none, some, List, [], ◌∷◌, ◌++◌, length, Result, ok, err, ◌>>=◌,
  map_err,
}
use core_rs.Prelude.Bytes.{Bytes}
use core_rs.Key.{Key, ObjType, blob, file_node, dir_node, xattr_set, payload_length}
use core_rs.Key as KeyModule
use core_rs.Cbor.{append_head, append_bstr, major_array}
use core_rs.Cbor.Xattrs.{Xattrs, encode_xattrs}

pub record Object : Type 0 where
  pub key : Key
  pub bytes : Bytes

pub record DirPair : Type 0 where
  pub sep_name : Bytes
  pub child_key : Bytes

pub data Error : Type 0 where
  dir_node_child_key : KeyModule.Error → Error

-- The loop of marshal_pairs
unfoldable pub append_pairs : Bytes → List DirPair → Bytes
append_pairs b [] = b
append_pairs b (p ∷ ps) =
    append_pairs (append_bstr (append_bstr (append_head b major_array 2) p.sep_name) p.child_key) ps

-- marshal_pairs
unfoldable pub marshal_pairs : List DirPair → Bytes
marshal_pairs ps = append_pairs (append_head [] major_array (length ps)) ps

-- The loop of encode_file_node
unfoldable pub append_children : Bytes → ℕ → List Key → Bytes × ℕ
append_children b sum [] = (b, sum)
append_children b sum (c ∷ cs) =
    append_children (append_bstr b c.bytes) ((sum + payload_length c) % 2 ^ 64) cs

-- The loop of encode_dir_node
unfoldable pub sum_pairs : ℕ → List DirPair → Result Error ℕ
sum_pairs sub [] = ok sub
sum_pairs sub (p ∷ ps) = do
  ck ← map_err (KeyModule.parse p.child_key) dir_node_child_key
  sum_pairs ((sub + payload_length ck) % 2 ^ 64) ps

unfoldable pub with_key : Bytes → Option Key → Option Object
with_key b none = none
with_key b (some k) = some (record { key = k; bytes = b })

module _ (blake3 : Bytes → Bytes) where
  -- An object of the bytes under the key of its type and length.
  unfoldable pub object : ObjType → ℕ → Bytes → Option Object
  object t n b = with_key b (KeyModule.new blake3 t n b)

  -- encode_blob
  unfoldable pub encode_blob : Bytes → Option Object
  encode_blob data' = object blob (length data') data'

  -- encode_file_node
  unfoldable pub encode_file_node : List Key → Option Object
  encode_file_node children =
      let (b, sum) = append_children (append_head [] major_array (length children)) 0 children in
      object file_node sum b

  -- encode_dir_node
  unfoldable pub encode_dir_node : List DirPair → Result Error (Option Object)
  encode_dir_node pairs = do
    sub ← sum_pairs 0 pairs
    ok (object dir_node ((length (marshal_pairs pairs) + sub) % 2 ^ 64) (marshal_pairs pairs))

  -- encode_xattr_set
  unfoldable pub encode_xattr_set : Xattrs → Option Object
  encode_xattr_set m = elim (encode_xattrs m) [
    | none ↦ none
    | some b ↦ object xattr_set (length b) b
  ]
