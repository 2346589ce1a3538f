-- ===== src/Fstree/Runs.antt =====
-- Runs of src/fstree on concrete inputs, and the theorems at them.
use core_rs.Prelude.{ℕ, ◌≡◌, false, refl, arith, some, [], ◌∷◌, replicate, ok}
use core_rs.Prelude.Bytes.{Bytes}
use core_rs.Key.{Key, IsArray, new_git_sha1, blob, file_node, dir_node}
use core_rs.Key as KeyModule
use core_rs.Key.Git.{new_git_sha1-accessors}
use core_rs.Fstree.Index.{build, last_or_empty}
use core_rs.Fstree.Index.Spelled.{Log, log_object, Spells, ic}
use core_rs.Fstree.Index.Built.{build-Spells}

abbrev ones : Bytes → Bytes
ones b = replicate 32 1

abbrev child : ℕ → Key × Bytes
child n = (record { bytes = replicate 32 n }, [])

last_sep : last_or_empty ((1 ∷ []) ∷ (2 ∷ []) ∷ []) ≡ 2 ∷ []
unfolding last_or_empty
last_sep = refl

build-Spells_example :
    (log : Log) × (root : Key) × (build ones
        (ic ones 1)
        false
        log_object
        []
        (child 1 ∷ child 2 ∷ child 3 ∷ [])
      ≡ some (ok (log, root)))
    × Spells ones log (root ∷ []) ((child 1).0 ∷ (child 2).0 ∷ (child 3).0 ∷ [])
build-Spells_example = build-Spells ones 1 (child 1) (child 2 ∷ child 3 ∷ []) (omega arith)

ones-IsArray : (b : Bytes) → IsArray 32 (ones b)
ones-IsArray b = record { len = refl; byte = ground arith }

abbrev named : Bytes × Key
named = (b'a' ∷ [], new_git_sha1 (replicate 20 1))

named_parses : KeyModule.parse named.1.bytes ≡ ok named.1
named_parses =
    (new_git_sha1-accessors (replicate 20 1) (record { len = refl; byte = ground arith })).0
