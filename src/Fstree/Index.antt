-- ===== src/Fstree/Index.antt =====
-- `IndexBuilder` of src/fstree/builder.rs. `add` at a level touches that level and those above it, so
-- it takes and gives back the levels from there on. The caller's `emit` is a function on the caller's
-- state. A call that fails ends the build here. Loops have fuel; `none` is a panic, or no outcome of
-- the code: the fuel ran out.
pub mod Spelled
pub mod Built
use core_rs.Prelude.{
  ℕ, zero, suc, ◌+◌, ◌*◌, ◌==◌, Bool, true, false, Option, none, some, List, [], ◌∷◌, ◌++◌, length,
  drop, Result, ok, err, if◌then◌else◌,
}
use core_rs.Prelude.Bytes.{Bytes}
use core_rs.Key.{Key}
use core_rs.Chunkers.Items.{ItemChunker, is_boundary}
use core_rs.Fstree.{Object, DirPair, Error, marshal_pairs, encode_file_node, encode_dir_node}

pub data BuildError (E : Type 0) : Type 0 where
  encode : Error → BuildError E
  emitting : E → BuildError E
  no_children : BuildError E

pub record IdxLevel : Type 0 where
  pub keys : List Key
  pub seps : List Bytes
  pub run_len : ℕ

-- IdxLevel::default(), and the level after `reset`
abbrev pub empty_level : IdxLevel
empty_level = record { keys = []; seps = []; run_len = 0 }

-- ensure: the level, and those above it
abbrev pub ensure : List IdxLevel → IdxLevel × List IdxLevel
ensure [] = (empty_level, [])
ensure (level ∷ above) = (level, above)

-- keys.iter().zip(&seps).map(…)
unfoldable pub zip_pairs : List Key → List Bytes → List DirPair
zip_pairs [] seps = []
zip_pairs (k ∷ ks) [] = []
zip_pairs (k ∷ ks) (s ∷ ss) = record { sep_name = s; child_key = k.bytes } ∷ zip_pairs ks ss

-- seps.last().cloned().unwrap_or_default()
unfoldable pub last_or_empty : List Bytes → Bytes
last_or_empty [] = []
last_or_empty (s ∷ []) = s
last_or_empty (s ∷ s' ∷ ss) = last_or_empty (s' ∷ ss)

unfoldable pub first_or_empty : List Bytes → Bytes
first_or_empty [] = []
first_or_empty (s ∷ ss) = s

-- What a step of the build leaves: a panic, an error, or a value.
abbrev pub Step : Type 0 → Type 0 → Type 0
Step E A = Option (Result (BuildError E) A)

unfoldable pub and_then : {E A B : Type 0} → Step E A → (A → Step E B) → Step E B
and_then none f = none
and_then (some (err e)) f = some (err e)
and_then (some (ok a)) f = f a

module _ (blake3 : Bytes → Bytes) (ic : ItemChunker) (is_dir : Bool) where
  -- The level with one more child
  unfoldable pub push_child : IdxLevel → Key → Bytes → IdxLevel
  push_child level ck sep = record {
    keys = level.keys ++ ck ∷ [];
    seps = if is_dir then level.seps ++ sep ∷ [] else level.seps;
    run_len = level.run_len + 1;
  }

  -- The item encoding fed to the boundary decision
  unfoldable pub item_enc : Key → Bytes → Bytes
  item_enc ck sep =
      if is_dir
      then drop 1 (marshal_pairs (record { sep_name = sep; child_key = ck.bytes } ∷ []))
      else ck.bytes

  module _ {E : Type 0} where
    unfoldable pub with_sep : Bytes → Option Object → Step E (Object × Bytes)
    with_sep sep none = none
    with_sep sep (some o) = some (ok (o, sep))

    unfoldable pub dir_built : Bytes → Result Error (Option Object) → Step E (Object × Bytes)
    dir_built sep (err e) = some (err (encode e))
    dir_built sep (ok o) = with_sep sep o

    -- build_node
    unfoldable pub build_node : IdxLevel → Step E (Object × Bytes)
    build_node level =
        if is_dir
        then dir_built (last_or_empty level.seps)
            (encode_dir_node blake3 (zip_pairs level.keys level.seps))
        else with_sep [] (encode_file_node blake3 level.keys)

    module _ {S : Type 0} (emit : S → Object → Result E S) where
      unfoldable pub emitted : Result E S → Step E S
      emitted (err e) = some (err (emitting e))
      emitted (ok s) = some (ok s)

      -- The level below, emptied, under what `add` left.
      unfoldable pub on_reset : S × List IdxLevel → Step E (S × List IdxLevel)
      on_reset (s, above) = some (ok (s, empty_level ∷ above))

      -- add and close_level, on the levels from l on
      unfoldable pub add_at : ℕ → S → List IdxLevel → Key → Bytes → Step E (S × List IdxLevel)
      add_at zero s levels ck sep = none
      add_at (suc fuel) s levels ck sep =
          let (level, above) = ensure levels in
          let level' = push_child level ck sep in
          elim (is_boundary blake3 ic (item_enc ck sep) level'.run_len) [
            | false ↦ some (ok (s, level' ∷ above))
            | true ↦ and_then (build_node level') (λ (p : Object × Bytes).
                and_then (emitted (emit s p.0))
                  (λ s'. and_then (add_at fuel s' above p.0.key p.1) on_reset))
          ]

      -- A run at each level there is, one at a level that opens, and one to spare.
      unfoldable pub add : S → List IdxLevel → Key → Bytes → Step E (S × List IdxLevel)
      add s levels ck sep = add_at (length levels + 2) s levels ck sep

      -- The loop of finish, on the levels from l on
      unfoldable pub finish_at : ℕ → S → List IdxLevel → Step E (S × Key)
      finish_at zero s levels = none
      finish_at (suc fuel) s [] = some (err no_children)
      finish_at (suc fuel) s (level ∷ above) = elim level.run_len [
        | zero ↦ finish_at fuel s above
        | suc zero ↦ elim level.keys [
          | [] ↦ none
          | ck ∷ _ ↦ elim above [
            | [] ↦ some (ok (s, ck))
            | next ∷ more ↦
                and_then (add s (next ∷ more) ck (if is_dir then first_or_empty level.seps else []))
                  (λ (p : S × List IdxLevel). finish_at fuel p.0 p.1)
          ]
        ]
        | suc (suc _) ↦ and_then (build_node level) (λ (o : Object × Bytes).
            and_then (emitted (emit s o.0)) (λ s'.
              and_then (add s' above o.0.key o.1)
                (λ (p : S × List IdxLevel). finish_at fuel p.0 p.1)))
      ]

      -- Each round takes a level or a child.
      unfoldable pub rounds : List IdxLevel → ℕ
      rounds [] = 0
      rounds (level ∷ above) = 2 * length level.keys + 1 + rounds above

      -- finish
      unfoldable pub finish : S → List IdxLevel → Step E (S × Key)
      finish s levels = finish_at (rounds levels + 1) s levels

      -- add_child for each of the children, from the levels so far, and then finish
      unfoldable pub build_from : S → List IdxLevel → List (Key × Bytes) → Step E (S × Key)
      build_from s levels [] = finish s levels
      build_from s levels ((ck, sep) ∷ cs) =
          and_then (add s levels ck sep) (λ (p : S × List IdxLevel). build_from p.0 p.1 cs)

      unfoldable pub build : S → List (Key × Bytes) → Step E (S × Key)
      build s cs = build_from s [] cs
