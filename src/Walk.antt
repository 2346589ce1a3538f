-- ===== src/Walk.antt =====
-- What an object refers to and the walk over it (src/fstree/read.rs: child_keys, links, Visits,
-- check_complete). The decoders of src/fstree/decode.rs and src/commit.rs, and the store's get and has,
-- are parameters. A level's lookups are made by several threads; their results are taken in the order
-- of the level, as parallel_map returns them. A round of the loop of check_complete has fuel; `none`
-- is no outcome of the code.
pub mod Seen
pub mod Visited
pub mod Complete
pub mod Rounds
pub mod GitLinks
pub mod Honest
pub mod Kept
mod Runs
use core_rs.Prelude.{
  ℕ, zero, suc, ◌+◌, ◌/◌, ◌≡◌, Bool, true, false, not, ◌&&◌, ◌||◌, Option, none, some, List, [],
  ◌∷◌, ◌++◌, map, ◌==◌, if◌then◌else◌, Result, ok, err, ◌>>=◌, map_err,
}
use core_rs.Prelude.Bytes.{Bytes}
use core_rs.Key.{
  Key, ObjType, blob, file_node, dir_leaf, dir_node, xattr_set, commit, git_sha1, is_git, parse,
  type_of,
}
use core_rs.Key as Key
use core_rs.Gitobj as Gitobj
use core_rs.Gitobj.Links.{Link}
use core_rs.Gitobj.Links as Links
use core_rs.Gc.{link_to, same_key}

-- An entry of a DirLeaf, as far as child_keys looks at it.
pub record Entry : Type 0 where
  pub name : Bytes
  pub content_key : Bytes
  pub xattrs_key : Bytes

-- The decoders, with the errors of each.
pub record Decoders (D C : Type 0) : Type 0 where
  pub decode_file_node : Bytes → Result D (List Key)
  -- The child keys of the pairs.
  pub decode_dir_node : Bytes → Result D (List Bytes)
  pub decode_dir_leaf : Bytes → Result D (List Entry)
  -- The trees and the parents of a commit whose key obeys the rule.
  pub decode_commit : Key → Bytes → Result C (List Key × List Key)

pub data ChildKeysError (D C : Type 0) : Type 0 where
  file_node_error : Key → D → ChildKeysError D C
  dir_node_error : Key → D → ChildKeysError D C
  dir_node_child_key : Key → Key.Error → ChildKeysError D C
  dir_leaf_error : Key → D → ChildKeysError D C
  git_error : Key → Gitobj.Error → ChildKeysError D C
  commit_error : C → ChildKeysError D C
  entry_content_key : Bytes → Key.Error → ChildKeysError D C
  entry_xattrs_key : Bytes → Key.Error → ChildKeysError D C
  -- No outcome of the code: the type of the key panics, or the walk of a git object has no answer.
  no_answer : ChildKeysError D C

module _ {D C : Type 0} where
  -- The loop over the pairs of a DirNode.
  unfoldable pub pair_keys : Key → List Bytes → Result (ChildKeysError D C) (List Key)
  pair_keys k [] = ok []
  pair_keys k (b ∷ bs) = do
    ck ← map_err (parse b) (dir_node_child_key k)
    rest ← pair_keys k bs
    ok (ck ∷ rest)

  -- A key of an entry, which may be empty.
  unfoldable pub optional_key :
      (Key.Error → ChildKeysError D C) → Bytes → Result (ChildKeysError D C) (List Key)
  optional_key f [] = ok []
  optional_key f (c ∷ cs) = do ck ← map_err (parse (c ∷ cs)) f; ok (ck ∷ [])

  -- The loop over the entries of a DirLeaf.
  unfoldable pub entry_keys : List Entry → Result (ChildKeysError D C) (List Key)
  entry_keys [] = ok []
  entry_keys (e ∷ es) = do
    content ← optional_key (entry_content_key e.name) e.content_key
    xattrs ← optional_key (entry_xattrs_key e.name) e.xattrs_key
    rest ← entry_keys es
    ok (content ++ (xattrs ++ rest))

  -- git_links. The walk of a payload ends (Gitobj), so that there is a value within.
  unfoldable pub walked : Key → Links.Links → Result (ChildKeysError D C) (List Link)
  walked k none = err no_answer
  walked k (some r) = map_err r (git_error k)

  abbrev pub git_links : Key → Bytes → Result (ChildKeysError D C) (List Link)
  git_links k b = walked k (Links.links b)

  module _ (decoders : Decoders D C) where
    -- child_keys, by the type of the key; a key of no type makes type_ panic, which is no_answer.
    unfoldable pub keys_of : Key → Bytes → Option ObjType → Result (ChildKeysError D C) (List Key)
    keys_of k b none = err no_answer
    keys_of k b (some blob) = ok []
    keys_of k b (some xattr_set) = ok []
    keys_of k b (some file_node) = map_err (decoders.decode_file_node b) (file_node_error k)
    keys_of k b (some dir_node) = do
      pairs ← map_err (decoders.decode_dir_node b) (dir_node_error k)
      pair_keys k pairs
    keys_of k b (some dir_leaf) = do
      entries ← map_err (decoders.decode_dir_leaf b) (dir_leaf_error k)
      entry_keys entries
    keys_of k b (some commit) = do
      (trees, parents) ← map_err (decoders.decode_commit k b) commit_error
      ok (trees ++ parents)
    keys_of k b (some git_sha1) = do ls ← git_links k b; ok (map (λ l. l.key) ls)

    abbrev pub child_keys : Key → Bytes → Result (ChildKeysError D C) (List Key)
    child_keys k b = keys_of k b (type_of k)

    unfoldable pub links : Key → Bytes → Result (ChildKeysError D C) (List Link)
    links k b = if is_git k then git_links k b else (do ks ← child_keys k b; ok (map link_to ks))

-- Visits: of a key that has been met, whether it was sent to be read.
abbrev pub Visits : Type 0
Visits = Key → Option Bool

abbrev pub insert : Key → Bool → Visits → Visits
insert k b seen j = if same_key j k then some b else seen j

abbrev pub is_new : Option Bool → Bool
is_new none = true
is_new (some read) = false

-- There is something to do for a link of a key that has been met so.
abbrev pub acts : Link → Option Bool → Bool
acts l none = true
acts l (some read) = not (l.leaf || read)

-- Visits::visit
unfoldable pub visit : Link → Visits → (Bool × Bool) × Visits
visit l seen =
    if not (acts l (seen l.key))
    then ((false, false), seen)
    else ((is_new (seen l.key), true), insert l.key (not l.leaf) seen)

pub data WalkError (E L : Type 0) : Type 0 where
  read : Key → E → WalkError E L
  children : L → WalkError E L
  missing : Key → WalkError E L
  has_failed : E → WalkError E L

module _ {E L : Type 0} (get : Key → Result E Bytes) (has : Key → Result E Bool)
    (links_of : Key → Bytes → Result L (List Link)) where
  unfoldable pub present_leaf : Key → Result E Bool → Result (WalkError E L) (List Link)
  present_leaf k (ok true) = ok []
  present_leaf k (ok false) = err (missing k)
  present_leaf k (err e) = err (has_failed e)

  -- The closure that check_complete applies to a link of the level.
  unfoldable pub look : Link → Result (WalkError E L) (List Link)
  look l =
      if l.leaf
      then present_leaf l.key (has l.key)
      else (do b ← map_err (get l.key) (read l.key); map_err (links_of l.key b) children)

-- What the loop keeps: the visits, the keys visited, and the next level.
pub record State : Type 0 where
  pub seen : Visits
  pub visited : List Key
  pub next : List Link

unfoldable pub absorb_link : Link → (Bool × Bool) × Visits → State → State
absorb_link l ((fresh, act), seen) s = record {
  seen = seen;
  visited = if fresh then s.visited ++ (l.key ∷ []) else s.visited;
  next = if act then s.next ++ (l ∷ []) else s.next;
}

-- The loop over the links of an object.
unfoldable pub absorb : List Link → State → State
absorb [] s = s
absorb (l ∷ ls) s = absorb ls (absorb_link l (visit l s.seen) s)

-- The loop over the results of a level.
unfoldable pub absorb_all : {W : Type 0} → List (Result W (List Link)) → State → Result W State
absorb_all [] s = ok s
absorb_all (err e ∷ rs) s = err e
absorb_all (ok ls ∷ rs) s = absorb_all rs (absorb ls s)

module _ {E L : Type 0} (look_at : Link → Result (WalkError E L) (List Link)) where
  unfoldable pub next_level :
      (State → List Link → Option (Result (WalkError E L) (List Key)))
      → Result (WalkError E L) State
      → Option (Result (WalkError E L) (List Key))
  next_level go (err e) = some (err e)
  next_level go (ok s) = go (record s { next = [] }) s.next

  -- The loop of check_complete.
  unfoldable pub levels : ℕ → State → List Link → Option (Result (WalkError E L) (List Key))
  levels zero s frontier = none
  levels (suc fuel) s [] = some (ok s.visited)
  levels (suc fuel) s (f ∷ fs) = next_level (levels fuel) (absorb_all (map look_at (f ∷ fs)) s)

-- check_complete
unfoldable pub check_complete :
    {E L : Type 0}
    → (Key → Result E Bytes)
    → (Key → Result E Bool)
    → (Key → Bytes → Result L (List Link))
    → ℕ
    → Key
    → Option (Result (WalkError E L) (List Key))
check_complete get has links_of fuel root =
    let first = link_to root in
    levels (look get has links_of) fuel
      (record { seen = (visit first (λ k. none)).1; visited = root ∷ []; next = [] }) (first ∷ [])
