-- ===== src/Barrier.antt =====
-- The write barrier of a store (src/packstore/barrier.rs) and what compact makes of it
-- (src/packstore/compact.rs). An observer looks at `capturing` without the lock and inserts under it,
-- so that other calls may come between: `insert_keys` is what it does under the lock.
pub mod Capture
mod Runs
use core_rs.Prelude.{
  ◌≡◌, Bool, true, false, not, ◌||◌, Option, none, some, List, [], ◌∷◌, ◌++◌, if◌then◌else◌,
}
use core_rs.Key.{Key}
use core_rs.Markset.{listed}

pub record Barrier : Type 0 where
  pub capturing : Bool
  pub grey : Option (List Key)

abbrev pub begin_barrier : Barrier → Barrier
begin_barrier s = record s { grey = some []; capturing = true }

abbrev pub abort_barrier : Barrier → Barrier
abort_barrier s = record s { capturing = false; grey = none }

-- The insertions under the lock, if there is a set.
unfoldable pub inserted : List Key → Option (List Key) → Option (List Key)
inserted ks none = none
inserted ks (some g) = some (ks ++ g)

abbrev pub insert_keys : List Key → Barrier → Barrier
insert_keys ks s = record s { grey = inserted ks s.grey }

-- observe_keys with nothing between its steps
unfoldable pub observe_keys : List Key → Barrier → Barrier
observe_keys ks s = if not s.capturing then s else insert_keys ks s

abbrev pub observe : Key → Barrier → Barrier
observe k s = observe_keys (k ∷ []) s

abbrev pub take_grey : Barrier → Option (List Key) × Barrier
take_grey s = (s.grey, record s { capturing = false; grey = none })

abbrev pub is_grey : Option (List Key) → Key → Bool
is_grey none k = false
is_grey (some g) k = listed k g

-- What compact asks of a key: grey.is_some_and(|g| g.contains(&k)) || live(k)
abbrev pub live : Option (List Key) → (Key → Bool) → Key → Bool
live grey marked k = is_grey grey k || marked k
