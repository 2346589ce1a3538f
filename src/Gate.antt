-- ===== src/Gate.antt =====
-- src/packstore/gate.rs: the lock file between the write spans of stores and a sweep. A `Store` is one
-- opened gate: its `State` under the mutex, the thread that is inside a busy step, the thread that
-- keeps new spans out, the lock its file descriptor holds and the version of the directory that its
-- view shows. The functions are the parts of the code between two releases of the mutex; `Move` is
-- the order in which threads run them. A process may die between any two of them. The waits for time
-- (`yield_to_writers`, the back-off), cancelling by `close`, and the test hook are not modelled.

pub mod Local
pub mod Spans
pub mod Sweeps
pub mod Moves
pub mod System
pub mod Unlocked
pub mod Safety
pub mod Progress
mod Runs
use core_rs.Prelude.{
  ℕ, zero, suc, ◌+◌, ◌-◌, ◌*◌, ◌%◌, ◌^◌, ◌<◌, ◌≤◌, ◌≡◌, ◌≢◌, ◌⊎◌, Bool, true, false, not, ◌&&◌,
  ◌||◌, ltb, ◌==◌, if◌then◌else◌,
}

pub record State : Type 0 where
  pub shared : ℕ
  pub flocked : Bool
  pub exclusive : ℕ
  pub busy : Bool
  pub blocked : Bool
  pub generation : ℕ
  pub looked : Bool

-- State::default()
abbrev pub default : State
default = record {
  shared = 0;
  flocked = false;
  exclusive = 0;
  busy = false;
  blocked = false;
  generation = 0;
  looked = false;
}

-- The condition that begin_shared waits for.
abbrev pub may_begin_shared : State → Bool
may_begin_shared s = not s.busy && (not s.blocked || ltb 0 s.shared)

-- st.exclusive > 0 || st.flocked
abbrev pub joins : State → Bool
joins s = ltb 0 s.exclusive || s.flocked

abbrev pub join : State → State
join s = record s { shared = s.shared + 1 }

abbrev pub start_busy : State → State
start_busy s = record s { busy = true }

-- (g != known || !looked)
abbrev pub must_refresh : ℕ → State → Bool
must_refresh g s = not (g == s.generation) || not s.looked

-- The end of begin_shared on success, and of every busy step that fails.
abbrev pub publish_shared : ℕ → State → State
publish_shared g s = record s {
  busy = false;
  flocked = true;
  shared = 1;
  generation = g;
  looked = true;
}

abbrev pub fail_shared : State → State
fail_shared s = record s { busy = false }

-- end_shared; whether the file lock is dropped
abbrev pub drops_flock : State → Bool
drops_flock s = s.shared - 1 == 0 && s.flocked

abbrev pub end_shared : State → State
end_shared s = record s { shared = s.shared - 1; flocked = s.flocked && not (s.shared - 1 == 0) }

-- The condition that begin_exclusive, end_exclusive and pause_local wait for.
abbrev pub may_block : State → Bool
may_block s = not s.busy && not s.blocked

abbrev pub nest : State → State
nest s = record s { exclusive = s.exclusive + 1 }

abbrev pub block : State → State
block s = record s { blocked = true }

abbrev pub unblock : State → State
unblock s = record s { blocked = false }

abbrev pub fail_exclusive : State → State
fail_exclusive s = record s { busy = false; blocked = false }

-- The end of begin_exclusive on success.
abbrev pub publish_exclusive : ℕ → State → State
publish_exclusive g s = record s {
  busy = false;
  blocked = false;
  exclusive = 1;
  generation = g;
  looked = true;
}

-- end_exclusive of an inner call, and of the outermost one once the spans have ended.
abbrev pub end_nested : State → State
end_nested s = record s { exclusive = s.exclusive - 1 }

abbrev pub end_exclusive : State → State
end_exclusive s = record s { exclusive = 0; blocked = false }

-- self.generation()?.wrapping_add(1)
abbrev pub bump : ℕ → ℕ
bump g = (g + 1) % 2 ^ 64

-- The lock that flock(2) gives to the file descriptor.
pub data Lock : Type 0 where
  unlocked locked_sh locked_ex : Lock

-- Where the thread inside a busy step is: before poll, behind it, behind bump, behind refresh.
pub data BusyTask : Type 0 where
  resting sh_polling sh_holding ex_polling ex_holding : BusyTask
  ex_bumped sh_viewed ex_viewed : ℕ → BusyTask

-- Why new spans are kept out.
pub data BlockTask : Type 0 where
  no_block ex_draining ex_busy end_draining pause_draining paused : BlockTask

pub record Store : Type 0 where
  pub st : State
  pub busy_task : BusyTask
  pub block_task : BlockTask
  pub lock : Lock
  pub seen : ℕ

abbrev pub opened : ℕ → Store
opened v = record {
  st = default;
  busy_task = resting;
  block_task = no_block;
  lock = unlocked;
  seen = v;
}

-- The generation in the file, and the version of the directory, which grows with every removal.
pub record Shared : Type 0 where
  pub gen : ℕ
  pub dir : ℕ

-- A move of one store, with `Sh` and `Ex` for what flock(2) wants of the other descriptors to grant a
-- shared and an exclusive lock.
pub data Move (Sh Ex : Type 0) (f : Shared) (s : Store) (f' : Shared) (s' : Store) : Type 0 where
  joined :
      may_begin_shared s.st ≡ true
      → joins s.st ≡ true
      → f' ≡ f
      → s' ≡ record s { st = join s.st }
      → Move Sh Ex f s f' s'
  sh_started :
      may_begin_shared s.st ≡ true
      → joins s.st ≡ false
      → f' ≡ f
      → s' ≡ record s { st = start_busy s.st; busy_task = sh_polling }
      → Move Sh Ex f s f' s'
  sh_locked :
      s.busy_task ≡ sh_polling
      → Sh
      → f' ≡ f
      → s' ≡ record s { busy_task = sh_holding; lock = locked_sh }
      → Move Sh Ex f s f' s'
  sh_viewed_now :
      s.busy_task ≡ sh_holding
      → f' ≡ f
      → s' ≡ record s {
        busy_task = sh_viewed f.gen;
        seen = if must_refresh f.gen s.st then f.dir else s.seen;
      }
      → Move Sh Ex f s f' s'
  sh_published :
      (g : ℕ)
      → s.busy_task ≡ sh_viewed g
      → f' ≡ f
      → s' ≡ record s { st = publish_shared g s.st; busy_task = resting }
      → Move Sh Ex f s f' s'
  sh_failed :
      (s.busy_task ≡ sh_polling) ⊎ (s.busy_task ≡ sh_holding)
      → f' ≡ f
      → s' ≡ record s { st = fail_shared s.st; busy_task = resting; lock = unlocked }
      → Move Sh Ex f s f' s'
  sh_ended :
      1 ≤ s.st.shared
      → f' ≡ f
      → s' ≡ record s { st = end_shared s.st; lock = if drops_flock s.st then unlocked else s.lock }
      → Move Sh Ex f s f' s'
  nested :
      may_block s.st ≡ true
      → 1 ≤ s.st.exclusive
      → f' ≡ f
      → s' ≡ record s { st = nest s.st }
      → Move Sh Ex f s f' s'
  ex_blocked :
      may_block s.st ≡ true
      → s.st.exclusive ≡ 0
      → f' ≡ f
      → s' ≡ record s { st = block s.st; block_task = ex_draining }
      → Move Sh Ex f s f' s'
  ex_gave_up :
      s.block_task ≡ ex_draining
      → f' ≡ f
      → s' ≡ record s { st = unblock s.st; block_task = no_block }
      → Move Sh Ex f s f' s'
  ex_drained :
      s.block_task ≡ ex_draining
      → s.st.shared ≡ 0
      → f' ≡ f
      → s' ≡ record s { st = start_busy s.st; busy_task = ex_polling; block_task = ex_busy }
      → Move Sh Ex f s f' s'
  ex_locked :
      s.busy_task ≡ ex_polling
      → Ex
      → f' ≡ f
      → s' ≡ record s { busy_task = ex_holding; lock = locked_ex }
      → Move Sh Ex f s f' s'
  ex_bumped_now :
      s.busy_task ≡ ex_holding
      → f.gen + 1 < 2 ^ 64
      → f' ≡ record f { gen = bump f.gen }
      → s' ≡ record s { busy_task = ex_bumped (bump f.gen) }
      → Move Sh Ex f s f' s'
  ex_viewed_now :
      (g : ℕ)
      → s.busy_task ≡ ex_bumped g
      → f' ≡ f
      → s' ≡ record s { busy_task = ex_viewed g; seen = f.dir }
      → Move Sh Ex f s f' s'
  ex_published :
      (g : ℕ)
      → s.busy_task ≡ ex_viewed g
      → f' ≡ f
      → s' ≡ record s { st = publish_exclusive g s.st; busy_task = resting; block_task = no_block }
      → Move Sh Ex f s f' s'
  ex_failed :
      (s.busy_task ≡ ex_polling)
        ⊎ ((s.busy_task ≡ ex_holding) ⊎ ((g : ℕ) × (s.busy_task ≡ ex_bumped g)))
      → f' ≡ f
      → s' ≡ record s {
        st = fail_exclusive s.st;
        busy_task = resting;
        block_task = no_block;
        lock = unlocked;
      }
      → Move Sh Ex f s f' s'
  removed :
      1 ≤ s.st.exclusive
      → f' ≡ record f { dir = f.dir + 1 }
      → s' ≡ record s { seen = f.dir + 1 }
      → Move Sh Ex f s f' s'
  nest_ended :
      2 ≤ s.st.exclusive → f' ≡ f → s' ≡ record s { st = end_nested s.st } → Move Sh Ex f s f' s'
  end_blocked :
      s.st.exclusive ≡ 1
      → may_block s.st ≡ true
      → f' ≡ f
      → s' ≡ record s { st = block s.st; block_task = end_draining }
      → Move Sh Ex f s f' s'
  ex_ended :
      s.block_task ≡ end_draining
      → s.st.shared ≡ 0
      → f' ≡ f
      → s' ≡ record s { st = end_exclusive s.st; block_task = no_block; lock = unlocked }
      → Move Sh Ex f s f' s'
  pausing :
      may_block s.st ≡ true
      → f' ≡ f
      → s' ≡ record s { st = block s.st; block_task = pause_draining }
      → Move Sh Ex f s f' s'
  pause_drained :
      s.block_task ≡ pause_draining
      → s.st.shared ≡ 0
      → f' ≡ f
      → s' ≡ record s { block_task = paused }
      → Move Sh Ex f s f' s'
  resumed :
      s.block_task ≡ paused
      → f' ≡ f
      → s' ≡ record s { st = unblock s.st; block_task = no_block }
      → Move Sh Ex f s f' s'
  died : (v : ℕ) → f' ≡ f → s' ≡ opened v → Move Sh Ex f s f' s'
