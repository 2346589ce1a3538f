-- ===== src/Gate/Local.antt =====
-- What the fields of one gate say of one another (src/packstore/gate.rs).
use core_rs.Prelude.{◌≤◌, ◌≡◌, ◌⊎◌, refl, arith, true, false, ltb, if◌then◌else◌, subst}
use core_rs.Gate.{
  State, Store, Shared, Lock, unlocked, locked_sh, locked_ex, BusyTask, resting, sh_polling,
  sh_holding, sh_viewed, ex_polling, ex_holding, ex_bumped, ex_viewed, BlockTask, no_block,
  ex_draining, ex_busy, end_draining, pause_draining, paused,
}

-- Neither a span nor a sweep of the store is open.
abbrev pub IsQuiet : State → Type 0
IsQuiet s = (s.shared ≡ 0) × (s.exclusive ≡ 0) × (s.flocked ≡ false)

-- The lock between two busy steps.
abbrev pub held_lock : State → Lock
held_lock s = if s.flocked then locked_sh else if ltb 0 s.exclusive then locked_ex else unlocked

abbrev pub BusyOk : Shared → Store → BusyTask → Type 0
BusyOk f s resting = (s.st.busy ≡ false) × (s.lock ≡ held_lock s.st)
BusyOk f s sh_polling =
    (s.st.busy ≡ true) × IsQuiet s.st × (s.lock ≡ unlocked) × (s.block_task ≡ no_block)
BusyOk f s sh_holding =
    (s.st.busy ≡ true) × IsQuiet s.st × (s.lock ≡ locked_sh) × (s.block_task ≡ no_block)
BusyOk f s (sh_viewed g) =
    (s.st.busy ≡ true)
    × IsQuiet s.st
    × (s.lock ≡ locked_sh)
    × (s.block_task ≡ no_block)
    × (g ≡ f.gen)
    × (s.seen ≡ f.dir)
BusyOk f s ex_polling =
    (s.st.busy ≡ true) × IsQuiet s.st × (s.lock ≡ unlocked) × (s.block_task ≡ ex_busy)
BusyOk f s ex_holding =
    (s.st.busy ≡ true) × IsQuiet s.st × (s.lock ≡ locked_ex) × (s.block_task ≡ ex_busy)
BusyOk f s (ex_bumped g) =
    (s.st.busy ≡ true)
    × IsQuiet s.st
    × (s.lock ≡ locked_ex)
    × (s.block_task ≡ ex_busy)
    × (g ≡ f.gen)
BusyOk f s (ex_viewed g) =
    (s.st.busy ≡ true)
    × IsQuiet s.st
    × (s.lock ≡ locked_ex)
    × (s.block_task ≡ ex_busy)
    × (g ≡ f.gen)
    × (s.seen ≡ f.dir)

abbrev pub BlockOk : Store → BlockTask → Type 0
BlockOk s no_block = s.st.blocked ≡ false
BlockOk s ex_draining = (s.st.blocked ≡ true) × (s.busy_task ≡ resting) × (s.st.exclusive ≡ 0)
BlockOk s ex_busy = s.st.blocked ≡ true
BlockOk s end_draining = (s.st.blocked ≡ true) × (s.busy_task ≡ resting) × (s.st.exclusive ≡ 1)
BlockOk s pause_draining = (s.st.blocked ≡ true) × (s.busy_task ≡ resting)
BlockOk s paused = (s.st.blocked ≡ true) × (s.busy_task ≡ resting) × (s.st.shared ≡ 0)

pub record Ok (f : Shared) (s : Store) : Type 0 where
  pub busy_ok : BusyOk f s s.busy_task
  pub block_ok : BlockOk s s.block_task
  pub flocked_span : s.st.flocked ≡ true → (1 ≤ s.st.shared) × (s.st.exclusive ≡ 0)
  pub span_locked : 1 ≤ s.st.shared → (s.st.flocked ≡ true) ⊎ (1 ≤ s.st.exclusive)
  pub known : s.st.generation ≤ f.gen
  pub up_to_date : s.st.looked ≡ true → s.st.generation ≡ f.gen → s.seen ≡ f.dir
  pub current :
      (1 ≤ s.st.shared) ⊎ (1 ≤ s.st.exclusive) → (s.st.looked ≡ true) × (s.st.generation ≡ f.gen)

-- A store with an open span or sweep, or without a busy step, rests.
pub BusyOk-rests :
    (f : Shared) (s : Store) (t : BusyTask)
    → BusyOk f s t
    → (s.st.busy ≡ false) ⊎ ((1 ≤ s.st.shared) ⊎ (1 ≤ s.st.exclusive))
    → t ≡ resting
BusyOk-rests f s resting o h = refl
BusyOk-rests f s sh_polling o h = absurd (ground arith)
BusyOk-rests f s sh_holding o h = absurd (ground arith)
BusyOk-rests f s (sh_viewed g) o h = absurd (ground arith)
BusyOk-rests f s ex_polling o h = absurd (ground arith)
BusyOk-rests f s ex_holding o h = absurd (ground arith)
BusyOk-rests f s (ex_bumped g) o h = absurd (ground arith)
BusyOk-rests f s (ex_viewed g) o h = absurd (ground arith)

pub BlockOk-free : (s : Store) (b : BlockTask) → BlockOk s b → s.st.blocked ≡ false → b ≡ no_block
BlockOk-free s no_block o h = refl
BlockOk-free s ex_draining o h = absurd (ground arith)
BlockOk-free s ex_busy o h = absurd (ground arith)
BlockOk-free s end_draining o h = absurd (ground arith)
BlockOk-free s pause_draining o h = absurd (ground arith)
BlockOk-free s paused o h = absurd (ground arith)

pub BlockOk-keeps :
    (s s' : Store) (b : BlockTask)
    → BlockOk s b
    → s'.st.blocked ≡ s.st.blocked
    → (s.busy_task ≡ resting → s'.busy_task ≡ resting)
    → (s.st.exclusive ≤ 1 → s'.st.exclusive ≡ s.st.exclusive)
    → (s.st.blocked ≡ true → s.st.shared ≡ 0 → s'.st.shared ≡ 0)
    → BlockOk s' b
BlockOk-keeps s s' no_block o h1 h2 h3 h4 = ground arith
BlockOk-keeps s s' ex_draining o h1 h2 h3 h4 = ground arith
BlockOk-keeps s s' ex_busy o h1 h2 h3 h4 = ground arith
BlockOk-keeps s s' end_draining o h1 h2 h3 h4 = ground arith
BlockOk-keeps s s' pause_draining o h1 h2 h3 h4 = ground arith
BlockOk-keeps s s' paused o h1 h2 h3 h4 = ground arith

module _ {f : Shared} {s : Store} (o : Ok f s) where
  pub at_task : {t : BusyTask} → s.busy_task ≡ t → BusyOk f s t
  at_task e = subst (λ t. BusyOk f s t) e o.busy_ok

  pub at_block : {b : BlockTask} → s.block_task ≡ b → BlockOk s b
  at_block e = subst (λ b. BlockOk s b) e o.block_ok

  pub at_rest :
      (s.st.busy ≡ false) ⊎ ((1 ≤ s.st.shared) ⊎ (1 ≤ s.st.exclusive))
      → (s.busy_task ≡ resting) × BusyOk f s resting
  at_rest h = let e = BusyOk-rests f s s.busy_task o.busy_ok h in (e, at_task e)

  pub at_free : s.st.blocked ≡ false → s.block_task ≡ no_block
  at_free h = BlockOk-free s s.block_task o.block_ok h
