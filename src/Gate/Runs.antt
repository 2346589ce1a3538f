-- ===== src/Gate/Runs.antt =====
-- Runs of the gate (src/packstore/gate.rs): store 0 opens a span, or takes the sweep.
use core_rs.Prelude.{ℕ, ◌+◌, ◌≡◌, ◌≢◌, refl, ap, arith}
use core_rs.Gate.{
  start_busy, publish_shared, default, Store, Shared, opened, locked_sh, resting, sh_polling,
  sh_holding, sh_viewed, sh_started, sh_locked, sh_viewed_now, sh_published,
}
use core_rs.Gate.System.{System, Reach, here, IsStart}
use core_rs.Gate.Safety.{span_is_safe}
use core_rs.Gate.Progress.{Came, came, sweep_begins}

abbrev swept_file : Shared
swept_file = record { gen = 3; dir = 5 }

-- The stores were opened on a directory that has changed since.
abbrev start : System
start = record { file = swept_file; stores = λ i. opened 4 }

start-IsStart : IsStart start
start-IsStart i = (4, refl)

abbrev polling : Store
polling = record (opened 4) { st = start_busy default; busy_task = sh_polling }

abbrev holding : Store
holding = record polling { busy_task = sh_holding; lock = locked_sh }

abbrev viewed : Store
viewed = record holding { busy_task = sh_viewed 3; seen = 5 }

abbrev in_span : Store
in_span = record viewed { st = publish_shared 3 viewed.st; busy_task = resting }

spanned : Came 0 start start swept_file in_span
spanned =
    let c0 : Came 0 start start swept_file (opened 4) = record {
      w = start;
      by = here;
      file_is = refl;
      store_is = refl;
      others = λ j ne. refl;
    } in
    let c1 = came 0 swept_file polling c0 (λ w e. sh_started refl refl refl refl) in
    let c2 = came 0 swept_file holding c1 (λ w e.
      sh_locked refl (λ j ne l. absurd (ground (arith, ap (λ x. x.lock) (e j ne)))) refl refl) in
    let c3 = came 0 swept_file viewed c2 (λ w e. sh_viewed_now refl refl refl) in
    came 0 swept_file in_span c3 (λ w e. sh_published 3 refl refl refl)

span_is_safe_example :
    ((spanned.w.stores 0).seen ≡ spanned.w.file.dir) × ((spanned.w.stores 1).st.exclusive ≡ 0)
span_is_safe_example =
    span_is_safe start spanned.w 0 1 start-IsStart spanned.by
      (omega (arith, ap (λ x. x.st.shared) spanned.store_is)) (omega arith)

sweep_begins_example :
    (w : System) × Reach start w
    × ((w.stores 2).st.exclusive ≡ 1)
    × ((w.stores 2).seen ≡ w.file.dir)
    × (w.file.gen ≡ 3 + 1)
    × ((j : ℕ) → j ≢ 2 → w.stores j ≡ opened 4)
sweep_begins_example = sweep_begins start start 2 here refl refl refl (λ j ne. refl) (omega arith)
