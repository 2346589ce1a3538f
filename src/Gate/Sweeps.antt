-- ===== src/Gate/Sweeps.antt =====
-- The moves of a sweep and of a pause (src/packstore/gate.rs: begin_exclusive, end_exclusive,
-- pause_local) keep what holds of a gate.
use core_rs.Prelude.{ℕ, ◌+◌, ◌^◌, ◌<◌, ◌≤◌, ◌≡◌, refl, inl, inr, arith, true}
use core_rs.Gate.{
  start_busy, may_block, nest, block, unblock, fail_exclusive, publish_exclusive, end_nested,
  end_exclusive, bump, Store, Shared, unlocked, locked_ex, resting, ex_polling, ex_holding,
  ex_bumped, ex_viewed, no_block, ex_draining, ex_busy, end_draining, pause_draining, paused,
}
use core_rs.Gate.Local.{IsQuiet, Ok, BusyOk, BlockOk-keeps, at_task, at_block, at_rest, at_free}

module _ {f : Shared} (s : Store) (o : Ok f s) where
  open o use {busy_ok, block_ok, flocked_span, span_locked, known, up_to_date, current}

  pub nested-Ok : may_block s.st ≡ true → 1 ≤ s.st.exclusive → Ok f (record s { st = nest s.st })
  nested-Ok a h =
      let (rest, ok_rest) = at_rest o (inr (inr h)) in
      let free = at_free o (ground arith) in
      record {
        busy_ok = rw rest (ground arith);
        block_ok = rw free (at_block o free);
        flocked_span = λ x. ground arith;
        span_locked = λ x. ground arith;
        known = known;
        up_to_date = up_to_date;
        current = λ x. ground arith;
      }

  -- A thread keeps new spans out: the three places that wait for the spans to end.
  module _ (a : may_block s.st ≡ true) where
    rest : (s.busy_task ≡ resting) × BusyOk f s resting
    rest = at_rest o (inl (ground arith))

    pub ex_blocked-Ok :
        s.st.exclusive ≡ 0 → Ok f (record s { st = block s.st; block_task = ex_draining })
    ex_blocked-Ok h =
        let (r, ok_rest) = rest in
        record {
          busy_ok = rw r (ground arith);
          block_ok = (refl, r, h);
          flocked_span = flocked_span;
          span_locked = span_locked;
          known = known;
          up_to_date = up_to_date;
          current = current;
        }

    pub end_blocked-Ok :
        s.st.exclusive ≡ 1 → Ok f (record s { st = block s.st; block_task = end_draining })
    end_blocked-Ok h =
        let (r, ok_rest) = rest in
        record {
          busy_ok = rw r (ground arith);
          block_ok = (refl, r, h);
          flocked_span = flocked_span;
          span_locked = span_locked;
          known = known;
          up_to_date = up_to_date;
          current = current;
        }

    pub pausing-Ok : Ok f (record s { st = block s.st; block_task = pause_draining })
    pausing-Ok =
        let (r, ok_rest) = rest in
        record {
          busy_ok = rw r (ground arith);
          block_ok = (refl, r);
          flocked_span = flocked_span;
          span_locked = span_locked;
          known = known;
          up_to_date = up_to_date;
          current = current;
        }

  pub ex_gave_up-Ok :
      s.block_task ≡ ex_draining → Ok f (record s { st = unblock s.st; block_task = no_block })
  ex_gave_up-Ok e =
      let (blocked, r, none_open) = at_block o e in
      let ok_rest = at_task o r in
      record {
        busy_ok = rw r ok_rest;
        block_ok = refl;
        flocked_span = flocked_span;
        span_locked = span_locked;
        known = known;
        up_to_date = up_to_date;
        current = current;
      }

  pub ex_drained-Ok :
      s.block_task ≡ ex_draining
      → s.st.shared ≡ 0
      → Ok f (record s { st = start_busy s.st; busy_task = ex_polling; block_task = ex_busy })
  ex_drained-Ok e h =
      let (blocked, r, none_open) = at_block o e in
      let ok_rest = at_task o r in
      record {
        busy_ok = ground arith;
        block_ok = blocked;
        flocked_span = flocked_span;
        span_locked = span_locked;
        known = known;
        up_to_date = up_to_date;
        current = current;
      }

  pub ex_locked-Ok :
      s.busy_task ≡ ex_polling → Ok f (record s { busy_task = ex_holding; lock = locked_ex })
  ex_locked-Ok e =
      let (busy, quiet, lock, own) = at_task o e in
      record {
        busy_ok = (busy, quiet, refl, own);
        block_ok = rw own (at_block o own);
        flocked_span = flocked_span;
        span_locked = span_locked;
        known = known;
        up_to_date = up_to_date;
        current = current;
      }

  pub ex_bumped_now-Ok :
      s.busy_task ≡ ex_holding
      → f.gen + 1 < 2 ^ 64
      → Ok (record f { gen = bump f.gen }) (record s { busy_task = ex_bumped (bump f.gen) })
  ex_bumped_now-Ok e fits =
      let (busy, quiet, lock, own) = at_task o e in
      record {
        busy_ok = (busy, quiet, lock, own, refl);
        block_ok = rw own (at_block o own);
        flocked_span = flocked_span;
        span_locked = span_locked;
        known = ground arith;
        up_to_date = λ h k. ground arith;
        current = λ x. ground arith;
      }

  pub ex_viewed_now-Ok :
      (g : ℕ)
      → s.busy_task ≡ ex_bumped g
      → Ok f (record s { busy_task = ex_viewed g; seen = f.dir })
  ex_viewed_now-Ok g e =
      let (busy, quiet, lock, own, now) = at_task o e in
      record {
        busy_ok = (busy, quiet, lock, own, now, refl);
        block_ok = rw own (at_block o own);
        flocked_span = flocked_span;
        span_locked = span_locked;
        known = known;
        up_to_date = λ h k. refl;
        current = current;
      }

  pub ex_published-Ok :
      (g : ℕ)
      → s.busy_task ≡ ex_viewed g
      → Ok f
          (record s { st = publish_exclusive g s.st; busy_task = resting; block_task = no_block })
  ex_published-Ok g e =
      let (busy, quiet, lock, own, now, view) = at_task o e in
      record {
        busy_ok = ground arith;
        block_ok = refl;
        flocked_span = λ x. ground arith;
        span_locked = λ x. ground arith;
        known = ground arith;
        up_to_date = λ h k. view;
        current = λ x. ground arith;
      }

  pub ex_failed-Ok :
      IsQuiet s.st
      → Ok f (record s {
        st = fail_exclusive s.st;
        busy_task = resting;
        block_task = no_block;
        lock = unlocked;
      })
  ex_failed-Ok quiet = record {
    busy_ok = ground arith;
    block_ok = refl;
    flocked_span = flocked_span;
    span_locked = span_locked;
    known = known;
    up_to_date = up_to_date;
    current = current;
  }

  pub removed-Ok :
      1 ≤ s.st.exclusive → Ok (record f { dir = f.dir + 1 }) (record s { seen = f.dir + 1 })
  removed-Ok h =
      let (r, ok_rest) = at_rest o (inr (inr h)) in
      let s' : Store = record s { seen = f.dir + 1 } in
      record {
        busy_ok = rw r (ground arith);
        block_ok = BlockOk-keeps s s' s.block_task block_ok refl (λ r. r) (λ h. refl) (λ x y. y);
        flocked_span = flocked_span;
        span_locked = span_locked;
        known = known;
        up_to_date = λ h k. refl;
        current = current;
      }

  pub nest_ended-Ok : 2 ≤ s.st.exclusive → Ok f (record s { st = end_nested s.st })
  nest_ended-Ok h =
      let (r, ok_rest) = at_rest o (inr (inr (omega arith))) in
      let s' : Store = record s { st = end_nested s.st } in
      record {
        busy_ok = rw r (ground arith);
        block_ok =
            BlockOk-keeps s s' s.block_task block_ok refl (λ r. r) (λ z. omega arith) (λ x y. y);
        flocked_span = λ x. ground arith;
        span_locked = λ x. ground arith;
        known = known;
        up_to_date = up_to_date;
        current = λ x. ground arith;
      }

  pub ex_ended-Ok :
      s.block_task ≡ end_draining
      → s.st.shared ≡ 0
      → Ok f (record s { st = end_exclusive s.st; block_task = no_block; lock = unlocked })
  ex_ended-Ok e h =
      let (blocked, r, one) = at_block o e in
      let ok_rest = at_task o r in
      record {
        busy_ok = rw r (ground arith);
        block_ok = refl;
        flocked_span = λ x. ground arith;
        span_locked = λ x. ground arith;
        known = known;
        up_to_date = up_to_date;
        current = λ x. ground arith;
      }

  pub pause_drained-Ok :
      s.block_task ≡ pause_draining → s.st.shared ≡ 0 → Ok f (record s { block_task = paused })
  pause_drained-Ok e h =
      let (blocked, r) = at_block o e in
      let ok_rest = at_task o r in
      record {
        busy_ok = rw r ok_rest;
        block_ok = (blocked, r, h);
        flocked_span = flocked_span;
        span_locked = span_locked;
        known = known;
        up_to_date = up_to_date;
        current = current;
      }

  pub resumed-Ok :
      s.block_task ≡ paused → Ok f (record s { st = unblock s.st; block_task = no_block })
  resumed-Ok e =
      let (blocked, r, none_open) = at_block o e in
      let ok_rest = at_task o r in
      record {
        busy_ok = rw r ok_rest;
        block_ok = refl;
        flocked_span = flocked_span;
        span_locked = span_locked;
        known = known;
        up_to_date = up_to_date;
        current = current;
      }
