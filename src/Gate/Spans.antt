-- ===== src/Gate/Spans.antt =====
-- The moves of a write span (src/packstore/gate.rs: begin_shared, end_shared) keep what holds of a
-- gate.
use core_rs.Prelude.{ℕ, ◌≤◌, ◌≡◌, ◌⊎◌, refl, inl, inr, arith, true, false, if◌then◌else◌}
use core_rs.Gate.{
  may_begin_shared, joins, join, start_busy, must_refresh, publish_shared, fail_shared, drops_flock,
  end_shared, Store, opened, Shared, unlocked, locked_sh, resting, sh_polling, sh_holding,
  sh_viewed,
}
use core_rs.Gate.Local.{Ok, BlockOk-keeps, at_task, at_block, at_rest, at_free}

module _ {f : Shared} (s : Store) (o : Ok f s) where
  open o use {busy_ok, block_ok, flocked_span, span_locked, known, up_to_date, current}

  pub joined-Ok :
      may_begin_shared s.st ≡ true → joins s.st ≡ true → Ok f (record s { st = join s.st })
  joined-Ok a b =
      let (rest, ok_rest) = at_rest o (inl (ground arith)) in
      let s' : Store = record s { st = join s.st } in
      record {
        busy_ok = rw rest (ground arith);
        block_ok =
            BlockOk-keeps s s' s.block_task block_ok refl (λ r. r) (λ h. refl)
              (λ x y. ground arith);
        flocked_span = λ x. ground arith;
        span_locked = λ x. ground arith;
        known = known;
        up_to_date = up_to_date;
        current = λ x. ground arith;
      }

  pub sh_started-Ok :
      may_begin_shared s.st ≡ true
      → joins s.st ≡ false
      → Ok f (record s { st = start_busy s.st; busy_task = sh_polling })
  sh_started-Ok a b =
      let (rest, ok_rest) = at_rest o (inl (ground arith)) in
      let none_open : s.st.shared ≡ 0 = ground arith in
      let free = at_free o (ground arith) in
      record {
        busy_ok = ground arith;
        block_ok = rw free (ground arith);
        flocked_span = flocked_span;
        span_locked = span_locked;
        known = known;
        up_to_date = up_to_date;
        current = current;
      }

  pub sh_locked-Ok :
      s.busy_task ≡ sh_polling → Ok f (record s { busy_task = sh_holding; lock = locked_sh })
  sh_locked-Ok e =
      let (busy, quiet, lock, free) = at_task o e in
      record {
        busy_ok = (busy, quiet, refl, free);
        block_ok = rw free (at_block o free);
        flocked_span = flocked_span;
        span_locked = span_locked;
        known = known;
        up_to_date = up_to_date;
        current = current;
      }

  pub sh_viewed_now-Ok :
      s.busy_task ≡ sh_holding
      → Ok f (record s {
        busy_task = sh_viewed f.gen;
        seen = if must_refresh f.gen s.st then f.dir else s.seen;
      })
  sh_viewed_now-Ok e =
      let (busy, quiet, lock, free) = at_task o e in
      let view : (if must_refresh f.gen s.st then f.dir else s.seen) ≡ f.dir = ground arith in
      record {
        busy_ok = (busy, quiet, lock, free, refl, view);
        block_ok = rw free (at_block o free);
        flocked_span = flocked_span;
        span_locked = span_locked;
        known = known;
        up_to_date = λ h k. view;
        current = current;
      }

  pub sh_published-Ok :
      (g : ℕ)
      → s.busy_task ≡ sh_viewed g
      → Ok f (record s { st = publish_shared g s.st; busy_task = resting })
  sh_published-Ok g e =
      let (busy, quiet, lock, free, now, view) = at_task o e in
      record {
        busy_ok = ground arith;
        block_ok = rw free (at_block o free);
        flocked_span = λ x. ground arith;
        span_locked = λ x. ground arith;
        known = ground arith;
        up_to_date = λ h k. view;
        current = λ x. ground arith;
      }

  pub sh_failed-Ok :
      (s.busy_task ≡ sh_polling) ⊎ (s.busy_task ≡ sh_holding)
      → Ok f (record s { st = fail_shared s.st; busy_task = resting; lock = unlocked })
  sh_failed-Ok (inl e) =
      let (busy, quiet, lock, free) = at_task o e in
      record {
        busy_ok = ground arith;
        block_ok = rw free (at_block o free);
        flocked_span = flocked_span;
        span_locked = span_locked;
        known = known;
        up_to_date = up_to_date;
        current = current;
      }
  sh_failed-Ok (inr e) =
      let (busy, quiet, lock, free) = at_task o e in
      record {
        busy_ok = ground arith;
        block_ok = rw free (at_block o free);
        flocked_span = flocked_span;
        span_locked = span_locked;
        known = known;
        up_to_date = up_to_date;
        current = current;
      }

  pub sh_ended-Ok :
      1 ≤ s.st.shared
      → Ok f
          (record s { st = end_shared s.st; lock = if drops_flock s.st then unlocked else s.lock })
  sh_ended-Ok h =
      let (rest, ok_rest) = at_rest o (inr (inl h)) in
      let s' : Store = record s {
        st = end_shared s.st;
        lock = if drops_flock s.st then unlocked else s.lock;
      } in
      record {
        busy_ok = rw rest (ground arith);
        block_ok =
            BlockOk-keeps s s' s.block_task block_ok refl (λ r. r) (λ h. refl)
              (λ x y. ground arith);
        flocked_span = λ x. ground arith;
        span_locked = λ x. ground arith;
        known = known;
        up_to_date = up_to_date;
        current = λ x. ground arith;
      }

pub opened-Ok : (f : Shared) (v : ℕ) → Ok f (opened v)
opened-Ok f v = record {
  busy_ok = (refl, refl);
  block_ok = refl;
  flocked_span = λ x. ground arith;
  span_locked = λ x. ground arith;
  known = omega arith;
  up_to_date = λ h k. ground arith;
  current = λ x. ground arith;
}
