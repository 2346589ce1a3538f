-- ===== src/Gate/Unlocked.antt =====
-- A sweep holds the lock file, and a store that does not hold it does not mind what others do
-- (src/packstore/gate.rs).
use core_rs.Prelude.{◌≤◌, ◌≡◌, ◌⊎◌, inl, inr, arith, ltb, Bool-cases}
use core_rs.Gate.{
  Store, Shared, unlocked, locked_ex, BusyTask, resting, sh_polling, sh_holding, sh_viewed,
  ex_polling, ex_holding, ex_bumped, ex_viewed,
}
use core_rs.Gate.Local.{Ok, BusyOk, at_rest}
use core_rs.Gate.Moves.{IsPastBump, IsSweeping, IsStale}

-- A sweep holds the file exclusively.
pub sweeping-locked : (f : Shared) (s : Store) → Ok f s → IsSweeping s → s.lock ≡ locked_ex
sweeping-locked f s o (inl h) =
    let (r, ok_rest) = at_rest o (inr (inr h)) in
    elim (Bool-cases s.st.flocked) [
      | inl y ↦ absurd (omega (arith, (o.flocked_span y).1))
      | inr n ↦ ground (arith, ok_rest)
    ]
sweeping-locked f s o (inr h) = past s.busy_task o.busy_ok h
  where
    past : (t : BusyTask) → BusyOk f s t → IsPastBump t → s.lock ≡ locked_ex
    past resting b h = absurd h
    past sh_polling b h = absurd h
    past sh_holding b h = absurd h
    past (sh_viewed g) b h = absurd h
    past ex_polling b h = absurd h
    past ex_holding b h = absurd h
    past (ex_bumped g) b h = b.2
    past (ex_viewed g) b h = b.2

-- A store that holds no lock does not mind a change of the shared state, if it is not to know of it.
pub unlocked-quiet :
    (f : Shared) (s : Store) → Ok f s → s.lock ≡ unlocked → (s.st.shared ≡ 0) × (s.st.exclusive ≡ 0)
unlocked-quiet f s o u = elim (Bool-cases (ltb 0 s.st.shared)) [
  | inl h ↦ absurd (open_locked (inl (ground arith)))
  | inr h ↦ elim (Bool-cases (ltb 0 s.st.exclusive)) [
    | inl k ↦ absurd (open_locked (inr (ground arith)))
    | inr k ↦ (ground arith, ground arith)
  ]
]
  where
    open_locked : (1 ≤ s.st.shared) ⊎ (1 ≤ s.st.exclusive) → ⊥
    open_locked h = let (r, ok_rest) = at_rest o (inr h) in ground (arith, o.span_locked, ok_rest)

unlocked-BusyOk :
    (f f' : Shared) (s : Store) (t : BusyTask) → s.lock ≡ unlocked → BusyOk f s t → BusyOk f' s t
unlocked-BusyOk f f' s resting u b = b
unlocked-BusyOk f f' s sh_polling u b = b
unlocked-BusyOk f f' s sh_holding u b = b
unlocked-BusyOk f f' s (sh_viewed g) u b = absurd (ground arith)
unlocked-BusyOk f f' s ex_polling u b = b
unlocked-BusyOk f f' s ex_holding u b = b
unlocked-BusyOk f f' s (ex_bumped g) u b = absurd (ground arith)
unlocked-BusyOk f f' s (ex_viewed g) u b = absurd (ground arith)

pub unlocked-Ok :
    (f f' : Shared) (s : Store)
    → Ok f s
    → s.lock ≡ unlocked
    → f.gen ≤ f'.gen
    → IsStale f' s
    → Ok f' s
unlocked-Ok f f' s o u up stale =
    let (a, b) = unlocked-quiet f s o u in
    record {
      busy_ok = unlocked-BusyOk f f' s s.busy_task u o.busy_ok;
      block_ok = o.block_ok;
      flocked_span = o.flocked_span;
      span_locked = o.span_locked;
      known = omega (arith, o.known);
      up_to_date = λ h k. absurd (ground arith);
      current = λ h. absurd (ground arith);
    }
