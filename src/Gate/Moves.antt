-- ===== src/Gate/Moves.antt =====
-- Every move of a gate (src/packstore/gate.rs): what it keeps, and what it does to the lock, to the
-- generation and to what other stores must know.
use core_rs.Prelude.{ℕ, ◌+◌, ◌<◌, ◌≤◌, ◌≡◌, ◌⊎◌, ap, inl, inr, arith, false, subst}
use core_rs.Gate.{
  Store, Shared, unlocked, locked_sh, locked_ex, BusyTask, ex_polling, ex_holding, ex_bumped,
  ex_viewed, Move, joined, sh_started, sh_locked, sh_viewed_now, sh_published, sh_failed, sh_ended,
  nested, ex_blocked, ex_gave_up, ex_drained, ex_locked, ex_bumped_now, ex_viewed_now, ex_published,
  ex_failed, removed, nest_ended, end_blocked, ex_ended, pausing, pause_drained, resumed, died,
}
use core_rs.Gate.Local.{IsQuiet, Ok, at_task}
use core_rs.Gate.Spans.{
  joined-Ok, sh_started-Ok, sh_locked-Ok, sh_viewed_now-Ok, sh_published-Ok, sh_failed-Ok,
  sh_ended-Ok, opened-Ok,
}
use core_rs.Gate.Sweeps.{
  nested-Ok, ex_blocked-Ok, end_blocked-Ok, pausing-Ok, ex_gave_up-Ok, ex_drained-Ok, ex_locked-Ok,
  ex_bumped_now-Ok, ex_viewed_now-Ok, ex_published-Ok, ex_failed-Ok, removed-Ok, nest_ended-Ok,
  ex_ended-Ok, pause_drained-Ok, resumed-Ok,
}

in_sweep-IsQuiet :
    {f : Shared} (s : Store)
    → Ok f s
    → (s.busy_task ≡ ex_polling)
      ⊎ ((s.busy_task ≡ ex_holding) ⊎ ((g : ℕ) × (s.busy_task ≡ ex_bumped g)))
    → IsQuiet s.st
in_sweep-IsQuiet s o (inl e) = (at_task o e).1
in_sweep-IsQuiet s o (inr (inl e)) = (at_task o e).1
in_sweep-IsQuiet s o (inr (inr (g, e))) = (at_task o e).1

-- The store has moved the generation on and not yet let go of the lock.
abbrev pub IsPastBump : BusyTask → Type 0
IsPastBump (ex_bumped g) = Unit
IsPastBump (ex_viewed g) = Unit
IsPastBump _ = ⊥

abbrev pub IsSweeping : Store → Type 0
IsSweeping s = (1 ≤ s.st.exclusive) ⊎ IsPastBump s.busy_task

-- The store's next span will look at the directory.
abbrev pub IsStale : Shared → Store → Type 0
IsStale f s = (s.st.looked ≡ false) ⊎ (s.st.generation < f.gen)

module _ {Sh Ex : Type 0} {f f' : Shared} (s s' : Store) where
  pub Move-Ok : Move Sh Ex f s f' s' → Ok f s → Ok f' s'
  Move-Ok (joined a b q p) o = rw (q, p) (joined-Ok s o a b)
  Move-Ok (sh_started a b q p) o = rw (q, p) (sh_started-Ok s o a b)
  Move-Ok (sh_locked e x q p) o = rw (q, p) (sh_locked-Ok s o e)
  Move-Ok (sh_viewed_now e q p) o = rw (q, p) (sh_viewed_now-Ok s o e)
  Move-Ok (sh_published g e q p) o = rw (q, p) (sh_published-Ok s o g e)
  Move-Ok (sh_failed e q p) o = rw (q, p) (sh_failed-Ok s o e)
  Move-Ok (sh_ended h q p) o = rw (q, p) (sh_ended-Ok s o h)
  Move-Ok (nested a h q p) o = rw (q, p) (nested-Ok s o a h)
  Move-Ok (ex_blocked a h q p) o = rw (q, p) (ex_blocked-Ok s o a h)
  Move-Ok (ex_gave_up e q p) o = rw (q, p) (ex_gave_up-Ok s o e)
  Move-Ok (ex_drained e h q p) o = rw (q, p) (ex_drained-Ok s o e h)
  Move-Ok (ex_locked e x q p) o = rw (q, p) (ex_locked-Ok s o e)
  Move-Ok (ex_bumped_now e h q p) o = rw (q, p) (ex_bumped_now-Ok s o e h)
  Move-Ok (ex_viewed_now g e q p) o = rw (q, p) (ex_viewed_now-Ok s o g e)
  Move-Ok (ex_published g e q p) o = rw (q, p) (ex_published-Ok s o g e)
  Move-Ok (ex_failed e q p) o = rw (q, p) (ex_failed-Ok s o (in_sweep-IsQuiet s o e))
  Move-Ok (removed h q p) o = rw (q, p) (removed-Ok s o h)
  Move-Ok (nest_ended h q p) o = rw (q, p) (nest_ended-Ok s o h)
  Move-Ok (end_blocked h a q p) o = rw (q, p) (end_blocked-Ok s o a h)
  Move-Ok (ex_ended e h q p) o = rw (q, p) (ex_ended-Ok s o e h)
  Move-Ok (pausing a q p) o = rw (q, p) (pausing-Ok s o a)
  Move-Ok (pause_drained e h q p) o = rw (q, p) (pause_drained-Ok s o e h)
  Move-Ok (resumed e q p) o = rw (q, p) (resumed-Ok s o e)
  Move-Ok (died v q p) o = rw (q, p) (opened-Ok f v)

  -- What a move does to the lock.
  pub Move-lock :
      Move Sh Ex f s f' s'
      → ((s'.lock ≡ s.lock) ⊎ (s'.lock ≡ unlocked))
        ⊎ (((s'.lock ≡ locked_sh) × Sh) ⊎ ((s'.lock ≡ locked_ex) × Ex))
  Move-lock (joined a b q p) = inl (inl (ap (λ x. x.lock) p))
  Move-lock (sh_started a b q p) = inl (inl (ap (λ x. x.lock) p))
  Move-lock (sh_locked e x q p) = inr (inl (ap (λ x. x.lock) p, x))
  Move-lock (sh_viewed_now e q p) = inl (inl (ap (λ x. x.lock) p))
  Move-lock (sh_published g e q p) = inl (inl (ap (λ x. x.lock) p))
  Move-lock (sh_failed e q p) = inl (inr (ap (λ x. x.lock) p))
  Move-lock (sh_ended h q p) = inl (ground arith)
  Move-lock (nested a h q p) = inl (inl (ap (λ x. x.lock) p))
  Move-lock (ex_blocked a h q p) = inl (inl (ap (λ x. x.lock) p))
  Move-lock (ex_gave_up e q p) = inl (inl (ap (λ x. x.lock) p))
  Move-lock (ex_drained e h q p) = inl (inl (ap (λ x. x.lock) p))
  Move-lock (ex_locked e x q p) = inr (inr (ap (λ x. x.lock) p, x))
  Move-lock (ex_bumped_now e h q p) = inl (inl (ap (λ x. x.lock) p))
  Move-lock (ex_viewed_now g e q p) = inl (inl (ap (λ x. x.lock) p))
  Move-lock (ex_published g e q p) = inl (inl (ap (λ x. x.lock) p))
  Move-lock (ex_failed e q p) = inl (inr (ap (λ x. x.lock) p))
  Move-lock (removed h q p) = inl (inl (ap (λ x. x.lock) p))
  Move-lock (nest_ended h q p) = inl (inl (ap (λ x. x.lock) p))
  Move-lock (end_blocked h a q p) = inl (inl (ap (λ x. x.lock) p))
  Move-lock (ex_ended e h q p) = inl (inr (ap (λ x. x.lock) p))
  Move-lock (pausing a q p) = inl (inl (ap (λ x. x.lock) p))
  Move-lock (pause_drained e h q p) = inl (inl (ap (λ x. x.lock) p))
  Move-lock (resumed e q p) = inl (inl (ap (λ x. x.lock) p))
  Move-lock (died v q p) = inl (inr (ap (λ x. x.lock) p))

  -- What a move does to what the stores share: a sweep that has the lock moves the generation on, and
  -- an open one removes segments.
  pub Move-shared :
      Move Sh Ex f s f' s'
      → Ok f s
      → (f' ≡ f)
        ⊎ (((f'.gen ≡ f.gen + 1) × (s.lock ≡ locked_ex))
            ⊎ ((f'.gen ≡ f.gen) × (1 ≤ s.st.exclusive)))
  Move-shared (joined a b q p) o = inl q
  Move-shared (sh_started a b q p) o = inl q
  Move-shared (sh_locked e x q p) o = inl q
  Move-shared (sh_viewed_now e q p) o = inl q
  Move-shared (sh_published g e q p) o = inl q
  Move-shared (sh_failed e q p) o = inl q
  Move-shared (sh_ended h q p) o = inl q
  Move-shared (nested a h q p) o = inl q
  Move-shared (ex_blocked a h q p) o = inl q
  Move-shared (ex_gave_up e q p) o = inl q
  Move-shared (ex_drained e h q p) o = inl q
  Move-shared (ex_locked e x q p) o = inl q
  Move-shared (ex_bumped_now e h q p) o = let lock = (at_task o e).2 in inr (inl (ground arith))
  Move-shared (ex_viewed_now g e q p) o = inl q
  Move-shared (ex_published g e q p) o = inl q
  Move-shared (ex_failed e q p) o = inl q
  Move-shared (removed h q p) o = inr (inr (ap (λ x. x.gen) q, h))
  Move-shared (nest_ended h q p) o = inl q
  Move-shared (end_blocked h a q p) o = inl q
  Move-shared (ex_ended e h q p) o = inl q
  Move-shared (pausing a q p) o = inl q
  Move-shared (pause_drained e h q p) o = inl q
  Move-shared (resumed e q p) o = inl q
  Move-shared (died v q p) o = inl q

  -- A store without a lock that is stale stays so.
  pub Move-IsStale : Move Sh Ex f s f' s' → Ok f s → s.lock ≡ unlocked → IsStale f s → IsStale f' s'
  Move-IsStale (joined a b q p) o u h = rw (q, p) h
  Move-IsStale (sh_started a b q p) o u h = rw (q, p) h
  Move-IsStale (sh_locked e x q p) o u h = rw (q, p) h
  Move-IsStale (sh_viewed_now e q p) o u h = rw (q, p) h
  Move-IsStale (sh_published g e q p) o u h = let lock = (at_task o e).2 in absurd (ground arith)
  Move-IsStale (sh_failed e q p) o u h = rw (q, p) h
  Move-IsStale (sh_ended k q p) o u h = rw (q, p) h
  Move-IsStale (nested a k q p) o u h = rw (q, p) h
  Move-IsStale (ex_blocked a k q p) o u h = rw (q, p) h
  Move-IsStale (ex_gave_up e q p) o u h = rw (q, p) h
  Move-IsStale (ex_drained e k q p) o u h = rw (q, p) h
  Move-IsStale (ex_locked e x q p) o u h = rw (q, p) h
  Move-IsStale (ex_bumped_now e k q p) o u h = let lock = (at_task o e).2 in absurd (ground arith)
  Move-IsStale (ex_viewed_now g e q p) o u h = rw (q, p) h
  Move-IsStale (ex_published g e q p) o u h = let lock = (at_task o e).2 in absurd (ground arith)
  Move-IsStale (ex_failed e q p) o u h = rw (q, p) h
  Move-IsStale (removed k q p) o u h = rw (q, p) h
  Move-IsStale (nest_ended k q p) o u h = rw (q, p) h
  Move-IsStale (end_blocked k a q p) o u h = rw (q, p) h
  Move-IsStale (ex_ended e k q p) o u h = rw (q, p) h
  Move-IsStale (pausing a q p) o u h = rw (q, p) h
  Move-IsStale (pause_drained e k q p) o u h = rw (q, p) h
  Move-IsStale (resumed e q p) o u h = rw (q, p) h
  Move-IsStale (died v q p) o u h = inl (ap (λ x. x.st.looked) p)

  -- A move into a sweep is the one that moves the generation on.
  pub Move-IsSweeping :
      Move Sh Ex f s f' s' → Ok f s → IsSweeping s' → IsSweeping s ⊎ (f'.gen ≡ f.gen + 1)
  Move-IsSweeping (joined a b q p) o h = inl (subst (λ x. IsSweeping x) p h)
  Move-IsSweeping (sh_started a b q p) o h = elim (subst (λ x. IsSweeping x) p h) [
    | inl x ↦ inl (inl x)
    | inr x ↦ absurd x
  ]
  Move-IsSweeping (sh_locked e x q p) o h = elim (subst (λ x. IsSweeping x) p h) [
    | inl x ↦ inl (inl x)
    | inr x ↦ absurd x
  ]
  Move-IsSweeping (sh_viewed_now e q p) o h = elim (subst (λ x. IsSweeping x) p h) [
    | inl x ↦ inl (inl x)
    | inr x ↦ absurd x
  ]
  Move-IsSweeping (sh_published g e q p) o h = elim (subst (λ x. IsSweeping x) p h) [
    | inl x ↦ inl (inl x)
    | inr x ↦ absurd x
  ]
  Move-IsSweeping (sh_failed e q p) o h = elim (subst (λ x. IsSweeping x) p h) [
    | inl x ↦ inl (inl x)
    | inr x ↦ absurd x
  ]
  Move-IsSweeping (sh_ended k q p) o h = inl (subst (λ x. IsSweeping x) p h)
  Move-IsSweeping (nested a k q p) o h = inl (inl k)
  Move-IsSweeping (ex_blocked a k q p) o h = inl (subst (λ x. IsSweeping x) p h)
  Move-IsSweeping (ex_gave_up e q p) o h = inl (subst (λ x. IsSweeping x) p h)
  Move-IsSweeping (ex_drained e k q p) o h = elim (subst (λ x. IsSweeping x) p h) [
    | inl x ↦ inl (inl x)
    | inr x ↦ absurd x
  ]
  Move-IsSweeping (ex_locked e x q p) o h = elim (subst (λ x. IsSweeping x) p h) [
    | inl x ↦ inl (inl x)
    | inr x ↦ absurd x
  ]
  Move-IsSweeping (ex_bumped_now e k q p) o h = inr (ground arith)
  Move-IsSweeping (ex_viewed_now g e q p) o h = inl (inr (rw e tt))
  Move-IsSweeping (ex_published g e q p) o h = inl (inr (rw e tt))
  Move-IsSweeping (ex_failed e q p) o h = elim (subst (λ x. IsSweeping x) p h) [
    | inl x ↦ inl (inl x)
    | inr x ↦ absurd x
  ]
  Move-IsSweeping (removed k q p) o h = inl (subst (λ x. IsSweeping x) p h)
  Move-IsSweeping (nest_ended k q p) o h = inl (inl (omega arith))
  Move-IsSweeping (end_blocked k a q p) o h = inl (subst (λ x. IsSweeping x) p h)
  Move-IsSweeping (ex_ended e k q p) o h = elim (subst (λ x. IsSweeping x) p h) [
    | inl x ↦ absurd (omega arith)
    | inr x ↦ inl (inr x)
  ]
  Move-IsSweeping (pausing a q p) o h = inl (subst (λ x. IsSweeping x) p h)
  Move-IsSweeping (pause_drained e k q p) o h = inl (subst (λ x. IsSweeping x) p h)
  Move-IsSweeping (resumed e q p) o h = inl (subst (λ x. IsSweeping x) p h)
  Move-IsSweeping (died v q p) o h = elim (subst (λ x. IsSweeping x) p h) [
    | inl x ↦ absurd (omega arith)
    | inr x ↦ absurd x
  ]
