-- ===== src/Barrier/Capture.antt =====
-- What a capture (src/packstore/barrier.rs) has kept when compact takes it.
use core_rs.Prelude.{
  ◌≡◌, refl, ap, ◌∙◌, arith, Bool, true, false, ◌||◌, none, some, List, [], ◌∷◌, ◌++◌,
}
use core_rs.Key.{Key}
use core_rs.Markset.{listed}
use core_rs.Barrier.{
  Barrier, begin_barrier, abort_barrier, inserted, insert_keys, observe_keys, take_grey, is_grey,
  live,
}

-- What observers do under the lock, one behind the other.
unfoldable pub run : List (List Key) → Barrier → Barrier
run [] s = s
run (ks ∷ rest) s = run rest (insert_keys ks s)

-- One of the observers had the key.
unfoldable pub observed : Key → List (List Key) → Bool
observed k [] = false
observed k (ks ∷ rest) = listed k ks || observed k rest

listed-append : (k : Key) (xs ys : List Key) → listed k (xs ++ ys) ≡ (listed k xs || listed k ys)
unfolding listed
listed-append k [] ys = refl
listed-append k (x ∷ xs) ys = ground (arith, listed-append k xs ys)

run-grey :
    (es : List (List Key)) (s : Barrier) (g : List Key) (k : Key)
    → s.grey ≡ some g
    → ((run es s).capturing ≡ s.capturing)
      × (is_grey (run es s).grey k ≡ (listed k g || observed k es))
unfolding run observed inserted
run-grey [] s g k h = (refl, ap (λ o. is_grey o k) h ∙ ground arith)
run-grey (ks ∷ es) s g k h =
    let (c, e) = run-grey es (insert_keys ks s) (ks ++ g) k (ap (inserted ks) h) in
    (c, e ∙ ground (arith, listed-append k ks g))

run-none : (es : List (List Key)) (s : Barrier) → s.grey ≡ none → (run es s).grey ≡ none
unfolding run inserted
run-none [] s h = h
run-none (ks ∷ es) s h = run-none es (insert_keys ks s) (ap (inserted ks) h)

-- From begin_barrier on, whatever observers come by and in whatever order: while nothing ends the
-- capture an observer sees that it runs, so that what it inserts counts; when compact takes the
-- set, a key is live just where one of them had it or the mark has it. Behind an abort no observer
-- brings the set back, and behind compact nothing is left of it.
pub capture_lem :
    (s : Barrier) (es late : List (List Key)) (marked : Key → Bool) (k : Key)
    → ((run es (begin_barrier s)).capturing ≡ true)
      × (observe_keys (k ∷ []) (run es (begin_barrier s))
          ≡ insert_keys (k ∷ []) (run es (begin_barrier s)))
      × (live (take_grey (run es (begin_barrier s))).0 marked k ≡ (observed k es || marked k))
      × (live (take_grey (run late (abort_barrier s))).0 marked k ≡ marked k)
      × (live (take_grey (run late (take_grey s).1)).0 marked k ≡ marked k)
unfolding observe_keys listed
capture_lem s es late marked k =
    let (c, e) = run-grey es (begin_barrier s) [] k refl in
    let gone = run-none late (abort_barrier s) refl in
    (
      c,
      rw c refl,
      ap (λ t. t || marked k) e,
      ap (λ o. is_grey o k || marked k) gone,
      ap (λ o. is_grey o k || marked k) gone,
    )
