-- ===== src/Barrier/Runs.antt =====
-- A capture (src/packstore/barrier.rs) with two observers.
use core_rs.Prelude.{◌≡◌, true, false, ◌||◌, none, List, [], ◌∷◌, replicate}
use core_rs.Key.{Key}
use core_rs.Barrier.{
  Barrier, begin_barrier, abort_barrier, insert_keys, observe_keys, take_grey, live,
}
use core_rs.Barrier.Capture.{run, observed, capture_lem}

abbrev written : Key
written = record { bytes = replicate 32 3 }

abbrev idle : Barrier
idle = record { capturing = false; grey = none }

abbrev seen : List (List Key)
seen = (written ∷ []) ∷ (written ∷ written ∷ []) ∷ []

capture_lem_example :
    ((run seen (begin_barrier idle)).capturing ≡ true)
    × (observe_keys (written ∷ []) (run seen (begin_barrier idle))
        ≡ insert_keys (written ∷ []) (run seen (begin_barrier idle)))
    × (live (take_grey (run seen (begin_barrier idle))).0 (λ k. false) written
        ≡ (observed written seen || false))
    × (live (take_grey (run seen (abort_barrier idle))).0 (λ k. false) written ≡ false)
    × (live (take_grey (run seen (take_grey idle).1)).0 (λ k. false) written ≡ false)
capture_lem_example = capture_lem idle seen seen (λ k. false) written
