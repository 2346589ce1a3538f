-- ===== src/Gate/System.antt =====
-- Stores, each with its gate, on one directory (src/packstore/gate.rs): any store moves next.
use core_rs.Prelude.{ℕ, ◌≡◌, ◌≢◌, ◌==◌, if◌then◌else◌}
use core_rs.Gate.{Store, Shared, unlocked, locked_ex, opened, Move}

pub record System : Type 0 where
  pub file : Shared
  pub stores : ℕ → Store

abbrev pub update : ℕ → Store → (ℕ → Store) → ℕ → Store
update i s stores k = if k == i then s else stores k

-- What flock(2) grants to the descriptor of store `i`: a shared lock while no other holds the file
-- exclusively, an exclusive one while no other holds it.
abbrev pub GrantsShared : System → ℕ → Type 0
GrantsShared u i = (j : ℕ) → j ≢ i → (u.stores j).lock ≢ locked_ex

abbrev pub GrantsExclusive : System → ℕ → Type 0
GrantsExclusive u i = (j : ℕ) → j ≢ i → (u.stores j).lock ≡ unlocked

pub data Step (u v : System) : Type 0 where
  turn :
      (i : ℕ)
      → Move (GrantsShared u i) (GrantsExclusive u i) u.file (u.stores i) v.file (v.stores i)
      → ((j : ℕ) → j ≢ i → v.stores j ≡ u.stores j)
      → Step u v

pub data Reach (u : System) : System → Type 0 where
  here : Reach u u
  next : {v w : System} → Reach u v → Step v w → Reach u w

-- Every store has just been opened, on whatever it found.
abbrev pub IsStart : System → Type 0
IsStart u = (i : ℕ) → (v : ℕ) × (u.stores i ≡ opened v)
