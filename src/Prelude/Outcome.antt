-- ===== src/Prelude/Outcome.antt =====
-- Rust's `Result<T, E>` with its `?` operator, as a monad for `do` blocks.
use mathlib.Core.Path.{◌≡◌, refl, ap}
use mathlib.Core.Bool.{Bool, true, false}
use native.Mathlib.Omega.{arith}
use core_rs.Prelude.Tests.{if◌then◌else◌}
use mathlib.Core.Logic.{◌⊎◌, inl, inr}
use mathlib.Core.Option.{Option, none, some}

pub data Result {ℓ} (E A : Type ℓ) : Type ℓ where
  ok : A → Result E A
  err : E → Result E A

infixl 5 ◌>>=◌ ◌>>◌
abbrev pub ◌>>=◌ {ℓ} : {E A B : Type ℓ} → Result E A → (A → Result E B) → Result E B
ok a >>= f = f a
err e >>= f = err e

abbrev pub ◌>>◌ {ℓ} : {E A B : Type ℓ} → Result E A → Result E B → Result E B
m >> k = m >>= λ _. k

-- `o.ok_or(e)`
abbrev pub ok_or {ℓ} : {E A : Type ℓ} → Option A → E → Result E A
ok_or none e = err e
ok_or (some a) e = ok a

-- `r.map_err(f)`
abbrev pub map_err {ℓ} : {E F A : Type ℓ} → Result E A → (E → F) → Result F A
map_err (ok a) f = ok a
map_err (err e) f = err (f e)

pub Result-cases {ℓ} :
    {E A : Type ℓ} (r : Result E A) → ((a : A) × (r ≡ ok a)) ⊎ ((e : E) × (r ≡ err e))
Result-cases (ok a) = inl (a, refl)
Result-cases (err e) = inr (e, refl)

-- What is known where a guard, a bound computation or a mapped error lets a result through.
pub guard_passed :
    {E A : Type 0} (t : Bool) (x : E) (m : Result E A) (r : A)
    → (if t then err x else m) ≡ ok r
    → (t ≡ false) × (m ≡ ok r)
guard_passed true x m r e = absurd (ground arith)
guard_passed false x m r e = (refl, e)

pub bound_ok :
    {E A B : Type 0} (m : Result E A) (f : A → Result E B) (r : B)
    → (m >>= f) ≡ ok r
    → (a : A) × ((m ≡ ok a) × (f a ≡ ok r))
bound_ok (ok a) f r e = (a, (refl, e))
bound_ok (err x) f r e = absurd (ground arith)

pub ok_inj : {E A : Type 0} {a b : A} → (let r : Result E A = ok a in r ≡ ok b) → a ≡ b
ok_inj e = ground arith

pub map_err-ok :
    {E F A : Type 0} (m : Result E A) (f : E → F) (r : A) → map_err m f ≡ ok r → m ≡ ok r
map_err-ok (ok a) f r e = ap ok (ok_inj e)
map_err-ok (err x) f r e = absurd (ground arith)
