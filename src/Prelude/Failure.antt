-- ===== src/Prelude/Failure.antt =====
-- What a Python call that may raise returns: a value, or the exception's message.
use Prim.Native.String.{String}
use mathlib.Core.Path.{◌≡◌, refl}
use mathlib.Core.Bool.{Bool, true, false, not}
use dentatus.Prelude.Tests.{if◌then◌else◌}
use mathlib.Core.Logic.{◌⊎◌, inl, inr}

pub data Outcome {ℓ} (A : Type ℓ) : Type ℓ where
  err : String → Outcome A
  ok : A → Outcome A

module _ {ℓ} {A : Type ℓ} where
  pub Outcome-cases :
      (call : Outcome A) → ((x : A) × (call ≡ ok x)) ⊎ ((why : String) × (call ≡ err why))
  Outcome-cases (err why) = inr (why, refl)
  Outcome-cases (ok x) = inl (x, refl)

  module _ {κ} {B : Type κ} where
    infixl 5 ◌>>=◌
    abbrev pub ◌>>=◌ : Outcome A → (A → Outcome B) → Outcome B
    err why >>= next = err why
    ok x >>= next = next x

    -- A call that goes on to return has returned.
    pub >>=-eq-ok :
        (call : Outcome A) (next : A → Outcome B) {y : B}
        → (call >>= next) ≡ ok y
        → (x : A) × (call ≡ ok x) × (next x ≡ ok y)
    >>=-eq-ok (err why) next returned = cc
    >>=-eq-ok (ok x) next returned = (x, refl, returned)

-- Inversion of a test that refuses with a message.
pub unless_differ :
    (b : Bool) (m : String) (next : Outcome (Bool × String)) {d : String}
    → (if not b then ok (false, m) else next) ≡ ok (true, d)
    → (b ≡ true) × (next ≡ ok (true, d))
unless_differ true m next e = (refl, e)
unless_differ false m next {d} e = cc
