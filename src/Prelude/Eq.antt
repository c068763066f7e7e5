-- ===== src/Prelude/Eq.antt =====
-- Equality tests as an interface: Python's `==` on the values that are used as keys or identifiers.
use Prim.Native.Nat.{ℕ}
use Prim.Native.String.{String}
use mathlib.Core.Path.{◌≡◌, refl}
use mathlib.Core.Logic.{◌↔◌}
use mathlib.Core.Bool.{Bool, true}
use text.Mathlib.Text.{◌==◌ as same_text}
use text.Mathlib.TextEquality.{eq_iff}
use dentatus.Prelude.Tests.{◌==◌ as same_number, ==_iff}

-- a Boolean test and what it decides
pub record Eq {ℓ} (K : Type ℓ) : Type ℓ where
  pub matches : K → K → Bool
  pub decides : (j k : K) → (matches j k ≡ true) ↔ (j ≡ k)

module _ {ℓ} {K : Type ℓ} ⦃keys : Eq K⦄ where
  infix 50 ◌≟◌
  abbrev pub ◌≟◌ : K → K → Bool
  j ≟ k = keys.matches j k

  pub beq_refl : (k : K) → (k ≟ k) ≡ true
  beq_refl k = (keys.decides k k).1 refl

instance abbrev pub string_eq : Eq String
string_eq = record { decides = eq_iff; matches = same_text }

instance abbrev pub nat_eq : Eq ℕ
nat_eq = record { decides = ==_iff; matches = same_number }
