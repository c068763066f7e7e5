-- ===== src/Airlock/Adapter.antt =====
-- The contract of airlock/contract.py: what a kernel offers to the membrane. A transition, its
-- constraints and its claims are plain objects, on which all but the hash of a world may raise.
use dentatus.Prelude.{ℕ, String, Bool, Option, List, Outcome}
use dentatus.Prelude.Int.{ℤ}
use dentatus.Chronicle.Value.{Value}

-- what `apply` of an adapter does: a new world, an `ApplyError`, or another exception
pub data Applied (W : Type 0) : Type 0 where
  applied : W → Applied W
  refused : String → Applied W
  raised : String → Applied W

pub record Adapter : Type 1 where
  pub World : Type 0
  pub allowed_ops : List String
  pub cost : Value → Outcome ℤ
  pub apply : World → Value → Applied World
  pub delta_norm : World → World → Outcome ℕ
  pub state_hash : World → String
  pub validate : World → Value → Outcome (Bool × String)
  pub residual : World → Value → Outcome (Option ℕ)
  -- `getattr(adapter, "validate_strict", None)`
  pub validate_strict : Option (World → Value → Outcome (Bool × String))
