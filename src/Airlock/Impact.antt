-- ===== src/Airlock/Impact.antt =====
-- airlock/impact.py: how much a transition changes, and the tier of validation that follows from it. The
-- adapter's kernel step, `adapter.K.step`, is an argument.
use dentatus.Prelude.{
  ℕ, zero, suc, String, Option, none, some, Outcome, ok, err, ◌>>=◌, leb, if◌then◌else◌,
}
use dentatus.Chronicle.Value.{Value}
use dentatus.Airlock.Adapter.{Applied, applied, refused, raised, Adapter}

module _ (A : Adapter) where
  abbrev pub advance : (A.World → A.World) → ℕ → A.World → A.World
  advance step zero w = w
  advance step (suc ticks) w = advance step ticks (step w)

  -- the transition that is refused touches no future
  abbrev pub measured : (A.World → Outcome ℕ) → Applied A.World → Outcome ℕ
  measured distance (applied w) = distance w
  measured distance (refused e) = ok 0
  measured distance (raised e) = err e

  unfoldable pub impact_density : (A.World → A.World) → A.World → Value → ℕ → Outcome ℕ
  impact_density step world txn horizon =
      measured (λ w. A.delta_norm (advance step horizon world) (advance step horizon w))
        (A.apply world txn)

  unfoldable pub cheap_impact : A.World → Value → Outcome ℕ
  cheap_impact world txn = measured (A.delta_norm world) (A.apply world txn)

  -- the measure that the call gives, or `cheap_impact` with the bound adapter
  abbrev pub impact_of : Option (A.World → Value → Outcome ℕ) → A.World → Value → Outcome ℕ
  impact_of none = cheap_impact
  impact_of (some impact_fn) = impact_fn

  unfoldable pub validation_policy :
      ℕ → Option (A.World → Value → Outcome ℕ) → String → String → A.World → Value → Outcome String
  unfolding cheap_impact
  validation_policy threshold impact_fn low high world txn =
      impact_of impact_fn world txn >>= λ impact. ok (if leb threshold impact then high else low)
