-- ===== src/Ration/Budget.antt =====
-- What the gate of a budget decides.
use dentatus.Prelude.{◌≡◌, refl, ◌↔◌, Bool, true, false, String, [], ◌∷◌, arith, if◌then◌else◌}
use dentatus.Prelude.Int.{ℤ, pos, ◌≤ℤ◌, ltb_ℤ}
use dentatus.Prelude.Eq.{string_eq}
use dentatus.Prelude.Dict.{Dict, lookup_or}
use dentatus.Ration.{Counts, Policy, step_total, within_limits, within_budget}

-- Every category with a limit has a count at or below it.
abbrev pub Bounded : Counts → Dict String ℤ → Type 0
Bounded counts [] = Unit
Bounded counts ((cat, lim) ∷ limits) = (lookup_or cat (pos 0) counts ≤ℤ lim) × Bounded counts limits

both :
    (n lim : ℤ) (rest : Bool)
    → (if ltb_ℤ lim n then false else rest) ≡ true
    → (n ≤ℤ lim) × (rest ≡ true)
both n lim rest e = (ground arith, ground arith)

back :
    (n lim : ℤ) (rest : Bool)
    → n ≤ℤ lim
    → rest ≡ true
    → (if ltb_ℤ lim n then false else rest) ≡ true
back n lim rest h e = ground arith

within_limits-Bounded :
    (counts : Counts) (limits : Dict String ℤ)
    → within_limits counts limits ≡ true
    → Bounded counts limits
unfolding within_limits
within_limits-Bounded counts [] e = tt
within_limits-Bounded counts ((cat, lim) ∷ limits) e =
    let (h, r) = both (lookup_or cat (pos 0) counts) lim (within_limits counts limits) e in
    (h, within_limits-Bounded counts limits r)

Bounded-within_limits :
    (counts : Counts) (limits : Dict String ℤ)
    → Bounded counts limits
    → within_limits counts limits ≡ true
unfolding within_limits
Bounded-within_limits counts [] b = refl
Bounded-within_limits counts ((cat, lim) ∷ limits) (h, b) =
    back (lookup_or cat (pos 0) counts) lim _ h (Bounded-within_limits counts limits b)

-- The gate passes exactly when the weighted total is at or below the ceiling and every category with a
-- limit is at or below it.
pub within_budget_iff :
    (counts : Counts) (policy : Policy)
    → (within_budget counts policy ≡ true)
      ↔ (step_total counts policy.weights ≤ℤ policy.ceiling) × Bounded counts policy.per_category
unfolding within_budget
within_budget_iff counts policy = (
  λ e.
      let (h, r) = both (step_total counts policy.weights) policy.ceiling _ e in
      (h, within_limits-Bounded counts policy.per_category r),
  λ b.
      back (step_total counts policy.weights) policy.ceiling _ b.0
        (Bounded-within_limits counts policy.per_category b.1),
)
