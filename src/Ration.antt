-- ===== src/Ration.antt =====
-- ration/meter.py: integer counts of logical steps by category, and the gate of a budget on them.
pub mod Budget
pub mod Total
use dentatus.Prelude.{
  ℕ, String, Bool, true, false, List, [], ◌∷◌, if◌then◌else◌, Option, none, some,
}
use dentatus.Prelude.Int.{ℤ, pos, ◌+ℤ◌, ◌*ℤ◌, ltb_ℤ}
use dentatus.Prelude.Eq.{string_eq}
use dentatus.Prelude.Dict.{Dict, lookup_or, insert}
use dentatus.Prelude.Sorting.{sorted_entries}

abbrev pub Counts : Type 0
Counts = Dict String ℤ

-- `StepMeter()`
abbrev pub new_meter : Counts
new_meter = ("iterations", pos 0) ∷ ("tokens", pos 0) ∷ ("mutations", pos 0) ∷ ("nodes", pos 0) ∷ []

unfoldable pub add : String → ℤ → Counts → Counts
add category n counts = insert category (lookup_or category (pos 0) counts +ℤ n) counts

unfoldable pub snapshot : Counts → Counts
unfolding sorted_entries
snapshot counts = sorted_entries counts

-- the sum over the categories of `counts`
unfoldable pub sum_weighted : Counts → Dict String ℤ → ℤ
sum_weighted [] weights = pos 0
sum_weighted ((c, n) ∷ counts) weights =
    n *ℤ lookup_or c (pos 1) weights +ℤ sum_weighted counts weights

unfoldable pub step_total : Counts → Dict String ℤ → ℤ
unfolding sum_weighted sorted_entries
step_total counts weights = sum_weighted (sorted_entries counts) weights

pub record Policy : Type 0 where
  pub ceiling : ℤ
  pub per_category : Dict String ℤ
  pub weights : Dict String ℤ

unfoldable pub within_limits : Counts → Dict String ℤ → Bool
within_limits counts [] = true
within_limits counts ((cat, lim) ∷ limits) =
    let rest = within_limits counts limits in
    if ltb_ℤ lim (lookup_or cat (pos 0) counts) then false else rest

unfoldable pub within_budget : Counts → Policy → Bool
unfolding step_total within_limits
within_budget counts policy =
    if ltb_ℤ policy.ceiling (step_total counts policy.weights)
    then false
    else within_limits counts policy.per_category
