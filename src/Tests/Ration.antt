-- ===== src/Tests/Ration.antt =====
-- ration/meter.py on a meter of two categories.
use dentatus.Prelude.{◌≡◌, refl, ◌↔◌, Bool, true, false, List, [], ◌∷◌, String}
use dentatus.Prelude.Int.{ℤ, pos, ◌+ℤ◌, ◌*ℤ◌}
use dentatus.Prelude.Eq.{string_eq}
use dentatus.Prelude.Dict.{Dict, lookup_or}
use dentatus.Ration.{Counts, Policy, new_meter, add, step_total, within_budget}

abbrev weights : Dict String ℤ
weights = ("tokens", pos 3) ∷ []

abbrev policy : Policy
policy = record { ceiling = pos 10; per_category = ("tokens", pos 2) ∷ []; weights = weights }

abbrev meter : Counts
meter = add "iterations" (pos 4) (add "tokens" (pos 2) new_meter)

step_total-meter : step_total meter weights ≡ pos 10
unfolding step_total add dentatus.Prelude.Dict.insert ◌+ℤ◌ ◌*ℤ◌ lookup_or
    dentatus.Prelude.Dict.lookup
step_total-meter = refl

within_budget_meter : within_budget meter policy ≡ true
unfolding within_budget add dentatus.Prelude.Dict.insert ◌+ℤ◌ ◌*ℤ◌ lookup_or
    dentatus.Prelude.Dict.lookup
within_budget_meter = refl

within_budget_over : within_budget (add "iterations" (pos 1) meter) policy ≡ false
unfolding within_budget add dentatus.Prelude.Dict.insert ◌+ℤ◌ ◌*ℤ◌ lookup_or
    dentatus.Prelude.Dict.lookup
within_budget_over = refl
