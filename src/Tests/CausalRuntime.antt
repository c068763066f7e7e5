-- ===== src/Tests/CausalRuntime.antt =====
-- causal_runtime/ on one edge that survives and one that is rejected.
use dentatus.Prelude.{ℕ, String, ◌≡◌, refl, List, [], ◌∷◌, ok}
use dentatus.Prelude.Int.{pos}
use dentatus.Prelude.Eq.{string_eq}
use dentatus.CausalRuntime.Falsification.{
  Proposal, default_discipline, make_proposal, apply_heldout, rejected, test_edge,
}
use dentatus.CausalRuntime.Tiers.{Report, classify, corroborated_edges}
use dentatus.CausalRuntime.Buckets.{Bucketed, apply_heldout-IsTracked, classify-Bucketed}
use dentatus.CausalRuntime.Fallback.{distance, reliability, latch_after}
use dentatus.CausalRuntime.Fallback.Hysteresis.{Turns, latch_after-Turns}
use dentatus.Tests.Keys.{brief}

abbrev good : Proposal
good = apply_heldout brief default_discipline (make_proposal brief "a" "c" 9 0) 4 0 1

abbrev bad : Proposal
bad = apply_heldout brief default_discipline (make_proposal brief "b" "c" 9 0) 1 3 1

abbrev proposals : List Proposal
proposals = good ∷ bad ∷ []

bad_rejected : bad.status ≡ rejected
unfolding apply_heldout make_proposal
bad_rejected = refl

claimed : corroborated_edges proposals ≡ ("a", "c") ∷ []
unfolding corroborated_edges apply_heldout make_proposal
claimed = refl

-- the source changes twice, the target follows once
tested :
    test_edge "a" "c"
      ((("a", pos 0) ∷ ("c", pos 0) ∷ [])
        ∷ (("a", pos 1) ∷ ("c", pos 1) ∷ [])
        ∷ (("a", pos 2) ∷ ("c", pos 1) ∷ [])
        ∷ [])
      1
    ≡ ok (record { hits = 1; misses = 1; opps = 2 })
unfolding test_edge dentatus.Prelude.Dict.lookup
tested = refl

classify-Bucketed_example :
    (r : Report) × (classify proposals ≡ ok r) × Bucketed default_discipline proposals r
classify-Bucketed_example = classify-Bucketed default_discipline proposals (
  apply_heldout-IsTracked brief default_discipline (make_proposal brief "a" "c" 9 0) 4 0 1,
  (apply_heldout-IsTracked brief default_discipline (make_proposal brief "b" "c" 9 0) 1 3 1, tt),
)

-- two low frames after a reliable one, with a latch that waits for two
latch_after-Turns_example : Turns (pos 32768) 2 (pos 5) (pos 7 ∷ pos 40000 ∷ [])
latch_after-Turns_example = latch_after-Turns (pos 32768) 2 (pos 5) (pos 7 ∷ pos 40000 ∷ [])

falls_back : (latch_after (pos 32768) (pos 2) (pos 5 ∷ pos 7 ∷ pos 40000 ∷ [])).mode ≡ distance
unfolding latch_after
falls_back = refl

saturated : reliability (pos 70000) ≡ pos 0
unfolding reliability dentatus.Prelude.Int.◌-ℤ◌
saturated = refl
