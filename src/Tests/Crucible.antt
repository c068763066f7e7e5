-- ===== src/Tests/Crucible.antt =====
-- syracuse/orbit.py and crucible/forest.py on small numbers.
use dentatus.Prelude.{ℕ, ◌≡◌, refl, true, List, [], ◌∷◌, Outcome, ok, arith, some, none}
use dentatus.Syracuse.{orbit}
use dentatus.Crucible.{Seed, generate, preimages}
use dentatus.Crucible.Replay.{AllMatch, generate-AllMatch}
use dentatus.Tests.Keys.{same}

orbit3 : orbit 3 10 true ≡ ok (some (3 ∷ 5 ∷ 8 ∷ 4 ∷ 2 ∷ 1 ∷ []))
unfolding orbit
orbit3 = refl

orbit_over_budget : orbit 3 4 true ≡ ok none
unfolding orbit
orbit_over_budget = refl

preimages8 : preimages 8 ≡ 16 ∷ 5 ∷ []
unfolding preimages
preimages8 = refl

abbrev starts : List Seed → List ℕ
starts [] = []
starts (s ∷ seeds) = s.n ∷ starts seeds

abbrev forest : Outcome (List Seed) → List ℕ
forest (ok seeds) = starts seeds
forest _ = []

forest4 : forest (generate 4 100 100) ≡ 2 ∷ 4 ∷ 8 ∷ 16 ∷ 5 ∷ []
unfolding generate
forest4 = refl

generate-AllMatch_example :
    (seeds : List Seed) × (generate 4 100 100 ≡ ok seeds) × AllMatch same seeds
generate-AllMatch_example = generate-AllMatch same 4 100 100 (omega arith) (omega arith)
