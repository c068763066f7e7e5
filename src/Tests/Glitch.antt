-- ===== src/Tests/Glitch.antt =====
-- glitch/explorer.py on a counter that must not reach three.
use dentatus.Prelude.{ℕ, ◌+◌, ◌≡◌, refl, Bool, true, some, List, [], ◌∷◌, ltb}
use dentatus.Chronicle.Canonical.{show_nat}
use dentatus.Glitch.{Result, explore, shrink, still_fails}
use dentatus.Glitch.Soundness.{Reports, explore-Reports}
use dentatus.Glitch.Shrinking.{Minimal, shrink-Minimal}

abbrev count : ℕ → ℕ → ℕ
count s ev = s + ev

abbrev small : ℕ → Bool
small s = ltb s 3

abbrev events : List ℕ
events = 0 ∷ 1 ∷ []

abbrev result3 : Result ℕ
result3 = record {
  found = true;
  path = some (1 ∷ 1 ∷ 1 ∷ []);
  states_explored = 6;
  depth_reached = 3;
  distinct_states = 3;
}

explore3 : explore show_nat count small 0 events 4 ≡ some result3
unfolding explore show_nat
explore3 = refl

shrink_path : shrink show_nat count small 0 (0 ∷ 1 ∷ 0 ∷ 1 ∷ 1 ∷ []) ≡ 1 ∷ 1 ∷ 1 ∷ []
unfolding shrink
shrink_path = refl

explore-Reports_example :
    (r : Result ℕ) × (explore show_nat count small 0 events 4 ≡ some r)
    × Reports show_nat count small 0 events 4 r
explore-Reports_example = explore-Reports show_nat count small 0 events 4

failing : still_fails show_nat count small 0 (0 ∷ 1 ∷ 0 ∷ 1 ∷ 1 ∷ []) ≡ true
unfolding still_fails
failing = refl

shrink-Minimal_example :
    Minimal show_nat count small 0
      (0 ∷ 1 ∷ 0 ∷ 1 ∷ 1 ∷ [])
      (shrink show_nat count small 0 (0 ∷ 1 ∷ 0 ∷ 1 ∷ 1 ∷ []))
shrink-Minimal_example = shrink-Minimal show_nat count small 0 (0 ∷ 1 ∷ 0 ∷ 1 ∷ 1 ∷ []) failing
