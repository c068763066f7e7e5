-- ===== src/Crucible/Replay.antt =====
-- Every seed that is grown backwards passes its forward check.
use native.Mathlib.Nat.{le_trans}
use dentatus.Prelude.{
  ℕ, suc, ◌-◌, ◌≤◌, max, String, ◌≡◌, refl, ap, true, false, some, List, [], ◌∷◌, ok, ◌>>=◌, arith,
  ◌==◌, length,
}
use dentatus.Syracuse.{orbit, gates, gates_of, observables, largest}
use dentatus.Crucible.{Seed, generate, judge, verify_seed, max_steps}
use dentatus.Crucible.Known.{Known, AllKnown, generate-Known}

module _ (sha256 : String → String) where
  agrees :
      (seed : Seed) (path : List ℕ)
      → length path ≡ seed.stopping_time
      → max seed.n (largest path) ≡ seed.peak
      → judge seed (gates_of sha256 seed.n (some (seed.n ∷ path))) (some (seed.n ∷ path))
        ≡ (true, "matches forward replay")
  unfolding observables largest
  agrees seed path e h =
      let long : (suc (length path) - 1 == seed.stopping_time) ≡ true = ground arith in
      let high : (max seed.n (largest path) == seed.peak) ≡ true = ground arith in
      rw (long, high) refl

  forward :
      (limit : ℕ) (s : Seed)
      → Known s
      → s.stopping_time ≤ limit
      → (gates sha256 s.n limit true >>= λ g. orbit s.n limit true >>= λ o. ok (judge s g o))
        ≡ ok (true, "matches forward replay")
  unfolding gates orbit
  forward limit s k h =
      let nonzero : (s.n == 0) ≡ false = ground (arith, k.positive) in
      rw (nonzero, k.walks limit h) (ap ok (agrees s k.path k.steps k.height))

  -- Every seed of the list passes the forward check.
  abbrev pub AllMatch : List Seed → Type 0
  AllMatch [] = Unit
  AllMatch (s ∷ seeds) =
      (verify_seed sha256 s ≡ ok (true, "matches forward replay")) × AllMatch seeds

  AllKnown-AllMatch :
      (d : ℕ) (seeds : List Seed) → d ≤ max_steps → AllKnown d seeds → AllMatch seeds
  unfolding verify_seed
  AllKnown-AllMatch d [] h a = tt
  AllKnown-AllMatch d (s ∷ seeds) h (k, a) =
      (forward max_steps s k.0 (le_trans k.1 h), AllKnown-AllMatch d seeds h a)

  -- Generation with a depth from 1 to the step limit of the forward check returns a forest, and every
  -- seed of it passes that check, whatever the ceiling and the limit of nodes.
  pub generate-AllMatch :
      (max_depth ceiling max_nodes : ℕ)
      → 1 ≤ max_depth
      → max_depth ≤ max_steps
      → (seeds : List Seed) × (generate max_depth ceiling max_nodes ≡ ok seeds) × AllMatch seeds
  generate-AllMatch max_depth ceiling max_nodes h within =
      let (seeds, made, all_of_them) = generate-Known max_depth ceiling max_nodes h in
      (seeds, made, AllKnown-AllMatch max_depth seeds within all_of_them)
