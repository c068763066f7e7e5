-- ===== src/Crucible.antt =====
-- crucible/forest.py: seeds that are grown backwards from 1, and their check by a forward run.
pub mod Known
pub mod Replay
use dentatus.Prelude.{
  ℕ, zero, suc, ◌+◌, ◌*◌, ◌/◌, ◌%◌, ◌-◌, max, String, Bool, true, false, not, Option, none, some,
  List, [], ◌∷◌, ◌++◌, Outcome, ok, err, ◌>>=◌, ◌==◌, ltb, leb, ◌&&◌, if◌then◌else◌, length,
}
use dentatus.Chronicle.Canonical.{◌^^◌, show_nat}
use dentatus.Syracuse.{Gates, gates, orbit, observables}

-- the root, which is not emitted, has no altitude of its own
pub record Seed : Type 0 where
  pub n : ℕ
  pub stopping_time : ℕ
  pub peak : ℕ
  pub altitude : ℕ

-- `2 * m - 1` of a positive `m`
unfoldable pub odd_preimage : ℕ → List ℕ
odd_preimage m =
    if (2 * m - 1) % 3 == 0 && ltb 1 ((2 * m - 1) / 3) && ((2 * m - 1) / 3) % 2 == 1
    then (2 * m - 1) / 3 ∷ []
    else []

unfoldable pub preimages : ℕ → List ℕ
unfolding odd_preimage
preimages m = 2 * m ∷ odd_preimage m

-- `cpeak // c` of a positive `c`
unfoldable pub floor_ratio : ℕ → ℕ → ℕ
floor_ratio p zero = 0
floor_ratio p (suc c) = p / suc c

unfoldable pub child : Seed → ℕ → Seed
unfolding floor_ratio
child node c = record {
  n = c;
  stopping_time = node.stopping_time + 1;
  peak = max node.peak c;
  altitude = floor_ratio (max node.peak c) c;
}

-- the children of a node that stay below the ceiling
unfoldable pub children : ℕ → Seed → List ℕ → List Seed
unfolding child
children ceiling node [] = []
children ceiling node (c ∷ cs) =
    let rest = children ceiling node cs in if ltb ceiling c then rest else child node c ∷ rest

-- what the inner loop does: it meets the limit of nodes and generation ends, or it goes on
pub data Emitted : Type 0 where
  stopped : List Seed → Emitted
  going : List Seed → ℕ → Emitted

abbrev pub emit_first : Seed → Emitted → Emitted
emit_first s (stopped seeds) = stopped (s ∷ seeds)
emit_first s (going seeds left) = going (s ∷ seeds) left

-- `left` is `max_nodes - emitted`
unfoldable pub emit : List Seed → ℕ → Emitted
emit [] left = going [] left
emit (s ∷ ss) left =
    let rest = emit_first s (emit ss (left - 1)) in if leb left 1 then stopped (s ∷ []) else rest

abbrev pub prepend : List Seed → Option (List Seed) → Option (List Seed)
prepend seeds none = none
prepend seeds (some more) = some (seeds ++ more)

abbrev pub resume : Emitted → (List Seed → ℕ → Option (List Seed)) → Option (List Seed)
resume (stopped seeds) k = some seeds
resume (going seeds left) k = prepend seeds (k seeds left)

-- the loop over the queue, on fuel, of which one unit is used for each node; `none` is out of fuel
unfoldable pub grow : ℕ → ℕ → ℕ → ℕ → List Seed → Option (List Seed)
unfolding emit children preimages
grow fuel max_depth ceiling left [] = some []
grow zero max_depth ceiling left (node ∷ queue) = none
grow (suc fuel) max_depth ceiling left (node ∷ queue) =
    let skip = grow fuel max_depth ceiling left queue in
    let expand =
      resume (emit (children ceiling node (preimages node.n)) left)
        (λ seeds rest. grow fuel max_depth ceiling rest (queue ++ seeds)) in
    if leb max_depth node.stopping_time then skip else expand

abbrev pub root : Seed
root = record { n = 1; stopping_time = 0; peak = 1; altitude = 1 }

abbrev pub finish : Option (List Seed) → Outcome (List Seed)
finish none = err "out of fuel"
finish (some seeds) = ok seeds

-- the root and every node that is queued use one unit of fuel
unfoldable pub generate : ℕ → ℕ → ℕ → Outcome (List Seed)
unfolding grow
generate max_depth ceiling max_nodes =
    if max_depth == 0
    then err "max_depth must be >= 1"
    else finish (grow (max_nodes + 1) max_depth ceiling max_nodes (root ∷ []))

abbrev pub equal_opt : Option ℕ → ℕ → Bool
equal_opt none n = false
equal_opt (some m) n = m == n

abbrev pub show_opt : Option ℕ → String
show_opt none = "None"
show_opt (some n) = show_nat n

abbrev pub peak_of : Option (List ℕ) → ℕ
peak_of none = 0
peak_of (some seq) = (observables seq).peak

-- the step limit of `gates` and of `orbit`
abbrev pub max_steps : ℕ
max_steps = 100000

-- `not g["reached_one"]` is that the orbit is over its budget
abbrev pub judge : Seed → Gates → Option (List ℕ) → Bool × String
judge seed g o =
    if not (g.within_budget && equal_opt g.stopping_time seed.stopping_time)
    then (
      false,
      "stopping_time mismatch (claimed "
          ^^ show_nat seed.stopping_time
          ^^ ", forward "
          ^^ show_opt g.stopping_time
          ^^ ")",
    )
    else if not (peak_of o == seed.peak)
    then (
      false,
      "peak mismatch (claimed "
          ^^ show_nat seed.peak
          ^^ ", forward "
          ^^ show_nat (peak_of o)
          ^^ ")",
    )
    else (true, "matches forward replay")

module _ (sha256 : String → String) where
  unfoldable pub verify_seed : Seed → Outcome (Bool × String)
  verify_seed seed = gates sha256 seed.n max_steps true >>= λ g.
      orbit seed.n max_steps true >>= λ o. ok (judge seed g o)

-- the metrics of `select`
pub data Metric : Type 0 where
  altitude peak stopping_time : Metric

unfoldable pub hardness : Metric → Seed → ℕ
hardness altitude s = s.altitude
hardness peak s = s.peak
hardness stopping_time s = s.stopping_time

-- the keys `(s[by], s["stopping_time"], -s["n"])`, compared as tuples
unfoldable pub harder : Metric → Seed → Seed → Bool
unfolding hardness
harder by s t =
    if ltb (hardness by t) (hardness by s)
    then true
    else if ltb (hardness by s) (hardness by t)
    then false
    else if ltb t.stopping_time s.stopping_time
    then true
    else if ltb s.stopping_time t.stopping_time
    then false
    else ltb s.n t.n

unfoldable pub pool : Option ℕ → List Seed → List Seed
pool none seeds = seeds
pool (some budget) [] = []
pool (some budget) (s ∷ seeds) =
    let rest = pool (some budget) seeds in if leb s.stopping_time budget then s ∷ rest else rest

-- `max` keeps the first of the largest
unfoldable pub hardest : Metric → Seed → List Seed → Seed
hardest by best [] = best
hardest by best (s ∷ seeds) = hardest by (if harder by s best then s else best) seeds

abbrev pub select_from : Metric → List Seed → Option Seed
select_from by [] = none
select_from by (s ∷ seeds) = some (hardest by s seeds)

unfoldable pub select : List Seed → Option ℕ → Metric → Option Seed
unfolding pool hardest
select seeds within_budget by = select_from by (pool within_budget seeds)

unfoldable pub seed_just_under : ℕ → ℕ → ℕ → Outcome (Option Seed)
unfolding generate select
seed_just_under budget ceiling max_nodes =
    generate budget ceiling max_nodes >>= λ forest. ok (select forest (some budget) altitude)
