-- ===== src/Glitch.antt =====
-- glitch/explorer.py: bounded search for a state that breaks an invariant, and the shrinking of the path to
-- it. The machine, its events and the content hash of its states are arguments. The sealing of a
-- counterexample drives the recorder and is not modelled.
pub mod Soundness
pub mod Shrinking
use dentatus.Prelude.{
  ℕ, zero, suc, ◌+◌, ◌-◌, max, String, Bool, true, false, not, Option, none, some, List, [], ◌∷◌,
  ◌++◌, map, ltb, leb, if◌then◌else◌, length,
}
use dentatus.Prelude.Eq.{◌≟◌, string_eq}

-- `h in seen`
unfoldable pub seen_before : String → List String → Bool
seen_before h [] = false
seen_before h (g ∷ gs) = let rest = seen_before h gs in if g ≟ h then true else rest

pub record Result (E : Type 0) : Type 0 where
  pub found : Bool
  pub path : Option (List E)
  pub states_explored : ℕ
  pub depth_reached : ℕ
  pub distinct_states : ℕ

unfoldable pub times : ℕ → ℕ → ℕ
times zero w = 0
times (suc n) w = w + times n w

-- how many nodes a search of `r` more levels visits at most, with `k` events
unfoldable pub nodes : ℕ → ℕ → ℕ
unfolding times
nodes k zero = 1
nodes k (suc r) = 1 + times k (nodes k r)

module _ {S E : Type 0} (hash : S → String) (step_fn : S → E → S) (invariant_fn : S → Bool) where
  abbrev pub Node : Type 0
  Node = S × List E

  -- what the loop over the events does to a node: it meets a violation, or it queues new nodes
  pub data Scan : Type 0 where
    violated : List E → ℕ → ℕ → Scan
    scanned : List Node → ℕ → List String → Scan

  abbrev pub queued : Node → Scan → Scan
  queued node (violated path explored distinct) = violated path explored distinct
  queued node (scanned nodes explored seen) = scanned (node ∷ nodes) explored seen

  unfoldable pub scan : Node → List E → ℕ → List String → Scan
  unfolding seen_before
  scan node [] explored seen = scanned [] explored seen
  scan node (ev ∷ evs) explored seen =
      let new_state = step_fn node.0 ev in
      let new_path = node.1 ++ ev ∷ [] in
      let skip = scan node evs (explored + 1) seen in
      let push =
        queued (new_state, new_path) (scan node evs (explored + 1) (seen ++ hash new_state ∷ [])) in
      if not (invariant_fn new_state)
      then violated new_path (explored + 1) (length seen)
      else if seen_before (hash new_state) seen
      then skip
      else push

  abbrev pub after_scan :
      Scan → (List Node → ℕ → List String → Option (Result E)) → Option (Result E)
  after_scan (violated path explored distinct) k = some (record {
    found = true;
    path = some path;
    states_explored = explored;
    depth_reached = length path;
    distinct_states = distinct;
  })
  after_scan (scanned nodes explored seen) k = k nodes explored seen

  -- the loop over the queue, on fuel, one unit for each node; `none` is out of fuel
  unfoldable pub search : ℕ → List E → ℕ → List Node → ℕ → ℕ → List String → Option (Result E)
  unfolding scan
  search fuel events max_depth [] explored depth seen = some (record {
    found = false;
    path = none;
    states_explored = explored;
    depth_reached = depth;
    distinct_states = length seen;
  })
  search zero events max_depth (node ∷ queue) explored depth seen = none
  search (suc fuel) events max_depth (node ∷ queue) explored depth seen =
      let d = max depth (length node.1) in
      let skip = search fuel events max_depth queue explored d seen in
      let expand =
        after_scan (scan node events explored seen)
          (λ more e s. search fuel events max_depth (queue ++ more) e d s) in
      if leb max_depth (length node.1) then skip else expand

  unfoldable pub explore : S → List E → ℕ → Option (Result E)
  unfolding search nodes
  explore initial events max_depth =
      search (nodes (length events) max_depth) events max_depth ((initial, []) ∷ []) 0 0
        (hash initial ∷ [])

  unfoldable pub replay_path : S → List E → S
  replay_path s [] = s
  replay_path s (ev ∷ path) = replay_path (step_fn s ev) path

  -- `_still_fails`; the empty path does not
  unfoldable pub still_fails : S → List E → Bool
  still_fails s [] = false
  still_fails s (ev ∷ path) =
      let rest = still_fails (step_fn s ev) path in
      if not (invariant_fn (step_fn s ev)) then true else rest

  -- `current[:i] + current[i + 1:]` for every `i`, in order
  unfoldable pub candidates : List E → List (List E)
  candidates [] = []
  candidates (ev ∷ path) = path ∷ map (λ p. ev ∷ p) (candidates path)

  unfoldable pub first_failing : S → List (List E) → Option (List E)
  unfolding still_fails
  first_failing initial [] = none
  first_failing initial (p ∷ ps) =
      let rest = first_failing initial ps in if still_fails initial p then some p else rest

  -- the loop; each round drops an event, so the length of the path is enough fuel
  unfoldable pub shrink_from : ℕ → S → List E → List E
  unfolding candidates first_failing
  shrink_from zero initial current = current
  shrink_from (suc fuel) initial current = elim (first_failing initial (candidates current)) [
    | none ↦ current
    | some p ↦ shrink_from fuel initial p
  ]

  unfoldable pub shrink : S → List E → List E
  unfolding shrink_from
  shrink initial path = shrink_from (length path) initial path
