-- ===== src/Consequence/Propagation.antt =====
-- consequence/propagation.py: the walk that merges the flows into a node before it goes on, and the region
-- that a change can still reach.
use dentatus.Prelude.{
  ℕ, zero, suc, String, Bool, true, false, List, [], ◌∷◌, ◌++◌, if◌then◌else◌, length,
}
use dentatus.Prelude.Int.{ℤ, pos, ltb_ℤ}
use dentatus.Prelude.Eq.{string_eq}
use dentatus.Prelude.Dict.{Dict, lookup_or}
use dentatus.Consequence.Graph.{Graph, Flow, Decay, elem, layer, accumulate, sort_edges}

abbrev is_empty : Flow → Bool
is_empty [] = true
is_empty (f ∷ fs) = false

-- the frontier is a dict, walked by its sorted keys
unfoldable pub reached_from : Graph → Decay → ℕ → Dict String ℤ → Dict String ℤ → Dict String ℤ
unfolding layer
reached_from g decay zero acc frontier = acc
reached_from g decay (suc depth) acc frontier =
    let flows = layer g decay (sort_edges frontier) in
    let rest = reached_from g decay depth (accumulate acc flows) (accumulate [] flows) in
    if is_empty flows then acc else rest

unfoldable pub reached : Graph → Dict String ℤ → ℕ → Decay → Dict String ℤ
unfolding reached_from
reached g magnitudes depth decay = reached_from g decay depth [] magnitudes

abbrev magnitudes_of : Dict String ℤ → List String → Dict String ℤ
magnitudes_of magnitudes [] = []
magnitudes_of magnitudes (n ∷ ns) =
    (n, lookup_or n (pos 0) magnitudes) ∷ magnitudes_of magnitudes ns

abbrev add_to : String → List String → List String
add_to v region = if elem v region then region else region ++ v ∷ []

unfoldable pub add_above : ℤ → Dict String ℤ → List String → List String
unfolding elem
add_above threshold [] region = region
add_above threshold ((v, f) ∷ r) region =
    add_above threshold r (if ltb_ℤ threshold f then add_to v region else region)

-- `frontier`; the changed nodes are a set
unfoldable pub causal_frontier : Graph → List String → Dict String ℤ → ℕ → Decay → ℤ → List String
unfolding reached add_above
causal_frontier g changed magnitudes depth decay threshold =
    add_above threshold (reached g (magnitudes_of magnitudes changed) depth decay) changed

unfoldable pub region_size : Graph → List String → Dict String ℤ → ℕ → Decay → ℤ → ℕ
unfolding causal_frontier
region_size g changed magnitudes depth decay threshold =
    length (causal_frontier g changed magnitudes depth decay threshold)
