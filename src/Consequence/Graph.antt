-- ===== src/Consequence/Graph.antt =====
-- consequence/graph.py: the graph and the walks that sum flows over its paths. A node is the text that `str`
-- gives of it; weights and flows are integers.
use Prim.Native.String.{compare as compare_text}
use Prim.Native.Nat.{Ordering}
use dentatus.Prelude.{
  ℕ, zero, suc, ◌^◌, String, Bool, true, false, List, [], ◌∷◌, ◌++◌, if◌then◌else◌, ◌||◌, not,
}
use dentatus.Prelude.Int.{ℤ, pos, ◌+ℤ◌, ◌*ℤ◌, ltb_ℤ, floor_div}
use dentatus.Prelude.Eq.{◌≟◌, string_eq}
use dentatus.Prelude.Dict.{Dict, lookup_or, insert, contains}
use dentatus.Prelude.Sorting.{sorted}

abbrev pub scale : ℤ
scale = pos (2 ^ 16)

abbrev pub Flow : Type 0
Flow = List (String × ℤ)

pub record Graph : Type 0 where
  pub nodes : List String
  pub out : Dict String Flow

abbrev pub empty_graph : Graph
empty_graph = record { nodes = []; out = [] }

unfoldable pub elem : String → List String → Bool
elem s [] = false
elem s (t ∷ ts) = s ≟ t || elem s ts

unfoldable pub add_node : String → Graph → Graph
unfolding elem
add_node n g = record {
  nodes = if elem n g.nodes then g.nodes else g.nodes ++ n ∷ [];
  out = if contains n g.out then g.out else insert n [] g.out;
}

unfoldable pub add_edge : String → String → ℤ → Graph → Graph
unfolding add_node
add_edge u v weight g =
    let both = add_node v (add_node u g) in
    record both { out = insert u (lookup_or u [] both.out ++ (v, weight) ∷ []) both.out }

-- the order of `(str(target), weight)`
abbrev before : String × ℤ → String × ℤ → Bool
before (s, w) (t, x) = elim (compare_text s t) [
  | Ordering.lt ↦ true
  | Ordering.eq ↦ not (ltb_ℤ x w)
  | Ordering.gt ↦ false
]

unfoldable pub insert_edge : String × ℤ → Flow → Flow
insert_edge e [] = e ∷ []
insert_edge e (f ∷ fs) = if before e f then e ∷ f ∷ fs else f ∷ insert_edge e fs

unfoldable pub sort_edges : Flow → Flow
unfolding insert_edge
sort_edges [] = []
sort_edges (e ∷ es) = insert_edge e (sort_edges es)

-- `_edges`
unfoldable pub edges : Graph → String → Flow
unfolding sort_edges
edges g u = sort_edges (lookup_or u [] g.out)

-- a decay is a numerator and a denominator that is not 0
abbrev pub Decay : Type 0
Decay = ℤ × ℤ

unfoldable pub contribution : Decay → ℤ → ℤ → ℤ
contribution (dn, dd) flow w = floor_div (floor_div (flow *ℤ w) scale *ℤ dn) dd

-- what one node passes on
unfoldable pub spread : Decay → ℤ → Flow → Flow
unfolding contribution
spread decay flow [] = []
spread decay flow ((v, w) ∷ es) =
    let rest = spread decay flow es in
    let c = contribution decay flow w in if ltb_ℤ (pos 0) c then (v, c) ∷ rest else rest

-- one round of the walk
unfoldable pub layer : Graph → Decay → Flow → Flow
unfolding spread edges
layer g decay [] = []
layer g decay ((u, flow) ∷ frontier) = spread decay flow (edges g u) ++ layer g decay frontier

abbrev pub sum_flow : ℤ → Flow → ℤ
sum_flow total [] = total
sum_flow total ((v, c) ∷ fs) = sum_flow (total +ℤ c) fs

abbrev is_empty : Flow → Bool
is_empty [] = true
is_empty (f ∷ fs) = false

unfoldable pub mass_from : Graph → Decay → ℕ → ℤ → Flow → ℤ
unfolding layer
mass_from g decay zero total frontier = total
mass_from g decay (suc depth) total frontier =
    let nxt = layer g decay frontier in
    let rest = mass_from g decay depth (sum_flow total nxt) nxt in
    if is_empty nxt then total else rest

unfoldable pub dependency_mass : Graph → String → ℕ → Decay → ℤ
unfolding mass_from
dependency_mass g node depth decay = mass_from g decay depth (pos 0) ((node, scale) ∷ [])

unfoldable pub consequence : Graph → String → ℤ → ℕ → Decay → ℤ
unfolding dependency_mass
consequence g node magnitude depth decay =
    floor_div (magnitude *ℤ dependency_mass g node depth decay) scale

abbrev field_of : Graph → Dict String ℤ → ℕ → Decay → List String → Dict String ℤ
field_of g magnitudes depth decay [] = []
field_of g magnitudes depth decay (n ∷ ns) =
    (n, consequence g n (lookup_or n (pos 0) magnitudes) depth decay)
    ∷ field_of g magnitudes depth decay ns

-- `field`
unfoldable pub consequence_field : Graph → Dict String ℤ → ℕ → Decay → Dict String ℤ
unfolding consequence
consequence_field g magnitudes depth decay = field_of g magnitudes depth decay (sorted g.nodes)

abbrev pub accumulate : Dict String ℤ → Flow → Dict String ℤ
accumulate acc [] = acc
accumulate acc ((v, c) ∷ fs) = accumulate (insert v (lookup_or v (pos 0) acc +ℤ c) acc) fs

unfoldable pub taint_from : Graph → Decay → ℕ → Dict String ℤ → Flow → Dict String ℤ
unfolding layer
taint_from g decay zero acc frontier = acc
taint_from g decay (suc depth) acc frontier =
    let nxt = layer g decay frontier in
    let rest = taint_from g decay depth (accumulate acc nxt) nxt in
    if is_empty nxt then acc else rest

abbrev zeros : List String → Dict String ℤ
zeros [] = []
zeros (n ∷ ns) = (n, pos 0) ∷ zeros ns

unfoldable pub taint : Graph → Dict String ℤ → ℕ → Decay → Dict String ℤ
unfolding taint_from sort_edges
taint g source_magnitudes depth decay =
    taint_from g decay depth (zeros g.nodes) (sort_edges source_magnitudes)
