-- ===== src/Tests/Consequence.antt =====
-- consequence/ on a small graph, and a cache of one token.
use dentatus.Prelude.{ℕ, String, ◌≡◌, refl, List, [], ◌∷◌, ◌^◌}
use dentatus.Prelude.Int.{ℤ, pos, negsuc}
use dentatus.Prelude.Eq.{string_eq}
use dentatus.Prelude.Dict.{Dict}
use dentatus.Consequence.Graph.{Graph, empty_graph, add_edge, taint, Decay}
use dentatus.Consequence.Propagation.{reached}
use dentatus.Consequence.Cache.{Token, Cache, put, store, entities}
use dentatus.Consequence.Cache.Eviction.{Evicts, put-Evicts}

-- two sources with half a unit of flow to `c`, which passes on half of what it gets
abbrev graph : Graph
graph =
    add_edge "c" "d" (pos 32768)
      (add_edge "b" "c" (pos 32768) (add_edge "a" "c" (pos 32768) empty_graph))

abbrev undecayed : Decay
undecayed = (pos 1, pos 1)

abbrev sources : Dict String ℤ
sources = ("a", pos 3) ∷ ("b", pos 3) ∷ []

-- the flows are rounded on every path
tainted :
    taint graph sources 6 undecayed ≡ ("a", pos 0) ∷ ("c", pos 2) ∷ ("b", pos 0) ∷ ("d", pos 0) ∷ []
unfolding taint dentatus.Prelude.Dict.lookup_or dentatus.Prelude.Dict.lookup add_edge
    dentatus.Prelude.Dict.insert dentatus.Prelude.Dict.contains dentatus.Prelude.Int.floor_div
    dentatus.Prelude.Int.◌*ℤ◌ dentatus.Prelude.Int.◌+ℤ◌
tainted = refl

-- the merged flow is rounded once, and more arrives
merged : reached graph sources 6 undecayed ≡ ("c", pos 2) ∷ ("d", pos 1) ∷ []
unfolding reached dentatus.Prelude.Dict.lookup_or dentatus.Prelude.Dict.lookup add_edge
    dentatus.Prelude.Dict.insert dentatus.Prelude.Dict.contains dentatus.Prelude.Int.floor_div
    dentatus.Prelude.Int.◌*ℤ◌ dentatus.Prelude.Int.◌+ℤ◌
merged = refl

abbrev token : String → ℕ → Token
token name n = record {
  entity = name;
  impact = pos 1;
  mass = pos 1;
  reachable_dependents = pos 0;
  uncertainty = pos 1;
  score = pos n;
  expires = pos 9;
  h = "";
}

abbrev full : Cache
full = record { capacity = 1; tokens = token "a" 5 ∷ [] }

evicts : entities (put full (token "b" 7)).tokens ≡ "b" ∷ []
unfolding put
evicts = refl

put-Evicts_example : Evicts 1 (store (token "b" 7) full.tokens) (put full (token "b" 7)).tokens
put-Evicts_example = put-Evicts full (token "b" 7)
