-- ===== src/CausalRuntime/Tiers.antt =====
-- causal_runtime/tiers.py: which edges may allocate, and which may claim structure. The names in an edge are
-- texts without quotes, so that Python's `str` of the pair is as written here.
use Prim.Native.String.{compare as compare_text}
use Prim.Native.Nat.{Ordering}
use dentatus.Prelude.{
  String, Bool, true, false, ◌&&◌, ◌||◌, Option, none, some, List, [], ◌∷◌, ◌++◌, Outcome, ok, err,
  if◌then◌else◌,
}
use dentatus.Prelude.Eq.{◌≟◌, string_eq}
use dentatus.Chronicle.Canonical.{◌^^◌}
use dentatus.CausalRuntime.Falsification.{
  Status, proposed, corroborated, decaying, rejected, Proposal,
}

abbrev pub Edge : Type 0
Edge = String × String

abbrev pub edge_of : Proposal → Edge
edge_of p = (p.source, p.target)

abbrev pub same_edge : Edge → Edge → Bool
same_edge (s, t) (u, v) = s ≟ u && t ≟ v

unfoldable pub member : Edge → List Edge → Bool
member e [] = false
member e (f ∷ fs) = same_edge f e || member e fs

-- an element of a set
abbrev pub add : Edge → List Edge → List Edge
add e set = if member e set then set else e ∷ set

abbrev edge_text : Edge → String
edge_text (s, t) = "('" ^^ s ^^ "', '" ^^ t ^^ "')"

abbrev after : Edge → Edge → Bool
after e f = elim (compare_text (edge_text e) (edge_text f)) [ Ordering.gt ↦ true | _ ↦ false ]

unfoldable pub insert_edge : Edge → List Edge → List Edge
insert_edge e [] = e ∷ []
insert_edge e (f ∷ fs) = if after e f then f ∷ insert_edge e fs else e ∷ f ∷ fs

unfoldable pub sort_edges : List Edge → List Edge
unfolding insert_edge
sort_edges [] = []
sort_edges (e ∷ es) = insert_edge e (sort_edges es)

abbrev pub usable : Status → Bool
usable rejected = false
usable _ = true

abbrev pub survived : Status → Bool
survived corroborated = true
survived _ = false

unfoldable pub edge_set : (Status → Bool) → List Proposal → List Edge
unfolding member
edge_set keep [] = []
edge_set keep (p ∷ ps) =
    if keep p.status then add (edge_of p) (edge_set keep ps) else edge_set keep ps

unfoldable pub predictive_edges : List Proposal → List Edge
unfolding edge_set sort_edges
predictive_edges ps = sort_edges (edge_set usable ps)

unfoldable pub corroborated_edges : List Proposal → List Edge
unfolding edge_set sort_edges
corroborated_edges ps = sort_edges (edge_set survived ps)

pub data Tier : Type 0 where
  predictive_tier corroborated_tier : Tier

unfoldable pub tier_of : Proposal → Option Tier
tier_of p = elim p.status [
  | corroborated ↦ some corroborated_tier
  | proposed ↦ some predictive_tier
  | decaying ↦ some predictive_tier
  | rejected ↦ none
]

unfoldable pub is_subset : List Edge → List Edge → Bool
unfolding member
is_subset [] set = true
is_subset (e ∷ es) set = member e set && is_subset es set

unfoldable pub difference : List Edge → List Edge → List Edge
unfolding member
difference [] set = []
difference (e ∷ es) set = if member e set then difference es set else e ∷ difference es set

abbrev same_status : Status → Status → Bool
same_status proposed proposed = true
same_status corroborated corroborated = true
same_status decaying decaying = true
same_status rejected rejected = true
same_status _ _ = false

-- `by_status.setdefault(p.status, []).append(...)`
unfoldable pub file_under : Status → Edge → List (Status × List Edge) → List (Status × List Edge)
file_under s e [] = (s, e ∷ []) ∷ []
file_under s e ((t, es) ∷ rest) =
    if same_status t s then (t, es ++ e ∷ []) ∷ rest else (t, es) ∷ file_under s e rest

unfoldable pub by_status : List (Status × List Edge) → List Proposal → List (Status × List Edge)
unfolding file_under
by_status acc [] = acc
by_status acc (p ∷ ps) = by_status (file_under p.status (edge_of p) acc) ps

pub record Report : Type 0 where
  pub predictive : List Edge
  pub corroborated_list : List Edge
  pub may_claim_structure : List Edge
  pub allocation_only : List Edge
  pub statuses : List (Status × List Edge)

-- the assertion fails as an exception
unfoldable pub classify : List Proposal → Outcome Report
unfolding predictive_edges corroborated_edges is_subset difference by_status
classify ps =
    let pred = predictive_edges ps in
    let corr = corroborated_edges ps in
    if is_subset corr pred
    then ok (record {
      predictive = pred;
      corroborated_list = corr;
      may_claim_structure = corr;
      allocation_only = sort_edges (difference pred corr);
      statuses = by_status [] ps;
    })
    else err "corroborated edges must be a subset of predictive edges"

abbrev words : Option Tier → String
words (some corroborated_tier) = "corroborated structural edge (survived held-out falsification)"
words (some predictive_tier) = "predictive association (allocation only; no causal claim)"
words none = "rejected (falsified)"

unfoldable pub vocabulary_for : Proposal → String
unfolding tier_of
vocabulary_for p = words (tier_of p)
