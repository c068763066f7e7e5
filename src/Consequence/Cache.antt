-- ===== src/Consequence/Cache.antt =====
-- consequence/fingerprint.py and consequence/cache.py: tokens, and the bounded cache that keeps the best of
-- them. The cache's dict maps a token's entity to the token, so it is the list of its tokens.
pub mod Eviction
use Prim.Native.String.{compare as compare_text}
use Prim.Native.Nat.{Ordering}
use dentatus.Prelude.{
  ℕ, zero, suc, ◌-◌, ◌^◌, String, Bool, true, false, not, Option, none, some, List, [], ◌∷◌, ◌++◌,
  if◌then◌else◌, length, take, ltb, map,
}
use dentatus.Prelude.Int.{ℤ, pos, negsuc, ◌+ℤ◌, ◌*ℤ◌, ltb_ℤ, floor_div}
use dentatus.Prelude.Eq.{◌≟◌, string_eq}
use dentatus.Prelude.Dict.{Dict}
use dentatus.Chronicle.Canonical.{◌^^◌, show_int}
use dentatus.Consequence.Graph.{Graph, Decay, scale, dependency_mass}

pub record Token : Type 0 where
  pub entity : String
  pub impact : ℤ
  pub mass : ℤ
  pub reachable_dependents : ℤ
  pub uncertainty : ℤ
  pub score : ℤ
  pub expires : ℤ
  pub h : String

-- `max(0, min(u, SCALE))`
unfoldable pub clamp_unit : ℤ → ℤ
clamp_unit u = if ltb_ℤ u (pos 0) then pos 0 else if ltb_ℤ scale u then scale else u

-- `consequence_score`, from the mass
unfoldable pub requantized : ℤ → ℤ → ℤ → ℤ
requantized magnitude mass u = floor_div (floor_div (magnitude *ℤ mass) scale *ℤ u) scale

abbrev join_bars : List String → String
join_bars [] = ""
join_bars (s ∷ []) = s
join_bars (s ∷ ss) = s ^^ "|" ^^ join_bars ss

unfoldable pub fingerprint :
    (String → String) → Graph → String → ℤ → ℤ → ℤ → ℤ → ℤ → ℕ → Decay → Token
unfolding clamp_unit requantized
fingerprint sha256 g node magnitude uncertainty now ttl reachable_dependents depth decay =
    let mass = dependency_mass g node depth decay in
    let u = clamp_unit uncertainty in
    let score = requantized magnitude mass u in
    let expires = now +ℤ ttl in
    record {
      entity = node;
      impact = magnitude;
      mass = mass;
      reachable_dependents = reachable_dependents;
      uncertainty = u;
      score = score;
      expires = expires;
      h = sha256 (
          join_bars (
            "FST"
            ∷ node
            ∷ show_int magnitude
            ∷ show_int mass
            ∷ show_int reachable_dependents
            ∷ show_int u
            ∷ show_int score
            ∷ show_int expires
            ∷ []));
    }

pub record Cache : Type 0 where
  pub capacity : ℕ
  pub tokens : List Token

-- the order of `(-score, str(entity))`
abbrev pub ahead : Token → Token → Bool
ahead a b =
    if ltb_ℤ b.score a.score
    then true
    else if ltb_ℤ a.score b.score
    then false
    else elim (compare_text a.entity b.entity) [ Ordering.gt ↦ false | _ ↦ true ]

unfoldable pub insert_token : Token → List Token → List Token
insert_token t [] = t ∷ []
insert_token t (u ∷ us) = if ahead t u then t ∷ u ∷ us else u ∷ insert_token t us

-- `_order`
unfoldable pub order : List Token → List Token
unfolding insert_token
order [] = []
order (t ∷ ts) = insert_token t (order ts)

-- `self._tok[token.entity] = token`
unfoldable pub store : Token → List Token → List Token
store token [] = token ∷ []
store token (t ∷ ts) = if t.entity ≟ token.entity then token ∷ ts else t ∷ store token ts

-- `_evict`
unfoldable pub evict : ℕ → List Token → List Token
unfolding order
evict capacity tokens = take capacity (order tokens)

unfoldable pub put : Cache → Token → Cache
unfolding store evict
put cache token =
    let stored = store token cache.tokens in
    record cache {
      tokens = if ltb cache.capacity (length stored) then evict cache.capacity stored else stored;
    }

-- `get`
unfoldable pub find : String → List Token → Option Token
find entity [] = none
find entity (t ∷ ts) = if t.entity ≟ entity then some t else find entity ts

unfoldable pub live : ℤ → List Token → List Token
live now [] = []
live now (t ∷ ts) = if ltb_ℤ now t.expires then t ∷ live now ts else live now ts

-- the cache without the tokens that have expired, and their number
unfoldable pub tick : Cache → ℤ → Cache × ℕ
unfolding live
tick cache now =
    let kept = live now cache.tokens in
    (record cache { tokens = kept }, length cache.tokens - length kept)

abbrev pub entities : List Token → List String
entities [] = []
entities (t ∷ ts) = t.entity ∷ entities ts

-- `max(0, int(budget))`
abbrev at_least_zero : ℤ → ℕ
at_least_zero (pos n) = n
at_least_zero (negsuc n) = 0

unfoldable pub frontier : Cache → ℤ → List String
unfolding order
frontier cache budget = entities (take (at_least_zero budget) (order cache.tokens))

abbrev pub scores_of : List Token → Dict String ℤ
scores_of [] = []
scores_of (t ∷ ts) = (t.entity, t.score) ∷ scores_of ts

unfoldable pub scores : Cache → Dict String ℤ
scores cache = scores_of cache.tokens
