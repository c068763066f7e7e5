-- ===== src/Airlock/Possibility.antt =====
-- airlock/possibility.py and airlock/horizon.py: which of several proposals a state admits, found by shadow
-- runs of the membrane, and how far the lawful alternatives lie from the one that is realized.
pub mod Shadow
use dentatus.Prelude.{
  ℕ, ◌+◌, ◌*◌, ◌/◌, ◌-◌, String, Bool, true, false, not, Option, none, some, List, [], ◌∷◌, ◌==◌,
  Outcome, ok, err, ◌>>=◌, if◌then◌else◌, length, get_elem?, max, leb, ◌||◌,
}
use dentatus.Prelude.Dict.{Dict}
use dentatus.Chronicle.Value.{Value, get}
use dentatus.Chronicle.Canonical.{◌^^◌, show_nat}
use dentatus.Airlock.Adapter.{Applied, applied, refused, raised, Adapter}
use dentatus.Airlock.Membrane.{gate_name, empty_ledger}
use dentatus.Airlock.Propose.{Verdict, committed, rejected, Setup, propose}

pub record Entry : Type 0 where
  pub index : ℕ
  pub admissible : Bool
  pub gate : String

abbrev pub entry : {W : Type 0} → ℕ → Verdict W → Entry
entry i (committed w c) = record { index = i; admissible = true; gate = "COMMIT" }
entry i (rejected r) = record { index = i; admissible = false; gate = gate_name r.gate }

unfoldable pub elem : ℕ → List ℕ → Bool
elem i [] = false
elem i (j ∷ js) = i == j || elem i js

unfoldable pub admissible_of : List Entry → List ℕ
admissible_of [] = []
admissible_of (e ∷ es) = if e.admissible then e.index ∷ admissible_of es else admissible_of es

-- the indices are distinct, so each is a new key
unfoldable pub inadmissible_of : List Entry → Dict ℕ String
inadmissible_of [] = []
inadmissible_of (e ∷ es) =
    if e.admissible then inadmissible_of es else (e.index, e.gate) ∷ inadmissible_of es

pub record AdmissibleSet : Type 0 where
  pub candidates : ℕ
  pub admissible : List ℕ
  pub inadmissible : Dict ℕ String
  pub freedom_permille : Option ℕ
  pub per : List Entry

unfoldable pub without : Option ℕ → List ℕ → List ℕ
without chosen [] = []
without none (i ∷ is_) = i ∷ without none is_
without (some c) (i ∷ is_) = let rest = without (some c) is_ in if i == c then rest else i ∷ rest

unfoldable pub unrealized_admissible : AdmissibleSet → Option ℕ → List ℕ
unfolding without
unrealized_admissible admset chosen = without chosen admset.admissible

pub record Neighborhood : Type 0 where
  pub alternatives : ℕ
  pub distances : Dict ℕ ℕ
  pub reach : ℕ
  pub mean_distance : ℕ
  pub dispersion : ℕ
  pub possibility_pressure : ℕ
  pub admissible_total : ℕ

abbrev values : Dict ℕ ℕ → List ℕ
values [] = []
values ((i, d) ∷ ds) = d ∷ values ds

abbrev sum : List ℕ → ℕ
sum [] = 0
sum (d ∷ ds) = d + sum ds

abbrev maximum : List ℕ → ℕ
maximum [] = 0
maximum (d ∷ ds) = max d (maximum ds)

-- `abs(d - mean)` for each distance
abbrev deviations : ℕ → List ℕ → List ℕ
deviations mean [] = []
deviations mean (d ∷ ds) = (if leb mean d then d - mean else mean - d) ∷ deviations mean ds

-- a division that Python guards by `if n`
abbrev average : ℕ → ℕ → ℕ
average total n = if n == 0 then 0 else total / n

unfoldable pub geometry_of : Dict ℕ ℕ → ℕ → Neighborhood
geometry_of dists total =
    let ds = values dists in
    let n = length ds in
    let mean = average (sum ds) n in
    record {
      alternatives = n;
      distances = dists;
      reach = maximum ds;
      mean_distance = mean;
      dispersion = average (sum (deviations mean ds)) n;
      possibility_pressure = sum ds;
      admissible_total = total;
    }

module _ (sha256 : String → String) (repr : Value → String) (A : Adapter)
    (severity : A.World → Value → String) where
  -- what a shadow run leaves to the defaults of `propose`
  abbrev pub shadow : Setup A
  shadow = record { witnesses = []; k = none; signer = none; severity = severity }

  unfoldable pub evaluate_from : ℕ → A.World → List Value → Outcome (List Entry)
  evaluate_from i world [] = ok []
  evaluate_from i world (p ∷ ps) = propose sha256 repr A shadow world p empty_ledger >>= λ r.
      evaluate_from (i + 1) world ps >>= λ per. ok (entry i r.0 ∷ per)

  abbrev pub summarise : List Value → List Entry → AdmissibleSet
  summarise candidates per =
      let n = length candidates in
      record {
        candidates = n;
        admissible = admissible_of per;
        inadmissible = inadmissible_of per;
        freedom_permille = if n == 0 then none else some (length (admissible_of per) * 1000 / n);
        per = per;
      }

  unfoldable pub admissible_set : A.World → List Value → Outcome AdmissibleSet
  unfolding evaluate_from admissible_of inadmissible_of
  admissible_set world candidates =
      evaluate_from 0 world candidates >>= λ per. ok (summarise candidates per)

  abbrev as_outcome : Applied A.World → Outcome A.World
  as_outcome (applied w) = ok w
  as_outcome (refused e) = err e
  as_outcome (raised e) = err e

  abbrev transition_of : Option Value → Outcome Value
  transition_of none = err "list index out of range"
  transition_of (some p) = elim (get "transition" p) [
    | none ↦ err "KeyError: 'transition'"
    | some txn ↦ ok txn
  ]

  -- `adapter.apply(world, candidates[i]["transition"])`
  abbrev pub outcome_of : A.World → List Value → ℕ → Outcome A.World
  outcome_of world candidates i =
      transition_of (get_elem? candidates i) >>= λ txn. as_outcome (A.apply world txn)

  -- the distances of the admissible candidates other than the realized one
  unfoldable pub distances_to : A.World → List Value → ℕ → A.World → List ℕ → Outcome (Dict ℕ ℕ)
  distances_to world candidates realized_index realized_world [] = ok []
  distances_to world candidates realized_index realized_world (i ∷ is_) =
      let rest = distances_to world candidates realized_index realized_world is_ in
      if i == realized_index
      then rest
      else (outcome_of world candidates i >>= λ alt.
          A.delta_norm realized_world alt >>= λ d. rest >>= λ ds. ok ((i, d) ∷ ds))

  abbrev measure : A.World → ℕ → List Value → AdmissibleSet → Outcome Neighborhood
  measure world realized_index candidates aset =
      if not (elem realized_index aset.admissible)
      then err ("realized_index " ^^ show_nat realized_index ^^ " is not admissible at this state")
      else (outcome_of world candidates realized_index >>= λ realized_world.
          distances_to world candidates realized_index realized_world aset.admissible >>= λ dists.
          ok (geometry_of dists (length aset.admissible)))

  unfoldable pub neighborhood : A.World → ℕ → List Value → Outcome Neighborhood
  unfolding admissible_set elem distances_to geometry_of
  neighborhood world realized_index candidates =
      admissible_set world candidates >>= λ aset. measure world realized_index candidates aset
