-- ===== src/Syracuse.antt =====
-- syracuse/orbit.py: the map, its orbits under a step budget, their gates and what is observed. An
-- argument is a natural number, of which 0 stands for every integer that is not positive. The float
-- drift of the observables is left out, and so is the adapter to lockstep.
use dentatus.Prelude.{
  ℕ, zero, suc, ◌+◌, ◌*◌, ◌/◌, ◌%◌, ◌-◌, max, String, Bool, true, false, Option, none, some, List,
  [], ◌∷◌, ◌++◌, Outcome, ok, err, ◌>>=◌, ◌==◌, if◌then◌else◌, length,
}
use dentatus.Chronicle.Value.{Values, nil, cons, nat, list, dict, field, end}
use dentatus.Chronicle.Canonical.{◌^^◌, state_hash}

-- one step from a positive number
unfoldable pub next : ℕ → Bool → ℕ
next n compressed = if n % 2 == 0 then n / 2 else if compressed then (3 * n + 1) / 2 else 3 * n + 1

unfoldable pub step : ℕ → Bool → Outcome ℕ
unfolding next
step n compressed =
    if n == 0
    then err "the Syracuse map is defined on positive integers"
    else ok (next n compressed)

abbrev pub after : ℕ → Option (List ℕ) → Option (List ℕ)
after m none = none
after m (some seq) = some (m ∷ seq)

-- the rest of the loop from `m`, with the steps that are left; `none` is a `BudgetExceeded`. Only
-- positive numbers arise, so the step does not raise.
unfoldable pub walk : ℕ → ℕ → Bool → Option (List ℕ)
unfolding next
walk zero m compressed = if m == 1 then some [] else none
walk (suc left) m compressed =
    let rest = walk left (next m compressed) compressed in
    if m == 1 then some [] else after (next m compressed) rest

-- an error is a `SyracuseError`, a `none` its subclass `BudgetExceeded`
unfoldable pub orbit : ℕ → ℕ → Bool → Outcome (Option (List ℕ))
unfolding walk
orbit n max_steps compressed =
    if n == 0
    then err "orbit start must be a positive integer"
    else ok (after n (walk max_steps n compressed))

abbrev numbers : List ℕ → Values
numbers [] = nil
numbers (n ∷ ns) = cons (nat n) (numbers ns)

-- `None` of the first three is `none`
pub record Gates : Type 0 where
  pub start : ℕ
  pub reached_one : Option Bool
  pub stopping_time : Option ℕ
  pub within_budget : Bool
  pub orbit_hash : Option String

unfoldable pub largest : List ℕ → ℕ
largest [] = 0
largest (n ∷ ns) = max n (largest ns)

unfoldable pub odd_count : List ℕ → ℕ
odd_count [] = 0
odd_count (n ∷ ns) = let rest = odd_count ns in if n % 2 == 1 then suc rest else rest

unfoldable pub parity_word : List ℕ → String
parity_word [] = ""
parity_word (n ∷ ns) = (if n % 2 == 0 then "0" else "1") ^^ parity_word ns

-- `seq[:-1]`
unfoldable pub but_last : List ℕ → List ℕ
but_last [] = []
but_last (n ∷ []) = []
but_last (n ∷ m ∷ ns) = n ∷ but_last (m ∷ ns)

pub record Observables : Type 0 where
  pub peak : ℕ
  pub odd_steps : ℕ
  pub even_steps : ℕ
  pub parity : String

unfoldable pub observables : List ℕ → Observables
unfolding largest odd_count parity_word but_last
observables seq =
    let steps = but_last seq in
    let odd = odd_count steps in
    record {
      peak = largest seq;
      odd_steps = odd;
      even_steps = length steps - odd;
      parity = parity_word steps;
    }

pub record Witness : Type 0 where
  pub verified_count : ℕ
  pub max_verified_n : ℕ
  pub max_stopping_time : ℕ
  pub refused : List ℕ

abbrev pub new_witness : Witness
new_witness = record { verified_count = 0; max_verified_n = 0; max_stopping_time = 0; refused = [] }

abbrev stopping : Option ℕ → ℕ
stopping none = 0
stopping (some s) = s

abbrev record_if : Option Bool → Gates → Witness → Witness
record_if (some true) g w = record w {
  verified_count = w.verified_count + 1;
  max_verified_n = max w.max_verified_n g.start;
  max_stopping_time = max w.max_stopping_time (stopping g.stopping_time);
}
record_if _ g w = record w { refused = w.refused ++ g.start ∷ [] }

-- `ConjectureWitness.record`
unfoldable pub record_gates : Gates → Witness → Witness
record_gates g w = record_if g.reached_one g w

pub record Report : Type 0 where
  pub verified_count : ℕ
  pub max_verified_n : ℕ
  pub max_stopping_time : ℕ
  pub refused_within_budget : List ℕ
  pub conjecture_proven : Bool

unfoldable pub report : Witness → Report
report w = record {
  verified_count = w.verified_count;
  max_verified_n = w.max_verified_n;
  max_stopping_time = w.max_stopping_time;
  refused_within_budget = w.refused;
  conjecture_proven = false;
}

module _ (sha256 : String → String) where
  unfoldable pub orbit_hash : List ℕ → String
  orbit_hash seq = state_hash sha256 (dict (field "orbit" (list (numbers seq)) end))

  abbrev pub gates_of : ℕ → Option (List ℕ) → Gates
  gates_of n none = record {
    start = n;
    reached_one = none;
    stopping_time = none;
    within_budget = false;
    orbit_hash = none;
  }
  gates_of n (some seq) = record {
    start = n;
    reached_one = some true;
    stopping_time = some (length seq - 1);
    within_budget = true;
    orbit_hash = some (orbit_hash seq);
  }

  unfoldable pub gates : ℕ → ℕ → Bool → Outcome Gates
  unfolding orbit
  gates n max_steps compressed = orbit n max_steps compressed >>= λ o. ok (gates_of n o)

  -- `iterations` of the counts that ration gates; the other counts are 0
  unfoldable pub ration_counts : ℕ → ℕ → Bool → Outcome ℕ
  unfolding gates
  ration_counts n max_steps compressed = gates n max_steps compressed >>= λ g.
      ok (if g.within_budget then stopping g.stopping_time else max_steps)
