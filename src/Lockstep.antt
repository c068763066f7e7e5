-- ===== src/Lockstep.antt =====
-- lockstep/: a truth track of content-addressed ticks (tick.py) and its reconciliation with the inputs of an
-- authority (rollback.py). The step function is an argument; the copies of states and inputs that
-- the code makes are the values themselves.
pub mod Rollback
pub mod Frames
use dentatus.Prelude.{
  ℕ, zero, suc, ◌+◌, ◌-◌, ◌*◌, ◌/◌, ◌%◌, String, Bool, true, false, not, Option, none, some, List,
  [], ◌∷◌, ◌++◌, leb, ltb, ◌==◌, if◌then◌else◌, length, drop, get_or, Outcome, ok, err,
}
use dentatus.Prelude.Eq.{◌≟◌, string_eq}
use dentatus.Chronicle.Value.{Value, nat, dict, field, end}
use dentatus.Chronicle.Canonical.{canonical_bytes, state_hash}

-- the last of `x ∷ xs`
unfoldable pub last_or : {A : Type 0} → A → List A → A
last_or x [] = x
last_or x (y ∷ ys) = last_or y ys

pub record Track : Type 0 where
  -- state[0], and the states after it
  pub first : Value
  pub later : List Value
  pub inputs : List Value
  pub first_hash : String
  pub hashes : List String

-- `track.tick`
unfoldable pub tick : Track → ℕ
tick t = length t.later

abbrev pub current : Track → Value
current t = last_or t.first t.later

-- `track.hashes[-1]`
abbrev pub last_hash : Track → String
last_hash t = last_or t.first_hash t.hashes

-- the earliest index at which the inputs differ, in the common prefix
unfoldable pub divergence_from : ℕ → List Value → List Value → Option ℕ
divergence_from i [] as_ = none
divergence_from i (p ∷ ps) [] = none
divergence_from i (p ∷ ps) (a ∷ as_) =
    let rest = divergence_from (i + 1) ps as_ in
    if not (canonical_bytes p ≟ canonical_bytes a) then some i else rest

unfoldable pub first_input_divergence : List Value → List Value → Option ℕ
unfolding divergence_from
first_input_divergence predicted authoritative = divergence_from 0 predicted authoritative

-- the loop that stops at the first hash that differs
unfoldable pub valid_from : ℕ → ℕ → List String → List String → ℕ
valid_from n last [] as_ = last
valid_from n last (h ∷ hs) [] = last
valid_from n last (h ∷ hs) (a ∷ as_) =
    let rest = valid_from (n + 1) n hs as_ in if h ≟ a then rest else last

unfoldable pub last_valid_tick : Track → List String → ℕ
unfolding valid_from
last_valid_tick t authoritative = valid_from 0 0 (t.first_hash ∷ t.hashes) authoritative

module _ (sha256 : String → String) (step_fn : Value → Value → Value) where
  unfoldable pub truth_hash : ℕ → Value → String
  truth_hash n state = state_hash sha256 (dict (field "tick" (nat n) (field "state" state end)))

  unfoldable pub new_track : Value → Track
  new_track genesis = record {
    first = genesis;
    later = [];
    inputs = [];
    first_hash = truth_hash 0 genesis;
    hashes = [];
  }

  -- `TruthTrack.advance`
  unfoldable pub advance : Track → Value → Track
  unfolding tick
  advance t inp =
      let new_state = step_fn (current t) inp in
      record t {
        later = t.later ++ new_state ∷ [];
        inputs = t.inputs ++ inp ∷ [];
        hashes = t.hashes ++ truth_hash (tick t + 1) new_state ∷ [];
      }

  unfoldable pub advance_all : Track → List Value → Track
  unfolding advance
  advance_all t [] = t
  advance_all t (inp ∷ inputs) = advance_all (advance t inp) inputs

  unfoldable pub from_inputs : Value → List Value → Track
  unfolding new_track advance_all
  from_inputs genesis inputs = advance_all (new_track genesis) inputs

  pub record Reconciled : Type 0 where
    pub rollback_depth : ℕ
    pub last_valid : ℕ
    pub changed : Bool
    pub corrected : Track

  -- `list(authoritative) + predicted[len(authoritative):]`
  abbrev pub merged : List Value → List Value → List Value
  merged predicted authoritative = authoritative ++ drop (length authoritative) predicted

  -- the tick before a divergence is inside the track, so the difference is not cut off
  unfoldable pub rolled_back : Track → Track → ℕ → Reconciled
  unfolding tick
  rolled_back predicted corrected valid = record {
    rollback_depth = tick predicted - valid;
    last_valid = valid;
    changed = not (last_hash corrected ≟ last_hash predicted);
    corrected = corrected;
  }

  unfoldable pub settle : Track → List Value → Track → Option ℕ → Reconciled
  unfolding tick rolled_back
  settle predicted authoritative corrected (some d) = rolled_back predicted corrected d
  settle predicted authoritative corrected none =
      if leb (length authoritative) (length predicted.inputs)
      then record {
        rollback_depth = 0;
        last_valid = tick predicted;
        changed = false;
        corrected = corrected;
      }
      else rolled_back predicted corrected (length predicted.inputs)

  -- with the genesis state of the predicted track
  unfoldable pub reconcile : Track → List Value → Reconciled
  unfolding from_inputs settle first_input_divergence
  reconcile predicted authoritative =
      settle predicted authoritative
        (from_inputs predicted.first (merged predicted.inputs authoritative))
        (first_input_divergence predicted.inputs authoritative)
