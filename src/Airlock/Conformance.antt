-- ===== src/Airlock/Conformance.antt =====
-- airlock/conformance.py: vectors that bind a kernel, a world and proposals to what the membrane makes of
-- them. A proposal is a dict.
pub mod RoundTrip
use dentatus.Prelude.{
  ℕ, suc, String, Bool, true, false, not, Option, none, some, List, [], ◌∷◌, Outcome, ok, err,
  ◌>>=◌, if◌then◌else◌, length, ◌==◌,
}
use dentatus.Prelude.Int.{pos, eqb_ℤ}
use dentatus.Prelude.Eq.{◌≟◌, string_eq}
use dentatus.Chronicle.Value.{
  Value, null, bool, int, float, str, list, dict, nil, Fields, field, end, find, truthy, or_empty,
  or_none,
}
use dentatus.Chronicle.Canonical.{◌^^◌, show_nat}
use dentatus.Airlock.Adapter.{Adapter}
use dentatus.Airlock.Membrane.{Gate, gate_name, Reject, Commit, Ledger, empty_ledger, head}
use dentatus.Airlock.Propose.{Verdict, committed, rejected, Setup, propose}

unfoldable pub add_last : String → Value → Fields → Fields
add_last k v end = field k v end
add_last k v (field j w fs) = field j w (add_last k v fs)

unfoldable pub set_default : String → Value → Fields → Fields
unfolding add_last
set_default k v fs = elim (find k fs) [ some w ↦ fs | none ↦ add_last k v fs ]

-- what a proposal is offered as: the vector's budget and constraints are defaults
unfoldable pub complete : Option Value → Option Value → Fields → Value
unfolding set_default
complete budget none p = dict (set_default "budget" (or_empty budget) p)
complete budget (some c) p =
    dict (set_default "constraints" c (set_default "budget" (or_empty budget) p))

unfoldable pub verdict_gate : {W : Type 0} → Verdict W → String
verdict_gate (committed w c) = "COMMIT"
verdict_gate (rejected r) = gate_name r.gate

unfoldable pub advance : {W : Type 0} → W → Verdict W → W
advance world (committed w c) = w
advance world (rejected r) = world

-- the first index at which the gates differ from the vector's; none is a `StopIteration`
unfoldable pub diverges : ℕ → List String → List String → Option ℕ
diverges i [] vs = none
diverges i (g ∷ gs) [] = some i
diverges i (g ∷ gs) (v ∷ vs) = let rest = diverges (suc i) gs vs in if g ≟ v then rest else some i

unfoldable pub equal_gates : List String → List String → Bool
equal_gates [] [] = true
equal_gates (g ∷ gs) (v ∷ vs) = let rest = equal_gates gs vs in if g ≟ v then rest else false
equal_gates _ _ = false

abbrev pub diverged : Option ℕ → Outcome (Bool × String)
diverged none = err "StopIteration"
diverged (some i) = ok (false, "gate sequence diverged at " ^^ show_nat i)

module _ (sha256 : String → String) (repr : Value → String) (A : Adapter) where
  -- the defaults of `propose`: no witnesses, no signer, the game tier
  unfoldable pub plain : Setup A
  plain = record { witnesses = []; k = none; signer = none; severity = λ w t. "game" }

  pub record Trace : Type 0 where
    pub world : A.World
    pub ledger : Ledger
    pub gates : List String

  pub record Vector : Type 0 where
    pub name : String
    pub world0 : A.World
    pub proposals : List Fields
    pub budget : Value
    pub constraints : Value
    pub gates : List String
    pub ledger_head : String
    pub final_world_hash : String
    pub n_commits : ℕ
    pub n_rejections : ℕ

  abbrev pub prepend : String → Outcome Trace → Outcome Trace
  prepend g (err e) = err e
  prepend g (ok t) = ok (record t { gates = g ∷ t.gates })

  unfoldable pub run_from :
      A.World → Ledger → List Fields → Option Value → Option Value → Outcome Trace
  run_from world ledger [] budget constraints =
      ok (record { world = world; ledger = ledger; gates = [] })
  run_from world ledger (p ∷ ps) budget constraints =
      propose sha256 repr A plain world (complete budget constraints p) ledger >>= λ d.
      prepend (verdict_gate d.0) (run_from (advance world d.0) d.1 ps budget constraints)

  unfoldable pub run_sequence : A.World → List Fields → Option Value → Option Value → Outcome Trace
  run_sequence world0 proposals budget constraints =
      run_from world0 empty_ledger proposals budget constraints

  abbrev pub vector_of :
      String → A.World → List Fields → Option Value → Option Value → Trace → Vector
  vector_of name world0 proposals budget constraints t = record {
    name = name;
    world0 = world0;
    proposals = proposals;
    budget = or_empty budget;
    constraints = or_empty constraints;
    gates = t.gates;
    ledger_head = head t.ledger;
    final_world_hash = A.state_hash t.world;
    n_commits = length t.ledger.commits;
    n_rejections = length t.ledger.rejections;
  }

  unfoldable pub make_vector :
      String → A.World → List Fields → Option Value → Option Value → Outcome Vector
  unfolding run_sequence
  make_vector name world0 proposals budget constraints =
      run_sequence world0 proposals budget constraints >>= λ t.
      ok (vector_of name world0 proposals budget constraints t)

  unfoldable pub compare_trace : Vector → Trace → Outcome (Bool × String)
  unfolding equal_gates diverges
  compare_trace vector t =
      if not (equal_gates t.gates vector.gates)
      then diverged (diverges 0 t.gates vector.gates)
      else if not (head t.ledger ≟ vector.ledger_head)
      then ok (false, "ledger head mismatch")
      else if not (A.state_hash t.world ≟ vector.final_world_hash)
      then ok (false, "final world hash mismatch")
      else ok (true, "conformant")

  unfoldable pub verify_vector : Vector → Outcome (Bool × String)
  unfolding run_sequence compare_trace
  verify_vector vector =
      run_sequence vector.world0 vector.proposals (some vector.budget) (or_none vector.constraints)
      >>= compare_trace vector
