-- ===== src/Tests/Conformance.antt =====
-- airlock/conformance.py and airlock/admissibility.py over the key-value store.
use dentatus.Prelude.{◌≡◌, refl, true, none, some, List, [], ◌∷◌, ok, err}
use dentatus.Prelude.Eq.{string_eq}
use dentatus.Chronicle.Value.{or_none, or_empty, Value, str, nat, dict, field, end, Fields}
use dentatus.Chronicle.Canonical.{canonical_bytes, genesis}
use dentatus.Airlock.Adapter.{Adapter}
use dentatus.Airlock.Membrane.{Ledger, Reject, schema, budget, Gate, empty_ledger}
use dentatus.Airlock.KeyValue.{empty_world, adapter}
use dentatus.Airlock.Conformance.{Vector, Trace, make_vector, verify_vector, run_sequence}
use dentatus.Airlock.Conformance.RoundTrip.{
  Conforms, verify_vector-make_vector, verify_vector-Conforms, verify_vector_longer,
}
use dentatus.Airlock.Admissibility.{geometry, merge}
use dentatus.Airlock.Admissibility.Shape.{SameShape, join, geometries, merge-SameShape}
use dentatus.Tests.Keys.{brief}

abbrev kv : Adapter
kv = adapter brief (λ s. none)

-- a transition that the store does not know
abbrev proposals : List Fields
proposals = field "transition" (dict (field "op" (str "drop") end)) end ∷ []

abbrev vector : Vector brief canonical_bytes kv
vector = record {
  name = "unknown op";
  world0 = empty_world;
  proposals = proposals;
  budget = dict end;
  constraints = dict end;
  gates = "SCHEMA" ∷ [];
  ledger_head = genesis;
  final_world_hash = kv.state_hash empty_world;
  n_commits = 0;
  n_rejections = 1;
}

settled : or_none (or_empty none) ≡ none
unfolding or_none or_empty dentatus.Chronicle.Value.truthy
settled = refl

make_vector-vector :
    make_vector brief canonical_bytes kv "unknown op" empty_world proposals none none ≡ ok vector
unfolding make_vector dentatus.Airlock.Conformance.run_from dentatus.Airlock.Propose.propose
    dentatus.Airlock.Propose.canon_step dentatus.Stasis.Canon.canon_hash
    dentatus.Airlock.Conformance.complete dentatus.Chronicle.Value.find or_empty
    dentatus.Airlock.Propose.schema_step dentatus.Chronicle.Value.get
    dentatus.Airlock.Membrane.op_in dentatus.Airlock.Conformance.verdict_gate
    dentatus.Airlock.Membrane.head dentatus.Airlock.Conformance.advance
    dentatus.Airlock.Propose.reject dentatus.Airlock.Membrane.gate_name
make_vector-vector = refl

verify_vector-make_vector_example :
    verify_vector brief canonical_bytes kv vector ≡ ok (true, "conformant")
verify_vector-make_vector_example =
    verify_vector-make_vector brief canonical_bytes kv "unknown op" empty_world proposals none none
      settled make_vector-vector

conformant : verify_vector brief canonical_bytes kv vector ≡ ok (true, "conformant")
conformant =
    verify_vector-make_vector brief canonical_bytes kv "unknown op" empty_world proposals none none
      settled make_vector-vector

verify_vector-Conforms_example :
    (t : Trace brief canonical_bytes kv) × (run_sequence brief canonical_bytes kv vector.world0
        vector.proposals
        (some vector.budget)
        (or_none vector.constraints)
      ≡ ok t)
    × Conforms brief canonical_bytes kv vector t
verify_vector-Conforms_example = verify_vector-Conforms brief canonical_bytes kv vector conformant

-- the same vector, with no proposals and a gate that never was
abbrev longer : Vector brief canonical_bytes kv
longer = record vector { proposals = [] }

abbrev start : Trace brief canonical_bytes kv
start = record { world = empty_world; ledger = empty_ledger; gates = [] }

nothing_ran :
    run_sequence brief canonical_bytes kv longer.world0 longer.proposals
      (some longer.budget)
      (or_none longer.constraints)
    ≡ ok start
unfolding run_sequence dentatus.Airlock.Conformance.run_from
nothing_ran = refl

verify_vector_longer_example : verify_vector brief canonical_bytes kv longer ≡ err "StopIteration"
verify_vector_longer_example =
    verify_vector_longer brief canonical_bytes kv longer start "SCHEMA" [] nothing_ran refl

abbrev refusal : Gate → Reject
refusal gate = record {
  gate = gate;
  reason = "";
  algo = none;
  prev = genesis;
  proposal_hash = "";
  telemetry = none;
  shard_hash = "";
  signature = none;
}

abbrev refusals : List Gate → Ledger
refusals [] = empty_ledger
refusals (g ∷ gs) = record { commits = []; rejections = refusal g ∷ (refusals gs).rejections }

abbrev sessions : List Ledger
sessions = refusals (schema ∷ budget ∷ []) ∷ refusals (budget ∷ []) ∷ []

merge-SameShape_example : SameShape (merge (geometries sessions)) (geometry (join sessions))
merge-SameShape_example = merge-SameShape sessions
