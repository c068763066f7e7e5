-- ===== src/Tests/Possibility.antt =====
-- airlock/possibility.py, airlock/horizon.py, airlock/impact.py and the audit over the key-value store.
use dentatus.Prelude.{
  ℕ, String, ◌≡◌, refl, ◌↔◌, Bool, true, false, Option, none, some, List, [], ◌∷◌, get_elem?,
  Outcome, ok, err,
}
use dentatus.Prelude.Eq.{string_eq, nat_eq}
use dentatus.Chronicle.Value.{Value, str, nat, dict, field, end, get}
use dentatus.Chronicle.Canonical.{canonical_bytes}
use dentatus.Stasis.Canon.{canon_hash}
use dentatus.Airlock.Adapter.{Adapter}
use dentatus.Airlock.Membrane.{empty_ledger, get_or_empty}
use dentatus.Airlock.Propose.{Setup, propose}
use dentatus.Airlock.Admission.{Commits}
use dentatus.Airlock.Audit.{Passes, audit, at_strict, audit_iff}
use dentatus.Airlock.Possibility.{elem, AdmissibleSet, admissible_set}
use dentatus.Airlock.Possibility.Shadow.{Realizable, admissible_set-Realizable}
use dentatus.Airlock.KeyValue.{World, empty_world, adapter}
use dentatus.Tests.Keys.{brief}

abbrev kv : Adapter
kv = adapter brief (λ s. none)

abbrev setup : Setup kv
setup = record { witnesses = []; k = none; signer = none; severity = λ w t. "game" }

abbrev set_x : ℕ → Value
set_x n = dict (field "op" (str "set") (field "key" (str "x") (field "value" (nat n) end)))

abbrev proposal : Value
proposal =
    dict
      (field "transition" (set_x 1) (field "constraints" (dict (field "max_keys" (nat 4) end)) end))

committed_x :
    Commits brief canonical_bytes kv setup empty_world proposal empty_ledger
      (record { kv = ("x", nat 1) ∷ []; frozen = []; epoch = 1 })
      (propose brief canonical_bytes kv setup empty_world proposal empty_ledger)
unfolding propose dentatus.Airlock.Propose.canon_step dentatus.Airlock.Propose.schema_step
    dentatus.Airlock.Propose.cost_step dentatus.Airlock.Propose.cost_limit
    dentatus.Airlock.Propose.apply_step dentatus.Airlock.Propose.delta_step
    dentatus.Airlock.Propose.delta_limit dentatus.Airlock.Propose.validate_step
    dentatus.Airlock.Propose.strict_step dentatus.Airlock.Propose.strict_verdict
    dentatus.Airlock.Propose.put_off dentatus.Airlock.Propose.witness_step
    dentatus.Airlock.Propose.witnessed dentatus.Airlock.Propose.needed
    dentatus.Airlock.Propose.commit_step dentatus.Airlock.Propose.commit
    dentatus.Airlock.Propose.seal_commit dentatus.Airlock.Propose.reject
    dentatus.Airlock.Propose.agreeing dentatus.Airlock.KeyValue.apply
    dentatus.Airlock.KeyValue.apply_named dentatus.Airlock.KeyValue.mem
    dentatus.Airlock.KeyValue.apply_key dentatus.Airlock.KeyValue.key_of
    dentatus.Airlock.KeyValue.apply_op dentatus.Airlock.KeyValue.set_value
    dentatus.Airlock.KeyValue.delta_norm dentatus.Airlock.KeyValue.sum_deltas
    dentatus.Airlock.KeyValue.keys dentatus.Airlock.KeyValue.new_keys
    dentatus.Airlock.KeyValue.key_delta dentatus.Airlock.KeyValue.equal
    dentatus.Airlock.KeyValue.validate dentatus.Airlock.KeyValue.missing
    dentatus.Airlock.KeyValue.validate_strict dentatus.Airlock.Membrane.op_in canon_hash
    dentatus.Airlock.KeyValue.residual dentatus.Chronicle.Value.find dentatus.Chronicle.Value.truthy
    dentatus.Airlock.Membrane.limit_in dentatus.Stasis.Canon.canonicalize
    dentatus.Stasis.Canon.check get get_or_empty dentatus.Prelude.Dict.insert
    dentatus.Prelude.Dict.lookup dentatus.Prelude.Dict.contains
committed_x = (_, _, refl)

constraints_dict : get_or_empty "constraints" proposal ≡ dict (field "max_keys" (nat 4) end)
unfolding get get_or_empty
constraints_dict = refl

audit_iff_example :
    Passes (
      audit brief kv empty_world committed_x.0.txn
        (some (dict (field "max_keys" (nat 4) end)))
        none
        none)
    ↔ Commits brief canonical_bytes kv setup empty_world proposal empty_ledger
        (record { kv = ("x", nat 1) ∷ []; frozen = []; epoch = 1 })
        (propose brief canonical_bytes kv (at_strict setup) empty_world proposal empty_ledger)
audit_iff_example =
    audit_iff brief canonical_bytes kv setup empty_world proposal empty_ledger none none
      committed_x.2 constraints_dict

-- the second names no transition
abbrev candidates : List Value
candidates = proposal ∷ dict end ∷ []

abbrev game : World → Value → String
game w t = "game"

evaluated :
    (s : AdmissibleSet) × (admissible_set brief canonical_bytes kv game empty_world candidates
      ≡ ok s)
unfolding admissible_set propose dentatus.Airlock.Propose.canon_step
    dentatus.Airlock.Propose.schema_step dentatus.Airlock.Propose.cost_step
    dentatus.Airlock.Propose.cost_limit dentatus.Airlock.Propose.apply_step
    dentatus.Airlock.Propose.delta_step dentatus.Airlock.Propose.delta_limit
    dentatus.Airlock.Propose.validate_step dentatus.Airlock.Propose.strict_step
    dentatus.Airlock.Propose.strict_verdict dentatus.Airlock.Propose.put_off
    dentatus.Airlock.Propose.witness_step dentatus.Airlock.Propose.witnessed
    dentatus.Airlock.Propose.needed dentatus.Airlock.Propose.commit_step
    dentatus.Airlock.Propose.commit dentatus.Airlock.Propose.seal_commit
    dentatus.Airlock.Propose.reject dentatus.Airlock.Propose.agreeing
    dentatus.Airlock.KeyValue.apply dentatus.Airlock.KeyValue.apply_named
    dentatus.Airlock.KeyValue.mem dentatus.Airlock.KeyValue.apply_key
    dentatus.Airlock.KeyValue.key_of dentatus.Airlock.KeyValue.apply_op
    dentatus.Airlock.KeyValue.set_value dentatus.Airlock.KeyValue.delta_norm
    dentatus.Airlock.KeyValue.sum_deltas dentatus.Airlock.KeyValue.keys
    dentatus.Airlock.KeyValue.new_keys dentatus.Airlock.KeyValue.key_delta
    dentatus.Airlock.KeyValue.equal dentatus.Airlock.KeyValue.validate
    dentatus.Airlock.KeyValue.missing dentatus.Airlock.KeyValue.validate_strict
    dentatus.Airlock.Membrane.op_in canon_hash dentatus.Airlock.KeyValue.residual
    dentatus.Chronicle.Value.find dentatus.Chronicle.Value.truthy dentatus.Airlock.Membrane.limit_in
    dentatus.Stasis.Canon.canonicalize dentatus.Stasis.Canon.check get get_or_empty
    dentatus.Prelude.Dict.insert dentatus.Prelude.Dict.lookup dentatus.Prelude.Dict.contains
    dentatus.Airlock.Possibility.evaluate_from
evaluated = (_, refl)

admissible_set-Realizable_example :
    (elem 0 evaluated.0.admissible ≡ true)
    ↔ Realizable brief canonical_bytes kv game empty_world empty_ledger (get_elem? candidates 0)
admissible_set-Realizable_example =
    admissible_set-Realizable brief canonical_bytes kv game empty_world empty_ledger candidates 0
      evaluated.1
