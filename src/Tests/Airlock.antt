-- ===== src/Tests/Airlock.antt =====
-- airlock/membrane.py over the key-value store of airlock/adapters_kv.py.
use dentatus.Prelude.{
  ℕ, String, ◌≡◌, refl, Bool, true, false, Option, none, some, List, [], ◌∷◌, ◌++◌, arith, Outcome,
  ok, inl, inr,
}
use dentatus.Prelude.Int.{pos}
use dentatus.Prelude.Eq.{string_eq}
use dentatus.Chronicle.Value.{Value, str, nat, dict, field, end, get}
use dentatus.Chronicle.Canonical.{canonical_bytes}
use dentatus.Stasis.Canon.Floatless.{Floatless}
use dentatus.Airlock.Adapter.{applied, Adapter}
use dentatus.Airlock.Membrane.{empty_ledger, get_or_empty}
use dentatus.Airlock.Propose.{Setup, propose, Decision}
use dentatus.Airlock.Conditions.{Affords}
use dentatus.Airlock.Gates.{LoggedOk, propose-Logged}
use dentatus.Airlock.Admitted.{Admitted}
use dentatus.Airlock.Admission.{Commits, commit_sound, commit_complete}
use dentatus.Airlock.KeyValue.{
  World, empty_world, mem, apply, adapter, validate, validate_strict, delta_norm,
}
use dentatus.Airlock.KeyValue.Frozen.{Keeps, apply-Keeps}
use dentatus.Tests.Keys.{brief}

abbrev kv : Adapter
kv = adapter brief (λ s. none)

abbrev setup : Setup kv
setup = record { witnesses = []; k = none; signer = none; severity = λ w t. "strict" }

abbrev set_x : Value
set_x = dict (field "op" (str "set") (field "key" (str "x") (field "value" (nat 1) end)))

abbrev proposal : Value
proposal = dict (
    field "transition" set_x
      (field "budget" (dict (field "max_cost" (nat 1) (field "max_delta" (nat 1) end))) end))

abbrev store : World
store = record { kv = ("x", nat 1) ∷ []; frozen = []; epoch = 1 }

abbrev decision : Decision brief canonical_bytes kv setup empty_world proposal empty_ledger
decision = propose brief canonical_bytes kv setup empty_world proposal empty_ledger

floatless : Floatless proposal
unfolding Floatless
floatless = ((tt, (tt, (tt, tt))), ((tt, (tt, tt)), tt))

shaped_x : get "transition" proposal ≡ some set_x
unfolding get dentatus.Chronicle.Value.find
shaped_x = refl

known_x : get "op" set_x ≡ some (str "set")
unfolding get
known_x = refl

cheap_x : Affords "max_cost" (pos 1) (get_or_empty "budget" proposal)
unfolding get get_or_empty dentatus.Chronicle.Value.find
cheap_x = omega arith

small_x : Affords "max_delta" (pos 1) (get_or_empty "budget" proposal)
unfolding get get_or_empty dentatus.Chronicle.Value.find
small_x = omega arith

applies_x : apply empty_world set_x ≡ applied store
unfolding apply dentatus.Airlock.KeyValue.apply_named get mem dentatus.Airlock.KeyValue.apply_key
    dentatus.Airlock.KeyValue.key_of dentatus.Airlock.KeyValue.apply_op
    dentatus.Airlock.KeyValue.set_value dentatus.Prelude.Dict.insert
applies_x = refl

delta_x : kv.delta_norm empty_world store ≡ ok 1
unfolding delta_norm dentatus.Prelude.Dict.contains dentatus.Prelude.Dict.lookup
    dentatus.Airlock.KeyValue.key_delta dentatus.Airlock.KeyValue.equal
delta_x = refl

valid_x : validate store (get_or_empty "constraints" proposal) ≡ ok (true, "ok")
unfolding validate get get_or_empty dentatus.Chronicle.Value.find
valid_x = refl

measured_x : kv.residual store (get_or_empty "claims" proposal) ≡ ok none
unfolding dentatus.Airlock.KeyValue.residual get get_or_empty dentatus.Chronicle.Value.truthy
measured_x = refl

deep_x : validate_strict store (get_or_empty "constraints" proposal) ≡ ok (true, "no policy")
unfolding validate_strict get get_or_empty dentatus.Chronicle.Value.find
deep_x = refl

admitted : Admitted brief canonical_bytes kv setup empty_world proposal empty_ledger set_x store
admitted = record {
  canonical = floatless;
  shaped = (_, (refl, shaped_x));
  known = ("set", (known_x, inl refl));
  cheap = (pos 1, (refl, cheap_x));
  applies = applies_x;
  small = (1, (delta_x, small_x));
  valid = ("ok", valid_x);
  measured = (none, measured_x);
  deep = inr ("no policy", deep_x);
  agreed = inl refl;
}

propose-Logged_example :
    LoggedOk brief canonical_bytes kv setup empty_world proposal empty_ledger decision
propose-Logged_example =
    propose-Logged brief canonical_bytes kv setup empty_world proposal empty_ledger

committed_x :
    Commits brief canonical_bytes kv setup empty_world proposal empty_ledger store decision
committed_x =
    commit_complete brief canonical_bytes kv setup empty_world proposal empty_ledger set_x store
      admitted

commit_complete_example :
    Commits brief canonical_bytes kv setup empty_world proposal empty_ledger store decision
commit_complete_example =
    commit_complete brief canonical_bytes kv setup empty_world proposal empty_ledger set_x store
      admitted

commit_sound_example :
    Admitted brief canonical_bytes kv setup empty_world proposal empty_ledger committed_x.0.txn
      store
commit_sound_example =
    commit_sound brief canonical_bytes kv setup empty_world proposal empty_ledger committed_x.2

abbrev frozen_store : World
frozen_store = record { kv = ("x", nat 1) ∷ ("y", nat 2) ∷ []; frozen = "y" ∷ []; epoch = 3 }

frozen_y : mem "y" frozen_store.frozen ≡ true
unfolding mem
frozen_y = refl

abbrev store4 : World
store4 = record { kv = ("x", nat 1) ∷ ("y", nat 2) ∷ []; frozen = "y" ∷ []; epoch = 4 }

applied_x : apply frozen_store set_x ≡ applied store4
unfolding apply dentatus.Airlock.KeyValue.apply_named get mem dentatus.Airlock.KeyValue.apply_key
    dentatus.Airlock.KeyValue.key_of dentatus.Airlock.KeyValue.apply_op
    dentatus.Airlock.KeyValue.set_value dentatus.Prelude.Dict.insert
applied_x = refl

apply-Keeps_example : Keeps "y" frozen_store store4
apply-Keeps_example = apply-Keeps "y" frozen_store set_x frozen_y applied_x
