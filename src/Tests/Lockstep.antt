-- ===== src/Tests/Lockstep.antt =====
-- lockstep/tick.py and lockstep/rollback.py on a state that is its last input.
use dentatus.Prelude.{◌≡◌, refl, ap, not, some, List, [], ◌∷◌}
use dentatus.Prelude.Eq.{◌≟◌, string_eq}
use dentatus.Chronicle.Value.{Value, nat, str}
use dentatus.Chronicle.Canonical.{canonical_bytes}
use dentatus.Lockstep.{from_inputs, last_hash, merged, reconcile, first_input_divergence, tick}
use dentatus.Lockstep.Rollback.{reconcile-Tells}
use dentatus.Tests.Keys.{same}

abbrev keep_input : Value → Value → Value
keep_input state inp = str (canonical_bytes inp)

keep_input-respects :
    (s a b : Value) → canonical_bytes a ≡ canonical_bytes b → keep_input s a ≡ keep_input s b
keep_input-respects s a b e = ap str e

abbrev predicted : List Value
predicted = nat 1 ∷ nat 2 ∷ nat 3 ∷ []

abbrev affirmed : List Value
affirmed = nat 1 ∷ nat 5 ∷ []

first_input_divergence1 : first_input_divergence predicted affirmed ≡ some 1
unfolding first_input_divergence canonical_bytes
first_input_divergence1 = refl

tick3 : tick (from_inputs same keep_input (nat 0) predicted) ≡ 3
unfolding from_inputs
tick3 = refl

reconcile-Tells_example :
    (reconcile same keep_input (from_inputs same keep_input (nat 0) predicted) affirmed).changed
    ≡ not (
        last_hash (from_inputs same keep_input (nat 0) (merged same keep_input predicted affirmed))
        ≟ last_hash (from_inputs same keep_input (nat 0) predicted))
reconcile-Tells_example =
    reconcile-Tells same keep_input keep_input-respects (nat 0) predicted affirmed
