-- ===== src/Tests/Elenchus.antt =====
-- elenchus/interrogate.py on a Collatz step and a comparison.
use dentatus.Prelude.{
  ℕ, String, ◌≡◌, refl, ap, ◌↔◌, inl, inr, Bool, true, false, Option, none, some, List, [], ◌∷◌,
}
use dentatus.Prelude.Int.{pos}
use dentatus.Chronicle.Value.{null}
use dentatus.Elenchus.{
  num, reg, collatz, comparison, transitivity, add, arithmetic, unknown, Step, Premise, Produced,
  val, rel, Fault, produced_value, verify_trace,
}
use dentatus.Elenchus.Derivation.{Derivation}
use dentatus.Elenchus.Interrogation.{Concludes, initial, verify_trace_iff}

abbrev quoted : String → String
quoted s = s

abbrev premises : List Premise
premises = record { var = "n"; val = pos 7 } ∷ []

abbrev steps : List Step
steps =
    record { rule = collatz (reg "n") "m"; claim = produced_value (val "m" (pos 11)) }
    ∷ record {
      rule = comparison (reg "n") (reg "m") "<";
      claim = produced_value (rel (reg "n") "<" (reg "m"));
    }
    ∷ []

abbrev conclusion : Option Produced
conclusion = some (rel (reg "n") "<" (reg "m"))

accepted : verify_trace quoted premises steps conclusion ≡ some (true, none)
unfolding verify_trace dentatus.Elenchus.collatz_step dentatus.Elenchus.holds
    dentatus.Prelude.Dict.lookup dentatus.Prelude.Dict.insert
    dentatus.Chronicle.Canonical.canonical_bytes produced_value dentatus.Prelude.Int.floor_mod
    dentatus.Prelude.Int.◌-ℤ◌ dentatus.Prelude.Int.◌*ℤ◌ dentatus.Prelude.Int.floor_div
    dentatus.Prelude.Int.◌+ℤ◌
accepted = refl

-- a claim that is not the rule's output
fabricated :
    verify_trace quoted premises
      (record { rule = collatz (reg "n") "m"; claim = produced_value (val "m" (pos 10)) } ∷ [])
      none
    ≡ some (
      false,
      some (record {
        step = 0;
        rule = some "collatz";
        reason = "FABRICATED: asserted claim does not equal the rule's output";
      }),
    )
unfolding verify_trace dentatus.Prelude.Dict.lookup dentatus.Prelude.Dict.insert
    dentatus.Chronicle.Canonical.canonical_bytes produced_value dentatus.Prelude.Int.floor_mod
    dentatus.Prelude.Int.◌-ℤ◌ dentatus.Prelude.Int.◌*ℤ◌ dentatus.Prelude.Int.floor_div
    dentatus.Prelude.Int.◌+ℤ◌
fabricated = refl

-- a register that no step has set
gap :
    verify_trace quoted premises
      (record { rule = arithmetic add (reg "n") (reg "k") "s"; claim = null } ∷ [])
      none
    ≡ some (
      false,
      some (record { step = 0; rule = some "add"; reason = "GAP: add operand not established" }),
    )
unfolding verify_trace dentatus.Prelude.Dict.lookup dentatus.Prelude.Dict.insert
gap = refl

incomplete :
    verify_trace quoted premises [] conclusion
    ≡ some (
      false,
      some (record {
        step = 0;
        rule = none;
        reason = "INCOMPLETE: declared conclusion not derived";
      }),
    )
unfolding verify_trace
incomplete = refl

verify_trace_iff_example :
    ((r : Bool × Option Fault) × (verify_trace quoted premises steps conclusion ≡ some r))
    × ((verify_trace quoted premises steps conclusion ≡ some (true, none)) ↔ (
        (f : dentatus.Elenchus.Facts) × Derivation (initial premises) steps f
        × Concludes f conclusion))
verify_trace_iff_example = verify_trace_iff quoted premises steps conclusion
