-- ===== src/Tests/Chronicle.antt =====
-- chronicle/core.py and chronicle/court.py: a decision is recorded and replayed; another rule is noticed.
use dentatus.Prelude.{◌≡◌, refl, Bool, true, none, List, [], ◌∷◌, ok}
use dentatus.Prelude.Eq.{string_eq}
use dentatus.Chronicle.Value.{Value, nat, list, cons, nil}
use dentatus.Chronicle.Canonical.{genesis}
use dentatus.Chronicle.Recorder.{Recorder, Receipt, new_recorder, next_frame, seal, record_decision}
use dentatus.Chronicle.Court.{Fault, fault, verify_chain}
use dentatus.Chronicle.Court.Replay.{
  Reproduced, Recorded, opened, recorded, verify_chain-Reproduced, Recorded-verify_chain,
}
use dentatus.Tests.Keys.{brief, signer, verifier, verifier-Matches}

abbrev logic : Value → Value
logic v = list (cons v (cons v nil))

abbrev lawful : Value → Value → Bool
lawful inputs outputs = true

abbrev empty_recorder : Recorder
empty_recorder = new_recorder (signer "a") "rules" none none none

abbrev receipt : Receipt
receipt = seal brief empty_recorder (next_frame brief empty_recorder "d0" (nat 7) (logic (nat 7)))

abbrev ledger : List Receipt
ledger = receipt ∷ []

abbrev recorder1 : Recorder
recorder1 = record empty_recorder { prev = receipt.committed_hash; seq = 1 }

record-first :
    record_decision brief empty_recorder "d0" (nat 7) (logic (nat 7)) lawful
    ≡ ok (receipt, recorder1)
unfolding record_decision new_recorder
record-first = refl

Recorded-first : Recorded brief "rules" logic lawful (verifier "a") (signer "a") ledger recorder1
Recorded-first = recorded "d0" (nat 7) receipt recorder1 opened record-first

Recorded-verify_chain_example :
    verify_chain brief "rules" logic lawful (verifier "a") ledger ≡ ok none
Recorded-verify_chain_example =
    Recorded-verify_chain brief "rules" logic lawful (verifier "a") (signer "a")
      (verifier-Matches "a") Recorded-first

accepted : verify_chain brief "rules" logic lawful (verifier "a") ledger ≡ ok none
unfolding verify_chain seal next_frame new_recorder dentatus.Chronicle.Canonical.canonical_bytes
    dentatus.Chronicle.Court.committed_again dentatus.Chronicle.Canonical.hash_pair
    dentatus.Chronicle.Canonical.state_hash dentatus.Chronicle.Recorder.frame_value
accepted = refl

verify_chain_other_rule :
    verify_chain brief "other" logic lawful (verifier "a") ledger
    ≡ ok (fault "RULESET changed (logic differs from what was recorded)" 0)
unfolding verify_chain seal next_frame new_recorder
verify_chain_other_rule = refl

verify_chain-Reproduced_example :
    Reproduced brief "rules" logic lawful (verifier "a") genesis 0 receipt
verify_chain-Reproduced_example =
    verify_chain-Reproduced brief "rules" logic lawful (verifier "a") ledger 0 accepted refl
