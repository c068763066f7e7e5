-- ===== src/Tests/Pact.antt =====
-- pact/covenant.py: a receipt, and the receipt of the next agent that attests it.
use dentatus.Prelude.{String, ◌≡◌, refl, true, none, some, [], ◌∷◌, ok}
use dentatus.Prelude.Eq.{string_eq}
use dentatus.Prelude.Dict.{Dict, lookup}
use dentatus.Chronicle.Value.{nat}
use dentatus.Pact.{Receipt, Link, Rule, state_receipt, attest, cross_attest, audit_covenant}
use dentatus.Pact.Audit.{Built, start, extend, Pinned, Built-audits}
use dentatus.Tests.Keys.{same, signer, verifier, verifier-Matches, registry}

abbrev rule : Rule
rule before after = true

abbrev rules : Dict String Rule
rules = ("b", rule) ∷ []

abbrev receipt : Receipt
receipt = state_receipt same "a" (nat 1) (signer "a") none

abbrev link : Link
link = attest same receipt "b" (nat 2) (signer "b")

attested : cross_attest same receipt "b" (nat 2) (signer "b") rule registry ≡ ok link
unfolding cross_attest dentatus.Pact.verify_receipt dentatus.Pact.check_receipt lookup state_receipt
    dentatus.Pact.receipt_hash dentatus.Chronicle.Canonical.state_hash
attested = refl

Pinned-a : Pinned same registry rules "a" (signer "a")
unfolding lookup
Pinned-a = record { key = verifier "a"; found = refl; matches = verifier-Matches "a" }

Pinned-b : Pinned same registry rules "b" (signer "b")
unfolding lookup
Pinned-b = record { key = verifier "b"; found = refl; matches = verifier-Matches "b" }

replayed_b : (r : Rule) → lookup "b" rules ≡ some r → r ≡ rule
unfolding lookup
replayed_b r e = cc

chain :
    Built same registry rules
      (record { verdict = none; receipt = receipt } ∷ link ∷ [])
      link.receipt
chain =
    extend "b" (nat 2) (signer "b") rule link (start "a" (nat 1) (signer "a") none Pinned-a)
      Pinned-b replayed_b attested

Built-audits_example :
    audit_covenant same (record { verdict = none; receipt = receipt } ∷ link ∷ []) registry rules
    ≡ ok none
Built-audits_example = Built-audits same registry rules chain
