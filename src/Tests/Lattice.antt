-- ===== src/Tests/Lattice.antt =====
-- quorum/lattice.py: a round that certifies, and its spine under a notary's key.
use dentatus.Prelude.{
  ℕ, String, ◌≡◌, refl, Bool, true, Option, none, some, List, [], ◌∷◌, Outcome, ok,
}
use dentatus.Prelude.Eq.{string_eq}
use dentatus.Prelude.Dict.{Dict, lookup}
use dentatus.Chronicle.Value.{nat, str}
use dentatus.Quorum.Votes.{Vote, witness_vote}
use dentatus.Quorum.Tally.{Certificate, certificate, tally}
use dentatus.Quorum.Lattice.{
  Evaluation, first_link, round_state, lattice_hash, evaluate, lateral_pass, first_uncertified,
  judge_certs, temporal_spine, spine_after,
}
use dentatus.Quorum.Lattice.Covenant.{Settled, evaluate-Settled}
use dentatus.Pact.{Receipt, Rule, state_receipt, audit_covenant}
use dentatus.Pact.Audit.{Pinned, start, Built-audits}
use dentatus.Tests.Keys.{same, signer, verifier, verifier-Matches, registry}

abbrev vote : String → String → Vote
vote name state = witness_vote same name (nat 1) (str state) (signer name)

abbrev votes : List Vote
votes = vote "a" "s" ∷ vote "b" "s" ∷ vote "c" "t" ∷ []

abbrev always : Rule
always before after = true

abbrev cert : Certificate
cert = certificate same votes 2 registry (nat 1)

abbrev receipt : Certificate → Receipt
receipt c = state_receipt same "a" (round_state c) (signer "a") none

abbrev evaluation : Certificate → Evaluation
evaluation c = record {
  certs = c ∷ [];
  spine = some (first_link (receipt c) ∷ []);
  lattice_hash = some (lattice_hash same (c ∷ []) (first_link (receipt c) ∷ []));
  fault = none;
}

pinned_notary : Pinned same registry (("a", always) ∷ []) "a" (signer "a")
unfolding lookup
pinned_notary = record { key = verifier "a"; found = refl; matches = verifier-Matches "a" }

certified : cert.certified ≡ true
unfolding certificate dentatus.Quorum.Tally.modal dentatus.Quorum.Tally.most_common
    dentatus.Quorum.Tally.counter dentatus.Quorum.Tally.values dentatus.Quorum.Tally.counted_votes
    dentatus.Quorum.Tally.count_votes dentatus.Quorum.Votes.authentic_votes
    dentatus.Quorum.Votes.verify_vote lookup witness_vote dentatus.Quorum.Votes.vote_message
    dentatus.Quorum.Votes.ballot_hash dentatus.Chronicle.Canonical.state_hash
    dentatus.Quorum.Tally.mem dentatus.Prelude.Sorting.sorted dentatus.Prelude.Dict.insert
    dentatus.Quorum.Tally.add_to_set dentatus.Prelude.Dict.lookup_or
certified = refl

audited :
    (c : Certificate)
    → audit_covenant same (first_link (receipt c) ∷ []) registry (("a", always) ∷ []) ≡ ok none
audited c =
    Built-audits same registry (("a", always) ∷ [])
      (start "a" (round_state c) (signer "a") none pinned_notary)

judged :
    (c : Certificate)
    → c.certified ≡ true
    → judge_certs same "a" (signer "a") registry always (c ∷ []) (first_uncertified (c ∷ []))
      ≡ ok (evaluation c)
unfolding judge_certs first_uncertified temporal_spine spine_after
judged c yes_ = rw (yes_, audited c) refl

evaluated :
    evaluate same "a" (signer "a") registry always ((nat 1, votes) ∷ []) 2 registry
    ≡ ok (evaluation cert)
unfolding evaluate lateral_pass tally
evaluated = judged cert certified

evaluate-Settled_example :
    Settled same "a" (signer "a") registry always pinned_notary (evaluation cert)
evaluate-Settled_example =
    evaluate-Settled same "a" (signer "a") registry always pinned_notary ((nat 1, votes) ∷ []) 2
      registry evaluated
