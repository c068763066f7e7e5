-- ===== src/Tests/Polity.antt =====
-- polity/constitution.py with three governors and a quorum of two.
use dentatus.Prelude.{
  ℕ, ◌≤◌, ◌<◌, ◌*◌, String, ◌≡◌, refl, Bool, true, false, Option, none, some, List, [], ◌∷◌, ◌++◌,
  arith, Outcome, ok, err,
}
use dentatus.Prelude.Eq.{string_eq}
use dentatus.Chronicle.Value.{dict, end, str}
use dentatus.Chronicle.Canonical.{genesis}
use dentatus.Quorum.Votes.{Vote}
use dentatus.Quorum.Tally.{Certificate, certificate}
use dentatus.Polity.{
  Constitution, Proposal, Verdict, genesis_constitution, propose, proposal_hash, cast, conclude,
  next_version, approves, ratify, verify_lineage, active_ruleset,
}
use dentatus.Polity.Lineage.{Bound, verify_lineage-Bound, ratify_extends}
use dentatus.Polity.Ratification.{yeas, ratified_quorum, quorum_ratifies}
use dentatus.Tests.Keys.{brief, signer, registry}

abbrev first : Constitution
first = genesis_constitution brief "rules-0" (dict end)

abbrev proposal : Proposal
proposal = propose brief first "rules-1" "a" (dict end)

abbrev ballots : List Vote
ballots =
    cast brief "a" (signer "a") proposal "yea"
    ∷ cast brief "b" (signer "b") proposal "yea"
    ∷ cast brief "c" (signer "c") proposal "nay"
    ∷ []

abbrev ph : String
ph = proposal_hash brief proposal

abbrev counted : Certificate
counted = certificate brief ballots 2 registry (str ph)

abbrev verdict : Verdict
verdict = conclude brief first proposal 2 counted

ratify-ballots : ratify brief first proposal ballots 2 registry ≡ ok verdict
unfolding ratify dentatus.Quorum.Tally.tally
ratify-ballots = refl

approved : approves brief ph counted ≡ true
unfolding dentatus.Polity.approves certificate dentatus.Quorum.Tally.modal
    dentatus.Quorum.Tally.most_common dentatus.Quorum.Tally.counter dentatus.Quorum.Tally.values
    dentatus.Quorum.Tally.counted_votes dentatus.Quorum.Tally.count_votes
    dentatus.Quorum.Votes.authentic_votes dentatus.Quorum.Votes.verify_vote
    dentatus.Prelude.Dict.lookup cast dentatus.Quorum.Votes.witness_vote
    dentatus.Quorum.Votes.vote_message proposal_hash dentatus.Chronicle.Canonical.state_hash propose
    genesis_constitution dentatus.Polity.sealed dentatus.Polity.yea_hash dentatus.Polity.yea_state
    dentatus.Polity.nay_state dentatus.Quorum.Votes.ballot_hash dentatus.Polity.body
    dentatus.Quorum.Tally.mem dentatus.Prelude.Sorting.sorted dentatus.Prelude.Dict.insert
    dentatus.Quorum.Tally.add_to_set dentatus.Prelude.Dict.lookup_or
approved = refl

ratified_verdict : verdict.ratified ≡ true
unfolding conclude
ratified_verdict = rw approved refl

lineage_of_first : verify_lineage brief (first ∷ []) ≡ none
unfolding verify_lineage dentatus.Chronicle.Canonical.state_hash dentatus.Polity.body
    genesis_constitution
lineage_of_first = refl

minted : verdict.constitution ≡ some (next_version brief first proposal 2 verdict.certificate)
unfolding conclude
minted = rw approved refl

size_of_certificate : counted.n ≡ 3
unfolding dentatus.Polity.approves certificate dentatus.Quorum.Tally.modal
    dentatus.Quorum.Tally.most_common dentatus.Quorum.Tally.counter dentatus.Quorum.Tally.values
    dentatus.Quorum.Tally.counted_votes dentatus.Quorum.Tally.count_votes
    dentatus.Quorum.Votes.authentic_votes dentatus.Quorum.Votes.verify_vote
    dentatus.Prelude.Dict.lookup cast dentatus.Quorum.Votes.witness_vote
    dentatus.Quorum.Votes.vote_message proposal_hash dentatus.Chronicle.Canonical.state_hash propose
    genesis_constitution dentatus.Polity.sealed dentatus.Polity.yea_hash dentatus.Polity.yea_state
    dentatus.Polity.nay_state dentatus.Quorum.Votes.ballot_hash dentatus.Polity.body
    dentatus.Quorum.Tally.mem dentatus.Prelude.Sorting.sorted dentatus.Prelude.Dict.insert
    dentatus.Quorum.Tally.add_to_set dentatus.Prelude.Dict.lookup_or
size_of_certificate = refl

size_of_verdict : verdict.certificate.n ≡ 3
unfolding conclude
size_of_verdict = rw approved size_of_certificate

small_electorate : verdict.certificate.n < 2 * 2
small_electorate = omega (arith, size_of_verdict)

yeas_of_ballots : yeas brief proposal ballots registry ≡ 2
unfolding dentatus.Polity.approves certificate dentatus.Quorum.Tally.modal
    dentatus.Quorum.Tally.most_common dentatus.Quorum.Tally.counter dentatus.Quorum.Tally.values
    dentatus.Quorum.Tally.counted_votes dentatus.Quorum.Tally.count_votes
    dentatus.Quorum.Votes.authentic_votes dentatus.Quorum.Votes.verify_vote
    dentatus.Prelude.Dict.lookup cast dentatus.Quorum.Votes.witness_vote
    dentatus.Quorum.Votes.vote_message proposal_hash dentatus.Chronicle.Canonical.state_hash propose
    genesis_constitution dentatus.Polity.sealed dentatus.Polity.yea_hash dentatus.Polity.yea_state
    dentatus.Polity.nay_state dentatus.Quorum.Votes.ballot_hash dentatus.Polity.body
    dentatus.Quorum.Tally.mem dentatus.Prelude.Sorting.sorted dentatus.Prelude.Dict.insert
    dentatus.Quorum.Tally.add_to_set dentatus.Prelude.Dict.lookup_or
    dentatus.Quorum.Tally.Counting.count
yeas_of_ballots = refl

enough_yeas : 2 ≤ yeas brief proposal ballots registry
enough_yeas = omega (arith, yeas_of_ballots)

verify_lineage-Bound_example : Bound brief genesis 0 first
verify_lineage-Bound_example = verify_lineage-Bound brief (first ∷ []) 0 lineage_of_first refl

ratify_extends_example :
    (verify_lineage brief
        ((first ∷ []) ++ next_version brief first proposal 2 verdict.certificate ∷ [])
      ≡ none)
    × (active_ruleset ((first ∷ []) ++ next_version brief first proposal 2 verdict.certificate ∷ [])
        ≡ ok "rules-1")
unfolding propose
ratify_extends_example =
    ratify_extends brief first [] proposal ballots 2 registry lineage_of_first ratify-ballots minted

ratified_quorum_example :
    (2 ≤ yeas brief proposal ballots registry)
    × (verdict.constitution ≡ some (next_version brief first proposal 2 verdict.certificate))
ratified_quorum_example =
    ratified_quorum brief first proposal ballots 2 registry ratify-ballots ratified_verdict

quorum_ratifies_example : verdict.ratified ≡ true
quorum_ratifies_example =
    quorum_ratifies brief first proposal ballots 2 registry ratify-ballots small_electorate
      enough_yeas
