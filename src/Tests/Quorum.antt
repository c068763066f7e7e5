-- ===== src/Tests/Quorum.antt =====
-- quorum/tally.py on rounds of three pinned witnesses.
use dentatus.Prelude.{
  ℕ, ◌≤◌, ◌<◌, ◌*◌, ◌≢◌, String, ◌≡◌, refl, inl, inr, Bool, true, false, Option, none, some, List,
  [], ◌∷◌, arith, Outcome, ok, err,
}
use dentatus.Prelude.Eq.{◌≟◌, string_eq}
use dentatus.Prelude.Dict.{lookup}
use dentatus.Chronicle.Value.{Value, nat, str}
use dentatus.Quorum.Votes.{Vote, authentic_votes, witness_vote, ballot_hash}
use dentatus.Quorum.Tally.{mem, Certificate, certificate, counted_votes, tally}
use dentatus.Quorum.Tally.Consensus.{Consensus, support, tally-Consensus}
use dentatus.Quorum.Tally.Equivocation.{Signed, equivocator_excluded}
use dentatus.Tests.Keys.{same, signer, registry, apart}

abbrev round1 : Value
round1 = nat 1

abbrev vote : String → String → Vote
vote name state = witness_vote same name round1 (str state) (signer name)

-- two agree, one dissents, and a stranger votes
abbrev votes : List Vote
votes = vote "a" "s" ∷ vote "b" "t" ∷ vote "c" "s" ∷ vote "d" "t" ∷ []

abbrev twofaced : List Vote
twofaced = vote "a" "s" ∷ vote "b" "s" ∷ vote "a" "t" ∷ []

abbrev hash_of : String → String
hash_of state = ballot_hash same round1 (str state)

abbrev facts : Certificate → Bool × ℕ × ℕ × List String
facts c = (c.certified, c.agreed, c.n, c.equivocators)

facts-votes : facts (certificate same votes 2 registry round1) ≡ (true, 2, 3, [])
unfolding certificate dentatus.Quorum.Tally.modal counted_votes dentatus.Prelude.Sorting.sorted
    dentatus.Quorum.Tally.most_common dentatus.Quorum.Tally.count_votes authentic_votes
    dentatus.Quorum.Tally.counter dentatus.Quorum.Votes.verify_vote dentatus.Quorum.Tally.values
    lookup witness_vote dentatus.Quorum.Votes.vote_message ballot_hash
    dentatus.Chronicle.Canonical.state_hash mem dentatus.Prelude.Dict.insert
    dentatus.Quorum.Tally.add_to_set dentatus.Prelude.Dict.lookup_or
facts-votes = refl

facts-twofaced : facts (certificate same twofaced 2 registry round1) ≡ (false, 1, 1, "a" ∷ [])
unfolding certificate dentatus.Quorum.Tally.modal counted_votes dentatus.Prelude.Sorting.sorted
    dentatus.Quorum.Tally.most_common dentatus.Quorum.Tally.count_votes authentic_votes
    dentatus.Quorum.Tally.counter dentatus.Quorum.Votes.verify_vote dentatus.Quorum.Tally.values
    lookup witness_vote dentatus.Quorum.Votes.vote_message ballot_hash
    dentatus.Chronicle.Canonical.state_hash mem dentatus.Prelude.Dict.insert
    dentatus.Quorum.Tally.add_to_set dentatus.Prelude.Dict.lookup_or
facts-twofaced = refl

tally-votes : tally same votes 2 registry round1 ≡ ok (certificate same votes 2 registry round1)
unfolding tally
tally-votes = refl

tally-Consensus_example :
    Consensus 2
      (counted_votes (authentic_votes registry votes))
      (certificate same votes 2 registry round1)
tally-Consensus_example = tally-Consensus same votes 2 registry round1 tally-votes

size_of_certificate : (certificate same votes 2 registry round1).n ≡ 3
unfolding certificate counted_votes dentatus.Quorum.Tally.count_votes authentic_votes
    dentatus.Quorum.Votes.verify_vote lookup witness_vote dentatus.Quorum.Votes.vote_message
    ballot_hash dentatus.Chronicle.Canonical.state_hash mem dentatus.Prelude.Sorting.sorted
    dentatus.Prelude.Dict.insert dentatus.Quorum.Tally.add_to_set dentatus.Prelude.Dict.lookup_or
size_of_certificate = refl

certificate_n : (certificate same votes 2 registry round1).n < 2 * 2
certificate_n = omega (arith, size_of_certificate)

support_of_s : support (counted_votes (authentic_votes registry votes)) (hash_of "s") ≡ 2
unfolding counted_votes dentatus.Quorum.Tally.Counting.count dentatus.Quorum.Tally.values
    dentatus.Quorum.Tally.count_votes authentic_votes dentatus.Quorum.Votes.verify_vote lookup
    witness_vote dentatus.Quorum.Votes.vote_message ballot_hash
    dentatus.Chronicle.Canonical.state_hash mem dentatus.Prelude.Sorting.sorted
    dentatus.Prelude.Dict.insert dentatus.Quorum.Tally.add_to_set dentatus.Prelude.Dict.lookup_or
support_of_s = refl

support_s : 2 ≤ support (counted_votes (authentic_votes registry votes)) (hash_of "s")
support_s = omega (arith, support_of_s)

different_hashes : (hash_of "s" ≟ hash_of "t") ≡ false
unfolding ballot_hash dentatus.Chronicle.Canonical.state_hash
different_hashes = refl

hashes_differ : hash_of "s" ≢ hash_of "t"
hashes_differ = apart (hash_of "s") (hash_of "t") different_hashes

Signed-s : Signed "a" (hash_of "s") (authentic_votes registry twofaced)
unfolding authentic_votes dentatus.Quorum.Votes.verify_vote lookup witness_vote
    dentatus.Quorum.Votes.vote_message ballot_hash dentatus.Chronicle.Canonical.state_hash
Signed-s = inl (refl, refl)

Signed-t : Signed "a" (hash_of "t") (authentic_votes registry twofaced)
unfolding authentic_votes dentatus.Quorum.Votes.verify_vote lookup witness_vote
    dentatus.Quorum.Votes.vote_message ballot_hash dentatus.Chronicle.Canonical.state_hash
Signed-t = inr (inr (inl (refl, refl)))

equivocator_excluded_example :
    (mem "a" (certificate same twofaced 2 registry round1).equivocators ≡ true)
    × (lookup "a" (counted_votes (authentic_votes registry twofaced)) ≡ none)
equivocator_excluded_example =
    equivocator_excluded same twofaced 2 registry round1 "a" (hash_of "s") (hash_of "t")
      hashes_differ Signed-s Signed-t
