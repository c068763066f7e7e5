-- ===== src/Quorum/Votes.antt =====
-- The votes of quorum/tally.py and their authentication against the pinned registry.
use dentatus.Prelude.{
  String, Bool, true, false, Option, none, some, List, [], ◌∷◌, Outcome, ok, err, if◌then◌else◌,
}
use dentatus.Prelude.Eq.{string_eq}
use dentatus.Prelude.Dict.{Dict, lookup}
use dentatus.Chronicle.Value.{Value, str, dict, field, end}
use dentatus.Chronicle.Canonical.{canonical_bytes, state_hash}
use dentatus.Chronicle.Signing.{Verifier, Signer}

pub record Vote : Type 0 where
  pub witness : String
  pub round : Value
  pub state_hash : String
  pub sig : String
  pub algo : String

abbrev pub Registry : Type 0
Registry = Dict String Verifier

-- why a vote was accepted or refused
pub data Reason : Type 0 where
  authentic unknown_witness signature_invalid signature_malformed : Reason

abbrev pub protocol : Value
protocol = str "quorum/1"

unfoldable pub vote_message : String → Value → String → String
unfolding canonical_bytes
vote_message witness_id round_id h = canonical_bytes (
    dict (
      field "protocol" protocol (
        field "round" round_id
          (field "witness" (str witness_id) (field "state_hash" (str h) end)))))

module _ (sha256 : String → String) where
  -- `core.state_hash({"round": round_id, "state": state})`
  unfoldable pub ballot_hash : Value → Value → String
  ballot_hash round_id state =
      state_hash sha256 (dict (field "round" round_id (field "state" state end)))

  unfoldable pub witness_vote : String → Value → Value → Signer → Vote
  witness_vote witness_id round_id state signer =
      let sh = ballot_hash round_id state in
      record {
        witness = witness_id;
        round = round_id;
        state_hash = sh;
        sig = signer.sign (vote_message witness_id round_id sh);
        algo = signer.algo;
      }

unfoldable pub check_signature : Outcome Bool → Bool × Reason
check_signature (ok true) = (true, authentic)
check_signature (ok false) = (false, signature_invalid)
check_signature (err _) = (false, signature_malformed)

unfoldable pub verify_with : Option Verifier → Vote → Bool × Reason
unfolding check_signature
verify_with none vote = (false, unknown_witness)
verify_with (some v) vote =
    check_signature (v.verify (vote_message vote.witness vote.round vote.state_hash) vote.sig)

unfoldable pub verify_vote : Registry → Vote → Bool × Reason
unfolding verify_with
verify_vote registry vote = verify_with (lookup vote.witness registry) vote

-- the votes that count, in order
unfoldable pub authentic_votes : Registry → List Vote → List Vote
authentic_votes registry [] = []
authentic_votes registry (vote ∷ votes) =
    let rest = authentic_votes registry votes in
    if (verify_vote registry vote).0 then vote ∷ rest else rest

unfoldable pub rejected_votes : Registry → List Vote → List (String × Reason)
rejected_votes registry [] = []
rejected_votes registry (vote ∷ votes) =
    let (accepted, why) = verify_vote registry vote in
    let rest = rejected_votes registry votes in
    if accepted then rest else (vote.witness, why) ∷ rest
