-- ===== src/Polity.antt =====
-- polity/constitution.py: a ruleset version is replaced only by a ratified proposal, and every
-- version binds to the one before it.
pub mod Lineage
pub mod Ratification
use dentatus.Prelude.{
  ℕ, ◌+◌, String, Bool, true, false, not, ◌&&◌, Option, none, some, List, [], ◌∷◌, Outcome, ok, err,
  ◌>>=◌, ◌==◌, if◌then◌else◌,
}
use dentatus.Prelude.Eq.{◌≟◌, string_eq}
use dentatus.Chronicle.Value.{Value, null, str, nat, opt_str, dict, field, end}
use dentatus.Chronicle.Canonical.{◌^^◌, show_nat, state_hash, genesis}
use dentatus.Chronicle.Signing.{Signer}
use dentatus.Quorum.Votes.{Vote, Registry, ballot_hash, witness_vote}
use dentatus.Quorum.Tally.{Certificate, tally}

pub record Outcomes : Type 0 where
  pub agreed : ℕ
  pub n : ℕ
  pub k : ℕ
  pub cert_hash : String

pub record Constitution : Type 0 where
  pub protocol : String
  pub version : ℕ
  pub prev : String
  pub ruleset_hash : String
  pub proposal_hash : Option String
  pub vote : Option Outcomes
  pub meta : Value
  pub constitution_hash : String

pub record Proposal : Type 0 where
  pub protocol : String
  pub prev : String
  pub ruleset_hash : String
  pub proposer : String
  pub meta : Value

abbrev vote_value : Option Outcomes → Value
vote_value none = null
vote_value (some v) = dict (
    field "agreed" (nat v.agreed)
      (field "n" (nat v.n) (field "k" (nat v.k) (field "cert_hash" (str v.cert_hash) end))))

-- every key of the record but `constitution_hash`
unfoldable pub body : Constitution → Value
body c = dict (
    field "protocol" (str c.protocol) (
      field "version" (nat c.version) (
        field "prev" (str c.prev) (
          field "ruleset_hash" (str c.ruleset_hash) (
            field "proposal_hash" (opt_str c.proposal_hash)
              (field "vote" (vote_value c.vote) (field "meta" c.meta end)))))))

pub record Verdict : Type 0 where
  pub ratified : Bool
  pub constitution : Option Constitution
  pub certificate : Certificate
  pub reason : Option String

pub record Fault : Type 0 where
  pub version : ℕ
  pub reason : String

abbrev pub names : String → Option String → Bool
names h none = false
names h (some g) = g ≟ h

module _ (sha256 : String → String) where
  -- the record with its content address
  unfoldable pub sealed : Constitution → Constitution
  sealed c = record c { constitution_hash = state_hash sha256 (body c) }

  unfoldable pub genesis_constitution : String → Value → Constitution
  unfolding sealed
  genesis_constitution ruleset_hash meta = sealed (record {
    protocol = "polity/1";
    version = 0;
    prev = genesis;
    ruleset_hash = ruleset_hash;
    proposal_hash = none;
    vote = none;
    meta = meta;
    constitution_hash = "";
  })

  unfoldable pub propose : Constitution → String → String → Value → Proposal
  propose prev_constitution new_ruleset_hash proposer_id meta = record {
    protocol = "polity/1";
    prev = prev_constitution.constitution_hash;
    ruleset_hash = new_ruleset_hash;
    proposer = proposer_id;
    meta = meta;
  }

  unfoldable pub proposal_hash : Proposal → String
  proposal_hash p = state_hash sha256 (
      dict (
        field "protocol" (str p.protocol) (
          field "prev" (str p.prev) (
            field "ruleset_hash" (str p.ruleset_hash)
              (field "proposer" (str p.proposer) (field "meta" p.meta end))))))

  unfoldable pub yea_state : String → Value
  yea_state ph = dict (field "vote" (str "ratify") (field "proposal" (str ph) end))

  unfoldable pub nay_state : String → Value
  nay_state ph = dict (field "vote" (str "reject") (field "proposal" (str ph) end))

  unfoldable pub yea_hash : String → String
  yea_hash ph = ballot_hash sha256 (str ph) (yea_state ph)

  unfoldable pub cast : String → Signer → Proposal → String → Vote
  cast governor_id signer proposal decision =
      let ph = proposal_hash proposal in
      witness_vote sha256 governor_id (str ph)
        (if decision ≟ "yea" then yea_state ph else nay_state ph) signer

  -- `cert["certified"] and cert["quorum_hash"] == _yea_hash(ph)`
  unfoldable pub approves : String → Certificate → Bool
  approves ph cert = cert.certified && names (yea_hash ph) cert.quorum_hash

  unfoldable pub next_version : Constitution → Proposal → ℕ → Certificate → Constitution
  unfolding sealed
  next_version prev_constitution proposal k cert = sealed (record {
    protocol = "polity/1";
    version = prev_constitution.version + 1;
    prev = prev_constitution.constitution_hash;
    ruleset_hash = proposal.ruleset_hash;
    proposal_hash = some (proposal_hash proposal);
    vote = some (record { agreed = cert.agreed; n = cert.n; k = k; cert_hash = cert.cert_hash });
    meta = proposal.meta;
    constitution_hash = "";
  })

  unfoldable pub shortfall : ℕ → Certificate → String
  shortfall k cert =
      "ratify quorum not reached (agreed "
      ^^ show_nat cert.agreed
      ^^ " of "
      ^^ show_nat cert.n
      ^^ ", k="
      ^^ show_nat k
      ^^ ")"

  -- a key that the returned dict lacks is `none`
  unfoldable pub conclude : Constitution → Proposal → ℕ → Certificate → Verdict
  conclude prev_constitution proposal k cert =
      if approves (proposal_hash proposal) cert
      then record {
        ratified = true;
        constitution = some (next_version prev_constitution proposal k cert);
        certificate = cert;
        reason = none;
      }
      else record {
        ratified = false;
        constitution = none;
        certificate = cert;
        reason = some (shortfall k cert);
      }

  unfoldable pub ratify : Constitution → Proposal → List Vote → ℕ → Registry → Outcome Verdict
  ratify prev_constitution proposal ballots k registry =
      tally sha256 ballots k registry (str (proposal_hash proposal)) >>= λ cert.
      ok (conclude prev_constitution proposal k cert)

  -- the checks of one record, at index `i` after the record whose hash is `prev_hash`
  unfoldable pub check_record : String → ℕ → Constitution → Option Fault
  check_record prev_hash i c =
      if not (state_hash sha256 (body c) ≟ c.constitution_hash)
      then some (record { version = c.version; reason = "tampered (constitution_hash mismatch)" })
      else if not (c.prev ≟ prev_hash)
      then some (record {
        version = c.version;
        reason = "lineage broken (prev != prior constitution_hash)";
      })
      else if not (c.version == i)
      then some (record { version = c.version; reason = "version index not contiguous" })
      else none

  unfoldable pub verify_from : String → ℕ → List Constitution → Option Fault
  unfolding check_record
  verify_from prev_hash i [] = none
  verify_from prev_hash i (c ∷ chain) =
      let rest = verify_from c.constitution_hash (i + 1) chain in
      elim (check_record prev_hash i c) [ some fault ↦ some fault | none ↦ rest ]

  -- `none` is the verdict `(True, None)`
  unfoldable pub verify_lineage : List Constitution → Option Fault
  unfolding verify_from
  verify_lineage chain = verify_from genesis 0 chain

abbrev pub last_of : Constitution → List Constitution → Constitution
last_of c [] = c
last_of c (d ∷ chain) = last_of d chain

-- `chain[-1]["ruleset_hash"]`
unfoldable pub active_ruleset : List Constitution → Outcome String
active_ruleset [] = err "list index out of range"
active_ruleset (c ∷ chain) = ok (last_of c chain).ruleset_hash
