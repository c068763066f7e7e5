-- ===== src/Quorum/Lattice.antt =====
-- quorum/lattice.py: the certificates of successive rounds, bound into a covenant chain of pact.
pub mod Covenant
use dentatus.Prelude.{
  ℕ, String, Bool, true, false, not, Option, none, some, List, [], ◌∷◌, ◌++◌, Outcome, ok, err,
  ◌>>=◌, if◌then◌else◌,
}
use dentatus.Prelude.Dict.{Dict}
use dentatus.Chronicle.Value.{Value, Values, nil, cons, str, nat, opt_str, list, dict, field, end}
use dentatus.Chronicle.Canonical.{state_hash}
use dentatus.Chronicle.Signing.{Signer}
use dentatus.Quorum.Votes.{Vote, Registry}
use dentatus.Quorum.Tally.{Certificate, tally}
use dentatus.Pact.{
  Receipt, Link, Rule, Fault as PactFault, state_receipt, verify_receipt, attest_unless,
  audit_covenant,
}

unfoldable pub round_state : Certificate → Value
round_state cert = dict (
    field "round" cert.round (
      field "quorum_hash" (opt_str cert.quorum_hash)
        (field "agreed" (nat cert.agreed) (field "n" (nat cert.n) end))))

abbrev cert_hashes : List Certificate → Values
cert_hashes [] = nil
cert_hashes (c ∷ cs) = cons (str c.cert_hash) (cert_hashes cs)

abbrev receipt_hashes : List Link → Values
receipt_hashes [] = nil
receipt_hashes (l ∷ ls) = cons (str l.receipt.state_hash) (receipt_hashes ls)

abbrev pub first_link : Receipt → Link
first_link r = record { verdict = none; receipt = r }

-- the fault of a verdict, by its axis
pub data Fault : Type 0 where
  lateral : Certificate → Fault
  temporal : String → Fault
  covenant : PactFault → Fault

pub record Evaluation : Type 0 where
  pub certs : List Certificate
  pub spine : Option (List Link)
  pub lattice_hash : Option String
  pub fault : Option Fault

unfoldable pub first_uncertified : List Certificate → Option Certificate
first_uncertified [] = none
first_uncertified (c ∷ cs) =
    let rest = first_uncertified cs in if not c.certified then some c else rest

-- a spine, or the reason of the `LatticeBreach` or `CovenantBreach` that ends it
pub data Spine : Type 0 where
  breach : String → Spine
  links : List Link → Spine

abbrev pub extend : Link → Spine → Spine
extend link (breach reason) = breach reason
extend link (links ls) = links (link ∷ ls)

abbrev pub bind_next : Outcome Link → (Link → Outcome Spine) → Outcome Spine
bind_next (err reason) next = ok (breach reason)
bind_next (ok link) next = next link >>= λ s. ok (extend link s)

module _ (sha256 : String → String) where
  -- the rounds, each with its votes
  unfoldable pub lateral_pass : List (Value × List Vote) → ℕ → Registry → Outcome (List Certificate)
  lateral_pass [] k registry = ok []
  lateral_pass ((rid, votes) ∷ rounds) k registry = tally sha256 votes k registry rid >>= λ c.
      lateral_pass rounds k registry >>= λ cs. ok (c ∷ cs)

  unfoldable pub lattice_hash : List Certificate → List Link → String
  lattice_hash certs spine = state_hash sha256 (
      dict (
        field "protocol" (str "quorum-lattice/1") (
          field "lateral" (list (cert_hashes certs))
            (field "temporal" (list (receipt_hashes spine)) end))))

  module _ (notary_id : String) (notary_signer : Signer) (pact_registry : Registry)
      (temporal_invariant : Rule) where
    -- the links after `prior`: `cross_attest` for each, whose breach ends the spine; an error is what a
    -- verifier raised. The text of the breach leaves out the round and its count.
    unfoldable pub spine_after : Receipt → List Certificate → Outcome Spine
    unfolding round_state
    spine_after prior [] = ok (links [])
    spine_after prior (cert ∷ certs) =
        if not cert.certified
        then ok (breach "round did not reach quorum; cannot bind to spine")
        else (verify_receipt sha256 prior pact_registry >>= λ why.
            bind_next
              (attest_unless sha256 why prior notary_id (round_state cert) notary_signer
                temporal_invariant)
              (λ link. spine_after link.receipt certs))

    unfoldable pub temporal_spine : List Certificate → Outcome Spine
    unfolding spine_after
    temporal_spine [] = ok (links [])
    temporal_spine (cert ∷ certs) =
        if not cert.certified
        then ok (breach "round did not reach quorum; cannot bind to spine")
        else (let r = state_receipt sha256 notary_id (round_state cert) notary_signer none in
            spine_after r certs >>= λ s. ok (extend (first_link r) s))

    abbrev pub verdict_of :
        List Certificate → List Link → Outcome (Option PactFault) → Outcome Evaluation
    verdict_of certs spine (err e) = err e
    verdict_of certs spine (ok (some f)) = ok (record {
      certs = certs;
      spine = some spine;
      lattice_hash = none;
      fault = some (covenant f);
    })
    verdict_of certs spine (ok none) = ok (record {
      certs = certs;
      spine = some spine;
      lattice_hash = some (lattice_hash certs spine);
      fault = none;
    })

    abbrev pub bound : List Certificate → Spine → Outcome Evaluation
    bound certs (breach reason) = ok (record {
      certs = certs;
      spine = none;
      lattice_hash = none;
      fault = some (temporal reason);
    })
    bound certs (links spine) =
        verdict_of certs spine
          (audit_covenant sha256 spine pact_registry ((notary_id, temporal_invariant) ∷ []))

    unfoldable pub judge_certs : List Certificate → Option Certificate → Outcome Evaluation
    unfolding temporal_spine
    judge_certs certs (some c) =
        ok (record { certs = certs; spine = none; lattice_hash = none; fault = some (lateral c) })
    judge_certs certs none = temporal_spine certs >>= bound certs

    unfoldable pub evaluate : List (Value × List Vote) → ℕ → Registry → Outcome Evaluation
    unfolding judge_certs
    evaluate rounds k registry =
        lateral_pass rounds k registry >>= λ certs. judge_certs certs (first_uncertified certs)
