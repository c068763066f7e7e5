-- ===== src/Polity/Ratification.antt =====
-- What `ratify` of polity/constitution.py requires of the ballots.
use mathlib.Core.Path.{ap₂}
use mathlib.Core.Option.{some-injective}
use dentatus.Prelude.{
  ℕ, ◌*◌, ◌≤◌, ◌<◌, String, ◌≡◌, sym, ap, ◌∙◌, ◌&&◌, true, Option, none, some, List, arith, ok,
}
use dentatus.Prelude.Eq.{string_eq, beq_refl}
use dentatus.Quorum.Votes.{Vote, Registry, authentic_votes}
use dentatus.Quorum.Tally.{Certificate, counted_votes}
use dentatus.Quorum.Tally.Consensus.{
  support, tally-Consensus, tally_majority, certified_support, supported_certified,
  certified_support, supported_certified,
}
use dentatus.Chronicle.Value.{str}
use dentatus.Polity.{
  Constitution, Proposal, Verdict, proposal_hash, yea_hash, names, approves, conclude, ratify,
  next_version,
}
use dentatus.Polity.Lineage.{ratify-ok}

module _ (sha256 : String → String) where
  abbrev pub yeas : Proposal → List Vote → Registry → ℕ
  yeas proposal ballots registry =
      support (counted_votes (authentic_votes registry ballots))
        (yea_hash sha256 (proposal_hash sha256 proposal))

  names-eq : (h : String) (o : Option String) → names h o ≡ true → o ≡ some h
  names-eq h none e = cc
  names-eq h (some g) e = ap some ((string_eq.decides g h).0 e)

  approves-inv :
      (ph : String) (cert : Certificate)
      → approves sha256 ph cert ≡ true
      → (cert.certified ≡ true) × (cert.quorum_hash ≡ some (yea_hash sha256 ph))
  unfolding approves
  approves-inv ph cert e =
      (ground arith, names-eq (yea_hash sha256 ph) cert.quorum_hash (ground arith))

  approves-intro :
      (ph : String) (cert : Certificate)
      → cert.certified ≡ true
      → cert.quorum_hash ≡ some (yea_hash sha256 ph)
      → approves sha256 ph cert ≡ true
  unfolding approves
  approves-intro ph cert c q =
      ap₂ (λ a o. a && names (yea_hash sha256 ph) o) c q ∙ beq_refl (yea_hash sha256 ph)

  conclude-ratified :
      (d : Constitution) (proposal : Proposal) (k : ℕ) (cert : Certificate)
      → (conclude sha256 d proposal k cert).ratified
        ≡ approves sha256 (proposal_hash sha256 proposal) cert
  unfolding conclude
  conclude-ratified d proposal k cert = ground arith

  conclude-mints :
      (d : Constitution) (proposal : Proposal) (k : ℕ) (cert : Certificate)
      → approves sha256 (proposal_hash sha256 proposal) cert ≡ true
      → (conclude sha256 d proposal k cert).constitution
        ≡ some (next_version sha256 d proposal k cert)
  unfolding conclude
  conclude-mints d proposal k cert e = ground arith

  conclude-certificate :
      (d : Constitution) (proposal : Proposal) (k : ℕ) (cert : Certificate)
      → (conclude sha256 d proposal k cert).certificate ≡ cert
  unfolding conclude
  conclude-certificate d proposal k cert = ground arith

  -- A ratified proposal has the counted ballots of at least k governors for its ratification, and its
  -- verdict carries the next version.
  pub ratified_quorum :
      (d : Constitution) (proposal : Proposal) (ballots : List Vote) (k : ℕ) (registry : Registry)
      {v : Verdict}
      → ratify sha256 d proposal ballots k registry ≡ ok v
      → v.ratified ≡ true
      → (k ≤ yeas proposal ballots registry)
        × (v.constitution ≡ some (next_version sha256 d proposal k v.certificate))
  ratified_quorum d proposal ballots k registry {v} r ratified =
      let ph = proposal_hash sha256 proposal in
      let (cert, et, ev) = ratify-ok sha256 d proposal ballots k registry r in
      let agreement = tally-Consensus sha256 ballots k registry (str ph) et in
      let approved =
        sym (ap (λ (w : Verdict). w.ratified) ev ∙ conclude-ratified d proposal k cert)
        ∙ ratified in
      let same = ap (λ (w : Verdict). w.certificate) ev ∙ conclude-certificate d proposal k cert in
      let (c, q) = approves-inv ph cert approved in
      let (h, eq, all_of_them, fits) = certified_support k _ cert agreement c in
      let yea : h ≡ yea_hash sha256 ph = some-injective h _ (sym eq ∙ q) in
      (
        rw (← yea, all_of_them) fits,
        ap (λ (w : Verdict). w.constitution) ev
            ∙ conclude-mints d proposal k cert approved
            ∙ ap (λ x. some (next_version sha256 d proposal k x)) (sym same),
      )

  -- With k above half of the counted ballots, a proposal that at least k governors approve is ratified.
  pub quorum_ratifies :
      (d : Constitution) (proposal : Proposal) (ballots : List Vote) (k : ℕ) (registry : Registry)
      {v : Verdict}
      → ratify sha256 d proposal ballots k registry ≡ ok v
      → v.certificate.n < 2 * k
      → k ≤ yeas proposal ballots registry
      → v.ratified ≡ true
  quorum_ratifies d proposal ballots k registry {v} r strict enough =
      let ph = proposal_hash sha256 proposal in
      let (cert, et, ev) = ratify-ok sha256 d proposal ballots k registry r in
      let agreement = tally-Consensus sha256 ballots k registry (str ph) et in
      let same = ap (λ (w : Verdict). w.certificate) ev ∙ conclude-certificate d proposal k cert in
      ap (λ (w : Verdict). w.ratified) ev
      ∙ conclude-ratified d proposal k cert
      ∙ approves-intro ph cert (supported_certified k _ cert agreement (yea_hash sha256 ph) enough)
          (tally_majority sha256 ballots k registry (str ph) (yea_hash sha256 ph) et
            (rw (← same) strict) enough)
