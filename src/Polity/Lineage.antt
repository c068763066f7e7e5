-- ===== src/Polity/Lineage.antt =====
-- What `verify_lineage` of polity/constitution.py accepts, and that a ratified version keeps it so.
use mathlib.Core.Path.{subst}
use mathlib.Core.Option.{some-injective}
use dentatus.Prelude.{
  ℕ, zero, suc, ◌+◌, String, ◌≡◌, refl, sym, ap, ◌∙◌, none, some, List, [], ◌∷◌, ◌++◌, arith,
  length, get_elem?, ok, >>=-eq-ok,
}
use dentatus.Prelude.Eq.{string_eq}
use dentatus.Chronicle.Canonical.{state_hash, genesis}
use dentatus.Quorum.Votes.{Vote, Registry}
use dentatus.Quorum.Tally.{Certificate, tally}
use dentatus.Chronicle.Value.{str}
use dentatus.Polity.{
  Constitution, Proposal, Verdict, proposal_hash, body, sealed, next_version, conclude, ratify,
  check_record, verify_from, verify_lineage, last_of, active_ruleset,
}

-- the hash that the record at an index has to bind to, after the hash `p`
abbrev pub hash_before : String → List Constitution → ℕ → String
hash_before p chain zero = p
hash_before p [] (suc i) = p
hash_before p (c ∷ chain) (suc i) = hash_before c.constitution_hash chain i

module _ (sha256 : String → String) where
  -- What a record that passed its checks at index `i`, after the hash `p`, satisfies.
  pub record Bound (p : String) (i : ℕ) (c : Constitution) : Type 0 where
    pub addressed : c.constitution_hash ≡ state_hash sha256 (body c)
    pub linked : c.prev ≡ p
    pub contiguous : c.version ≡ i

  check_record-Bound :
      (p : String) (i : ℕ) (c : Constitution) → check_record sha256 p i c ≡ none → Bound p i c
  unfolding check_record
  check_record-Bound p i c e = record {
    addressed = ground (arith, string_eq.decides (state_hash sha256 (body c)) c.constitution_hash);
    linked = ground (arith, string_eq.decides c.prev p);
    contiguous = ground arith;
  }

  Bound-check_record :
      (p : String) (i : ℕ) (c : Constitution) → Bound p i c → check_record sha256 p i c ≡ none
  unfolding check_record
  Bound-check_record p i c b = ground (
    arith,
    b.addressed,
    b.linked,
    b.contiguous,
    string_eq.decides (state_hash sha256 (body c)) c.constitution_hash,
    string_eq.decides c.prev p,
  )

  verify_from-cons :
      (p : String) (i : ℕ) (c : Constitution) (chain : List Constitution)
      → verify_from sha256 p i (c ∷ chain) ≡ none
      → (check_record sha256 p i c ≡ none)
        × (verify_from sha256 c.constitution_hash (i + 1) chain ≡ none)
  unfolding verify_from
  verify_from-cons p i c chain e = ground arith

  cons-verify_from :
      (p : String) (i : ℕ) (c : Constitution) (chain : List Constitution)
      → check_record sha256 p i c ≡ none
      → verify_from sha256 c.constitution_hash (i + 1) chain ≡ none
      → verify_from sha256 p i (c ∷ chain) ≡ none
  unfolding verify_from
  cons-verify_from p i c chain h e = ground arith

  verify_from-Bound :
      (p : String) (n : ℕ) (chain : List Constitution) (i : ℕ) {c : Constitution}
      → verify_from sha256 p n chain ≡ none
      → get_elem? chain i ≡ some c
      → Bound (hash_before p chain i) (n + i) c
  verify_from-Bound p n [] i e m = cc
  verify_from-Bound p n (d ∷ chain) zero {c} e m =
      let b = check_record-Bound p n d (verify_from-cons p n d chain e).0 in
      subst (Bound p (n + 0)) (some-injective d c m) (record {
        addressed = b.addressed;
        linked = b.linked;
        contiguous = omega (arith, b.contiguous);
      })
  verify_from-Bound p n (d ∷ chain) (suc i) {c} e m =
      let b =
        verify_from-Bound d.constitution_hash (n + 1) chain i (verify_from-cons p n d chain e).1
          m in
      record {
        addressed = b.addressed;
        linked = b.linked;
        contiguous = omega (arith, b.contiguous);
      }

  -- In a lineage that verifies, the record at index `i` is content-addressed, carries version `i` and
  -- binds to the hash of the record before it, the first one to the genesis hash.
  pub verify_lineage-Bound :
      (chain : List Constitution) (i : ℕ) {c : Constitution}
      → verify_lineage sha256 chain ≡ none
      → get_elem? chain i ≡ some c
      → Bound (hash_before genesis chain i) i c
  unfolding verify_lineage
  verify_lineage-Bound chain i {c} e m =
      let b = verify_from-Bound genesis 0 chain i e m in
      record {
        addressed = b.addressed;
        linked = b.linked;
        contiguous = omega (arith, b.contiguous);
      }

  -- every record binds to the one before it
  verify_from-snoc :
      (p : String) (i : ℕ) (d : Constitution) (chain : List Constitution) (c : Constitution)
      → verify_from sha256 p i (d ∷ chain) ≡ none
      → Bound (last_of d chain).constitution_hash (i + 1 + length chain) c
      → verify_from sha256 p i ((d ∷ chain) ++ c ∷ []) ≡ none
  unfolding verify_from
  verify_from-snoc p i d [] c e b =
      cons-verify_from p i d (c ∷ []) (verify_from-cons p i d [] e).0 (
        cons-verify_from d.constitution_hash (i + 1) c []
          (Bound-check_record d.constitution_hash (i + 1) c (record {
            addressed = b.addressed;
            linked = b.linked;
            contiguous = omega (arith, b.contiguous);
          }))
          refl)
  verify_from-snoc p i d (x ∷ chain) c e b =
      let (h, t) = verify_from-cons p i d (x ∷ chain) e in
      cons-verify_from p i d (x ∷ chain ++ c ∷ []) h (
        verify_from-snoc d.constitution_hash (i + 1) x chain c t (record {
          addressed = b.addressed;
          linked = b.linked;
          contiguous = omega (arith, b.contiguous);
        }))

  last_version :
      (p : String) (i : ℕ) (d : Constitution) (chain : List Constitution)
      → verify_from sha256 p i (d ∷ chain) ≡ none
      → (last_of d chain).version ≡ i + length chain
  last_version p i d [] e =
      let b = check_record-Bound p i d (verify_from-cons p i d [] e).0 in
      omega (arith, b.contiguous)
  last_version p i d (x ∷ chain) e = omega (
    arith,
    last_version d.constitution_hash (i + 1) x chain (verify_from-cons p i d (x ∷ chain) e).1,
  )

  conclude-next :
      (d : Constitution) (proposal : Proposal) (k : ℕ) (cert : Certificate) {c : Constitution}
      → (conclude sha256 d proposal k cert).constitution ≡ some c
      → c ≡ next_version sha256 d proposal k cert
  unfolding conclude
  conclude-next d proposal k cert e = ground arith

  last_of-snoc :
      (d : Constitution) (chain : List Constitution) (c : Constitution)
      → last_of d (chain ++ c ∷ []) ≡ c
  last_of-snoc d [] c = refl
  last_of-snoc d (x ∷ chain) c = last_of-snoc x chain c

  next_version-Bound :
      (d : Constitution) (proposal : Proposal) (k i : ℕ) (cert : Certificate)
      → i ≡ d.version + 1
      → Bound d.constitution_hash i (next_version sha256 d proposal k cert)
  unfolding next_version sealed body
  next_version-Bound d proposal k i cert e = record {
    addressed = refl;
    linked = refl;
    contiguous = sym e;
  }

  next_version-ruleset :
      (d : Constitution) (proposal : Proposal) (k : ℕ) (cert : Certificate)
      → (next_version sha256 d proposal k cert).ruleset_hash ≡ proposal.ruleset_hash
  unfolding next_version sealed
  next_version-ruleset d proposal k cert = refl

  pub ratify-ok :
      (d : Constitution) (proposal : Proposal) (ballots : List Vote) (k : ℕ) (registry : Registry)
      {v : Verdict}
      → ratify sha256 d proposal ballots k registry ≡ ok v
      → (cert : Certificate) × (tally sha256 ballots k registry
            (str (proposal_hash sha256 proposal))
          ≡ ok cert)
        × (v ≡ conclude sha256 d proposal k cert)
  unfolding ratify
  ratify-ok d proposal ballots k registry r =
      let (cert, et, ev) =
        >>=-eq-ok (tally sha256 ballots k registry (str (proposal_hash sha256 proposal)))
          (λ cert. ok (conclude sha256 d proposal k cert)) r in
      (cert, et, cc)

  -- A lineage that verifies still verifies when the version that `ratify` mints on its last record is
  -- added, and that version's ruleset, the proposal's, is then the active one.
  pub ratify_extends :
      (d : Constitution) (chain : List Constitution) (proposal : Proposal) (ballots : List Vote)
      (k : ℕ) (registry : Registry) {v : Verdict} {c : Constitution}
      → verify_lineage sha256 (d ∷ chain) ≡ none
      → ratify sha256 (last_of d chain) proposal ballots k registry ≡ ok v
      → v.constitution ≡ some c
      → (verify_lineage sha256 ((d ∷ chain) ++ c ∷ []) ≡ none)
        × (active_ruleset ((d ∷ chain) ++ c ∷ []) ≡ ok proposal.ruleset_hash)
  unfolding verify_lineage active_ruleset
  ratify_extends d chain proposal ballots k registry {v} {c} e r m =
      let last = last_of d chain in
      let (cert, et, ev) = ratify-ok last proposal ballots k registry r in
      let minted =
        conclude-next last proposal k cert (ap (λ (w : Verdict). w.constitution) (sym ev) ∙ m) in
      let version = last_version genesis 0 d chain e in
      (
        verify_from-snoc genesis 0 d chain c e (
            subst (Bound last.constitution_hash (0 + 1 + length chain)) (sym minted) (
              next_version-Bound last proposal k (0 + 1 + length chain) cert
                (omega (arith, version)))),
        ap (λ (x : Constitution). ok x.ruleset_hash) (last_of-snoc d chain c ∙ minted)
            ∙ ap ok (next_version-ruleset last proposal k cert),
      )
