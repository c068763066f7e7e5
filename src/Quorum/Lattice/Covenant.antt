-- ===== src/Quorum/Lattice/Covenant.antt =====
-- A spine that is bound passes the covenant's audit, so a lattice fails for a round or a breach alone.
use mathlib.Core.Path.{subst}
use dentatus.Prelude.{
  ℕ, String, ◌≡◌, refl, sym, ap, ◌∙◌, ◌⊎◌, inl, inr, Bool, true, false, not, Option, none, some,
  List, [], ◌∷◌, ◌++◌, Outcome, ok, err, ◌>>=◌, >>=-eq-ok, if◌then◌else◌,
}
use mathlib.Core.Option.{some-injective}
use dentatus.Prelude.Eq.{◌≟◌, string_eq, beq_refl}
use dentatus.Prelude.Dict.{Dict, lookup}
use dentatus.Chronicle.Value.{Value}
use dentatus.Chronicle.Signing.{Signer}
use dentatus.Quorum.Votes.{Vote, Registry}
use dentatus.Quorum.Tally.{Certificate}
use dentatus.Pact.{
  Receipt, Link, Rule, state_receipt, verify_receipt, attest_unless, cross_attest, audit_covenant,
  audit_from,
}
use dentatus.Pact.Audit.{Built, Pinned, Built-audits}
use dentatus.Quorum.Lattice.{
  lateral, temporal, Evaluation, Spine, breach, links, extend, bind_next, first_link, round_state,
  spine_after, temporal_spine, bound, verdict_of, judge_certs, evaluate, lateral_pass,
  first_uncertified, lattice_hash,
}

module _ (sha256 : String → String) (notary_id : String) (notary_signer : Signer)
    (registry : Registry) (invariant : Rule)
    (pinned : Pinned sha256 registry ((notary_id, invariant) ∷ []) notary_id notary_signer) where
  abbrev rules : Dict String Rule
  rules = (notary_id, invariant) ∷ []

  -- the whole chain comes about by receipts and attestations
  abbrev Binds : List Link → Spine → Type 0
  Binds chain (breach reason) = Unit
  Binds chain (links ls) = (last : Receipt) × Built sha256 registry rules (chain ++ ls) last

  append_nil : (chain : List Link) → chain ++ [] ≡ chain
  append_nil [] = refl
  append_nil (l ∷ chain) = ap (λ ls. l ∷ ls) (append_nil chain)

  append_shift :
      (chain : List Link) (l : Link) (ls : List Link) → (chain ++ l ∷ []) ++ ls ≡ chain ++ l ∷ ls
  append_shift [] l ls = refl
  append_shift (k ∷ chain) l ls = ap (λ x. k ∷ x) (append_shift chain l ls)

  same_rule : (r : Rule) → lookup notary_id rules ≡ some r → r ≡ invariant
  unfolding lookup
  same_rule r e =
      let hit : (notary_id ≟ notary_id) ≡ true = beq_refl notary_id in
      sym (some-injective invariant r (sym (rw hit refl) ∙ e))

  extend-Binds :
      (chain : List Link) (link : Link) (s : Spine)
      → Binds (chain ++ link ∷ []) s
      → Binds chain (extend link s)
  extend-Binds chain link (breach reason) b = tt
  extend-Binds chain link (links ls) (last, b) =
      (last, subst (λ c. Built sha256 registry rules c last) (append_shift chain link ls) b)

  returned : {s t : Spine} → ok s ≡ ok t → s ≡ t
  returned e = cc

  evaluated : {d e : Evaluation} → ok d ≡ ok e → d ≡ e
  evaluated h = cc

  unless_breach :
      (P : Spine → Type 0) (b : Bool) (reason : String) (next : Outcome Spine) {s : Spine}
      → P (breach reason)
      → (if not b then ok (breach reason) else next) ≡ ok s
      → (next ≡ ok s → P s)
      → P s
  unless_breach P true reason next p e h = h e
  unless_breach P false reason next p e h = subst P (returned e) p

  -- what a link leads to, given what its receipt leads to
  bind_next-Binds :
      (chain : List Link) (prior : Receipt) (state : Value) (o : Outcome Link)
      (next : Link → Outcome Spine) {s : Spine}
      → Built sha256 registry rules chain prior
      → cross_attest sha256 prior notary_id state notary_signer invariant registry ≡ o
      → ((link : Link) (t : Spine)
          → Built sha256 registry rules (chain ++ link ∷ []) link.receipt
          → next link ≡ ok t
          → Binds (chain ++ link ∷ []) t)
      → bind_next o next ≡ ok s
      → Binds chain s
  bind_next-Binds chain prior state (err reason) next b c h e = subst (Binds chain) (returned e) tt
  bind_next-Binds chain prior state (ok link) next b c h e =
      let (t, went, q) = >>=-eq-ok (next link) _ e in
      let built = Built.extend notary_id state notary_signer invariant link b pinned same_rule c in
      subst (Binds chain) (returned q) (extend-Binds chain link t (h link t built went))

  spine_after-Binds :
      (chain : List Link) (prior : Receipt) (certs : List Certificate) {s : Spine}
      → Built sha256 registry rules chain prior
      → spine_after sha256 notary_id notary_signer registry invariant prior certs ≡ ok s
      → Binds chain s
  unfolding spine_after cross_attest
  spine_after-Binds chain prior [] b e =
      subst (Binds chain) (returned e)
        (prior, subst (λ c. Built sha256 registry rules c prior) (sym (append_nil chain)) b)
  spine_after-Binds chain prior (cert ∷ certs) b e =
      unless_breach (Binds chain) cert.certified _ _ tt e (λ e1.
        let (why, v, a) = >>=-eq-ok (verify_receipt sha256 prior registry) _ e1 in
        bind_next-Binds chain prior (round_state cert) _ _ b
          (ap
            (λ m. m >>= λ why.
              attest_unless sha256 why prior notary_id (round_state cert) notary_signer invariant)
            v)
          (λ link t built went.
            spine_after-Binds (chain ++ link ∷ []) link.receipt certs built went)
          a)

  -- A breach, or a chain that passes the audit.
  abbrev Audits : Spine → Type 0
  Audits (breach reason) = Unit
  Audits (links ls) = audit_covenant sha256 ls registry rules ≡ ok none

  extend-Audits :
      (r : Receipt) (s : Spine) → Binds (first_link r ∷ []) s → Audits (extend (first_link r) s)
  extend-Audits r (breach reason) b = tt
  extend-Audits r (links ls) (last, b) = Built-audits sha256 registry rules b

  temporal_spine-Audits :
      (certs : List Certificate) {s : Spine}
      → temporal_spine sha256 notary_id notary_signer registry invariant certs ≡ ok s
      → Audits s
  unfolding temporal_spine
  temporal_spine-Audits [] e = subst Audits (returned e) (unfold audit_covenant audit_from in refl)
  temporal_spine-Audits (cert ∷ certs) e = unless_breach Audits cert.certified _ _ tt e (λ e1.
      let r = state_receipt sha256 notary_id (round_state cert) notary_signer none in
      let (t, went, q) =
        >>=-eq-ok (spine_after sha256 notary_id notary_signer registry invariant r certs) _ e1 in
      subst Audits (returned q) (
        extend-Audits r t (
          spine_after-Binds (first_link r ∷ []) r certs
            (Built.start notary_id (round_state cert) notary_signer none pinned) went)))

  -- Every round is certified, and their spine passes the audit and is addressed by the lattice's hash.
  pub record Sound (e : Evaluation) : Type 0 where
    pub faultless : e.fault ≡ none
    pub all_certified : first_uncertified e.certs ≡ none
    pub chain : List Link
    pub spine : e.spine ≡ some chain
    pub audited : audit_covenant sha256 chain registry rules ≡ ok none
    pub addressed : e.lattice_hash ≡ some (lattice_hash sha256 e.certs chain)

  abbrev pub Settled : Evaluation → Type 0
  Settled e =
      Sound e
      ⊎ ((c : Certificate) × (first_uncertified e.certs ≡ some c) × (e.fault ≡ some (lateral c)))
      ⊎ ((reason : String) × (first_uncertified e.certs ≡ none)
          × (e.fault ≡ some (temporal reason)))

  bound-Settled :
      (certs : List Certificate) (s : Spine) {e : Evaluation}
      → first_uncertified certs ≡ none
      → Audits s
      → bound sha256 notary_id notary_signer registry invariant certs s ≡ ok e
      → Settled e
  bound-Settled certs (breach reason) {e} c a h =
      subst Settled (evaluated h) (inr (inr (reason, c, refl)))
  bound-Settled certs (links ls) {e} c a h =
      let audited =
        ap (verdict_of sha256 notary_id notary_signer registry invariant certs ls) (sym a) ∙ h in
      subst Settled (evaluated audited) (
        inl (record {
          faultless = refl;
          all_certified = c;
          chain = ls;
          spine = refl;
          audited = a;
          addressed = refl;
        }))

  judge_certs-Settled :
      (certs : List Certificate) (o : Option Certificate) {e : Evaluation}
      → first_uncertified certs ≡ o
      → judge_certs sha256 notary_id notary_signer registry invariant certs o ≡ ok e
      → Settled e
  unfolding judge_certs
  judge_certs-Settled certs (some c) u h = subst Settled (evaluated h) (inr (inl (c, u, refl)))
  judge_certs-Settled certs none u h =
      let (s, t, b) =
        >>=-eq-ok (temporal_spine sha256 notary_id notary_signer registry invariant certs) _ h in
      bound-Settled certs s u (temporal_spine-Audits certs t) b

  -- With the notary's key pinned and matching, an evaluation has three outcomes: it is sound; or the first
  -- round that is not certified is its fault; or binding a round to the spine is refused. The audit of
  -- a spine that was bound never finds a fault.
  pub evaluate-Settled :
      (rounds : List (Value × List Vote)) (k : ℕ) (voters : Registry) {e : Evaluation}
      → evaluate sha256 notary_id notary_signer registry invariant rounds k voters ≡ ok e
      → Settled e
  unfolding evaluate
  evaluate-Settled rounds k voters h =
      let (certs, p, j) = >>=-eq-ok (lateral_pass sha256 rounds k voters) _ h in
      judge_certs-Settled certs (first_uncertified certs) refl j
