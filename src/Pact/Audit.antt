-- ===== src/Pact/Audit.antt =====
-- A chain that `state_receipt` starts and `cross_attest` extends audits clean.
use dentatus.Prelude.{
  ℕ, ◌+◌, String, ◌≡◌, refl, sym, ap, ◌∙◌, true, Option, none, some, List, [], ◌∷◌, ◌++◌, arith, ok,
  err, Outcome, ◌>>=◌, >>=-eq-ok,
}
use dentatus.Prelude.Eq.{string_eq, beq_refl}
use dentatus.Prelude.Dict.{Dict, lookup}
use dentatus.Chronicle.Value.{Value}
use dentatus.Chronicle.Canonical.{canonical_bytes}
use dentatus.Chronicle.Signing.{Verifier, Signer, Matches}
use dentatus.Pact.{
  first_fault, Fault, Receipt, Link, Registry, Rule, Verdict, verdict_value, state_receipt,
  check_receipt, verify_receipt, receipt_hash, start_hash, attest_unless, attest, cross_attest,
  check_rule, check_attestation, check_link, audit_from, audit_covenant,
}

-- the receipt that the next link is checked against
abbrev last_receipt : Option Receipt → List Link → Option Receipt
last_receipt prev [] = prev
last_receipt prev (x ∷ chain) = last_receipt (some x.receipt) chain

module _ (sha256 : String → String) (registry : Registry) (rules : Dict String Rule) where
  -- The signer holds the key that is pinned for the agent.
  pub record Pinned (agent : String) (signer : Signer) : Type 0 where
    pub key : Verifier
    pub found : lookup agent registry ≡ some key
    pub matches : Matches key signer

  -- The rule is the one that the audit will replay for the agent, if it replays one.
  abbrev Replayed : String → Rule → Type 0
  Replayed agent rule = (r : Rule) → lookup agent rules ≡ some r → r ≡ rule

  -- How a covenant chain comes about, with its last receipt.
  pub data Built : List Link → Receipt → Type 0 where
    start :
        (agent : String) (state : Value) (signer : Signer) (prev : Option String)
        → Pinned agent signer
        → Built
            (record { verdict = none; receipt = state_receipt sha256 agent state signer prev } ∷ [])
            (state_receipt sha256 agent state signer prev)
    extend :
        {chain : List Link} {prior : Receipt} (agent : String) (state : Value) (signer : Signer)
        (rule : Rule) (link : Link)
        → Built chain prior
        → Pinned agent signer
        → Replayed agent rule
        → cross_attest sha256 prior agent state signer rule registry ≡ ok link
        → Built (chain ++ link ∷ []) link.receipt

  check_receipt-authentic :
      (key : Verifier) (agent : String) (state : Value) (signer : Signer) (prev : Option String)
      → Matches key signer
      → check_receipt sha256 (some key) (state_receipt sha256 agent state signer prev) ≡ ok none
  unfolding check_receipt state_receipt
  check_receipt-authentic key agent state signer prev m =
      let sh = receipt_hash sha256 agent state (start_hash prev) in rw (beq_refl sh, m sh)

  receipt-authentic :
      (agent : String) (state : Value) (signer : Signer) (prev : Option String)
      → Pinned agent signer
      → verify_receipt sha256 (state_receipt sha256 agent state signer prev) registry ≡ ok none
  unfolding verify_receipt state_receipt
  receipt-authentic agent state signer prev p =
      ap (λ o. check_receipt sha256 o (state_receipt sha256 agent state signer prev)) p.found
      ∙ check_receipt-authentic p.key agent state signer prev p.matches

  attest_unless-ok :
      (why : Option String) (prior : Receipt) (agent : String) (state : Value) (signer : Signer)
      (rule : Rule) {link : Link}
      → attest_unless sha256 why prior agent state signer rule ≡ ok link
      → (rule prior.state state ≡ true) × (link ≡ attest sha256 prior agent state signer)
  unfolding attest_unless
  attest_unless-ok (some why) prior agent state signer rule e = cc
  attest_unless-ok none prior agent state signer rule e = (ground arith, ground arith)

  cross_attest-ok :
      (prior : Receipt) (agent : String) (state : Value) (signer : Signer) (rule : Rule)
      {link : Link}
      → cross_attest sha256 prior agent state signer rule registry ≡ ok link
      → (rule prior.state state ≡ true) × (link ≡ attest sha256 prior agent state signer)
  unfolding cross_attest
  cross_attest-ok prior agent state signer rule e =
      let (why, v, a) =
        >>=-eq-ok (verify_receipt sha256 prior registry)
          (λ why. attest_unless sha256 why prior agent state signer rule) e in
      attest_unless-ok why prior agent state signer rule a

  check_rule-none :
      (o : Option Rule) (i : ℕ) (prior r : Receipt) (rule : Rule)
      → o ≡ lookup r.agent rules
      → Replayed r.agent rule
      → rule prior.state r.state ≡ true
      → check_rule sha256 o i prior r ≡ none
  unfolding check_rule
  check_rule-none none i prior r rule e q h = refl
  check_rule-none (some f) i prior r rule e q h =
      let same = ap (λ (g : Rule). g prior.state r.state) (q f (sym e)) ∙ h in rw same

  check_attestation-none :
      (key : Verifier) (i : ℕ) (prior r : Receipt) (v : Verdict) (sig : String)
      → key.verify (canonical_bytes (verdict_value v)) sig ≡ ok true
      → check_rule sha256 (lookup r.agent rules) i prior r ≡ none
      → check_attestation sha256 (some key) rules i prior r v sig ≡ ok none
  unfolding check_attestation
  check_attestation-none key i prior r v sig hv hr = rw (hv, hr)

  attest-checks :
      (prior : Receipt) (i : ℕ) (agent : String) (state : Value) (signer : Signer) (rule : Rule)
      → Pinned agent signer
      → Replayed agent rule
      → rule prior.state state ≡ true
      → check_link sha256 (some prior) registry rules i (attest sha256 prior agent state signer)
        ≡ ok none
  unfolding check_link attest
  attest-checks prior i agent state signer rule p q h =
      let r = state_receipt sha256 agent state signer (some prior.state_hash) in
      rw
        (
          receipt-authentic agent state signer (some prior.state_hash) p,
          beq_refl prior.state_hash,
          beq_refl r.state_hash,
          p.found,
        )
        (check_attestation-none p.key i prior r _ _ (p.matches _)
          (unfold state_receipt in check_rule-none (lookup agent rules) i prior r rule refl q h))

  first_fault-none :
      (m rest : Outcome (Option Fault))
      → (m >>= first_fault rest) ≡ ok none
      → (m ≡ ok none) × (rest ≡ ok none)
  first_fault-none (ok none) rest e = (refl, e)
  first_fault-none (ok (some f)) rest e = cc
  first_fault-none (err why) rest e = cc

  audit_from-snoc :
      (prev : Option Receipt) (i : ℕ) (chain : List Link) (link : Link)
      → audit_from sha256 prev registry rules i chain ≡ ok none
      → ((j : ℕ) → check_link sha256 (last_receipt prev chain) registry rules j link ≡ ok none)
      → audit_from sha256 prev registry rules i (chain ++ link ∷ []) ≡ ok none
  unfolding audit_from
  audit_from-snoc prev i [] link e c = rw (c i)
  audit_from-snoc prev i (x ∷ chain) link e c =
      let (h, t) = first_fault-none (check_link sha256 prev registry rules i x) _ e in
      rw (h, audit_from-snoc (some x.receipt) (i + 1) chain link t c)

  last_receipt-snoc :
      (prev : Option Receipt) (chain : List Link) (link : Link)
      → last_receipt prev (chain ++ link ∷ []) ≡ some link.receipt
  last_receipt-snoc prev [] link = refl
  last_receipt-snoc prev (x ∷ chain) link = last_receipt-snoc (some x.receipt) chain link

  Built-last :
      {chain : List Link} {last : Receipt} → Built chain last → last_receipt none chain ≡ some last
  Built-last (start agent state signer prev p) = refl
  Built-last (extend {chain} agent state signer rule link b p q e) =
      last_receipt-snoc none chain link

  -- Every chain that comes about by `state_receipt` and then `cross_attest`, under pinned keys and
  -- the rules that the audit replays, passes `audit_covenant`.
  pub Built-audits :
      {chain : List Link} {last : Receipt}
      → Built chain last
      → audit_covenant sha256 chain registry rules ≡ ok none
  unfolding audit_covenant
  Built-audits (start agent state signer prev p) =
      unfold audit_from check_link in rw (receipt-authentic agent state signer prev p)
  Built-audits (extend {chain} {prior} agent state signer rule link b p q e) =
      let (h, a) = cross_attest-ok prior agent state signer rule e in
      audit_from-snoc none 0 chain link (Built-audits b)
        (λ j. rw (Built-last b, a) (attest-checks prior j agent state signer rule p q h))
