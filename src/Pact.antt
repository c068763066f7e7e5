-- ===== src/Pact.antt =====
-- pact/covenant.py: receipts signed under pinned keys, and cross-attestations that bind each agent's
-- state to the hash of the one before it.
pub mod Audit
use dentatus.Prelude.{
  ℕ, ◌+◌, String, Bool, true, false, not, ◌||◌, Option, none, some, List, [], ◌∷◌, Outcome, ok, err,
  ◌>>=◌, if◌then◌else◌,
}
use dentatus.Prelude.Eq.{◌≟◌, string_eq}
use dentatus.Prelude.Dict.{Dict, lookup}
use dentatus.Chronicle.Value.{Value, str, dict, field, end}
use dentatus.Chronicle.Canonical.{canonical_bytes, state_hash, genesis}
use dentatus.Chronicle.Signing.{Verifier, Signer}

pub record Receipt : Type 0 where
  pub agent : String
  pub state : Value
  pub prev : String
  pub state_hash : String
  pub signature : String

pub record Verdict : Type 0 where
  pub sender : String
  pub from_hash : String
  pub to : String
  pub to_hash : String

-- the first link of a chain has a receipt alone
pub record Link : Type 0 where
  pub verdict : Option (Verdict × String)
  pub receipt : Receipt

abbrev pub Registry : Type 0
Registry = Dict String Verifier

abbrev pub Rule : Type 0
Rule = Value → Value → Bool

unfoldable pub verdict_value : Verdict → Value
verdict_value v = dict (
    field "from" (str v.sender) (
      field "from_hash" (str v.from_hash)
        (field "to" (str v.to) (field "to_hash" (str v.to_hash) end))))

pub record Fault : Type 0 where
  pub link : ℕ
  pub agent : String
  pub reason : String

abbrev pub blame : ℕ → Receipt → String → Option Fault
blame i r reason = some (record { link = i; agent = r.agent; reason = reason })

-- `prev_hash or core.GENESIS`
abbrev pub start_hash : Option String → String
start_hash none = genesis
start_hash (some h) = if h ≟ "" then genesis else h

-- the fault that was found, or what the rest of the chain has
abbrev pub first_fault : Outcome (Option Fault) → Option Fault → Outcome (Option Fault)
first_fault rest (some fault) = ok (some fault)
first_fault rest none = rest

module _ (sha256 : String → String) where
  unfoldable pub receipt_hash : String → Value → String → String
  receipt_hash agent state prev =
      state_hash sha256
        (dict (field "agent" (str agent) (field "state" state (field "prev" (str prev) end))))

  unfoldable pub state_receipt : String → Value → Signer → Option String → Receipt
  state_receipt agent state signer prev_hash =
      let prev = start_hash prev_hash in
      let sh = receipt_hash agent state prev in
      record {
        agent = agent;
        state = state;
        prev = prev;
        state_hash = sh;
        signature = signer.sign sh;
      }

  -- `none` is `(True, "authentic")`; else the reason
  unfoldable pub check_receipt : Option Verifier → Receipt → Outcome (Option String)
  check_receipt none r = ok (some "unknown agent (not in pinned registry)")
  check_receipt (some v) r =
      let sh = receipt_hash r.agent r.state r.prev in
      if not (sh ≟ r.state_hash)
      then ok (some "state_hash mismatch (tampered state)")
      else (v.verify sh r.signature >>= λ valid.
          ok (if valid then none else some "signature invalid (forged / wrong key)"))

  unfoldable pub verify_receipt : Receipt → Registry → Outcome (Option String)
  verify_receipt r registry = check_receipt (lookup r.agent registry) r

  unfoldable pub attest : Receipt → String → Value → Signer → Link
  attest prior b_id b_new_state b_signer =
      let r = state_receipt b_id b_new_state b_signer (some prior.state_hash) in
      let v : Verdict = record {
        sender = prior.agent;
        from_hash = prior.state_hash;
        to = b_id;
        to_hash = r.state_hash;
      } in
      record { verdict = some (v, b_signer.sign (canonical_bytes (verdict_value v))); receipt = r }

  unfoldable pub attest_unless :
      Option String → Receipt → String → Value → Signer → Rule → Outcome Link
  attest_unless (some why) prior b_id b_new_state b_signer b_invariant = err "rejected upstream"
  attest_unless none prior b_id b_new_state b_signer b_invariant =
      if not (b_invariant prior.state b_new_state)
      then err "incoming state violates the precommitted invariant"
      else ok (attest prior b_id b_new_state b_signer)

  -- an error is a `CovenantBreach`, or what the verifier raised
  unfoldable pub cross_attest : Receipt → String → Value → Signer → Rule → Registry → Outcome Link
  unfolding attest_unless
  cross_attest prior b_id b_new_state b_signer b_invariant registry =
      verify_receipt prior registry >>= λ why.
      attest_unless why prior b_id b_new_state b_signer b_invariant

  -- the agent's invariant, if it has one
  unfoldable pub check_rule : Option Rule → ℕ → Receipt → Receipt → Option Fault
  check_rule none i prev r = none
  check_rule (some rule) i prev r =
      if not (rule prev.state r.state) then blame i r "invariant breached on replay" else none

  unfoldable pub check_attestation :
      Option Verifier
      → Dict String Rule
      → ℕ
      → Receipt
      → Receipt
      → Verdict
      → String
      → Outcome (Option Fault)
  unfolding check_rule
  check_attestation none rules i prev r v sig = err "'NoneType' object has no attribute 'verify'"
  check_attestation (some key) rules i prev r v sig =
      key.verify (canonical_bytes (verdict_value v)) sig >>= λ valid. ok (
        if not valid
        then blame i r "verdict signature invalid"
        else check_rule (lookup r.agent rules) i prev r)

  unfoldable pub check_verdict :
      Registry
      → Dict String Rule
      → ℕ
      → Receipt
      → Receipt
      → Option (Verdict × String)
      → Outcome (Option Fault)
  unfolding check_attestation
  check_verdict registry rules i prev r none = err "'verdict'"
  check_verdict registry rules i prev r (some (v, sig)) =
      if not (v.from_hash ≟ prev.state_hash) || not (v.to_hash ≟ r.state_hash)
      then ok (blame i r "covenant binding broken")
      else check_attestation (lookup v.to registry) rules i prev r v sig

  unfoldable pub check_binding :
      Option Receipt → Registry → Dict String Rule → ℕ → Link → Outcome (Option Fault)
  unfolding check_verdict
  check_binding none registry rules i link = ok none
  check_binding (some prev) registry rules i link =
      check_verdict registry rules i prev link.receipt link.verdict

  unfoldable pub check_unless :
      Option String
      → Option Receipt
      → Registry
      → Dict String Rule
      → ℕ
      → Link
      → Outcome (Option Fault)
  unfolding check_binding
  check_unless (some why) prev registry rules i link = ok (blame i link.receipt why)
  check_unless none prev registry rules i link = check_binding prev registry rules i link

  unfoldable pub check_link :
      Option Receipt → Registry → Dict String Rule → ℕ → Link → Outcome (Option Fault)
  unfolding check_unless
  check_link prev registry rules i link =
      verify_receipt link.receipt registry >>= λ why. check_unless why prev registry rules i link

  unfoldable pub audit_from :
      Option Receipt → Registry → Dict String Rule → ℕ → List Link → Outcome (Option Fault)
  audit_from prev registry rules i [] = ok none
  audit_from prev registry rules i (link ∷ chain) =
      let rest = audit_from (some link.receipt) registry rules (i + 1) chain in
      check_link prev registry rules i link >>= first_fault rest

  -- `ok none` is the verdict `(True, None)`
  unfoldable pub audit_covenant : List Link → Registry → Dict String Rule → Outcome (Option Fault)
  unfolding audit_from
  audit_covenant chain registry rules = audit_from none registry rules 0 chain
