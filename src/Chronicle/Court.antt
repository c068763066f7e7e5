-- ===== src/Chronicle/Court.antt =====
-- chronicle/court.py: the replay of a recorded ledger, with the auditor's logic, invariant and key.
pub mod Replay
use dentatus.Prelude.{
  ℕ, ◌+◌, String, Bool, not, Option, none, some, List, [], ◌∷◌, Outcome, ok, err, ◌>>=◌, ◌==◌, ◌||◌,
  if◌then◌else◌,
}
use dentatus.Prelude.Eq.{◌≟◌, string_eq, nat_eq}
use dentatus.Chronicle.Value.{Value}
use dentatus.Chronicle.Canonical.{canonical_bytes, state_hash, hash_pair, genesis}
use dentatus.Chronicle.Signing.{Verifier}
use dentatus.Chronicle.Recorder.{Frame, Receipt, frame_value}

-- `Verdict.fail`: the reason and the place
pub record Fault : Type 0 where
  pub reason : String
  pub at : ℕ

abbrev pub fault : String → ℕ → Option Fault
fault reason at = some (record { reason = reason; at = at })

-- the rest of the ledger is looked at when this receipt is fine
abbrev pub unless_fault : Outcome (Option Fault) → Option Fault → Outcome (Option Fault)
unless_fault rest (some f) = ok (some f)
unless_fault rest none = rest

module _ (sha256 : String → String) (running_ruleset : String) (logic_fn : Value → Value)
    (invariant_fn : Value → Value → Bool) (vf : Verifier) where
  -- the frame that the replay arrives at
  unfoldable pub replayed : String → Frame → Frame
  replayed prev f = record {
    seq = f.seq;
    decision_id = f.decision_id;
    inputs = f.inputs;
    outputs = logic_fn f.inputs;
    ruleset_hash = running_ruleset;
    prev = prev;
  }

  unfoldable pub committed_again : String → Frame → String
  unfolding replayed
  committed_again prev f = hash_pair sha256 (state_hash sha256 (frame_value (replayed prev f))) prev

  unfoldable pub check_content : String → Receipt → Outcome (Option Fault)
  check_content prev r =
      let committed = committed_again prev r.frame in
      if not (committed ≟ r.committed_hash)
      then ok (fault "TAMPER (content hash mismatch)" r.frame.seq)
      else (vf.verify committed r.signature >>= λ valid.
          ok (
            if not valid
            then fault "TAMPER (signature mismatch / wrong key)" r.frame.seq
            else none))

  unfoldable pub check_receipt : String → ℕ → Receipt → Outcome (Option Fault)
  unfolding check_content
  check_receipt prev seq r =
      let f = r.frame in
      if not (f.prev ≟ prev) || not (f.seq ≟ seq)
      then ok (fault "CHAIN broken (insertion/deletion/reorder)" seq)
      else if not (f.ruleset_hash ≟ running_ruleset)
      then ok (fault "RULESET changed (logic differs from what was recorded)" f.seq)
      else if not (canonical_bytes (logic_fn f.inputs) ≟ canonical_bytes f.outputs)
      then ok (fault "REPLAY drift (recorded outputs not reproducible from inputs)" f.seq)
      else if not (invariant_fn f.inputs (logic_fn f.inputs))
      then ok (fault "INVARIANT breach on replay" f.seq)
      else check_content prev r

  unfoldable pub verify_from : String → ℕ → List Receipt → Outcome (Option Fault)
  unfolding check_receipt
  verify_from prev seq [] = ok none
  verify_from prev seq (r ∷ ledger) =
      let rest = verify_from r.committed_hash (seq + 1) ledger in
      check_receipt prev seq r >>= unless_fault rest

  -- `none` is the verdict that holds
  unfoldable pub verify_chain : List Receipt → Outcome (Option Fault)
  unfolding verify_from
  verify_chain ledger = verify_from genesis 0 ledger
