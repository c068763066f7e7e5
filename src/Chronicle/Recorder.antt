-- ===== src/Chronicle/Recorder.antt =====
-- The recorder of chronicle/core.py, over the in-process store of chronicle/store.py. The hash of the
-- rules is of their source text, so it is an argument; a key's shorthand for a signer is not modelled.
use dentatus.Prelude.{
  ℕ, ◌+◌, String, Bool, not, Option, none, some, List, [], ◌∷◌, ◌++◌, Outcome, ok, err,
  if◌then◌else◌, length,
}
use dentatus.Prelude.Dict.{or_default}
use dentatus.Chronicle.Value.{Value, str, nat, dict, field, end}
use dentatus.Chronicle.Canonical.{◌^^◌, state_hash, hash_pair, genesis}
use dentatus.Chronicle.Signing.{Signer}

pub record Frame : Type 0 where
  pub seq : ℕ
  pub decision_id : String
  pub inputs : Value
  pub outputs : Value
  pub ruleset_hash : String
  pub prev : String

pub record Receipt : Type 0 where
  pub frame : Frame
  pub state_hash : String
  pub committed_hash : String
  pub signature : String
  pub algo : String

-- `MemoryStore`: its receipts in order
abbrev pub Store : Type 0
Store = List Receipt

unfoldable pub append : Receipt → Store → Store
append r store = store ++ r ∷ []

unfoldable pub store_head : String → Store → String
store_head h [] = h
store_head h (r ∷ store) = store_head r.committed_hash store

abbrev pub store_seq : Store → ℕ
store_seq store = length store

pub record Recorder : Type 0 where
  pub signer : Signer
  pub ruleset_h : String
  pub store : Option Store
  pub prev : String
  pub seq : ℕ

-- `Recorder(signer, ruleset_h, prev_hash, seq, store)`
unfoldable pub new_recorder : Signer → String → Option String → Option ℕ → Option Store → Recorder
new_recorder signer ruleset_h prev_hash seq none = record {
  signer = signer;
  ruleset_h = ruleset_h;
  store = none;
  prev = or_default genesis prev_hash;
  seq = or_default 0 seq;
}
new_recorder signer ruleset_h prev_hash seq (some store) = record {
  signer = signer;
  ruleset_h = ruleset_h;
  store = some store;
  prev = or_default (store_head genesis store) prev_hash;
  seq = or_default (store_seq store) seq;
}

unfoldable pub frame_value : Frame → Value
frame_value f = dict (
    field "seq" (nat f.seq) (
      field "decision_id" (str f.decision_id) (
        field "inputs" f.inputs (
          field "outputs" f.outputs
            (field "ruleset_hash" (str f.ruleset_hash) (field "prev" (str f.prev) end))))))

abbrev append_to : Option Store → Receipt → Option Store
append_to none r = none
append_to (some store) r = some (append r store)

module _ (sha256 : String → String) where
  unfoldable pub seal : Recorder → Frame → Receipt
  seal rec frame =
      let sh = state_hash sha256 (frame_value frame) in
      let committed = hash_pair sha256 sh rec.prev in
      record {
        frame = frame;
        state_hash = sh;
        committed_hash = committed;
        signature = rec.signer.sign committed;
        algo = rec.signer.algo;
      }

  unfoldable pub next_frame : Recorder → String → Value → Value → Frame
  next_frame rec decision_id inputs outputs = record {
    seq = rec.seq;
    decision_id = decision_id;
    inputs = inputs;
    outputs = outputs;
    ruleset_hash = rec.ruleset_h;
    prev = rec.prev;
  }

  -- `Recorder.record`: the receipt, and the recorder after it
  unfoldable pub record_decision :
      Recorder → String → Value → Value → (Value → Value → Bool) → Outcome (Receipt × Recorder)
  unfolding seal next_frame append
  record_decision rec decision_id inputs outputs invariant_fn =
      if not (invariant_fn inputs outputs)
      then err ("decision " ^^ decision_id ^^ " breaches a precommitted invariant")
      else (let receipt = seal rec (next_frame rec decision_id inputs outputs) in
          ok (
            receipt,
            record rec {
              store = append_to rec.store receipt;
              prev = receipt.committed_hash;
              seq = rec.seq + 1;
            },
          ))
