-- ===== src/VeriSim/Court.antt =====
-- VeriSim/court.py: a shard is replayed, and one step is checked against its root.
pub mod Registered
pub mod Again
pub mod Replay
use dentatus.Prelude.{
  ℕ, ◌+◌, String, Bool, true, false, not, Option, none, some, List, [], ◌∷◌, ◌&&◌, Outcome, ok, err,
  ◌>>=◌, if◌then◌else◌, length, ltb, get_or,
}
use dentatus.Prelude.Eq.{◌≟◌, string_eq}
use dentatus.Chronicle.Value.{Value}
use dentatus.Chronicle.Canonical.{◌^^◌}
use dentatus.Chronicle.Signing.{Verifier, Signer}
use dentatus.Stasis.Batch.{merkle_root, inclusion_proof, verify_inclusion}
use dentatus.Airlock.KeyValue.{equal}
use dentatus.Tessera.{verify}
use dentatus.VeriSim.Scenarios.{Scenario}
use dentatus.VeriSim.Runner.{Shard, History, step_history}

pub record Report : Type 0 where
  pub verified : Bool
  pub detail : String
  pub steps : ℕ
  pub final_match : Bool
  pub merkle_match : Bool

module _ (sha256 : String → String) (registry : String → Option Scenario)
    (material : Signer → String) (ed25519 : String → Verifier) where
  abbrev pub judge : Shard → Bool × String → History → String → Report
  judge shard (fine, detail) (leaves, final, steps) root =
      let merkle_match = root ≟ shard.merkle_root in
      let final_match = equal final shard.final_state in
      record {
        verified = fine && merkle_match && final_match;
        detail =
            if not fine
            then detail
            else if not merkle_match
            then "merkle mismatch"
            else if not final_match
            then "final-state mismatch"
            else "VERIFIED";
        steps = steps;
        final_match = final_match;
        merkle_match = merkle_match;
      }

  abbrev pub replay_with : Shard → Option Scenario → Outcome Report
  replay_with shard none = ok (record {
    verified = false;
    detail = "unknown scenario " ^^ shard.scenario;
    steps = 0;
    final_match = false;
    merkle_match = false;
  })
  replay_with shard (some s) =
      verify sha256 s.source_hash s.rule s.done material ed25519 shard.tessera none >>= λ v.
      step_history sha256 s.rule s.done shard.tessera.seed (shard.steps + 2) >>= λ history.
      merkle_root sha256 history.0 >>= λ root. ok (judge shard v history root)

  unfoldable pub replay : Shard → Outcome Report
  replay shard = replay_with shard (registry shard.scenario)

  abbrev pub check_leaf : Shard → List String → ℕ → Outcome (Bool × Option String)
  check_leaf shard leaves step_index =
      if ltb step_index (length leaves)
      then (inclusion_proof sha256 leaves step_index >>= λ proof.
          let leaf = get_or leaves step_index "" in
          ok (verify_inclusion sha256 leaf proof shard.merkle_root, some leaf))
      else ok (false, none)

  abbrev pub spot_check_with : Shard → ℕ → Option Scenario → Outcome (Bool × Option String)
  spot_check_with shard step_index none = err "KeyError"
  spot_check_with shard step_index (some s) =
      step_history sha256 s.rule s.done shard.tessera.seed (shard.steps + 2) >>= λ history.
      check_leaf shard history.0 step_index

  unfoldable pub spot_check_step : Shard → ℕ → Outcome (Bool × Option String)
  spot_check_step shard step_index = spot_check_with shard step_index (registry shard.scenario)
