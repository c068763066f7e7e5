-- ===== src/VeriSim/Runner.antt =====
-- VeriSim/runner.py: a scenario is run, and bundled with the proof of its path and the root of its states.
use dentatus.Prelude.{
  ℕ, zero, suc, ◌+◌, String, Bool, false, Option, none, some, List, [], ◌∷◌, Outcome, ok, err,
  ◌>>=◌, if◌then◌else◌, length,
}
use dentatus.Chronicle.Value.{Value, str, dict, field, end}
use dentatus.Chronicle.Canonical.{◌^^◌}
use dentatus.Chronicle.Signing.{Verifier, Signer}
use dentatus.Stasis.Canon.{canon_hash}
use dentatus.Stasis.Batch.{merkle_root}
use dentatus.Tessera.{Tessera, mint}
use dentatus.VeriSim.Scenarios.{Scenario}

pub record Shard : Type 0 where
  pub scenario : String
  pub ruleset_hash : String
  pub input_data_hash : Option String
  pub steps : ℕ
  pub final_state : Value
  pub merkle_root : String
  pub leaf_count : ℕ
  pub tessera : Tessera

-- the hashes of the states, the last state and the number of steps
abbrev pub History : Type 0
History = List String × Value × ℕ

module _ (sha256 : String → String) where
  abbrev pub prepend : String → History → History
  prepend h (hs, final, n) = (h ∷ hs, final, n)

  -- the loop, with the steps that are left
  unfoldable pub history_from : (Value → Value) → (Value → Bool) → ℕ → Value → ℕ → Outcome History
  history_from rule done zero state steps = ok ([], state, steps)
  history_from rule done (suc left) state steps =
      let rest = canon_hash sha256 (rule state) false >>= λ h.
      history_from rule done left (rule state) (steps + 1) >>= λ r. ok (prepend h r) in
      if done state then ok ([], state, steps) else rest

  unfoldable pub step_history : (Value → Value) → (Value → Bool) → Value → ℕ → Outcome History
  unfolding history_from
  step_history rule done seed max_steps = canon_hash sha256 seed false >>= λ h.
      history_from rule done max_steps seed 0 >>= λ r. ok (prepend h r)

  module _ (registry : String → Option Scenario) (material : Signer → String)
      (ed25519 : String → Verifier) where
    abbrev pub input_hash : Option Value → Outcome (Option String)
    input_hash none = ok none
    input_hash (some v) = canon_hash sha256 v false >>= λ h. ok (some h)

    abbrev pub bundle : String → Tessera → History → Option String → String → Shard
    bundle scenario tess (leaves, final, steps) input root = record {
      scenario = scenario;
      ruleset_hash = tess.ruleset_hash;
      input_data_hash = input;
      steps = steps;
      final_state = final;
      merkle_root = root;
      leaf_count = length leaves;
      tessera = tess;
    }

    abbrev pub run_scenario :
        String → Option Scenario → Value → Option Value → Option Signer → ℕ → Outcome Shard
    run_scenario scenario none seed input signer fuel_budget = err ("unknown scenario " ^^ scenario)
    run_scenario scenario (some s) seed input signer fuel_budget =
        mint sha256 s.source_hash s.rule s.done material ed25519 seed fuel_budget signer none
          (some (dict (field "scenario" (str scenario) end)))
        >>= λ tess. step_history s.rule s.done seed fuel_budget >>= λ history.
            input_hash input >>= λ input_data_hash. merkle_root sha256 history.0 >>= λ root.
            ok (bundle scenario tess history input_data_hash root)

    unfoldable pub run_simulation :
        String → Value → Option Value → Option Signer → ℕ → Outcome Shard
    unfolding step_history
    run_simulation scenario seed input signer fuel_budget =
        run_scenario scenario (registry scenario) seed input signer fuel_budget
