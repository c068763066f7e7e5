-- ===== src/VeriSim/Court/Replay.antt =====
-- A shard of VeriSim/runner.py is accepted by VeriSim/court.py, as a whole and step by step.
use mathlib.Core.Path.{subst}
use dentatus.Prelude.{
  ℕ, ◌+◌, ◌<◌, String, ◌≡◌, refl, true, Option, none, some, ok, >>=-eq-ok, length, get_or, lt→ltb,
}
use dentatus.Prelude.Eq.{string_eq, beq_refl}
use dentatus.Chronicle.Value.{Value, str, dict, field, end}
use dentatus.Chronicle.Canonical.{canon}
use dentatus.Chronicle.Signing.{Verifier, Signer}
use dentatus.Stasis.Batch.{merkle_root, verify_inclusion}
use dentatus.Stasis.Batch.Inclusion.{verify_inclusion-inclusion_proof}
use dentatus.Airlock.KeyValue.{equal}
use dentatus.Tessera.{Tessera, mint, verify}
use dentatus.Tessera.RoundTrip.{IsRegular, verify-mint}
use dentatus.VeriSim.Scenarios.{Scenario}
use dentatus.VeriSim.Runner.{Shard, History, step_history, bundle, run_simulation, input_hash}
use dentatus.VeriSim.Court.{Report, replay, spot_check_step}
use dentatus.VeriSim.Court.Again.{step_history-again}

equal_refl : (v : Value) → equal v v ≡ true
unfolding equal
equal_refl v = beq_refl {K = String} _

module _ (sha256 : String → String) (registry : String → Option Scenario)
    (material : Signer → String) (ed25519 : String → Verifier) where
  abbrev pub accepted : Shard → Report
  accepted shard = record {
    verified = true;
    detail = "VERIFIED";
    steps = shard.steps;
    final_match = true;
    merkle_match = true;
  }

  -- The court accepts the shard, and each of its steps.
  pub record Replayable (shard : Shard) : Type 0 where
    pub replays : replay sha256 registry material ed25519 shard ≡ ok (accepted shard)
    pub spot_checks :
        (i : ℕ)
        → i < shard.leaf_count
        → (leaf : String) × (spot_check_step sha256 registry material ed25519 shard i
            ≡ ok (true, some leaf))

  module _ (s : Scenario) (scenario : String) (known : registry scenario ≡ some s)
      (regular : IsRegular sha256 s.source_hash s.rule s.done material ed25519) where
    bundle-Replayable :
        (tess : Tessera) (r : History) (input : Option String) (root : String)
        → verify sha256 s.source_hash s.rule s.done material ed25519 tess none
          ≡ ok (true, "VERIFIED")
        → step_history sha256 s.rule s.done tess.seed (r.2 + 2) ≡ ok r
        → merkle_root sha256 r.0 ≡ ok root
        → Replayable (bundle sha256 registry material ed25519 scenario tess r input root)
    unfolding replay spot_check_step
    bundle-Replayable tess (leaves, final, n) input root verifies again rooted = record {
      replays =
          rw known
            (rw verifies (rw again (rw rooted (rw (beq_refl root) (rw (equal_refl final) refl)))));
      spot_checks = λ i below.
          let (proof, root', proves, rooted', checks) =
            verify_inclusion-inclusion_proof sha256 leaves i below in
          let same : root' ≡ root = cc in
          let good : verify_inclusion sha256 (get_or leaves i "") proof root ≡ true =
            rw same at checks in
          (
            get_or leaves i "",
            rw known (rw again (rw (lt→ltb i (length leaves) below) (rw proves (rw good refl)))),
          );
    }

    -- The shard that an unsigned run of a registered scenario emits is accepted by the court: its replay
    -- is verified with the same number of steps, and every recorded state passes the spot check. The
    -- seed is canonical, and the scenario's rule keeps states so.
    pub run_simulation-Replayable :
        (seed : Value) (input : Option Value) (fuel_budget : ℕ) {shard : Shard}
        → canon seed ≡ seed
        → run_simulation sha256 registry material ed25519 scenario seed input none fuel_budget
          ≡ ok shard
        → Replayable shard
    unfolding run_simulation
    run_simulation-Replayable seed input fuel_budget {shard} canonical e =
        let meta : Option Value = some (dict (field "scenario" (str scenario) end)) in
        let (tess, mints, e2) =
          >>=-eq-ok
            (mint sha256 s.source_hash s.rule s.done material ed25519 seed fuel_budget none none
              meta)
            _ (rw known at e) in
        let (r, walked, e3) = >>=-eq-ok (step_history sha256 s.rule s.done seed fuel_budget) _ e2 in
        let (input_data_hash, hashed, e4) =
          >>=-eq-ok (input_hash sha256 registry material ed25519 input) _ e3 in
        let (root, rooted, e5) = >>=-eq-ok (merkle_root sha256 r.0) _ e4 in
        let made : bundle sha256 registry material ed25519 scenario tess r input_data_hash root
            ≡ shard =
          cc in
        subst Replayable made (
          bundle-Replayable tess r input_data_hash root
            (verify-mint sha256 s.source_hash s.rule s.done material ed25519 none seed none meta
              none canonical tt fuel_budget regular mints)
            (step_history-again sha256 s.rule s.done s.source_hash material ed25519 seed fuel_budget
              meta canonical mints walked)
            rooted)
