-- ===== src/VeriSim/Court/Registered.antt =====
-- The runner and the court of VeriSim/ with the registry of VeriSim/scenarios.py.
use dentatus.Prelude.{ℕ, String, ◌≡◌, refl, Option, none, some, ok}
use dentatus.Chronicle.Value.{Value}
use dentatus.Chronicle.Canonical.{canon}
use dentatus.Chronicle.Signing.{Verifier, Signer}
use dentatus.VeriSim.Scenarios.{Scenario, registry}
use dentatus.VeriSim.Regular.{registry-canon}
use dentatus.VeriSim.Runner.{Shard, run_simulation}
use dentatus.VeriSim.Court.Replay.{Replayable, run_simulation-Replayable}

-- A shard that an unsigned run of the registered scenarios emits, from a canonical seed, is accepted by
-- the court: its replay is verified with the same number of steps, and every recorded state passes the
-- spot check.
pub run_registered-Replayable :
    (sha256 source_hash : String → String) (material : Signer → String)
    (ed25519 : String → Verifier)
    → (scenario : String) (seed : Value) (input : Option Value) (fuel_budget : ℕ) {shard : Shard}
    → canon seed ≡ seed
    → run_simulation sha256
        (registry source_hash)
        material
        ed25519
        scenario
        seed
        input
        none
        fuel_budget
      ≡ ok shard
    → Replayable sha256 (registry source_hash) material ed25519 shard
unfolding run_simulation
run_registered-Replayable sha256 source_hash material ed25519 scenario seed input fuel_budget
      {shard} canonical e =
    known (registry source_hash scenario) refl
  where
    known :
        (o : Option Scenario)
        → registry source_hash scenario ≡ o
        → Replayable sha256 (registry source_hash) material ed25519 shard
    known none absent = let fails = rw absent at e in cc
    known (some s) found =
        run_simulation-Replayable sha256 (registry source_hash) material ed25519 s scenario found
          (registry-canon source_hash scenario found) seed input fuel_budget canonical e
