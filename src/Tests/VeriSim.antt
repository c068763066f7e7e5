-- ===== src/Tests/VeriSim.antt =====
-- VeriSim/ on a countdown and on the registered scenarios.
use dentatus.Prelude.{
  ℕ, zero, String, ◌≡◌, refl, Bool, true, false, Option, none, some, ok, if◌then◌else◌,
}
use dentatus.Prelude.Int.{ℤ, pos, negsuc}
use dentatus.Prelude.Eq.{string_eq}
use dentatus.Chronicle.Value.{Value, Fields, dict, field, end, bool, int, get}
use dentatus.VeriSim.Scenarios.{
  Scenario, brake_step, brake_seed, projectile_step, projectile_seed, registry,
}
use dentatus.VeriSim.Runner.{Shard, run_simulation}
use dentatus.VeriSim.Court.Replay.{Replayable}
use dentatus.VeriSim.Court.Registered.{run_registered-Replayable}
use dentatus.Chronicle.Canonical.{canon}
use dentatus.Aether.FixedPoint.{to_fp}
use dentatus.Aether.Rounding.{Rounds, to_fp-Rounds}
use dentatus.Tests.Keys.{brief, verifier}
use dentatus.Tests.Tessera.{material}

-- a seed of `brake_1d`, 2 m/s and 1 m/s^2, with its fields in the order of their keys
abbrev braking : Value
braking = dict (
    field "a" (int (pos 4294967296)) (
      field "dt" (int (pos 4294967296)) (
        field "halted" (bool false) (
          field "max_steps" (int (pos 9)) (
            field "p" (int (pos 0))
              (field "t" (int (pos 0)) (field "v" (int (pos 8589934592)) end)))))))

ran :
    (shard : Shard) × (run_simulation brief
        (registry brief)
        material
        verifier
        "brake_1d"
        braking
        none
        none
        5
      ≡ ok shard)
unfolding run_simulation dentatus.Tessera.mint dentatus.Stasis.Canon.canon_hash
    dentatus.Stasis.Batch.merkle_root registry brake_step get dentatus.VeriSim.Scenarios.seed
    dentatus.Chronicle.Value.truthy dentatus.Prelude.Int.◌-ℤ◌ to_fp dentatus.Prelude.Int.floor_mod
    dentatus.Prelude.Int.◌*ℤ◌ dentatus.Prelude.Int.floor_div dentatus.Aether.FixedPoint.fp_mul
    dentatus.VeriSim.Scenarios.halted_done dentatus.Prelude.Int.◌+ℤ◌
ran = (_, refl)

braking-canon : canon braking ≡ braking
unfolding canon dentatus.VeriSim.Scenarios.seed dentatus.Chronicle.Canonical.insert_key
braking-canon = refl

run_registered-Replayable_example : Replayable brief (registry brief) material verifier ran.0
run_registered-Replayable_example =
    run_registered-Replayable brief brief material verifier "brake_1d" braking none 5 braking-canon
      ran.1

-- at 4 m/s and 2 m/s^2 a step of one second leaves 2 m/s
brakes :
    get "v" (brake_step (brake_seed (pos 4) (pos 2) (pos 1000) (pos 9)))
    ≡ some (int (pos 8589934592))
unfolding brake_step get dentatus.VeriSim.Scenarios.seed dentatus.Chronicle.Value.truthy
    dentatus.Prelude.Int.◌-ℤ◌ to_fp dentatus.Prelude.Int.floor_mod dentatus.Prelude.Int.◌*ℤ◌
    dentatus.Prelude.Int.floor_div dentatus.Aether.FixedPoint.fp_mul
brakes = refl

-- -1/4 of a unit in the last place is rounded to -2 units
to_fp_low : to_fp (negsuc 0) (pos 17179869184) ≡ negsuc 1
unfolding to_fp dentatus.Prelude.Int.floor_mod dentatus.Prelude.Int.◌-ℤ◌ dentatus.Prelude.Int.◌*ℤ◌
    dentatus.Prelude.Int.floor_div
to_fp_low = refl

to_fp-Rounds_example : Rounds (negsuc 0) 17179869183
to_fp-Rounds_example = to_fp-Rounds (negsuc 0) 17179869183
