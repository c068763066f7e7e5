-- ===== src/Fuel/Run.antt =====
-- `run` of fuel/vm.py: the machine is stepped until it halts.
use dentatus.Prelude.{ℕ, zero, suc, ◌+◌, List, Outcome, ok, err, if◌then◌else◌}
use dentatus.Prelude.Int.{ℤ, pos, ◌+ℤ◌, ◌-ℤ◌, pos_part}
use dentatus.Prelude.Eq.{string_eq}
use dentatus.Fuel.{Op, Regs, State, vm_step, vm_done, seed_state}

pub record Summary : Type 0 where
  pub final : State
  pub steps : ℤ
  pub fuel_used : ℤ

-- the loop, with the number of rounds after which the guard raises; it returns the halted state and
-- the number of rounds that were made
unfoldable pub run_loop : ℕ → State → ℕ → Outcome (State × ℕ)
run_loop zero s steps =
    if vm_done s then ok (s, steps) else err "fuel accounting invariant violated"
run_loop (suc rounds) s steps =
    let rest = run_loop rounds (vm_step s) (steps + 1) in if vm_done s then ok (s, steps) else rest

abbrev pub summarise : ℤ → Outcome (State × ℕ) → Outcome Summary
summarise limit (err e) = err e
summarise limit (ok (s, steps)) =
    ok (record { final = s; steps = pos steps -ℤ pos 1; fuel_used = limit -ℤ s.fuel })

-- `steps > fuel_limit + 2` raises after the round, so `fuel_limit + 2` rounds are allowed
unfoldable pub run : List Op → Regs → ℤ → Outcome Summary
run program init_regs fuel_limit =
    summarise fuel_limit
      (run_loop (pos_part (fuel_limit +ℤ pos 2)) (seed_state program init_regs fuel_limit) 0)
