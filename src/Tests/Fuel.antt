-- ===== src/Tests/Fuel.antt =====
-- fuel/vm.py on a loop that halts, on one that does not, and on a debt.
use dentatus.Prelude.{
  suc, String, ◌≡◌, refl, Bool, true, false, Option, none, some, List, [], ◌∷◌, Outcome, ok, err,
  arith,
}
use dentatus.Prelude.Int.{ℤ, pos, negsuc, ◌≤ℤ◌}
use dentatus.Prelude.Eq.{string_eq}
use dentatus.Prelude.Dict.{lookup}
use dentatus.Fuel.{
  Op, set, sub, mul, jnz, jmp, halt, Operand, imm, reg, State, vm_step, seed_state, out_of_fuel,
  Reason,
}
use dentatus.Fuel.Run.{Summary, run}
use dentatus.Fuel.Termination.{run_total}

abbrev factorial : List Op
factorial =
    set "n" (imm (pos 3))
    ∷ set "f" (imm (pos 1))
    ∷ mul "f" (reg "f") (reg "n")
    ∷ sub "n" (reg "n") (imm (pos 1))
    ∷ jnz (reg "n") (pos 2)
    ∷ halt
    ∷ []

abbrev spin : List Op
spin = jmp (pos 0) ∷ []

abbrev register : String → Outcome Summary → Option ℤ
register r (err e) = none
register r (ok s) = lookup r s.final.regs

run-factorial : register "f" (run factorial [] (pos 50)) ≡ some (pos 6)
unfolding run dentatus.Fuel.Run.run_loop dentatus.Prelude.Int.◌+ℤ◌ dentatus.Fuel.vm_done seed_state
    vm_step dentatus.Fuel.attempt dentatus.Fuel.charge dentatus.Fuel.cost dentatus.Fuel.exec
    dentatus.Prelude.Int.◌-ℤ◌ dentatus.Prelude.Dict.lookup_or lookup dentatus.Prelude.Dict.insert
    dentatus.Prelude.Int.◌*ℤ◌
run-factorial = refl

abbrev stop_reason : Outcome Summary → Option Reason
stop_reason (err e) = none
stop_reason (ok s) = s.final.reason

run-spin : stop_reason (run spin [] (pos 4)) ≡ some out_of_fuel
unfolding run dentatus.Fuel.Run.run_loop dentatus.Prelude.Int.◌+ℤ◌ dentatus.Fuel.vm_done seed_state
    vm_step dentatus.Fuel.attempt dentatus.Fuel.charge dentatus.Fuel.cost dentatus.Fuel.exec
    dentatus.Prelude.Int.◌-ℤ◌
run-spin = refl

run_total_example :
    (r : Summary) × (run spin [] (pos 4) ≡ ok r)
    × (r.final.halted ≡ true)
    × (r.final.prog ≡ spin)
    × (pos 0 ≤ℤ r.final.fuel)
    × (pos 0 ≤ℤ r.fuel_used)
    × (r.fuel_used ≤ℤ pos 4)
    × (r.steps ≤ℤ r.fuel_used)
run_total_example = run_total spin [] 4
