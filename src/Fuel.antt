-- ===== src/Fuel.antt =====
-- fuel/vm.py: an integer register machine in which every instruction costs fuel.
pub mod Run
pub mod Accounting
pub mod Termination
use dentatus.Prelude.{
  ℕ, String, Bool, true, false, Option, none, some, List, if◌then◌else◌, get_elem?,
}
use dentatus.Prelude.Int.{ℤ, pos, negsuc, ◌+ℤ◌, ◌-ℤ◌, ◌*ℤ◌, ltb_ℤ, eqb_ℤ, floor_div, floor_mod}
use dentatus.Prelude.Eq.{string_eq}
use dentatus.Prelude.Dict.{Dict, lookup_or, insert}

-- an immediate integer, or the name of a register
pub data Operand : Type 0 where
  imm : ℤ → Operand
  reg : String → Operand

-- an instruction as the program writes it; `unknown` is any other opcode
pub data Op : Type 0 where
  set : String → Operand → Op
  add sub mul div modulo : String → Operand → Operand → Op
  jz jnz : Operand → ℤ → Op
  jmp : ℤ → Op
  halt : Op
  unknown : String → Op

pub data Reason : Type 0 where
  pc_out_of_range out_of_fuel division_by_zero halted_by_op : Reason
  unknown_op : String → Reason

abbrev pub Regs : Type 0
Regs = Dict String ℤ

pub record State : Type 0 where
  pub prog : List Op
  pub pc : ℤ
  pub regs : Regs
  pub fuel : ℤ
  pub halted : Bool
  pub reason : Option Reason
  pub error : Bool

-- `COST.get(code)`
unfoldable pub cost : Op → Option ℤ
cost (mul _ _ _) = some (pos 2)
cost (div _ _ _) = some (pos 2)
cost (modulo _ _ _) = some (pos 2)
cost (unknown _) = none
cost _ = some (pos 1)

unfoldable pub val : Operand → Regs → ℤ
val (imm n) regs = n
val (reg r) regs = lookup_or r (pos 0) regs

abbrev fail : State → Reason → State
fail s r = record s { halted = true; reason = some r; error = true }

-- the state after a completed instruction
abbrev continue : State → ℤ → ℤ → Regs → State
continue s fuel pc regs = record s {
  pc = pc;
  regs = regs;
  fuel = fuel;
  halted = false;
  reason = none;
}

-- one instruction whose cost has been taken: `fuel` is what is left of it
unfoldable pub exec : Op → ℤ → State → State
unfolding val
exec (set r x) fuel s = continue s fuel (s.pc +ℤ pos 1) (insert r (val x s.regs) s.regs)
exec (add r x y) fuel s =
    continue s fuel (s.pc +ℤ pos 1) (insert r (val x s.regs +ℤ val y s.regs) s.regs)
exec (sub r x y) fuel s =
    continue s fuel (s.pc +ℤ pos 1) (insert r (val x s.regs -ℤ val y s.regs) s.regs)
exec (mul r x y) fuel s =
    continue s fuel (s.pc +ℤ pos 1) (insert r (val x s.regs *ℤ val y s.regs) s.regs)
exec (div r x y) fuel s =
    if eqb_ℤ (val y s.regs) (pos 0)
    then record s { fuel = fuel; halted = true; reason = some division_by_zero; error = true }
    else continue s fuel (s.pc +ℤ pos 1) (insert r (floor_div (val x s.regs) (val y s.regs)) s.regs)
exec (modulo r x y) fuel s =
    if eqb_ℤ (val y s.regs) (pos 0)
    then record s { fuel = fuel; halted = true; reason = some division_by_zero; error = true }
    else continue s fuel (s.pc +ℤ pos 1) (insert r (floor_mod (val x s.regs) (val y s.regs)) s.regs)
exec (jz x target) fuel s =
    continue s fuel (if eqb_ℤ (val x s.regs) (pos 0) then target else s.pc +ℤ pos 1) s.regs
exec (jnz x target) fuel s =
    continue s fuel (if eqb_ℤ (val x s.regs) (pos 0) then s.pc +ℤ pos 1 else target) s.regs
exec (jmp target) fuel s = continue s fuel target s.regs
exec halt fuel s = record s { fuel = fuel; halted = true; reason = some halted_by_op }
exec (unknown code) fuel s = fail s (unknown_op code)

-- `op[0]`
unfoldable pub opcode : Op → String
opcode (set _ _) = "set"
opcode (add _ _ _) = "add"
opcode (sub _ _ _) = "sub"
opcode (mul _ _ _) = "mul"
opcode (div _ _ _) = "div"
opcode (modulo _ _ _) = "mod"
opcode (jz _ _) = "jz"
opcode (jnz _ _) = "jnz"
opcode (jmp _) = "jmp"
opcode halt = "halt"
opcode (unknown code) = code

-- the instruction that was fetched, charged what `COST` says
unfoldable pub charge : Option ℤ → Op → State → State
charge none op s = fail s (unknown_op (opcode op))
charge (some c) op s =
    if ltb_ℤ s.fuel c
    then record s { halted = true; reason = some out_of_fuel }
    else exec op (s.fuel -ℤ c) s

-- `prog[pc]`, where `pc` is in range
unfoldable pub fetch : State → Option Op
fetch s = elim s.pc [ pos n ↦ get_elem? s.prog n | negsuc _ ↦ none ]

unfoldable pub attempt : Option Op → State → State
attempt none s = fail s pc_out_of_range
attempt (some op) s = charge (cost op) op s

unfoldable pub vm_step : State → State
unfolding fetch
vm_step s = if s.halted then s else attempt (fetch s) s

unfoldable pub vm_done : State → Bool
vm_done s = s.halted

unfoldable pub seed_state : List Op → Regs → ℤ → State
seed_state program init_regs fuel_limit = record {
  prog = program;
  pc = pos 0;
  regs = init_regs;
  fuel = fuel_limit;
  halted = false;
  reason = none;
  error = false;
}
