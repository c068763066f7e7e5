-- ===== src/Fuel/Termination.antt =====
-- `run` of fuel/vm.py always halts: the guard of its loop is never met.
use dentatus.Prelude.{
  ℕ, zero, suc, ◌+◌, ◌≤◌, ◌≡◌, refl, ap, ◌∙◌, inl, inr, true, false, List, arith, Bool-cases,
  if◌then◌else◌, ok, err,
}
use dentatus.Prelude.Int.{pos, negsuc, ◌+ℤ◌, ◌-ℤ◌, ◌≤ℤ◌, pos_part, neg_part-nonneg, int_laws}
use dentatus.Fuel.{Op, Regs, State, vm_step, vm_done, seed_state}
use dentatus.Fuel.Run.{Summary, run_loop, run, summarise}
use dentatus.Fuel.Accounting.{Spends, spent_running, vm_step-Spends}

-- the round in which the machine notices that it has to halt may cost nothing
abbrev slack : State → ℕ
slack s = if s.halted then 0 else 1

-- What a loop that began at `s` returned.
record Ended (s t : State) (steps k : ℕ) : Type 0 where
  done : t.halted ≡ true
  nonneg : pos 0 ≤ℤ t.fuel
  bounded : t.fuel ≤ℤ s.fuel
  brief : pos k ≤ℤ pos (steps + slack s) +ℤ (s.fuel -ℤ t.fuel)
  same_prog : t.prog ≡ s.prog

run_loop-done :
    (rounds : ℕ) (s : State) (steps : ℕ) → s.halted ≡ true → run_loop rounds s steps ≡ ok (s, steps)
unfolding run_loop vm_done
run_loop-done zero s steps h = ground arith
run_loop-done (suc rounds) s steps h = ground arith

run_loop-running :
    (rounds : ℕ) (s : State) (steps : ℕ)
    → s.halted ≡ false
    → run_loop (suc rounds) s steps ≡ run_loop rounds (vm_step s) (steps + 1)
unfolding run_loop vm_done
run_loop-running rounds s steps h = ground arith

slack-halted : (s : State) → s.halted ≡ true → slack s ≡ 0
slack-halted s h = ap (λ b. if b then 0 else 1) h

slack-running : (s : State) → s.halted ≡ false → slack s ≡ 1
slack-running s h = ap (λ b. if b then 0 else 1) h

Ended-done : (s : State) (steps : ℕ) → s.halted ≡ true → pos 0 ≤ℤ s.fuel → Ended s s steps steps
Ended-done s steps h p = record {
  done = h;
  nonneg = p;
  bounded = omega arith;
  brief = omega int_laws;
  same_prog = refl;
}

Ended-step :
    (s t : State) (steps k : ℕ)
    → s.halted ≡ false
    → Spends s (vm_step s)
    → Ended (vm_step s) t (steps + 1) k
    → Ended s t steps k
Ended-step s t steps k running sp e = record {
  done = e.done;
  nonneg = e.nonneg;
  bounded = omega (arith, e.bounded, sp.bounded);
  brief = elim (Bool-cases (vm_step s).halted) [
    | inl halts ↦
        omega
          (int_laws, e.brief, sp.bounded, slack-halted (vm_step s) halts, slack-running s running)
    | inr goes ↦ omega (
      int_laws,
      e.brief,
      spent_running s (vm_step s) sp goes,
      slack-running (vm_step s) goes,
      slack-running s running,
    )
  ];
  same_prog = e.same_prog ∙ sp.same_prog;
}

run_loop-Ended :
    (rounds : ℕ) (s : State) (steps : ℕ)
    → pos 0 ≤ℤ s.fuel
    → (s.halted ≡ false → pos_part s.fuel + 1 ≤ rounds)
    → (t : State) × (k : ℕ) × (run_loop rounds s steps ≡ ok (t, k)) × Ended s t steps k
run_loop-Ended zero s steps p enough = elim (Bool-cases s.halted) [
  | inl h ↦ (s, steps, run_loop-done zero s steps h, Ended-done s steps h p)
  | inr h ↦ absurd (omega (arith, enough h))
]
run_loop-Ended (suc rounds) s steps p enough = elim (Bool-cases s.halted) [
  | inl h ↦ (s, steps, run_loop-done (suc rounds) s steps h, Ended-done s steps h p)
  | inr h ↦
      let sp = vm_step-Spends s h p in
      let (t, k, e, r) = run_loop-Ended rounds (vm_step s) (steps + 1) sp.nonneg (λ g. omega (
        int_laws,
        spent_running s (vm_step s) sp g,
        neg_part-nonneg (vm_step s).fuel sp.nonneg,
        neg_part-nonneg s.fuel p,
        enough h,
      )) in
      (t, k, run_loop-running rounds s steps h ∙ e, Ended-step s t steps k h sp r)
]

-- With a fuel limit of zero or more `run` returns, for every program and every initial registers:
-- the machine has halted, no fuel is owed, at most the limit is used, the recorded steps are no more
-- than the fuel used, and the program is the one that was given.
pub run_total :
    (program : List Op) (init_regs : Regs) (limit : ℕ)
    → (r : Summary) × (run program init_regs (pos limit) ≡ ok r)
      × (r.final.halted ≡ true)
      × (r.final.prog ≡ program)
      × (pos 0 ≤ℤ r.final.fuel)
      × (pos 0 ≤ℤ r.fuel_used)
      × (r.fuel_used ≤ℤ pos limit)
      × (r.steps ≤ℤ r.fuel_used)
unfolding run seed_state
run_total program init_regs limit =
    let s = seed_state program init_regs (pos limit) in
    let (t, k, e, r) =
      run_loop-Ended (pos_part (pos limit +ℤ pos 2)) s 0 (omega arith) (λ _. omega int_laws) in
    (
      record { final = t; steps = pos k -ℤ pos 1; fuel_used = pos limit -ℤ t.fuel },
      ap (summarise (pos limit)) e,
      r.done,
      r.same_prog,
      r.nonneg,
      omega (int_laws, r.bounded),
      omega (int_laws, r.nonneg),
      omega (int_laws, r.brief),
    )

overdrawn : (n : ℕ) → pos_part (negsuc (suc n) +ℤ pos 2) ≡ 0
unfolding ◌+ℤ◌
overdrawn n = grind int_laws

-- With a fuel limit of -2 or less `run` raises, whatever the program.
pub run_overdrawn :
    (program : List Op) (init_regs : Regs) (n : ℕ)
    → run program init_regs (negsuc (suc n)) ≡ err "fuel accounting invariant violated"
unfolding run run_loop vm_done seed_state
run_overdrawn program init_regs n = rw (overdrawn n)
