-- ===== src/Fuel/Accounting.antt =====
-- The fuel account of one step.
use mathlib.Core.Path.{subst}
use dentatus.Prelude.{
  ◌≡◌, ◌≢◌, ◌⊎◌, refl, sym, ap, inl, inr, true, false, Option, none, some, arith, Bool-cases,
  if◌then◌else◌,
}
use dentatus.Prelude.Int.{ℤ, pos, ◌-ℤ◌, ◌≤ℤ◌, ltb_ℤ, int_laws}
use dentatus.Fuel.{Op, unknown, set, State, cost, exec, charge, attempt, fetch, vm_step}

-- From `s` to `s'` no fuel appears and it stays at zero or more, and at least one unit is spent
-- unless `s'` has halted.
pub record Spends (s s' : State) : Type 0 where
  pub nonneg : pos 0 ≤ℤ s'.fuel
  pub bounded : s'.fuel ≤ℤ s.fuel
  pub spent : (s'.halted ≡ true) ⊎ (pos 1 ≤ℤ s.fuel -ℤ s'.fuel)
  pub same_prog : s'.prog ≡ s.prog

pub spent_running : (s s' : State) → Spends s s' → s'.halted ≡ false → pos 1 ≤ℤ s.fuel -ℤ s'.fuel
spent_running s s' sp running = elim sp.spent [ inl stops ↦ absurd (cc) | inr e ↦ e ]

abbrev Affords : ℤ → State → Type 0
Affords c s = (pos 1 ≤ℤ c) × (c ≤ℤ s.fuel)

-- A state that differs from `s` in fuel alone, of what matters here, has spent what it was charged.
charged :
    (c : ℤ) (s s' : State) → Affords c s → s'.fuel ≡ s.fuel -ℤ c → s'.prog ≡ s.prog → Spends s s'
charged c s s' h e same = record {
  nonneg = rw e (omega int_laws);
  bounded = rw e (omega int_laws);
  spent = inr (rw e (omega int_laws));
  same_prog = same;
}

exec-fuel :
    (op : Op) (fuel : ℤ) (s : State)
    → cost op ≢ none
    → ((exec op fuel s).fuel ≡ fuel) × ((exec op fuel s).prog ≡ s.prog)
unfolding exec cost
exec-fuel (set r x) fuel s known = (refl, refl)
exec-fuel (unknown code) fuel s known = absurd (known refl)
exec-fuel op fuel s known = ground arith

cost_pos : (op : Op) (c : ℤ) → cost op ≡ some c → pos 1 ≤ℤ c
unfolding cost
cost_pos (set r x) c e = ground arith
cost_pos op c e = ground arith

stopped :
    (s s' : State)
    → pos 0 ≤ℤ s.fuel
    → s'.fuel ≡ s.fuel
    → s'.halted ≡ true
    → s'.prog ≡ s.prog
    → Spends s s'
stopped s s' h e done same = record {
  nonneg = rw e h;
  bounded = rw e (omega arith);
  spent = inl done;
  same_prog = same;
}

charge-Spends :
    (price : Option ℤ) (op : Op) (s : State)
    → cost op ≡ price
    → pos 0 ≤ℤ s.fuel
    → Spends s (charge price op s)
unfolding charge
charge-Spends none op s e h = stopped s _ h refl refl refl
charge-Spends (some c) op s e h = elim (Bool-cases (ltb_ℤ s.fuel c)) [
  | inl short ↦ rw short (stopped s _ h refl refl refl)
  | inr enough ↦ rw enough (
      let known : cost op ≢ none = λ k. cc in
      let (f, p) = exec-fuel op (s.fuel -ℤ c) s known in
      charged c s _ (cost_pos op c e, ground arith) f p)
]

attempt-Spends : (o : Option Op) (s : State) → pos 0 ≤ℤ s.fuel → Spends s (attempt o s)
unfolding attempt
attempt-Spends none s h = stopped s _ h refl refl refl
attempt-Spends (some op) s h = charge-Spends (cost op) op s refl h

pub vm_step-attempt : (s : State) → s.halted ≡ false → vm_step s ≡ attempt (fetch s) s
unfolding vm_step
vm_step-attempt s running = ap (λ b. if b then s else attempt (fetch s) s) running

-- A step of a machine that has not halted, with fuel at zero or more, spends fuel or halts.
pub vm_step-Spends : (s : State) → s.halted ≡ false → pos 0 ≤ℤ s.fuel → Spends s (vm_step s)
vm_step-Spends s running h =
    subst (Spends s) (sym (vm_step-attempt s running)) (attempt-Spends (fetch s) s h)
