-- ===== src/Elenchus/Interrogation.antt =====
-- The interrogation of elenchus/interrogate.py as a whole: it halts, and it accepts a trace exactly when the
-- trace is a derivation of its conclusion.
use mathlib.Core.Path.{subst}
use dentatus.Prelude.{
  ℕ, zero, suc, ◌+◌, ◌≤◌, String, ◌≡◌, refl, sym, ap, ◌∙◌, ◌↔◌, inl, inr, Bool, true, false, Option,
  none, some, List, [], ◌∷◌, ◌++◌, Outcome, ok, err, Outcome-cases, length, length-append,
  get_elem?, arith,
}
use dentatus.Prelude.Int.{ℤ, eqb_ℤ_iff}
use dentatus.Prelude.Eq.{string_eq}
use dentatus.Prelude.Dict.{lookup}
use dentatus.Elenchus.{
  Step, Premise, Produced, val, rel, Facts, Fault, State, make_seed, seed_vals, note, established,
  attempt, step_trace, interrogate, report, verify_trace, rule_name, check_conclusion, finish,
  is_some_of,
}
use dentatus.Elenchus.Derivation.{
  Known, Derivation, ended, stepped, rel_in-Known, attempt-Yields, Yields-attempt,
}

-- A conclusion is absent, or is among the facts.
abbrev pub Concludes : Facts → Option Produced → Type 0
Concludes f none = Unit
Concludes f (some (val x n)) = lookup x f.vals ≡ some n
Concludes f (some (rel lhs op rhs)) = Known lhs op rhs f.rels

is_some_of_iff : (n : ℤ) (o : Option ℤ) → (is_some_of n o ≡ true) ↔ (o ≡ some n)
is_some_of_iff n none = (λ e. cc, λ e. cc)
is_some_of_iff n (some m) = (λ e. ap some ((eqb_ℤ_iff m n).0 e), λ e. (eqb_ℤ_iff m n).1 (cc))

check_conclusion_iff :
    (repr : String → String) (steps : List Step) (f : Facts) (c : Option Produced)
    → (check_conclusion repr steps f c ≡ (true, none)) ↔ Concludes f c
unfolding established
check_conclusion_iff repr steps f none = (λ e. tt, λ e. refl)
check_conclusion_iff repr steps f (some (val x n)) =
    ground (arith, is_some_of_iff n (lookup x f.vals))
check_conclusion_iff repr steps f (some (rel lhs op rhs)) =
    ground (arith, rel_in-Known lhs rhs op f.rels)

abbrev pub initial : List Premise → Facts
initial premises = record { vals = seed_vals [] premises; rels = [] }

module _ (repr : String → String) where
  abbrev running : List Step → ℕ → Facts → State
  running steps k f = record { steps = steps; idx = k; facts = f; fault = none; halted = false }

  abbrev faulted : List Step → ℕ → Facts → Step → String → State
  faulted steps k f s why = record {
    steps = steps;
    idx = k;
    facts = f;
    fault = some (record { step = k; rule = some (rule_name s.rule); reason = why });
    halted = true;
  }

  -- the state in which the interrogation of the steps that are left ends
  abbrev conclude : List Step → ℕ → Facts → Step → Outcome Produced → (Produced → State) → State
  conclude steps k f s (err why) next = faulted steps k f s why
  conclude steps k f s (ok p) next = next p

  final : List Step → ℕ → Facts → List Step → State
  final steps k f [] = record { steps = steps; idx = k; facts = f; fault = none; halted = true }
  final steps k f (s ∷ ss) =
      conclude steps k f s (attempt repr f s) (λ p. final steps (k + 1) (note f p) ss)

  final-ok :
      (steps : List Step) (k : ℕ) (f : Facts) (s : Step) (ss : List Step) {p : Produced}
      → attempt repr f s ≡ ok p
      → final steps k f (s ∷ ss) ≡ final steps (k + 1) (note f p) ss
  unfolding final
  final-ok steps k f s ss a = rw a refl

  final-err :
      (steps : List Step) (k : ℕ) (f : Facts) (s : Step) (ss : List Step) {why : String}
      → attempt repr f s ≡ err why
      → final steps k f (s ∷ ss) ≡ faulted steps k f s why
  unfolding final
  final-err steps k f s ss a = rw a refl

  interrogate_halted :
      (fuel : ℕ) (st : State) → st.halted ≡ true → interrogate repr fuel st ≡ some st
  unfolding interrogate
  interrogate_halted zero st h = rw h refl
  interrogate_halted (suc fuel) st h = rw h refl

  step_trace_end :
      (steps : List Step) (k : ℕ) (f : Facts)
      → get_elem? steps k ≡ none
      → step_trace repr (running steps k f) ≡ final steps k f []
  unfolding step_trace final
  step_trace_end steps k f e = rw e refl

  step_trace_next :
      (steps ss : List Step) (s : Step) (k : ℕ) (f : Facts)
      → get_elem? steps k ≡ some s
      → step_trace repr (running steps k f)
        ≡ conclude steps k f s (attempt repr f s) (λ p. running steps (k + 1) (note f p))
  unfolding step_trace
  step_trace_next steps ss s k f e = elim (Outcome-cases (attempt repr f s)) [
    | inl (p, a) ↦ rw e (rw a refl)
    | inr (why, a) ↦ rw e (rw a refl)
  ]

  interrogate_more :
      (fuel : ℕ) (steps : List Step) (k : ℕ) (f : Facts)
      → interrogate repr (suc fuel) (running steps k f)
        ≡ interrogate repr fuel (step_trace repr (running steps k f))
  unfolding interrogate
  interrogate_more fuel steps k f = refl

  at_end : (pre : List Step) → get_elem? (pre ++ []) (length pre) ≡ none
  at_end [] = refl
  at_end (s ∷ pre) = at_end pre

  at_next : (pre ss : List Step) (s : Step) → get_elem? (pre ++ s ∷ ss) (length pre) ≡ some s
  at_next [] ss s = refl
  at_next (r ∷ pre) ss s = at_next pre ss s

  append_next : (pre ss : List Step) (s : Step) → pre ++ s ∷ ss ≡ (pre ++ s ∷ []) ++ ss
  append_next [] ss s = refl
  append_next (r ∷ pre) ss s = ap (λ (l : List Step). r ∷ l) (append_next pre ss s)

  interrogate-final :
      (fuel : ℕ) (steps pre rest : List Step) (k : ℕ) (f : Facts)
      → steps ≡ pre ++ rest
      → k ≡ length pre
      → length rest + 1 ≤ fuel
      → interrogate repr fuel (running steps k f) ≡ some (final steps k f rest)
  interrogate-final zero steps pre rest k f whole count enough = absurd (omega arith)
  interrogate-final (suc fuel) steps pre [] k f whole count enough =
      interrogate_more fuel steps k f
      ∙ ap (interrogate repr fuel) (step_trace_end steps k f (rw whole (rw count (at_end pre))))
      ∙ interrogate_halted fuel (final steps k f []) (unfold final in refl)
  interrogate-final (suc fuel) steps pre (s ∷ ss) k f whole count enough =
      let here_ : get_elem? steps k ≡ some s = rw whole (rw count (at_next pre ss s)) in
      interrogate_more fuel steps k f
      ∙ ap (interrogate repr fuel) (step_trace_next steps ss s k f here_)
      ∙ elim (Outcome-cases (attempt repr f s)) [
        | inl (p, a) ↦ rw a (
            rw (final-ok steps k f s ss a) (
              interrogate-final fuel steps (pre ++ s ∷ []) ss (k + 1) (note f p)
                (whole ∙ append_next pre ss s) (omega (arith, count, length-append pre (s ∷ [])))
                (omega arith)))
        | inr (why, a) ↦ rw a (
            rw (final-err steps k f s ss a)
              (interrogate_halted fuel (faulted steps k f s why) refl))
      ]

  final-Derivation :
      (steps : List Step) (k : ℕ) (f : Facts) (ss : List Step)
      → (final steps k f ss).fault ≡ none
      → Derivation f ss (final steps k f ss).facts
  final-Derivation steps k f [] e = unfold final in ended f
  final-Derivation steps k f (s ∷ ss) e = elim (Outcome-cases (attempt repr f s)) [
    | inl (p, a) ↦
        let next = final-ok steps k f s ss a in
        let (yields, claims) = attempt-Yields repr f s a in
        rw next (
          stepped f (final steps (k + 1) (note f p) ss).facts s ss p yields claims
            (final-Derivation steps (k + 1) (note f p) ss (rw next at e)))
    | inr (why, a) ↦
        let stopped : (faulted steps k f s why).fault ≡ none =
          rw (final-err steps k f s ss a) at e in
        absurd (cc)
  ]

  Derivation-final :
      (steps : List Step) (k : ℕ) (f g : Facts) (ss : List Step)
      → Derivation f ss g
      → ((final steps k f ss).fault ≡ none) × ((final steps k f ss).facts ≡ g)
  Derivation-final steps k f g [] (ended _) = unfold final in (refl, refl)
  Derivation-final steps k f g (s ∷ ss) (stepped _ _ _ _ p yields claims d) =
      rw (final-ok steps k f s ss (Yields-attempt repr f s p yields claims))
        (Derivation-final steps (k + 1) (note f p) g ss d)

  verify_trace-report :
      (premises : List Premise) (steps : List Step) (conclusion : Option Produced)
      → verify_trace repr premises steps conclusion
        ≡ some (
            report repr steps conclusion
              (final steps 0 (initial premises) steps).facts
              (final steps 0 (initial premises) steps).fault)
  unfolding verify_trace make_seed
  verify_trace-report premises steps conclusion = ap (finish repr steps conclusion) (
      interrogate-final (length steps + 1) steps [] steps 0 (initial premises) refl refl
        (omega arith))

  report_accepts :
      (steps : List Step) (conclusion : Option Produced) (f : Facts) (fault : Option Fault)
      → (some (report repr steps conclusion f fault) ≡ some (true, none))
        ↔ ((fault ≡ none) × Concludes f conclusion)
  report_accepts steps conclusion f (some fault) = (λ e. absurd (cc), λ e. absurd (cc))
  report_accepts steps conclusion f none =
      let iff = check_conclusion_iff repr steps f conclusion in
      (λ e. (refl, iff.0 (cc)), λ (same, holds_). ap some (iff.1 holds_))

  -- The interrogation halts on every trace, and it accepts one exactly when the trace is a derivation
  -- from the premises under the pinned rules whose facts hold the declared conclusion, if there is
  -- one.
  pub verify_trace_iff :
      (premises : List Premise) (steps : List Step) (conclusion : Option Produced)
      → ((r : Bool × Option Fault) × (verify_trace repr premises steps conclusion ≡ some r))
        × ((verify_trace repr premises steps conclusion ≡ some (true, none))
            ↔ ((f : Facts) × Derivation (initial premises) steps f × Concludes f conclusion))
  verify_trace_iff premises steps conclusion =
      let f0 = initial premises in
      let last = final steps 0 f0 steps in
      let accepts = report_accepts steps conclusion last.facts last.fault in
      rw (verify_trace-report premises steps conclusion) (
        (report repr steps conclusion last.facts last.fault, refl),
        (
          λ e.
              let (clean, holds_) = accepts.0 e in
              (last.facts, final-Derivation steps 0 f0 steps clean, holds_),
          λ (f, d, holds_).
              let (clean, same) = Derivation-final steps 0 f0 f steps d in
              accepts.1 (clean, subst (λ g. Concludes g conclusion) (sym same) holds_),
        ),
      )
