-- ===== src/Airlock/Conformance/RoundTrip.antt =====
-- A vector conforms to the kernel that it was made with.
use dentatus.Prelude.{
  unless_differ, ℕ, suc, String, ◌≡◌, refl, ap, ◌∙◌, Bool, true, false, Option, none, some, List,
  [], ◌∷◌, ◌++◌, Outcome, ok, err, ◌>>=◌, >>=-eq-ok, if◌then◌else◌, not,
}
use dentatus.Prelude.Eq.{◌≟◌, string_eq, beq_refl}
use dentatus.Chronicle.Value.{or_empty-or_empty, or_empty, or_none, Value, Fields}
use dentatus.Airlock.Adapter.{Adapter}
use dentatus.Airlock.Membrane.{head, empty_ledger, Ledger}
use dentatus.Airlock.Propose.{propose}
use dentatus.Airlock.Conformance.{
  complete, diverges, equal_gates, Trace, Vector, run_from, run_sequence, make_vector,
  compare_trace, verify_vector, vector_of, plain, verdict_gate, advance, prepend, diverged,
}

equal_gates_refl : (gs : List String) → equal_gates gs gs ≡ true
unfolding equal_gates
equal_gates_refl [] = refl
equal_gates_refl (g ∷ gs) = rw (beq_refl g) (equal_gates_refl gs)

complete-or_empty :
    (budget constraints : Option Value) (p : Fields)
    → complete (some (or_empty budget)) constraints p ≡ complete budget constraints p
unfolding complete
complete-or_empty budget none p = rw (or_empty-or_empty budget) refl
complete-or_empty budget (some c) p = rw (or_empty-or_empty budget) refl

both : (b x : Bool) → (if b then x else false) ≡ true → (b ≡ true) × (x ≡ true)
both true x e = (refl, e)
both false x e = cc

equal_gates-eq : (gs vs : List String) → equal_gates gs vs ≡ true → gs ≡ vs
unfolding equal_gates
equal_gates-eq [] [] e = refl
equal_gates-eq [] (v ∷ vs) e = cc
equal_gates-eq (g ∷ gs) [] e = cc
equal_gates-eq (g ∷ gs) (v ∷ vs) e =
    let (yes_, rest) = both (g ≟ v) (equal_gates gs vs) e in
    rw ((string_eq.decides g v).0 yes_, equal_gates-eq gs vs rest) refl

equal_gates-longer :
    (gs : List String) (v : String) (vs : List String) → equal_gates gs (gs ++ v ∷ vs) ≡ false
unfolding equal_gates
equal_gates-longer [] v vs = refl
equal_gates-longer (g ∷ gs) v vs = rw (beq_refl g) (equal_gates-longer gs v vs)

diverges-longer :
    (i : ℕ) (gs : List String) (v : String) (vs : List String) → diverges i gs (gs ++ v ∷ vs) ≡ none
unfolding diverges
diverges-longer i [] v vs = refl
diverges-longer i (g ∷ gs) v vs = rw (beq_refl g) (diverges-longer (suc i) gs v vs)

unless_diverged :
    (b : Bool) (o : Option ℕ) (next : Outcome (Bool × String)) {d : String}
    → (if not b then diverged o else next) ≡ ok (true, d)
    → (b ≡ true) × (next ≡ ok (true, d))
unless_diverged true o next e = (refl, e)
unless_diverged false none next e = cc
unless_diverged false (some i) next {d} e = cc

bind_cong :
    {A B : Type 0} (m : Outcome A) (f g : A → Outcome B)
    → ((a : A) → f a ≡ g a)
    → (m >>= f) ≡ (m >>= g)
bind_cong (err why) f g h = refl
bind_cong (ok a) f g h = h a

module _ (sha256 : String → String) (repr : Value → String) (A : Adapter) where
  run_from-or_empty :
      (world : A.World) (ledger : Ledger) (ps : List Fields) (budget constraints : Option Value)
      → run_from sha256 repr A world ledger ps (some (or_empty budget)) constraints
        ≡ run_from sha256 repr A world ledger ps budget constraints
  unfolding run_from
  run_from-or_empty world ledger [] budget constraints = refl
  run_from-or_empty world ledger (p ∷ ps) budget constraints =
      rw (complete-or_empty budget constraints p) (
        bind_cong
          (propose sha256 repr A (plain sha256 repr A) world (complete budget constraints p) ledger)
          _ _
          (λ d.
            ap (prepend sha256 repr A (verdict_gate d.0))
              (run_from-or_empty (advance world d.0) d.1 ps budget constraints)))

  compare_trace-vector_of :
      (name : String) (world : A.World) (ps : List Fields) (budget constraints : Option Value)
      (t : Trace sha256 repr A)
      → compare_trace sha256 repr A (vector_of sha256 repr A name world ps budget constraints t) t
        ≡ ok (true, "conformant")
  unfolding compare_trace
  compare_trace-vector_of name world ps budget constraints t =
      rw (equal_gates_refl t.gates, beq_refl (head t.ledger), beq_refl (A.state_hash t.world)) refl

  -- A vector that `make_vector` returns conforms to the kernel it was made with, where the constraints
  -- were absent or are not empty.
  pub verify_vector-make_vector :
      (name : String) (world0 : A.World) (proposals : List Fields)
      (budget constraints : Option Value) {vector : Vector sha256 repr A}
      → or_none (or_empty constraints) ≡ constraints
      → make_vector sha256 repr A name world0 proposals budget constraints ≡ ok vector
      → verify_vector sha256 repr A vector ≡ ok (true, "conformant")
  unfolding make_vector verify_vector run_sequence
  verify_vector-make_vector name world0 proposals budget constraints {vector} settled e =
      let (t, ran, made) =
        >>=-eq-ok (run_from sha256 repr A world0 empty_ledger proposals budget constraints) _ e in
      let v = vector_of sha256 repr A name world0 proposals budget constraints t in
      let same : v ≡ vector = cc in
      let again : run_from sha256 repr A world0 empty_ledger proposals (some (or_empty budget))
            (or_none (or_empty constraints))
          ≡ ok t =
        ap (run_from sha256 repr A world0 empty_ledger proposals (some (or_empty budget))) settled
        ∙ run_from-or_empty world0 empty_ledger proposals budget constraints
        ∙ ran in
      rw (← same) (rw again (compare_trace-vector_of name world0 proposals budget constraints t))

  -- What the kernel made of a vector's proposals is what the vector says.
  pub record Conforms (vector : Vector sha256 repr A) (t : Trace sha256 repr A) : Type 0 where
    pub same_gates : t.gates ≡ vector.gates
    pub same_head : head t.ledger ≡ vector.ledger_head
    pub same_world : A.state_hash t.world ≡ vector.final_world_hash

  compare_trace-Conforms :
      (vector : Vector sha256 repr A) (t : Trace sha256 repr A) {d : String}
      → compare_trace sha256 repr A vector t ≡ ok (true, d)
      → Conforms vector t
  unfolding compare_trace
  compare_trace-Conforms vector t e =
      let (a, e1) = unless_diverged (equal_gates t.gates vector.gates) _ _ e in
      let (b, e2) = unless_differ (head t.ledger ≟ vector.ledger_head) _ _ e1 in
      let (c, e3) = unless_differ (A.state_hash t.world ≟ vector.final_world_hash) _ _ e2 in
      record {
        same_gates = equal_gates-eq t.gates vector.gates a;
        same_head = (string_eq.decides _ _).0 b;
        same_world = (string_eq.decides _ _).0 c;
      }

  -- A vector that is found conformant has a run of the kernel with its gates, its ledger head and its
  -- final world hash.
  pub verify_vector-Conforms :
      (vector : Vector sha256 repr A) {d : String}
      → verify_vector sha256 repr A vector ≡ ok (true, d)
      → (t : Trace sha256 repr A) × (run_sequence sha256 repr A vector.world0 vector.proposals
            (some vector.budget)
            (or_none vector.constraints)
          ≡ ok t)
        × Conforms vector t
  unfolding verify_vector
  verify_vector-Conforms vector e =
      let (t, ran, compared) =
        >>=-eq-ok
          (run_sequence sha256 repr A vector.world0 vector.proposals (some vector.budget)
            (or_none vector.constraints))
          (compare_trace sha256 repr A vector) e in
      (t, ran, compare_trace-Conforms vector t compared)

  -- A vector that claims all the gates of the run and at least one more is not reported as diverged:
  -- the search for the first difference raises.
  pub verify_vector_longer :
      (vector : Vector sha256 repr A) (t : Trace sha256 repr A) (g : String) (gs : List String)
      → run_sequence sha256 repr A vector.world0 vector.proposals
          (some vector.budget)
          (or_none vector.constraints)
        ≡ ok t
      → vector.gates ≡ t.gates ++ g ∷ gs
      → verify_vector sha256 repr A vector ≡ err "StopIteration"
  unfolding verify_vector compare_trace
  verify_vector_longer vector t g gs ran more =
      rw (ran, more, equal_gates-longer t.gates g gs, diverges-longer 0 t.gates g gs) refl
