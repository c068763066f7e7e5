-- ===== src/Elenchus/Derivation.antt =====
-- What a derivation under the pinned rules is, in words of its own, and that the interrogation of
-- elenchus/interrogate.py accepts exactly the traces that are one.
use mathlib.Core.Path.{subst}
use dentatus.Prelude.{
  String, ◌≡◌, refl, ap, ◌↔◌, ◌⊎◌, inl, inr, true, Bool-cases, Option, none, some, List, [], ◌∷◌,
  ok, >>=-eq-ok, arith, ◌&&◌,
}
use dentatus.Prelude.Int.{ℤ, ltb_ℤ, eqb_ℤ_iff}
use dentatus.Prelude.Eq.{◌≟◌, string_eq}
use dentatus.Prelude.Dict.{Dict, lookup}
use dentatus.Chronicle.Canonical.{canonical_bytes}
use dentatus.Elenchus.{
  Operand, num, reg, ArithOp, Rule, premise, collatz, arithmetic, comparison, transitivity, unknown,
  Step, Rel, Produced, val, rel, Facts, produced_value, resolve, same_operand, rel_in, collatz_step,
  compute, holds, note, apply_rule, check_claim, attempt, on_collatz, on_arithmetic, on_comparison,
}

-- the number that an operand stands for
abbrev pub Denotes : Dict String ℤ → Operand → ℤ → Type 0
Denotes vals (num n) v = n ≡ v
Denotes vals (reg x) v = lookup x vals ≡ some v

abbrev pub Known : Operand → String → Operand → List Rel → Type 0
Known a op b [] = ⊥
Known a op b (r ∷ rels) = (r ≡ (a, op, b)) ⊎ Known a op b rels

abbrev pub Holds : String → ℤ → ℤ → Type 0
Holds op x y =
    ((op ≡ "<") × (ltb_ℤ x y ≡ true)) ⊎ ((op ≡ "=") × (x ≡ y)) ⊎ ((op ≡ ">") × (ltb_ℤ y x ≡ true))

-- a rule gives a fact from those that are established
pub data Yields (f : Facts) : Rule → Produced → Type 0 where
  by_premise : (x : String) (n : ℤ) → Yields f (premise x n) (val x n)
  by_collatz :
      (src : Operand) (dst : String) (v : ℤ)
      → Denotes f.vals src v
      → Yields f (collatz src dst) (val dst (collatz_step v))
  by_arithmetic :
      (op : ArithOp) (a b : Operand) (dst : String) (x y : ℤ)
      → Denotes f.vals a x
      → Denotes f.vals b y
      → Yields f (arithmetic op a b dst) (val dst (compute op x y))
  by_comparison :
      (lhs rhs : Operand) (op : String) (x y : ℤ)
      → Denotes f.vals lhs x
      → Denotes f.vals rhs y
      → Holds op x y
      → Yields f (comparison lhs rhs op) (rel lhs op rhs)
  by_transitivity :
      (op : String) (a b c : Operand)
      → Known a op b f.rels
      → Known b op c f.rels
      → Yields f (transitivity op a b c) (rel a op c)

-- each step's rule gives, from the facts before it, just what the step claims
pub data Derivation : Facts → List Step → Facts → Type 0 where
  ended : (f : Facts) → Derivation f [] f
  stepped :
      (f g : Facts) (s : Step) (ss : List Step) (p : Produced)
      → Yields f s.rule p
      → canonical_bytes (produced_value p) ≡ canonical_bytes s.claim
      → Derivation (note f p) ss g
      → Derivation f (s ∷ ss) g

resolve-Denotes :
    (vals : Dict String ℤ) (o : Operand) (v : ℤ) → (resolve o vals ≡ some v) ↔ Denotes vals o v
unfolding resolve
resolve-Denotes vals (num n) v = (λ e. cc, λ e. ap some e)
resolve-Denotes vals (reg x) v = (λ e. e, λ e. e)

same_operand_iff : (a b : Operand) → (same_operand a b ≡ true) ↔ (a ≡ b)
unfolding same_operand
same_operand_iff (num a) (num b) = (λ e. ap num ((eqb_ℤ_iff a b).0 e), λ e. (eqb_ℤ_iff a b).1 (cc))
same_operand_iff (reg x) (reg y) =
    (λ e. ap reg ((string_eq.decides x y).0 e), λ e. (string_eq.decides x y).1 (cc))
same_operand_iff (num a) (reg y) = (λ e. cc, λ e. cc)
same_operand_iff (reg x) (num b) = (λ e. cc, λ e. cc)

same_rel_iff :
    (l r a b : Operand) (o op : String)
    → ((same_operand l a && o ≟ op && same_operand r b) ≡ true) ↔ ◌≡◌ {A = Rel} (l, o, r) (a, op, b)
same_rel_iff l r a b o op =
    ground (arith, same_operand_iff l a, same_operand_iff r b, string_eq.decides o op)

pub rel_in-Known :
    (a b : Operand) (op : String) (rels : List Rel)
    → (rel_in a op b rels ≡ true) ↔ Known a op b rels
unfolding rel_in
rel_in-Known a b op [] = (λ e. cc, λ e. absurd e)
rel_in-Known a b op ((l, o, r) ∷ rels) =
    ground (arith, same_rel_iff l r a b o op, rel_in-Known a b op rels)

holds-Holds : (op : String) (x y : ℤ) → (holds op x y ≡ true) ↔ Holds op x y
unfolding holds
holds-Holds op x y = ground (
  arith,
  string_eq.decides op "<",
  string_eq.decides op "=",
  string_eq.decides op ">",
  eqb_ℤ_iff x y,
)

module _ (repr : String → String) where
  moved : {f : Facts} {r : Rule} {p q : Produced} → Yields f r p → ok p ≡ ok q → Yields f r q
  moved {f} {r} y e = subst (Yields f r) (cc) y

  module _ (f : Facts) {p : Produced} where
    collatz-Yields :
        (src : Operand) (dst : String) (o : Option ℤ)
        → resolve src f.vals ≡ o
        → on_collatz repr src dst o ≡ ok p
        → Yields f (collatz src dst) p
    collatz-Yields src dst none found e = absurd (cc)
    collatz-Yields src dst (some v) found e =
        moved (by_collatz src dst v ((resolve-Denotes f.vals src v).0 found)) e

    arithmetic-Yields :
        (op : ArithOp) (a b : Operand) (dst : String) (m n : Option ℤ)
        → resolve a f.vals ≡ m
        → resolve b f.vals ≡ n
        → on_arithmetic repr op dst m n ≡ ok p
        → Yields f (arithmetic op a b dst) p
    arithmetic-Yields op a b dst none n left right e = absurd (cc)
    arithmetic-Yields op a b dst (some x) none left right e = absurd (cc)
    arithmetic-Yields op a b dst (some x) (some y) left right e =
        moved
          (by_arithmetic op a b dst x y ((resolve-Denotes f.vals a x).0 left)
            ((resolve-Denotes f.vals b y).0 right))
          e

    comparison-Yields :
        (lhs rhs : Operand) (op : String) (m n : Option ℤ)
        → resolve lhs f.vals ≡ m
        → resolve rhs f.vals ≡ n
        → on_comparison repr lhs rhs op m n ≡ ok p
        → Yields f (comparison lhs rhs op) p
    comparison-Yields lhs rhs op none n left right e = absurd (cc)
    comparison-Yields lhs rhs op (some x) none left right e = absurd (cc)
    comparison-Yields lhs rhs op (some x) (some y) left right e = elim (Bool-cases (holds op x y)) [
      | inl true_ ↦
          moved
            (by_comparison lhs rhs op x y ((resolve-Denotes f.vals lhs x).0 left)
              ((resolve-Denotes f.vals rhs y).0 right) ((holds-Holds op x y).0 true_))
            (rw true_ at e)
      | inr false_ ↦ let refused : _ = rw false_ at e in absurd (cc)
    ]

    apply_rule-Yields : (r : Rule) → apply_rule repr f r ≡ ok p → Yields f r p
    unfolding apply_rule
    apply_rule-Yields (premise x n) e = moved (by_premise x n) e
    apply_rule-Yields (collatz src dst) e = collatz-Yields src dst _ refl e
    apply_rule-Yields (arithmetic op a b dst) e = arithmetic-Yields op a b dst _ _ refl refl e
    apply_rule-Yields (comparison lhs rhs op) e = comparison-Yields lhs rhs op _ _ refl refl e
    apply_rule-Yields (transitivity op a b c) e = elim (Bool-cases (rel_in a op b f.rels)) [
      | inl left ↦ elim (Bool-cases (rel_in b op c f.rels)) [
        | inl right ↦
            moved
              (by_transitivity op a b c ((rel_in-Known a b op f.rels).0 left)
                ((rel_in-Known b c op f.rels).0 right))
              (rw left at (rw right at e))
        | inr gap ↦ absurd (ground arith)
      ]
      | inr gap ↦ absurd (ground arith)
    ]
    apply_rule-Yields (unknown name) e = absurd (cc)

  Yields-apply_rule :
      (f : Facts) (r : Rule) (p : Produced) → Yields f r p → apply_rule repr f r ≡ ok p
  unfolding apply_rule
  Yields-apply_rule f r p (by_premise x n) = refl
  Yields-apply_rule f r p (by_collatz src dst v d) = rw ((resolve-Denotes f.vals src v).1 d) refl
  Yields-apply_rule f r p (by_arithmetic op a b dst x y d e) =
      rw ((resolve-Denotes f.vals a x).1 d) (rw ((resolve-Denotes f.vals b y).1 e) refl)
  Yields-apply_rule f r p (by_comparison lhs rhs op x y d e h) =
      rw ((resolve-Denotes f.vals lhs x).1 d)
        (rw ((resolve-Denotes f.vals rhs y).1 e) (rw ((holds-Holds op x y).1 h) refl))
  Yields-apply_rule f r p (by_transitivity op a b c k l) =
      rw ((rel_in-Known a b op f.rels).1 k) (rw ((rel_in-Known b c op f.rels).1 l) refl)

  claimed :
      (s : Step) (p q : Produced)
      → check_claim repr s.claim p ≡ ok q
      → (p ≡ q) × (canonical_bytes (produced_value p) ≡ canonical_bytes s.claim)
  claimed s p q e =
      ground
        (arith, string_eq.decides (canonical_bytes (produced_value p)) (canonical_bytes s.claim))

  pub attempt-Yields :
      (f : Facts) (s : Step) {p : Produced}
      → attempt repr f s ≡ ok p
      → Yields f s.rule p × (canonical_bytes (produced_value p) ≡ canonical_bytes s.claim)
  unfolding attempt
  attempt-Yields f s {p} e =
      let (q, applies, checks) = >>=-eq-ok (apply_rule repr f s.rule) _ e in
      let (same, claims) = claimed s q p checks in
      rw (← same) (apply_rule-Yields f s.rule applies, claims)

  pub Yields-attempt :
      (f : Facts) (s : Step) (p : Produced)
      → Yields f s.rule p
      → canonical_bytes (produced_value p) ≡ canonical_bytes s.claim
      → attempt repr f s ≡ ok p
  unfolding attempt
  Yields-attempt f s p y c = rw (Yields-apply_rule f s.rule p y) (
      rw ((string_eq.decides (canonical_bytes (produced_value p)) (canonical_bytes s.claim)).1 c)
        refl)
