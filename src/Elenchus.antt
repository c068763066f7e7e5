-- ===== src/Elenchus.antt =====
-- elenchus/interrogate.py: the verifier of reasoning traces. A step is what `step_trace` reads of its dict:
-- the cited rule with its arguments, which are there and of the right kind, and the claim as it
-- stands. `repr` is Python's on texts.
pub mod Derivation
pub mod Interrogation
use dentatus.Prelude.{
  ℕ, zero, suc, ◌+◌, String, Bool, true, false, not, Option, none, some, List, [], ◌∷◌, ◌++◌, ◌&&◌,
  ◌||◌, Outcome, ok, err, ◌>>=◌, if◌then◌else◌, length, get_elem?,
}
use dentatus.Prelude.Int.{ℤ, pos, ◌+ℤ◌, ◌-ℤ◌, ◌*ℤ◌, ltb_ℤ, eqb_ℤ, floor_div, floor_mod}
use dentatus.Prelude.Eq.{◌≟◌, string_eq}
use dentatus.Prelude.Dict.{Dict, lookup, insert}
use dentatus.Chronicle.Value.{Value, str, int, dict, field, end}
use dentatus.Chronicle.Canonical.{◌^^◌, show_int, canonical_bytes}

-- an immediate number or a register's name
pub data Operand : Type 0 where
  num : ℤ → Operand
  reg : String → Operand

pub data ArithOp : Type 0 where
  add sub mul : ArithOp

pub data Rule : Type 0 where
  premise : String → ℤ → Rule
  collatz : Operand → String → Rule
  arithmetic : ArithOp → Operand → Operand → String → Rule
  comparison : Operand → Operand → String → Rule
  transitivity : String → Operand → Operand → Operand → Rule
  unknown : String → Rule

pub record Step : Type 0 where
  pub rule : Rule
  pub claim : Value

pub record Premise : Type 0 where
  pub var : String
  pub val : ℤ

-- a relation's left side, operator and right side
abbrev pub Rel : Type 0
Rel = Operand × String × Operand

-- what a rule gives, and what a conclusion claims
pub data Produced : Type 0 where
  val : String → ℤ → Produced
  rel : Operand → String → Operand → Produced

pub record Facts : Type 0 where
  pub vals : Dict String ℤ
  pub rels : List Rel

pub record Fault : Type 0 where
  pub step : ℕ
  pub rule : Option String
  pub reason : String

pub record State : Type 0 where
  pub steps : List Step
  pub idx : ℕ
  pub facts : Facts
  pub fault : Option Fault
  pub halted : Bool

abbrev pub operand_value : Operand → Value
operand_value (num n) = int n
operand_value (reg x) = str x

unfoldable pub produced_value : Produced → Value
produced_value (val x n) =
    dict (field "kind" (str "val") (field "var" (str x) (field "val" (int n) end)))
produced_value (rel lhs op rhs) = dict (
    field "kind" (str "rel")
      (field "lhs" (operand_value lhs) (field "op" (str op) (field "rhs" (operand_value rhs) end))))

abbrev pub arith_name : ArithOp → String
arith_name add = "add"
arith_name sub = "sub"
arith_name mul = "mul"

abbrev pub rule_name : Rule → String
rule_name (premise x n) = "premise"
rule_name (collatz src dst) = "collatz"
rule_name (arithmetic op a b dst) = arith_name op
rule_name (comparison lhs rhs op) = "compare"
rule_name (transitivity op a b c) = "transitivity"
rule_name (unknown name) = name

unfoldable pub seed_vals : Dict String ℤ → List Premise → Dict String ℤ
seed_vals vals [] = vals
seed_vals vals (p ∷ ps) = seed_vals (insert p.var p.val vals) ps

unfoldable pub make_seed : List Premise → List Step → State
unfolding seed_vals
make_seed premises steps = record {
  steps = steps;
  idx = 0;
  facts = record { vals = seed_vals [] premises; rels = [] };
  fault = none;
  halted = false;
}

-- `_resolve`
unfoldable pub resolve : Operand → Dict String ℤ → Option ℤ
resolve (num n) vals = some n
resolve (reg x) vals = lookup x vals

unfoldable pub same_operand : Operand → Operand → Bool
same_operand (num a) (num b) = eqb_ℤ a b
same_operand (reg x) (reg y) = x ≟ y
same_operand _ _ = false

-- `[a, op, b] in rels`
unfoldable pub rel_in : Operand → String → Operand → List Rel → Bool
unfolding same_operand
rel_in a op b [] = false
rel_in a op b ((l, o, r) ∷ rels) =
    (same_operand l a && o ≟ op && same_operand r b) || rel_in a op b rels

-- the compressed step of `syracuse.step`
unfoldable pub collatz_step : ℤ → ℤ
collatz_step v =
    if eqb_ℤ (floor_mod v (pos 2)) (pos 0)
    then floor_div v (pos 2)
    else floor_div (pos 3 *ℤ v +ℤ pos 1) (pos 2)

unfoldable pub compute : ArithOp → ℤ → ℤ → ℤ
compute add x y = x +ℤ y
compute sub x y = x -ℤ y
compute mul x y = x *ℤ y

unfoldable pub holds : String → ℤ → ℤ → Bool
holds op x y = (op ≟ "<" && ltb_ℤ x y) || (op ≟ "=" && eqb_ℤ x y) || (op ≟ ">" && ltb_ℤ y x)

abbrev pub note : Facts → Produced → Facts
note f (val x n) = record f { vals = insert x n f.vals }
note f (rel lhs op rhs) = record f { rels = f.rels ++ (lhs, op, rhs) ∷ [] }

-- `_established`
abbrev pub is_some_of : ℤ → Option ℤ → Bool
is_some_of n none = false
is_some_of n (some m) = eqb_ℤ m n

unfoldable pub established : Facts → Produced → Bool
unfolding rel_in
established f (val x n) = is_some_of n (lookup x f.vals)
established f (rel lhs op rhs) = rel_in lhs op rhs f.rels

abbrev pub text_of : Operand → String
text_of (num n) = show_int n
text_of (reg x) = x

module _ (repr : String → String) where
  abbrev pub repr_of : Operand → String
  repr_of (num n) = show_int n
  repr_of (reg x) = repr x

  abbrev pub on_collatz : Operand → String → Option ℤ → Outcome Produced
  on_collatz src dst none = err ("GAP: collatz cites unestablished var " ^^ repr_of src)
  on_collatz src dst (some v) = ok (val dst (collatz_step v))

  abbrev pub on_arithmetic : ArithOp → String → Option ℤ → Option ℤ → Outcome Produced
  on_arithmetic op dst (some x) (some y) = ok (val dst (compute op x y))
  on_arithmetic op dst (some x) none = err ("GAP: " ^^ arith_name op ^^ " operand not established")
  on_arithmetic op dst none y = err ("GAP: " ^^ arith_name op ^^ " operand not established")

  abbrev pub on_comparison : Operand → Operand → String → Option ℤ → Option ℤ → Outcome Produced
  on_comparison lhs rhs op (some x) (some y) =
      if holds op x y
      then ok (rel lhs op rhs)
      else err (
          "FABRICATED: asserted "
          ^^ repr_of lhs
          ^^ " "
          ^^ op
          ^^ " "
          ^^ repr_of rhs
          ^^ " does not hold")
  on_comparison lhs rhs op (some x) none = err "GAP: comparison operand not established"
  on_comparison lhs rhs op none y = err "GAP: comparison operand not established"

  -- what the cited rule gives, or the fault
  unfoldable pub apply_rule : Facts → Rule → Outcome Produced
  unfolding resolve collatz_step compute holds rel_in
  apply_rule f (premise x n) = ok (val x n)
  apply_rule f (collatz src dst) = on_collatz src dst (resolve src f.vals)
  apply_rule f (arithmetic op a b dst) = on_arithmetic op dst (resolve a f.vals) (resolve b f.vals)
  apply_rule f (comparison lhs rhs op) =
      on_comparison lhs rhs op (resolve lhs f.vals) (resolve rhs f.vals)
  apply_rule f (transitivity op a b c) =
      if not (rel_in a op b f.rels) || not (rel_in b op c f.rels)
      then err (
          "GAP: transitivity premise ("
          ^^ text_of a
          ^^ " "
          ^^ op
          ^^ " "
          ^^ text_of b
          ^^ ") or ("
          ^^ text_of b
          ^^ " "
          ^^ op
          ^^ " "
          ^^ text_of c
          ^^ ") not established")
      else ok (rel a op c)
  apply_rule f (unknown name) = err ("UNKNOWN_RULE " ^^ repr name)

  -- the comparison of the rule's output with the claim
  abbrev pub check_claim : Value → Produced → Outcome Produced
  check_claim claim p =
      if not (canonical_bytes (produced_value p) ≟ canonical_bytes claim)
      then err "FABRICATED: asserted claim does not equal the rule's output"
      else ok p

  unfoldable pub attempt : Facts → Step → Outcome Produced
  unfolding apply_rule
  attempt f s = apply_rule f s.rule >>= check_claim s.claim

  abbrev pub settle : State → Step → Outcome Produced → State
  settle st s (err why) = record st {
    halted = true;
    fault = some (record { step = st.idx; rule = some (rule_name s.rule); reason = why });
  }
  settle st s (ok p) = record st {
    idx = st.idx + 1;
    facts = note st.facts p;
    fault = none;
    halted = false;
  }

  abbrev pub advance : State → Option Step → State
  advance st none = record st { halted = true }
  advance st (some s) = settle st s (attempt st.facts s)

  unfoldable pub step_trace : State → State
  unfolding attempt
  step_trace st = if st.halted then st else advance st (get_elem? st.steps st.idx)

  abbrev pub done : State → Bool
  done st = st.halted

  -- the loop `while not done(state)`; `none` means that the fuel ran out
  unfoldable pub interrogate : ℕ → State → Option State
  unfolding step_trace
  interrogate zero st = if done st then some st else none
  interrogate (suc fuel) st =
      let rest = interrogate fuel (step_trace st) in if done st then some st else rest

  abbrev pub check_conclusion : List Step → Facts → Option Produced → Bool × Option Fault
  check_conclusion steps f none = (true, none)
  check_conclusion steps f (some c) =
      if not (established f c)
      then (
        false,
        some (record {
          step = length steps;
          rule = none;
          reason = "INCOMPLETE: declared conclusion not derived";
        }),
      )
      else (true, none)

  abbrev pub report : List Step → Option Produced → Facts → Option Fault → Bool × Option Fault
  report steps conclusion f (some fault) = (false, some fault)
  report steps conclusion f none = check_conclusion steps f conclusion

  abbrev pub finish : List Step → Option Produced → Option State → Option (Bool × Option Fault)
  finish steps conclusion none = none
  finish steps conclusion (some st) = some (report steps conclusion st.facts st.fault)

  -- a trace of n steps halts within n + 1 rounds
  unfoldable pub verify_trace :
      List Premise → List Step → Option Produced → Option (Bool × Option Fault)
  unfolding interrogate make_seed established
  verify_trace premises steps conclusion =
      finish steps conclusion (interrogate (length steps + 1) (make_seed premises steps))
