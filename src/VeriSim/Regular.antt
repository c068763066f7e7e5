-- ===== src/VeriSim/Regular.antt =====
-- The steps of VeriSim/scenarios.py keep a canonical state canonical.
use dentatus.VeriSim.Fields.{HasKey, get-HasKey, HasKey-put, canon-put}
use mathlib.Core.Path.{subst}
use dentatus.Prelude.Int.{ℤ}
use dentatus.Prelude.{
  String, ◌≡◌, refl, ap, inl, inr, Bool, true, false, Bool-cases, Option, none, some, if◌then◌else◌,
}
use dentatus.Prelude.Eq.{◌≟◌, string_eq}
use dentatus.Chronicle.Value.{Value, int, bool, get}
use dentatus.Chronicle.Canonical.{canon}
use dentatus.VeriSim.Scenarios.{
  Motion, put, integer, flag, then_, read_motion, write_motion, brake, throw, on_motion, brake_step,
  projectile_step, Scenario, registry,
}

then_-eq-some :
    {A B : Type 0}
    → (o : Option A) (f : A → Option B) {b : B} → then_ o f ≡ some b
    → (a : A) × ((o ≡ some a) × (f a ≡ some b))
then_-eq-some none f e = cc
then_-eq-some (some a) f e = (a, (refl, e))

integer-HasKey :
    (k : String) (state : Value) {n : ℤ} → integer (get k state) ≡ some n → HasKey k state
integer-HasKey k state {n} e = has (get k state) refl e
  where
    has : (o : Option Value) → get k state ≡ o → integer o ≡ some n → HasKey k state
    has none g e2 = cc
    has (some x) g e2 = get-HasKey k state g

flag-HasKey : (k : String) (state : Value) {b : Bool} → flag (get k state) ≡ some b → HasKey k state
flag-HasKey k state {b} e = has (get k state) refl e
  where
    has : (o : Option Value) → get k state ≡ o → flag o ≡ some b → HasKey k state
    has none g e2 = cc
    has (some x) g e2 = get-HasKey k state g

-- the fields that a step writes are there
record Moves (state : Value) : Type 0 where
  v : HasKey "v" state
  p : HasKey "p" state
  t : HasKey "t" state
  halted : HasKey "halted" state

read_motion-Moves :
    (rate_name : String) (state : Value) {m : Motion}
    → read_motion rate_name state ≡ some m
    → Moves state
unfolding read_motion
read_motion-Moves rate_name state e =
    let (p, (ep, e1)) = then_-eq-some (integer (get "p" state)) _ e in
    let (v, (ev, e2)) = then_-eq-some (integer (get "v" state)) _ e1 in
    let (rate, (er, e3)) = then_-eq-some (integer (get rate_name state)) _ e2 in
    let (dt, (ed, e4)) = then_-eq-some (integer (get "dt" state)) _ e3 in
    let (t, (et, e5)) = then_-eq-some (integer (get "t" state)) _ e4 in
    let (max_steps, (em, e6)) = then_-eq-some (integer (get "max_steps" state)) _ e5 in
    let (halted, (eh, e7)) = then_-eq-some (flag (get "halted" state)) _ e6 in
    record {
      v = integer-HasKey "v" state ev;
      p = integer-HasKey "p" state ep;
      t = integer-HasKey "t" state et;
      halted = flag-HasKey "halted" state eh;
    }

canon-write_motion :
    (m : Motion) (state : Value)
    → Moves state
    → canon state ≡ state
    → canon (write_motion m state) ≡ write_motion m state
unfolding canon
canon-write_motion m state h c =
    let s1 : Value = put "v" (int m.v) state in
    let s2 : Value = put "p" (int m.p) s1 in
    let s3 : Value = put "t" (int m.t) s2 in
    let c1 : canon s1 ≡ s1 = canon-put "v" (int m.v) state h.v refl c in
    let c2 : canon s2 ≡ s2 =
      canon-put "p" (int m.p) s1 (HasKey-put "p" "v" (int m.v) state h.p) refl c1 in
    let c3 : canon s3 ≡ s3 =
      canon-put "t" (int m.t) s2
        (HasKey-put "t" "p" (int m.p) s1 (HasKey-put "t" "v" (int m.v) state h.t)) refl c2 in
    canon-put "halted" (bool m.halted) s3
      (HasKey-put "halted" "t" (int m.t) s2
        (HasKey-put "halted" "p" (int m.p) s1 (HasKey-put "halted" "v" (int m.v) state h.halted)))
      refl c3

canon-on_motion :
    (step : Motion → Motion) (rate_name : String) (state : Value)
    → canon state ≡ state
    → canon (on_motion step state (read_motion rate_name state))
      ≡ on_motion step state (read_motion rate_name state)
canon-on_motion step rate_name state c = after (read_motion rate_name state) refl
  where
    after :
        (o : Option Motion)
        → read_motion rate_name state ≡ o
        → canon (on_motion step state o) ≡ on_motion step state o
    after none e = c
    after (some m) e =
        kept m.halted (canon-write_motion (step m) state (read_motion-Moves rate_name state e) c)
      where
        kept :
            (b : Bool) {w : Value}
            → canon w ≡ w
            → canon (if b then state else w) ≡ (if b then state else w)
        kept true cw = c
        kept false cw = cw

pub brake_step-canon : (s : Value) → canon s ≡ s → canon (brake_step s) ≡ brake_step s
unfolding brake_step
brake_step-canon s c = canon-on_motion brake "a" s c

pub projectile_step-canon :
    (s : Value) → canon s ≡ s → canon (projectile_step s) ≡ projectile_step s
unfolding projectile_step
projectile_step-canon s c = canon-on_motion throw "g" s c

-- Every registered scenario's rule keeps a canonical state canonical.
pub registry-canon :
    (source_hash : String → String) (name : String) {s : Scenario}
    → registry source_hash name ≡ some s
    → (v : Value) → canon v ≡ v
    → canon (s.rule v) ≡ s.rule v
unfolding registry
registry-canon source_hash name {s} e v c = elim (Bool-cases (name ≟ "brake_1d")) [
  | inl same ↦
      let rule_is : brake_step ≡ s.rule = option_rule (rw same at e) in
      subst (λ r. canon (r v) ≡ r v) rule_is (brake_step-canon v c)
  | inr other ↦ elim (Bool-cases (name ≟ "projectile_1d")) [
    | inl same ↦
        let rule_is : projectile_step ≡ s.rule = option_rule (rw (other, same) at e) in
        subst (λ r. canon (r v) ≡ r v) rule_is (projectile_step-canon v c)
    | inr unknown ↦ let absent : none ≡ some s = rw (other, unknown) at e in cc
  ]
]
  where
    option_rule : {x y : Scenario} → some x ≡ some y → x.rule ≡ y.rule
    option_rule {x} {y} e = let same : x ≡ y = cc in ap (λ z. z.rule) same
