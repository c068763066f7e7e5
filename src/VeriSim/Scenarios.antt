-- ===== src/VeriSim/Scenarios.antt =====
-- VeriSim/scenarios.py: two integer step functions on states that are dicts, with their end tests. A state
-- without a field that a step reads, on which the code raises, is left as it is.
use dentatus.Prelude.{String, Bool, false, Option, none, some, ◌||◌, ◌&&◌, if◌then◌else◌, not}
use dentatus.Prelude.Int.{ℤ, pos, ◌+ℤ◌, ◌-ℤ◌, ltb_ℤ, eqb_ℤ}
use dentatus.Prelude.Eq.{◌≟◌, string_eq}
use dentatus.Chronicle.Value.{Value, end, field, int, bool, dict, get, truthy, put_field}
use dentatus.Aether.FixedPoint.{to_fp, fp_mul}

-- what a step reads of a state; `rate` is the deceleration or the gravity
pub record Motion : Type 0 where
  pub p : ℤ
  pub v : ℤ
  pub rate : ℤ
  pub dt : ℤ
  pub t : ℤ
  pub max_steps : ℤ
  pub halted : Bool

abbrev pub put : String → Value → Value → Value
put k v (dict fs) = dict (put_field k v fs)
put k v other = other

abbrev pub integer : Option Value → Option ℤ
integer (some (int n)) = some n
integer _ = none

abbrev pub then_ : {A B : Type 0} → Option A → (A → Option B) → Option B
then_ none f = none
then_ (some a) f = f a

abbrev pub flag : Option Value → Option Bool
flag none = none
flag (some v) = some (truthy v)

unfoldable pub read_motion : String → Value → Option Motion
read_motion rate_name state = then_ (integer (get "p" state)) (λ p.
    then_ (integer (get "v" state)) (λ v. then_ (integer (get rate_name state)) (λ rate.
      then_ (integer (get "dt" state)) (λ dt. then_ (integer (get "t" state)) (λ t.
        then_ (integer (get "max_steps" state)) (λ max_steps.
          then_ (flag (get "halted" state)) (λ halted. some (record {
            p = p;
            v = v;
            rate = rate;
            dt = dt;
            t = t;
            max_steps = max_steps;
            halted = halted;
          }))))))))

abbrev pub write_motion : Motion → Value → Value
write_motion m state =
    put "halted" (bool m.halted) (put "t" (int m.t) (put "p" (int m.p) (put "v" (int m.v) state)))

unfoldable pub brake : Motion → Motion
brake m =
    if m.halted
    then m
    else (let slowed = m.v -ℤ fp_mul m.rate m.dt in
        let v = if ltb_ℤ slowed (pos 0) then pos 0 else slowed in
        let t = m.t +ℤ pos 1 in
        record m {
          v = v;
          p = m.p +ℤ fp_mul v m.dt;
          t = t;
          halted = eqb_ℤ v (pos 0) || not (ltb_ℤ t m.max_steps);
        })

unfoldable pub throw : Motion → Motion
throw m =
    if m.halted
    then m
    else (let v = m.v -ℤ fp_mul m.rate m.dt in
        let p = m.p +ℤ fp_mul v m.dt in
        let t = m.t +ℤ pos 1 in
        record m {
          v = v;
          p = if ltb_ℤ p (pos 0) then pos 0 else p;
          t = t;
          halted = (not (ltb_ℤ (pos 0) p) && ltb_ℤ (pos 1) t) || not (ltb_ℤ t m.max_steps);
        })

abbrev pub on_motion : (Motion → Motion) → Value → Option Motion → Value
on_motion step state none = state
on_motion step state (some m) = if m.halted then state else write_motion (step m) state

unfoldable pub brake_step : Value → Value
unfolding read_motion brake put_field
brake_step state = on_motion brake state (read_motion "a" state)

unfoldable pub projectile_step : Value → Value
unfolding read_motion throw put_field
projectile_step state = on_motion throw state (read_motion "g" state)

abbrev is_true : Option Bool → Bool
is_true none = false
is_true (some b) = b

-- `bool(state["halted"])`
unfoldable pub halted_done : Value → Bool
halted_done state = is_true (flag (get "halted" state))

unfoldable pub seed : String → ℤ → ℤ → ℤ → ℤ → Value
seed rate_name v0_mps rate_mps2 dt_ms max_steps = dict (
    field "p" (int (pos 0)) (
      field "v" (int (to_fp v0_mps (pos 1))) (
        field rate_name (int (to_fp rate_mps2 (pos 1))) (
          field "dt" (int (to_fp dt_ms (pos 1000))) (
            field "t" (int (pos 0))
              (field "max_steps" (int max_steps) (field "halted" (bool false) end)))))))

abbrev pub brake_seed : ℤ → ℤ → ℤ → ℤ → Value
brake_seed = seed "a"

abbrev pub projectile_seed : ℤ → ℤ → ℤ → ℤ → Value
projectile_seed = seed "g"

-- a scenario's rule and end test, with the hash of their source
pub record Scenario : Type 0 where
  pub source_hash : String
  pub rule : Value → Value
  pub done : Value → Bool

-- `REGISTRY.get(name)`
unfoldable pub registry : (String → String) → String → Option Scenario
registry source_hash name =
    if name ≟ "brake_1d"
    then some
        (record { source_hash = source_hash "brake_1d"; rule = brake_step; done = halted_done })
    else if name ≟ "projectile_1d"
    then some (record {
      source_hash = source_hash "projectile_1d";
      rule = projectile_step;
      done = halted_done;
    })
    else none
