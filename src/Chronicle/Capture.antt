-- ===== src/Chronicle/Capture.antt =====
-- chronicle/capture.py: nondeterministic reads are recorded, and given back on a replay. The captured
-- part of the sealed inputs is a dict, as `sealed_inputs` makes it: what `dict` makes of a value of
-- another type is not modelled, and an error here.
pub mod Determinism
pub mod Replay
use dentatus.Prelude.{
  ℕ, zero, suc, ◌+◌, String, Bool, true, false, not, Option, none, some, Outcome, ok, err, ◌>>=◌,
  if◌then◌else◌,
}
use dentatus.Prelude.Eq.{◌≟◌, string_eq}
use dentatus.Chronicle.Value.{Value, Fields, end, field, dict, find, put_field}
use dentatus.Chronicle.Canonical.{◌^^◌, canon, canonical_bytes, show_nat}

pub data Mode : Type 0 where
  recording : Mode
  replaying : Mode

pub record Capture : Type 0 where
  pub mode : Mode
  pub cap : Fields

abbrev pub captured_key : String
captured_key = "_captured"

-- `Capture()`
abbrev pub new_capture : Capture
new_capture = record { mode = recording; cap = end }

-- `dict(sealed_inputs.get("_captured", {}))`
abbrev pub captured_fields : Option Value → Outcome Fields
captured_fields none = ok end
captured_fields (some (dict fs)) = ok fs
captured_fields (some _) = err "TypeError"

unfoldable pub captured_view : Value → Outcome Fields
captured_view (dict fs) = captured_fields (find captured_key fs)
captured_view _ = err "AttributeError"

-- `Capture.replay`
unfoldable pub replay_capture : Value → Outcome Capture
unfolding captured_view
replay_capture sealed = captured_view sealed >>= λ fs. ok (record { mode = replaying; cap = fs })

abbrev recorded_value : String → Option Value → Outcome Value
recorded_value label none =
    err ("no recorded value for '" ^^ label ^^ "' (logic took an un-captured branch on replay)")
recorded_value label (some v) = ok v

-- `Capture._get`, under its four names; the producer's answer is asked for in the record mode alone
unfoldable pub capture_get : Capture → String → Outcome Value → Outcome (Value × Capture)
capture_get c label produced = elim c.mode [
  | replaying ↦ recorded_value label (find label c.cap) >>= λ v. ok (v, c)
  | recording ↦ produced >>= λ v. ok (canon v, record c { cap = put_field label (canon v) c.cap })
]

unfoldable pub sealed_inputs : Capture → Fields → Value
unfolding put_field
sealed_inputs c business_inputs = dict (put_field captured_key (dict c.cap) business_inputs)

-- the rounds of `verify_determinism`, on what `fn(inputs)` returns at each of its calls
unfoldable pub determinism_from : (ℕ → Value) → ℕ → ℕ → ℕ → Bool × String
determinism_from call n i zero = (true, "deterministic across " ^^ show_nat n ^^ " runs")
determinism_from call n i (suc left) =
    let rest = determinism_from call n (i + 1) left in
    if not (canonical_bytes (call i) ≟ canonical_bytes (call 0))
    then (
      false,
      "nondeterministic output on run "
          ^^ show_nat (i + 1)
          ^^ "/"
          ^^ show_nat n
          ^^ " — an external read is not routed through Capture",
    )
    else rest

unfoldable pub verify_determinism : (ℕ → Value) → ℕ → Bool × String
unfolding determinism_from canonical_bytes
verify_determinism call zero = determinism_from call zero 1 zero
verify_determinism call (suc n) = determinism_from call (suc n) 1 n
