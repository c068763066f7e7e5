-- ===== src/Lockstep/Frames.antt =====
-- lockstep/interp.py: render frames between the ticks of a truth track. A frame's index is a natural number;
-- the fields of a state that are read are numbers.
pub mod Lerp
pub mod Between
use dentatus.Prelude.{
  ℕ, zero, suc, ◌+◌, ◌*◌, ◌/◌, ◌%◌, ◌-◌, String, Bool, true, false, Option, none, some, List, [],
  ◌∷◌, ◌++◌, leb, ltb, ◌==◌, if◌then◌else◌, length, get_elem?, Outcome, ok, err, ◌>>=◌,
}
use dentatus.Prelude.Int.{ℤ, pos, negsuc, ◌+ℤ◌, ◌-ℤ◌, ◌*ℤ◌, floor_div}
use dentatus.Prelude.Eq.{string_eq}
use dentatus.Prelude.Dict.{Dict, insert}
use dentatus.Chronicle.Value.{Value, int, get}
use dentatus.Chronicle.Canonical.{◌^^◌, show_nat}
use dentatus.Lockstep.{Track}

pub record Frame : Type 0 where
  pub frame : ℕ
  pub tick : ℕ
  pub alpha_num : ℕ
  pub alpha_den : ℕ
  pub pos_of : Dict String Value

-- a frame, or a `LockstepError`; other exceptions are outcomes that failed
pub data Drawn : Type 0 where
  drawn : Frame → Drawn
  unsupported : String → Drawn

-- `track.states`
abbrev pub states : Track → List Value
states t = t.first ∷ t.later

-- the tick, the remainder and the denominator, where the rates are positive
unfoldable pub frame_to_tick : ℕ → ℤ → ℤ → Option (ℕ × ℕ × ℕ)
frame_to_tick f (pos (suc t)) (pos (suc r)) = some (f * suc t / suc r, f * suc t % suc r, suc r)
frame_to_tick f truth_rate render_rate = none

unfoldable pub ilerp : ℤ → ℤ → ℕ → ℕ → ℤ
ilerp a b rem den = a +ℤ floor_div ((b -ℤ a) *ℤ pos rem) (pos den)

-- `state[fld]`
abbrev pub present : Option Value → Outcome Value
present none = err "KeyError"
present (some v) = ok v

abbrev pub number : Value → Outcome ℤ
number (int n) = ok n
number _ = err "unsupported operand type"

unfoldable pub field_number : String → Value → Outcome ℤ
field_number fld state = present (get fld state) >>= number

-- what one field of a frame shows, from the two states and the fraction
unfoldable pub lerp_field : Value → Value → ℕ → ℕ → String → Outcome Value
unfolding field_number ilerp
lerp_field state_n state_np1 rem den fld = field_number fld state_n >>= λ a.
    field_number fld state_np1 >>= λ b. ok (int (ilerp a b rem den))

-- the dict comprehension over the fields
unfoldable pub collect :
    (String → Outcome Value) → Dict String Value → List String → Outcome (Dict String Value)
collect show acc [] = ok acc
collect show acc (fld ∷ fields) = show fld >>= λ v. collect show (insert fld v acc) fields

abbrev pub interpolate : Value → Value → ℕ → ℕ → List String → Outcome (Dict String Value)
interpolate state_n state_np1 rem den fields =
    collect (lerp_field state_n state_np1 rem den) [] fields

abbrev pub shown : ℕ → ℕ → ℕ → ℕ → Dict String Value → Frame
shown f n rem den d = record { frame = f; tick = n; alpha_num = rem; alpha_den = den; pos_of = d }

-- a tick that the track holds, or the refusal
abbrev pub exact_frame : ℕ → ℕ → ℕ → List String → Option Value → Outcome Drawn
exact_frame f n den fields none = ok (
    unsupported ("frame " ^^ show_nat f ^^ " maps to tick " ^^ show_nat n ^^ ", not yet simulated"))
exact_frame f n den fields (some state) =
    collect (λ fld. present (get fld state)) [] fields >>= λ d. ok (drawn (shown f n 0 den d))

-- no extrapolation past the last tick
abbrev pub between_frame : ℕ → ℕ → ℕ → ℕ → List String → Option Value → Option Value → Outcome Drawn
between_frame f n rem den fields (some state_n) (some state_np1) =
    interpolate state_n state_np1 rem den fields >>= λ d. ok (drawn (shown f n rem den d))
between_frame f n rem den fields state_n state_np1 = ok (
    unsupported (
      "frame "
      ^^ show_nat f
      ^^ " needs tick "
      ^^ show_nat (n + 1)
      ^^ " (not in truth track); no silent extrapolation"))

abbrev pub place_frame : Track → ℕ → List String → Option (ℕ × ℕ × ℕ) → Outcome Drawn
place_frame track f fields none = ok (unsupported "rates must be positive integers")
place_frame track f fields (some (n, rem, den)) =
    if rem == 0
    then exact_frame f n den fields (get_elem? (states track) n)
    else between_frame f n rem den fields (get_elem? (states track) n)
        (get_elem? (states track) (n + 1))

unfoldable pub render_frame : Track → ℕ → ℤ → ℤ → List String → Outcome Drawn
unfolding frame_to_tick lerp_field collect
render_frame track f truth_rate render_rate fields =
    place_frame track f fields (frame_to_tick f truth_rate render_rate)

abbrev add_frame : Drawn → List Frame × ℕ → List Frame × ℕ
add_frame (drawn fr) (frames, dropped) = (fr ∷ frames, dropped)
add_frame (unsupported why) (frames, dropped) = (frames, dropped + 1)

-- the frames from `f` on, with the count that are left
unfoldable pub span_from : Track → ℤ → ℤ → List String → ℕ → ℕ → Outcome (List Frame × ℕ)
span_from track truth_rate render_rate fields f zero = ok ([], 0)
span_from track truth_rate render_rate fields f (suc left) =
    render_frame track f truth_rate render_rate fields >>= λ r.
    span_from track truth_rate render_rate fields (f + 1) left >>= λ rest. ok (add_frame r rest)

unfoldable pub render_span : Track → ℤ → ℤ → ℕ → ℕ → List String → Outcome (List Frame × ℕ)
unfolding span_from render_frame
render_span track truth_rate render_rate f_start f_end fields =
    span_from track truth_rate render_rate fields f_start (f_end - f_start)
