-- ===== src/Tests/Frames.antt =====
-- lockstep/interp.py on a track of two ticks.
use dentatus.Prelude.{ℕ, String, ◌≡◌, refl, Option, none, some, List, [], ◌∷◌, Outcome, ok, err}
use dentatus.Prelude.Int.{pos, negsuc}
use dentatus.Prelude.Eq.{string_eq}
use dentatus.Chronicle.Value.{Value, int, nat, dict, field, end}
use dentatus.Lockstep.{Track}
use dentatus.Lockstep.Frames.{Frame, drawn, render_frame, render_span, ilerp}
use dentatus.Lockstep.Frames.Between.{Faithful, render_frame-Faithful}

abbrev at : ℕ → Value
at n = dict (field "x" (nat n) end)

abbrev track : Track
track = record { first = at 10; later = at 4 ∷ []; inputs = []; first_hash = ""; hashes = [] }

-- half way between 10 and 4
abbrev half : Frame
half = record { frame = 1; tick = 0; alpha_num = 1; alpha_den = 2; pos_of = ("x", nat 7) ∷ [] }

draws : render_frame track 1 (pos 1) (pos 2) ("x" ∷ []) ≡ ok (drawn half)
unfolding render_frame dentatus.Chronicle.Value.get dentatus.Prelude.Dict.insert
    dentatus.Prelude.Int.◌+ℤ◌ dentatus.Prelude.Int.floor_div dentatus.Prelude.Int.◌*ℤ◌
    dentatus.Prelude.Int.◌-ℤ◌
draws = refl

-- rounded down: 10 + (-6 * 1) // 4
ilerp_down : ilerp (pos 10) (pos 4) 1 4 ≡ pos 8
unfolding ilerp dentatus.Prelude.Int.◌+ℤ◌ dentatus.Prelude.Int.floor_div dentatus.Prelude.Int.◌*ℤ◌
    dentatus.Prelude.Int.◌-ℤ◌
ilerp_down = refl

-- the third frame of the span needs a tick that is not there
abbrev drops : Outcome (List Frame × ℕ) → ℕ
drops (ok (frames, n)) = n
drops (err e) = 0

dropped : drops (render_span track (pos 1) (pos 2) 1 4 ("x" ∷ [])) ≡ 1
unfolding render_span dentatus.Chronicle.Value.get
dropped = refl

render_frame-Faithful_example : Faithful track 1 (pos 1) (pos 2) ("x" ∷ []) half
render_frame-Faithful_example = render_frame-Faithful track 1 (pos 1) (pos 2) ("x" ∷ []) draws
