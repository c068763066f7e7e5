-- ===== src/VeriVerse/Noise.antt =====
-- VeriVerse/noise.py: value noise on integers. `digest` is the number that the first eight bytes of the
-- SHA-256 of a text make; `spacing` and `amp` are positive, as their defaults are.
use dentatus.Prelude.{ℕ, ◌%◌, String, List, [], ◌∷◌}
use dentatus.Prelude.Int.{ℤ, pos, ◌+ℤ◌, ◌-ℤ◌, ◌*ℤ◌, floor_div}
use dentatus.Chronicle.Canonical.{◌^^◌, show_int}

-- `"|".join`
unfoldable pub join : List String → String
join [] = ""
join (s ∷ []) = s
join (s ∷ t ∷ ss) = s ^^ "|" ^^ join (t ∷ ss)

module _ (digest : String → ℕ) where
  unfoldable pub hash_int : ℤ → List String → ℕ
  unfolding join
  hash_int seed coords = digest (show_int seed ^^ "|" ^^ join coords)

  unfoldable pub corner : ℤ → ℤ → ℤ → ℕ → ℤ
  unfolding hash_int
  corner seed gx gz amp = pos (hash_int seed ("c" ∷ show_int gx ∷ show_int gz ∷ []) % amp)

  -- from a to b, t of the spacing's parts of the way
  abbrev pub blend : ℤ → ℤ → ℤ → ℕ → ℤ
  blend a b t spacing = a +ℤ floor_div ((b -ℤ a) *ℤ t) (pos spacing)

  unfoldable pub height2d : ℤ → ℤ → ℤ → ℕ → ℕ → ℤ → ℤ
  unfolding corner
  height2d seed x z spacing amp base =
      let gx = floor_div x (pos spacing) in
      let gz = floor_div z (pos spacing) in
      let tx = x -ℤ gx *ℤ pos spacing in
      let tz = z -ℤ gz *ℤ pos spacing in
      let h00 = corner seed gx gz amp in
      let h10 = corner seed (gx +ℤ pos 1) gz amp in
      let h01 = corner seed gx (gz +ℤ pos 1) amp in
      let h11 = corner seed (gx +ℤ pos 1) (gz +ℤ pos 1) amp in
      let a = blend h00 h10 tx spacing in
      let b = blend h01 h11 tx spacing in base +ℤ a +ℤ floor_div ((b -ℤ a) *ℤ tz) (pos spacing)
