-- ===== src/VeriVerse/Physics/Falling.antt =====
-- The sand of VeriVerse/physics.py falls: no grain is made or lost, and it comes to rest.
use dentatus.Prelude.{
  ℕ, zero, suc, ◌+◌, ◌-◌, ◌<◌, ◌≤◌, ltb, ◌==◌, Outcome, ◌≡◌, refl, ap, ◌∙◌, ◌⊎◌, inl, inr, Bool,
  true, false, Bool-cases, Option, some, List, ◌∷◌, length, ok, arith,
}
use dentatus.VeriVerse.Physics.{
  Grid, air, sand, free_if, cell, drop_grain, fall_right, fall_aside, fall_grain, fall, fall_row,
  fall_rows, step,
}
use dentatus.VeriVerse.Physics.Weight.{
  tally, tally-drop_grain, length-drop_grain, Wide, width, cell-within, drop_grain-Wide,
  width-drop_grain,
}

-- the number of grains
abbrev pub grains : Grid → ℕ
grains grid = tally (λ below. 1) grid

-- the rows that all grains together could fall
abbrev pub height : Grid → ℕ
height grid = tally (λ below. below) grid

-- what moves of grains make of a grid
pub record Fallen (grid : Grid) (s : Grid × Bool) : Type 0 where
  pub kept : grains s.0 ≡ grains grid
  pub size : length s.0 ≡ length grid
  pub width : width s.0 ≡ width grid
  pub wide : (w : ℕ) → Wide w grid → Wide w s.0
  pub lower : ((s.1 ≡ true) × (height s.0 < height grid)) ⊎ ((s.1 ≡ false) × (s.0 ≡ grid))

at_most : {grid : Grid} {s : Grid × Bool} → Fallen grid s → height s.0 ≤ height grid
at_most f = elim f.lower [
  | inl (m, lt) ↦ omega (arith, lt)
  | inr (m, same) ↦ omega (arith, ap height same)
]

-- what a part of the loops makes of a grid, where it reads no cell that is not there
Falls : Grid → Outcome (Grid × Bool) → Type 0
Falls grid o = (s : Grid × Bool) × ((o ≡ ok s) × Fallen grid s)

dropped :
    (y x to : ℕ) (grid new : Grid) (moved : Bool)
    → cell y x new ≡ some sand
    → cell (y + 1) to new ≡ some air
    → Fallen grid (new, moved)
    → Fallen grid (drop_grain y x to new, true)
dropped y x to grid new moved grain hole f =
    let (d, same) = tally-drop_grain (λ below. 1) y x to new grain hole in
    let (e, less) = tally-drop_grain (λ below. below) y x to new grain hole in
    let le : height new ≤ height grid = at_most f in
    record {
      kept = omega (arith, f.kept, same);
      size = length-drop_grain y x to new ∙ f.size;
      width = width-drop_grain y x to new ∙ f.width;
      wide = λ w wide. drop_grain-Wide w y x to new (f.wide w wide);
      lower = inl (refl, omega (arith, less, le));
    }

-- a guarded look at a cell that is there if the guard holds
free_if-cases :
    (b : Bool) (o : Option ℕ)
    → (b ≡ true → (c : ℕ) × (o ≡ some c))
    → ((free_if b o ≡ ok true) × (o ≡ some air)) ⊎ (free_if b o ≡ ok false)
free_if-cases false o there = inr refl
free_if-cases true o there =
    let (c, e) = there refl in
    elim (Bool-cases (c == air)) [
      | inl is_ ↦
          let same : c ≡ air = ground arith in inl (rw e (ap (λ b. ok b) is_), e ∙ ap some same)
      | inr other ↦ inr (rw e (ap (λ b. ok b) other))
    ]

module _ (w y x : ℕ) (grid new : Grid) (moved : Bool) (wide : Wide w new)
    (below : y + 1 < length new) (inside : x < w) (grain : cell y x new ≡ some sand)
    (f : Fallen grid (new, moved)) where
  fall_right-Falls : Falls grid (fall_right w y x (new, moved))
  unfolding fall_right Falls
  fall_right-Falls =
      elim (free_if-cases (ltb x (w - 1)) (cell (y + 1) (x + 1) new)
        (λ lt. cell-within w (y + 1) (x + 1) new wide below (ground arith))) [
          | inl (free, hole) ↦ (_, (rw free refl, dropped y x (x + 1) grid new moved grain hole f))
          | inr shut ↦ ((new, moved), (rw shut refl, f))
        ]

  fall_aside-Falls : Falls grid (fall_aside w y x (new, moved))
  unfolding fall_aside Falls
  fall_aside-Falls =
      elim (free_if-cases (ltb 0 x) (cell (y + 1) (x - 1) new)
        (λ lt. cell-within w (y + 1) (x - 1) new wide below (omega arith))) [
          | inl (free, hole) ↦ (_, (rw free refl, dropped y x (x - 1) grid new moved grain hole f))
          | inr shut ↦ let (s, (falls, g)) = fall_right-Falls in (s, (rw shut falls, g))
        ]

  fall_grain-Falls : Falls grid (fall_grain w y x (new, moved))
  unfolding fall_grain Falls
  fall_grain-Falls =
      let (c, there) = cell-within w (y + 1) x new wide below inside in
      elim (Bool-cases (c == air)) [
        | inl is_ ↦
            let same : c ≡ air = ground arith in
            (_, (rw (there, is_) refl, dropped y x x grid new moved grain (there ∙ ap some same) f))
        | inr other ↦ let (s, (falls, g)) = fall_aside-Falls in (s, (rw (there, other) falls, g))
      ]

fall-Falls :
    (w y x : ℕ) (grid : Grid) (s : Grid × Bool)
    → Wide w grid
    → y + 1 < length grid
    → x < w
    → Fallen grid s
    → Falls grid (fall w y x s)
unfolding fall Falls
fall-Falls w y x grid (new, moved) wide below inside f =
    let wide2 = f.wide w wide in
    let below2 : y + 1 < length new = omega (arith, f.size, below) in
    let (c, there) = cell-within w y x new wide2 (omega (arith, below2)) inside in
    elim (Bool-cases (c == sand)) [
      | inl is_ ↦
          let same : c ≡ sand = ground arith in
          let (s, (falls, g)) =
            fall_grain-Falls w y x grid new moved wide2 below2 inside (there ∙ ap some same) f in
          (s, (rw (there, is_) falls, g))
      | inr other ↦ ((new, moved), (rw (there, other) refl, f))
    ]

fall_row-Falls :
    (w y x left : ℕ) (grid : Grid) (s : Grid × Bool)
    → Wide w grid
    → y + 1 < length grid
    → x + left ≤ w
    → Fallen grid s
    → Falls grid (fall_row w y x left s)
unfolding fall_row Falls
fall_row-Falls w y x zero grid s wide below inside f = (s, (refl, f))
fall_row-Falls w y x (suc left) grid s wide below inside f =
    let (s2, (falls, g)) = fall-Falls w y x grid s wide below (omega (arith, inside)) f in
    let (s3, (rest, h)) =
      fall_row-Falls w y (x + 1) left grid s2 wide below (omega (arith, inside)) g in
    (s3, (rw falls rest, h))

fall_rows-Falls :
    (w y : ℕ) (grid : Grid) (s : Grid × Bool)
    → Wide w grid
    → y < length grid
    → Fallen grid s
    → Falls grid (fall_rows w y s)
unfolding fall_rows Falls
fall_rows-Falls w zero grid s wide below f = (s, (refl, f))
fall_rows-Falls w (suc y) grid s wide below f =
    let (s2, (falls, g)) =
      fall_row-Falls w y 0 w grid s wide (omega (arith, below)) (omega arith) f in
    let (s3, (rest, h)) = fall_rows-Falls w y grid s2 wide (omega (arith, below)) g in
    (s3, (rw falls rest, h))

-- A step of a grid of which no row is shorter than the first keeps the number of grains, and lowers the
-- sand where it reports a move; else it leaves the grid as it is.
pub step-Fallen :
    (row : List ℕ) (grid : Grid)
    → Wide (length row) (row ∷ grid)
    → (s : Grid × Bool) × ((step (row ∷ grid) ≡ ok s) × Fallen (row ∷ grid) s)
unfolding step Falls
step-Fallen row grid wide =
    fall_rows-Falls (length row) (length grid) (row ∷ grid) (row ∷ grid, false) wide (omega arith)
      (record {
        kept = refl;
        size = refl;
        width = refl;
        wide = λ w given. given;
        lower = inr (refl, refl);
      })
