-- ===== src/VeriVerse/Physics/Weight.antt =====
-- The weight of the sand in a grid of VeriVerse/physics.py, each row with a weight of its own, and the
-- lengths of its rows.
use dentatus.Prelude.{
  length-set, ℕ, zero, suc, ◌+◌, ◌==◌, ◌≡◌, ◌<◌, ◌≤◌, refl, sym, ap, ◌∙◌, some, List, [], ◌∷◌,
  length, get_elem?, set, if◌then◌else◌, arith,
}
use dentatus.VeriVerse.Physics.{Grid, air, sand, cell, set_cell, drop_grain}

-- what a cell counts in a row of that weight
abbrev pub worth : ℕ → ℕ → ℕ
worth w c = if c == sand then w else 0

unfoldable pub weigh : ℕ → List ℕ → ℕ
weigh w [] = 0
weigh w (c ∷ row) = worth w c + weigh w row

-- the weight of a row is `f` of the number of rows below it
unfoldable pub tally : (ℕ → ℕ) → Grid → ℕ
unfolding weigh
tally f [] = 0
tally f (row ∷ grid) = weigh (f (length grid)) row + tally f grid

-- the number of rows below row y
unfoldable pub depth : ℕ → Grid → ℕ
depth y [] = 0
depth zero (row ∷ grid) = length grid
depth (suc y) (row ∷ grid) = depth y grid

weigh-set :
    (w x v : ℕ) (row : List ℕ) {c : ℕ}
    → get_elem? row x ≡ some c
    → weigh w (set row x v) + worth w c ≡ weigh w row + worth w v
unfolding weigh
weigh-set w x v [] e = cc
weigh-set w zero v (d ∷ row) {c} e = let same : d ≡ c = cc in rw same (omega arith)
weigh-set w (suc x) v (d ∷ row) e = omega (arith, weigh-set w x v row e)

length-set_cell : (y x v : ℕ) (grid : Grid) → length (set_cell y x v grid) ≡ length grid
unfolding set_cell
length-set_cell y x v [] = refl
length-set_cell zero x v (row ∷ grid) = refl
length-set_cell (suc y) x v (row ∷ grid) = ap suc (length-set_cell y x v grid)

tally-set_cell :
    (f : ℕ → ℕ) (y x v : ℕ) (grid : Grid) {c : ℕ}
    → cell y x grid ≡ some c
    → tally f (set_cell y x v grid) + worth (f (depth y grid)) c
      ≡ tally f grid + worth (f (depth y grid)) v
unfolding cell tally set_cell depth
tally-set_cell f y x v [] e = cc
tally-set_cell f zero x v (row ∷ grid) e = omega (arith, weigh-set (f (length grid)) x v row e)
tally-set_cell f (suc y) x v (row ∷ grid) e =
    rw (length-set_cell y x v grid) (omega (arith, tally-set_cell f y x v grid e))

depth-set_cell : (y z x v : ℕ) (grid : Grid) → depth y (set_cell z x v grid) ≡ depth y grid
unfolding depth set_cell
depth-set_cell y z x v [] = refl
depth-set_cell zero zero x v (row ∷ grid) = refl
depth-set_cell (suc y) zero x v (row ∷ grid) = refl
depth-set_cell zero (suc z) x v (row ∷ grid) = length-set_cell z x v grid
depth-set_cell (suc y) (suc z) x v (row ∷ grid) = depth-set_cell y z x v grid

-- a row is not changed by an assignment in the row below
cell-set_below :
    (y x to v : ℕ) (grid : Grid) → cell y x (set_cell (suc y) to v grid) ≡ cell y x grid
unfolding cell set_cell
cell-set_below y x to v [] = refl
cell-set_below zero x to v (row ∷ grid) = refl
cell-set_below (suc y) x to v (row ∷ grid) = cell-set_below y x to v grid

-- the row below is one less deep
depth_below :
    (y x : ℕ) (grid : Grid) {c : ℕ}
    → cell (suc y) x grid ≡ some c
    → depth y grid ≡ suc (depth (suc y) grid)
unfolding cell depth
depth_below y x [] e = cc
depth_below zero x (row ∷ []) e = cc
depth_below zero x (row ∷ below ∷ grid) e = refl
depth_below (suc y) x (row ∷ grid) e = depth_below y x grid e

-- A grain that drops into an empty cell takes its weight from its row to the row below.
pub tally-drop_grain :
    (f : ℕ → ℕ) (y x to : ℕ) (grid : Grid)
    → cell y x grid ≡ some sand
    → cell (y + 1) to grid ≡ some air
    → (d : ℕ) × (tally f (drop_grain y x to grid) + f (suc d) ≡ tally f grid + f d)
unfolding drop_grain
tally-drop_grain f y x to grid grain hole =
    let next : y + 1 ≡ suc y = omega arith in
    let hole2 : cell (suc y) to grid ≡ some air = ap (λ z. cell z to grid) (sym next) ∙ hole in
    let grid2 = set_cell (suc y) to sand grid in
    let d = depth (suc y) grid in
    let deep : depth y grid2 ≡ suc d =
      depth-set_cell y (suc y) to sand grid ∙ depth_below y to grid hole2 in
    let grain2 : cell y x grid2 ≡ some sand = cell-set_below y x to sand grid ∙ grain in
    let filled = tally-set_cell f (suc y) to sand grid hole2 in
    let left : tally f (set_cell y x air grid2) + f (depth y grid2) ≡ tally f grid2 + 0 =
      tally-set_cell f y x air grid2 grain2 in
    (d, rw next (rw (sym deep) (omega (arith, filled, left))))

pub length-drop_grain : (y x to : ℕ) (grid : Grid) → length (drop_grain y x to grid) ≡ length grid
unfolding drop_grain
length-drop_grain y x to grid =
    length-set_cell y x air (set_cell (y + 1) to sand grid) ∙ length-set_cell (y + 1) to sand grid

-- Every row has at least w cells.
abbrev pub Wide : ℕ → Grid → Type 0
Wide w [] = Unit
Wide w (row ∷ grid) = (w ≤ length row) × Wide w grid

-- the length of the first row
abbrev pub width : Grid → ℕ
width [] = 0
width (row ∷ grid) = length row

get_elem?-within : (row : List ℕ) (x : ℕ) → x < length row → (c : ℕ) × (get_elem? row x ≡ some c)
get_elem?-within [] x lt = absurd (omega (arith, lt))
get_elem?-within (c ∷ row) zero lt = (c, refl)
get_elem?-within (c ∷ row) (suc x) lt = get_elem?-within row x (omega (arith, lt))

pub cell-within :
    (w y x : ℕ) (grid : Grid)
    → Wide w grid
    → y < length grid
    → x < w
    → (c : ℕ) × (cell y x grid ≡ some c)
unfolding cell
cell-within w y x [] wide below lt = absurd (omega (arith, below))
cell-within w zero x (row ∷ grid) (le, wide) below lt =
    get_elem?-within row x (omega (arith, le, lt))
cell-within w (suc y) x (row ∷ grid) (le, wide) below lt =
    cell-within w y x grid wide (omega (arith, below)) lt

set_cell-Wide : (w y x v : ℕ) (grid : Grid) → Wide w grid → Wide w (set_cell y x v grid)
unfolding set_cell
set_cell-Wide w y x v [] wide = tt
set_cell-Wide w zero x v (row ∷ grid) (le, wide) = (rw (length-set row x v) le, wide)
set_cell-Wide w (suc y) x v (row ∷ grid) (le, wide) = (le, set_cell-Wide w y x v grid wide)

width-set_cell : (y x v : ℕ) (grid : Grid) → width (set_cell y x v grid) ≡ width grid
unfolding set_cell
width-set_cell y x v [] = refl
width-set_cell zero x v (row ∷ grid) = length-set row x v
width-set_cell (suc y) x v (row ∷ grid) = refl

pub drop_grain-Wide : (w y x to : ℕ) (grid : Grid) → Wide w grid → Wide w (drop_grain y x to grid)
unfolding drop_grain
drop_grain-Wide w y x to grid wide =
    set_cell-Wide w y x air _ (set_cell-Wide w (y + 1) to sand grid wide)

pub width-drop_grain : (y x to : ℕ) (grid : Grid) → width (drop_grain y x to grid) ≡ width grid
unfolding drop_grain
width-drop_grain y x to grid =
    width-set_cell y x air (set_cell (y + 1) to sand grid) ∙ width-set_cell (y + 1) to sand grid
