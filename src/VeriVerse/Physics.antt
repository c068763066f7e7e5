-- ===== src/VeriVerse/Physics.antt =====
-- VeriVerse/physics.py: the falling sand. A grid is a list of rows of any lengths, and a cell that is read
-- past the end of its row raises.
pub mod Weight
pub mod Falling
pub mod Settling
use dentatus.Prelude.{
  ℕ, zero, suc, ◌+◌, ◌-◌, ◌==◌, ltb, Bool, true, false, ◌&&◌, Option, none, some, List, [], ◌∷◌,
  length, get_elem?, set, Outcome, ok, err, ◌>>=◌, String, if◌then◌else◌,
}
use dentatus.Chronicle.Value.{Value, Values, nat, list, nil, cons}
use dentatus.Stasis.Canon.{canon_hash}

abbrev pub air : ℕ
air = 0

abbrev pub solid : ℕ
solid = 1

abbrev pub sand : ℕ
sand = 2

abbrev pub Grid : Type 0
Grid = List (List ℕ)

-- `row[x]`
abbrev pub cell_in : ℕ → Option (List ℕ) → Option ℕ
cell_in x none = none
cell_in x (some row) = get_elem? row x

-- `grid[y][x]`
unfoldable pub cell : ℕ → ℕ → Grid → Option ℕ
cell y x grid = cell_in x (get_elem? grid y)

-- what is read there
abbrev pub look : Option ℕ → Outcome ℕ
look none = err "IndexError"
look (some c) = ok c

-- `test and grid[y][x] == AIR`
abbrev pub free_if : Bool → Option ℕ → Outcome Bool
free_if false o = ok false
free_if true o = look o >>= λ c. ok (c == air)

-- `grid[y][x] = v`
unfoldable pub set_cell : ℕ → ℕ → ℕ → Grid → Grid
set_cell y x v [] = []
set_cell zero x v (row ∷ grid) = set row x v ∷ grid
set_cell (suc y) x v (row ∷ grid) = row ∷ set_cell y x v grid

-- the grain at x of row y goes to `to` of the row below
unfoldable pub drop_grain : ℕ → ℕ → ℕ → Grid → Grid
unfolding set_cell
drop_grain y x to grid = set_cell y x air (set_cell (y + 1) to sand grid)

-- the last branch of the body of the two loops, for a grain at x of row y
unfoldable pub fall_right : ℕ → ℕ → ℕ → Grid × Bool → Outcome (Grid × Bool)
unfolding cell drop_grain
fall_right w y x (new, moved) = free_if (ltb x (w - 1)) (cell (y + 1) (x + 1) new) >>= λ free.
    ok (if free then (drop_grain y x (x + 1) new, true) else (new, moved))

unfoldable pub fall_aside : ℕ → ℕ → ℕ → Grid × Bool → Outcome (Grid × Bool)
unfolding fall_right
fall_aside w y x (new, moved) =
    let rest = fall_right w y x (new, moved) in
    free_if (ltb 0 x) (cell (y + 1) (x - 1) new) >>= λ free.
    if free then ok (drop_grain y x (x - 1) new, true) else rest

unfoldable pub fall_grain : ℕ → ℕ → ℕ → Grid × Bool → Outcome (Grid × Bool)
unfolding fall_aside
fall_grain w y x (new, moved) =
    let rest = fall_aside w y x (new, moved) in
    look (cell (y + 1) x new) >>= λ below.
    if below == air then ok (drop_grain y x x new, true) else rest

-- the body of the two loops
unfoldable pub fall : ℕ → ℕ → ℕ → Grid × Bool → Outcome (Grid × Bool)
unfolding fall_grain
fall w y x (new, moved) =
    let rest = fall_grain w y x (new, moved) in
    look (cell y x new) >>= λ c. if c == sand then rest else ok (new, moved)

-- `for x in range(w)`, with `left` columns to go
unfoldable pub fall_row : ℕ → ℕ → ℕ → ℕ → Grid × Bool → Outcome (Grid × Bool)
unfolding fall
fall_row w y x zero s = ok s
fall_row w y x (suc left) s = fall w y x s >>= λ s2. fall_row w y (x + 1) left s2

-- `for y in range(h - 2, -1, -1)`, with the rows below `y` done
unfoldable pub fall_rows : ℕ → ℕ → Grid × Bool → Outcome (Grid × Bool)
unfolding fall_row
fall_rows w zero s = ok s
fall_rows w (suc y) s = fall_row w y 0 w s >>= λ s2. fall_rows w y s2

unfoldable pub step : Grid → Outcome (Grid × Bool)
unfolding fall_rows
step [] = err "IndexError"
step (row ∷ grid) = fall_rows (length row) (length grid) (row ∷ grid, false)

abbrev pub after_step : ℕ → Outcome (Grid × ℕ) → Grid × Bool → Outcome (Grid × ℕ)
after_step steps rest (grid, moved) = if moved then rest else ok (grid, steps)

-- the loop of `settle`, with `left` steps of the budget
unfoldable pub settle_from : ℕ → Grid → ℕ → Outcome (Grid × ℕ)
unfolding step
settle_from zero grid steps = ok (grid, steps)
settle_from (suc left) grid steps =
    step grid >>= λ s. after_step (steps + 1) (settle_from left s.0 (steps + 1)) s

abbrev pub cells : List ℕ → Values
cells [] = nil
cells (c ∷ row) = cons (nat c) (cells row)

abbrev pub rows : Grid → Values
rows [] = nil
rows (row ∷ grid) = cons (list (cells row)) (rows grid)

unfoldable pub settle : (String → String) → Grid → ℕ → Outcome (Grid × ℕ × String)
unfolding settle_from
settle sha256 grid max_steps = settle_from max_steps grid 0 >>= λ r.
    canon_hash sha256 (list (rows r.0)) false >>= λ h. ok (r.0, r.1, h)
