-- ===== src/VeriVerse/Physics/Settling.antt =====
-- The loop of VeriVerse/physics.py ends at rest.
use mathlib.Core.Path.{subst, sym}
use dentatus.Prelude.{
  ℕ, zero, suc, ◌+◌, ◌<◌, ◌≤◌, ◌≡◌, refl, ◌∙◌, inl, inr, Bool, true, false, List, [], ◌∷◌, length,
  ok, String, arith,
}
use dentatus.VeriVerse.Physics.{Grid, step, settle_from, settle, cells, rows}
use dentatus.Chronicle.Value.{list}
use dentatus.Chronicle.Canonical.{canonical_bytes, ◌^^◌, show_nat}
use dentatus.Stasis.Canon.{canon_hash, check, check_items}
use dentatus.VeriVerse.Physics.Weight.{Wide}
use dentatus.VeriVerse.Physics.Falling.{grains, height, Fallen, step-Fallen}

-- the loop from a grid, of which some steps are done, ends within the budget at rest
pub record Settled (grid : Grid) (steps : ℕ) (r : Grid × ℕ) : Type 0 where
  pub stable : step r.0 ≡ ok (r.0, false)
  pub kept : grains r.0 ≡ grains grid
  pub bound : r.1 ≤ steps + height grid + 1

Ends : ℕ → Grid → ℕ → Type 0
Ends left grid steps =
    (r : Grid × ℕ) × ((settle_from left grid steps ≡ ok r) × Settled grid steps r)

goes_on :
    (left steps : ℕ) (grid : Grid) (s : Grid × Bool)
    → step grid ≡ ok s
    → s.1 ≡ true
    → grains s.0 ≡ grains grid
    → height s.0 < height grid
    → Ends left s.0 (steps + 1)
    → Ends (suc left) grid steps
unfolding Ends settle_from
goes_on left steps grid (new, moved) walked m kept lt (r, (ends, settled)) = (
  r,
  (
    rw walked (rw m ends),
    record {
      stable = settled.stable;
      kept = settled.kept ∙ kept;
      bound = omega (arith, settled.bound, lt);
    },
  ),
)

stops :
    (left steps : ℕ) (grid : Grid) (s : Grid × Bool)
    → step grid ≡ ok s
    → s.1 ≡ false
    → s.0 ≡ grid
    → Ends (suc left) grid steps
unfolding Ends settle_from
stops left steps grid (new, moved) walked m same = (
  (grid, steps + 1),
  (
    rw walked (rw (m, same) refl),
    record { stable = walked ∙ rw (m, same) refl; kept = refl; bound = omega arith },
  ),
)

-- a grid of as many rows is not empty
further :
    (left steps : ℕ) (row : List ℕ) (grid : Grid) (s : Grid × Bool)
    → Fallen (row ∷ grid) s
    → Wide (length row) (row ∷ grid)
    → ((row2 : List ℕ) (grid2 : Grid)
        → Wide (length row2) (row2 ∷ grid2)
        → height (row2 ∷ grid2) < left
        → Ends left (row2 ∷ grid2) steps)
    → height s.0 < left
    → Ends left s.0 steps
further left steps row grid ([], moved) f wide ih lt = absurd (omega (arith, f.size))
further left steps row grid (row2 ∷ grid2, moved) f wide ih lt =
    ih row2 grid2 (subst (λ w. Wide w (row2 ∷ grid2)) (sym f.width) (f.wide (length row) wide)) lt

settle_from-Ends :
    (left steps : ℕ) (row : List ℕ) (grid : Grid)
    → Wide (length row) (row ∷ grid)
    → height (row ∷ grid) < left
    → Ends left (row ∷ grid) steps
settle_from-Ends zero steps row grid wide lt = absurd (omega (arith, lt))
settle_from-Ends (suc left) steps row grid wide lt =
    let (s, (walked, f)) = step-Fallen row grid wide in
    elim f.lower [
      | inl (m, lower) ↦ goes_on left steps (row ∷ grid) s walked m f.kept lower (
          further left (steps + 1) row grid s f wide (settle_from-Ends left (steps + 1))
            (omega (arith, lower, lt)))
      | inr (m, same) ↦ stops left steps (row ∷ grid) s walked m same
    ]

check_items-cells :
    (row : List ℕ) (path : String) (i : ℕ) → check_items (cells row) false path i ≡ ok tt
unfolding check
check_items-cells [] path i = refl
check_items-cells (c ∷ row) path i = check_items-cells row path (i + 1)

check_items-rows :
    (grid : Grid) (path : String) (i : ℕ) → check_items (rows grid) false path i ≡ ok tt
unfolding check
check_items-rows [] path i = refl
check_items-rows (row ∷ grid) path i =
    rw (check_items-cells row (path ^^ "[" ^^ show_nat i ^^ "]") 0)
      (check_items-rows grid path (i + 1))

-- In a grid of which no row is shorter than the first, a budget of more steps than all grains together can
-- fall rows is enough: no cell is missing, and the sand comes to rest, which takes at most one step more than those rows, no grain is made or lost, and the hash is that of the grid
-- at rest.
pub settle-Settled :
    (sha256 : String → String) (row : List ℕ) (grid : Grid) (max_steps : ℕ)
    → Wide (length row) (row ∷ grid)
    → height (row ∷ grid) < max_steps
    → (r : Grid × ℕ) × ((settle sha256 (row ∷ grid) max_steps
          ≡ ok (r.0, r.1, sha256 (canonical_bytes (list (rows r.0)))))
        × Settled (row ∷ grid) 0 r)
unfolding settle Ends canon_hash check
settle-Settled sha256 row grid max_steps wide lt =
    let (r, (ends, settled)) = settle_from-Ends max_steps 0 row grid wide lt in
    (r, (rw ends (rw (check_items-rows r.0 "$" 0) refl), settled))
