-- ===== src/Aether/FixedPoint.antt =====
-- aether/fixedpoint.py: a real number v is the integer nearest to v * 2^32; matrices are lists of rows of one
-- length.
use dentatus.Prelude.{ℕ, zero, suc, ◌+◌, ◌*◌, ◌/◌, ◌^◌, ◌==◌, List, [], ◌∷◌, map, if◌then◌else◌}
use dentatus.Prelude.Int.{ℤ, pos, ◌+ℤ◌, ◌-ℤ◌, ◌*ℤ◌, ltb_ℤ, abs, floor_div, floor_mod}

abbrev pub scale_bits : ℕ
scale_bits = 32

abbrev pub scale : ℕ
scale = 2 ^ scale_bits

abbrev pub negate : ℤ → ℤ
negate a = pos 0 -ℤ a

-- `divmod`, and the correction by the remainder; the callers give a denominator that is not 0
unfoldable pub round_quotient : ℤ → ℤ → ℤ
round_quotient n den =
    let q = floor_div n den in
    let r = floor_mod n den in
    if ltb_ℤ (pos (2 * abs r)) den then q else if ltb_ℤ n (pos 0) then q -ℤ pos 1 else q +ℤ pos 1

unfoldable pub to_fp : ℤ → ℤ → ℤ
unfolding round_quotient
to_fp num den = round_quotient (num *ℤ pos scale) den

unfoldable pub fp_mul : ℤ → ℤ → ℤ
fp_mul a b =
    let p = a *ℤ b in let q = pos (abs p / scale) in if ltb_ℤ p (pos 0) then negate q else q

abbrev pub Matrix : Type 0
Matrix = List (List ℤ)

-- the sum of the products of a row and a column
unfoldable pub dot : List ℤ → List ℤ → ℤ
dot [] ys = pos 0
dot (x ∷ xs) [] = pos 0
dot (x ∷ xs) (y ∷ ys) = fp_mul x y +ℤ dot xs ys

abbrev zip_cons : List ℤ → Matrix → Matrix
zip_cons [] cols = []
zip_cons (x ∷ xs) [] = []
zip_cons (x ∷ xs) (c ∷ cols) = (x ∷ c) ∷ zip_cons xs cols

abbrev singletons : List ℤ → Matrix
singletons [] = []
singletons (x ∷ xs) = (x ∷ []) ∷ singletons xs

-- `zip(*M)`
unfoldable pub transpose : Matrix → Matrix
transpose [] = []
transpose (row ∷ []) = singletons row
transpose (row ∷ rows) = zip_cons row (transpose rows)

abbrev row_times : List ℤ → Matrix → List ℤ
row_times row cols = map (dot row) cols

unfoldable pub matmul : Matrix → Matrix → Matrix
unfolding dot transpose
matmul a b = map (λ row. row_times row (transpose b)) a

abbrev pub zip_with : (ℤ → ℤ → ℤ) → List ℤ → List ℤ → List ℤ
zip_with f [] ys = []
zip_with f (x ∷ xs) [] = []
zip_with f (x ∷ xs) (y ∷ ys) = f x y ∷ zip_with f xs ys

abbrev pub zip_rows : (ℤ → ℤ → ℤ) → Matrix → Matrix → Matrix
zip_rows f [] ys = []
zip_rows f (x ∷ xs) [] = []
zip_rows f (x ∷ xs) (y ∷ ys) = zip_with f x y ∷ zip_rows f xs ys

unfoldable pub add : Matrix → Matrix → Matrix
add a b = zip_rows (λ x y. x +ℤ y) a b

unfoldable pub sub : Matrix → Matrix → Matrix
sub a b = zip_rows (λ x y. x -ℤ y) a b

unfoldable pub scalar : ℤ → Matrix → Matrix
scalar s_fp m = map (map (fp_mul s_fp)) m

-- row `i` of the identity, from column `j` on
abbrev unit_row : ℕ → ℕ → ℕ → List ℤ
unit_row zero i j = []
unit_row (suc left) i j = (if i == j then pos scale else pos 0) ∷ unit_row left i (j + 1)

abbrev unit_rows : ℕ → ℕ → ℕ → Matrix
unit_rows zero n i = []
unit_rows (suc left) n i = unit_row n i 0 ∷ unit_rows left n (i + 1)

unfoldable pub identity : ℕ → Matrix
identity n = unit_rows n n 0
