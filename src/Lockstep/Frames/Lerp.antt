-- ===== src/Lockstep/Frames/Lerp.antt =====
-- The integer interpolation of lockstep/interp.py stays between its end points.
use dentatus.Prelude.{
  ℕ, zero, suc, ◌+◌, ◌*◌, ◌/◌, ◌-◌, ◌≤◌, ◌<◌, ◌≡◌, refl, ap, ◌⊎◌, inl, inr, arith,
}
use dentatus.Prelude.Int.{
  ℤ, pos, negsuc, pos_mul, negsuc_mul, zero_mul, pos_part, neg_part, ◌+ℤ◌, ◌-ℤ◌, ◌*ℤ◌, ◌≤ℤ◌,
  floor_div, int_laws,
}
use dentatus.Lockstep.Frames.{ilerp}

div-le : (m r d : ℕ) → r < d → m * r / d ≤ m
div-le m r d h = grind arith

below_div : (m r d : ℕ) → suc r < d → (suc m * suc r - 1) / d ≤ m
below_div m r d h = grind arith

-- in either direction
abbrev pub Between : ℤ → ℤ → ℤ → Type 0
Between a b x = ((a ≤ℤ x) × (x ≤ℤ b)) ⊎ ((b ≤ℤ x) × (x ≤ℤ a))

-- a fraction of a difference lies between nothing and the whole difference
abbrev Fraction : ℤ → ℤ → Type 0
Fraction (pos m) q = (k : ℕ) × (q ≡ pos k) × (k ≤ m)
Fraction (negsuc m) q = (q ≡ pos 0) ⊎ ((k : ℕ) × (q ≡ negsuc k) × (k ≤ m))

floor_div-Fraction :
    (d : ℤ) (rem den : ℕ) → rem < den → Fraction d (floor_div (d *ℤ pos rem) (pos den))
unfolding floor_div
floor_div-Fraction (pos m) rem den h = rw (pos_mul m rem) (m * rem / den, refl, div-le m rem den h)
floor_div-Fraction (negsuc m) zero den h = inl (rw (zero_mul m) (ap pos (grind arith)))
floor_div-Fraction (negsuc m) (suc r) den h =
    rw (negsuc_mul m r) (inr ((suc m * suc r - 1) / den, ground arith, below_div m r den h))

Fraction-Between : (a b q : ℤ) (d : ℤ) → d ≡ b -ℤ a → Fraction d q → Between a b (a +ℤ q)
Fraction-Between a b q (pos m) e (k, same, le) =
    let up : m ≡ pos_part (b -ℤ a) = ap pos_part e in
    let none_ : 0 ≡ neg_part (b -ℤ a) = ap neg_part e in
    rw same (inl (omega int_laws, omega int_laws))
Fraction-Between a b q (negsuc m) e (inl same) =
    let none_ : 0 ≡ pos_part (b -ℤ a) = ap pos_part e in
    let down : suc m ≡ neg_part (b -ℤ a) = ap neg_part e in
    rw same (inr (omega int_laws, omega int_laws))
Fraction-Between a b q (negsuc m) e (inr (k, same, le)) =
    let none_ : 0 ≡ pos_part (b -ℤ a) = ap pos_part e in
    let down : suc m ≡ neg_part (b -ℤ a) = ap neg_part e in
    rw same (inr (omega int_laws, omega int_laws))

pub ilerp-Between : (a b : ℤ) (rem den : ℕ) → rem < den → Between a b (ilerp a b rem den)
unfolding ilerp
ilerp-Between a b rem den h =
    Fraction-Between a b _ (b -ℤ a) refl (floor_div-Fraction (b -ℤ a) rem den h)

-- The step x - a is the quotient of (b - a) * rem by den, rounded down.
abbrev pub Floors : ℤ → ℤ → ℕ → ℕ → ℤ → Type 0
Floors a b rem den x =
    ((x -ℤ a) *ℤ pos den ≤ℤ (b -ℤ a) *ℤ pos rem)
    × ((b -ℤ a) *ℤ pos rem +ℤ pos 1 ≤ℤ (x -ℤ a) *ℤ pos den +ℤ pos den)

floor_div-Floors :
    (p : ℤ) (d : ℕ)
    → 0 < d
    → (floor_div p (pos d) *ℤ pos d ≤ℤ p) × (p +ℤ pos 1 ≤ℤ floor_div p (pos d) *ℤ pos d +ℤ pos d)
unfolding floor_div
floor_div-Floors (pos a) d h = rw (pos_mul (a / d) d) (grind int_laws, grind int_laws)
floor_div-Floors (negsuc a) zero h = absurd (omega arith)
floor_div-Floors (negsuc a) (suc d) h =
    let down : floor_div (negsuc a) (pos (suc d)) ≡ negsuc (a / suc d) = ground arith in
    let over : a < suc (a / suc d) * suc d = grind arith in
    let under : a / suc d * suc d ≤ a = grind arith in
    let grown : suc (a / suc d) * suc d ≡ a / suc d * suc d + suc d = grind arith in
    rw down (
      rw (negsuc_mul (a / suc d) d)
        (omega (int_laws, over, under, grown), omega (int_laws, over, under, grown)))

step_back : (a q : ℤ) → a +ℤ q -ℤ a ≡ q
step_back a q = omega int_laws

pub ilerp-Floors : (a b : ℤ) (rem den : ℕ) → 0 < den → Floors a b rem den (ilerp a b rem den)
unfolding ilerp
ilerp-Floors a b rem den h =
    rw (step_back a (floor_div ((b -ℤ a) *ℤ pos rem) (pos den)))
      (floor_div-Floors ((b -ℤ a) *ℤ pos rem) den h)
