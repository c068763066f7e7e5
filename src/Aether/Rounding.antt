-- ===== src/Aether/Rounding.antt =====
-- How `to_fp` of aether/fixedpoint.py rounds.
use dentatus.Prelude.{ℕ, suc, ◌+◌, ◌-◌, ◌*◌, ◌/◌, ◌%◌, ◌≤◌, ◌<◌, ◌≡◌, refl, arith, ◌⊎◌, inl, inr}
use native.Mathlib.Decide.{dec_lt}
use dentatus.Prelude.Int.{
  ℤ, pos, negsuc, ◌+ℤ◌, ◌-ℤ◌, ◌*ℤ◌, abs, floor_div, floor_mod, int_laws, eq_of_parts, pos_mul,
  negsuc_mul,
}
use dentatus.Aether.FixedPoint.{to_fp, round_quotient, scale}

-- twice the distance from a quotient times the denominator to the numerator
abbrev pub double_error : ℤ → ℕ → ℤ → ℕ
double_error n den q = 2 * abs (q *ℤ pos den -ℤ n)

floor_mod_pos : (n d : ℕ) → floor_mod (pos n) (pos (suc d)) ≡ pos (n % suc d)
unfolding floor_mod floor_div
floor_mod_pos n d =
    let split : n ≡ n / suc d * suc d + n % suc d = grind arith in
    rw (pos_mul (n / suc d) (suc d)) (eq_of_parts _ _ (omega int_laws))

floor_div_neg : (n d : ℕ) → floor_div (negsuc n) (pos (suc d)) ≡ negsuc (n / suc d)
unfolding floor_div
floor_div_neg n d = ground arith

floor_mod_neg : (n d : ℕ) → floor_mod (negsuc n) (pos (suc d)) ≡ pos (d - n % suc d)
unfolding floor_mod
floor_mod_neg n d =
    let split : n ≡ n / suc d * suc d + n % suc d = grind arith in
    let below : n % suc d < suc d = omega arith in
    let whole : suc (n / suc d) * suc d ≡ n / suc d * suc d + suc d = grind arith in
    rw (floor_div_neg n d, negsuc_mul (n / suc d) d) (eq_of_parts _ _ (omega int_laws))

up_pos : (k : ℕ) → pos k +ℤ pos 1 ≡ pos (suc k)
unfolding ◌+ℤ◌
up_pos k = ground arith

down_neg : (k : ℕ) → negsuc k -ℤ pos 1 ≡ negsuc (suc k)
unfolding ◌-ℤ◌
down_neg k = ground arith

apart_pos : (a n : ℕ) → abs (pos a -ℤ pos n) ≡ (a - n) + (n - a)
unfolding ◌-ℤ◌
apart_pos a n = ground arith

apart_neg : (a n : ℕ) → abs (negsuc a -ℤ negsuc n) ≡ (a - n) + (n - a)
unfolding ◌-ℤ◌
apart_neg a n = ground arith

error_pos :
    (k d n : ℕ) → double_error (pos n) (suc d) (pos k) ≡ 2 * ((k * suc d - n) + (n - k * suc d))
error_pos k d n = rw (pos_mul k (suc d), apart_pos (k * suc d) n) refl

error_neg :
    (k d n : ℕ)
    → double_error (negsuc n) (suc d) (negsuc k)
      ≡ 2 * ((suc k * suc d - 1 - n) + (n - (suc k * suc d - 1)))
error_neg k d n = rw (negsuc_mul k d, apart_neg (suc k * suc d - 1) n) refl

round_near :
    (n d : ℕ) → 2 * (n % suc d) < suc d → round_quotient (pos n) (pos (suc d)) ≡ pos (n / suc d)
unfolding round_quotient floor_div
round_near n d h = ground (arith, floor_mod_pos n d)

round_up :
    (n d : ℕ)
    → suc d ≤ 2 * (n % suc d)
    → round_quotient (pos n) (pos (suc d)) ≡ pos (suc (n / suc d))
unfolding round_quotient floor_div
round_up n d h = ground (arith, floor_mod_pos n d, up_pos (n / suc d))

round_down :
    (n d : ℕ)
    → suc d ≤ 2 * (d - n % suc d)
    → round_quotient (negsuc n) (pos (suc d)) ≡ negsuc (suc (n / suc d))
unfolding round_quotient
round_down n d h = ground (arith, floor_mod_neg n d, floor_div_neg n d, down_neg (n / suc d))

-- A numerator that is not negative is rounded to a nearest quotient.
round_quotient_pos :
    (n d : ℕ) → double_error (pos n) (suc d) (round_quotient (pos n) (pos (suc d))) ≤ suc d
round_quotient_pos n d =
    let split : n ≡ n / suc d * suc d + n % suc d = grind arith in
    let below : n % suc d < suc d = omega arith in
    let next : suc (n / suc d) * suc d ≡ n / suc d * suc d + suc d = grind arith in
    elim (dec_lt (2 * (n % suc d)) (suc d)) [
      | yes near ↦ rw (round_near n d near, error_pos (n / suc d) d n) (omega arith)
      | no far ↦ rw (round_up n d (omega arith), error_pos (suc (n / suc d)) d n) (omega arith)
    ]

round_floor :
    (n d : ℕ)
    → 2 * (d - n % suc d) < suc d
    → round_quotient (negsuc n) (pos (suc d)) ≡ negsuc (n / suc d)
unfolding round_quotient
round_floor n d h = ground (arith, floor_mod_neg n d, floor_div_neg n d)

-- the remainder that `divmod` leaves of the scaled numerator
abbrev pub remainder : ℤ → ℕ → ℕ
remainder num d = abs (floor_mod (num *ℤ pos scale) (pos (suc d)))

abbrev Split : ℤ → ℕ → ℤ → ℕ → Type 0
Split n d q r =
    ((2 * r < suc d) × (double_error n (suc d) q ≤ suc d))
    ⊎ ((suc d ≤ 2 * r) × (2 * suc d < double_error n (suc d) q))

round_quotient_neg :
    (n d : ℕ)
    → Split
        (negsuc n)
        d
        (round_quotient (negsuc n) (pos (suc d)))
        (abs (floor_mod (negsuc n) (pos (suc d))))
round_quotient_neg n d =
    let split : n ≡ n / suc d * suc d + n % suc d = grind arith in
    let below : n % suc d < suc d = omega arith in
    let next : suc (n / suc d) * suc d ≡ n / suc d * suc d + suc d = grind arith in
    let two : suc (suc (n / suc d)) * suc d ≡ n / suc d * suc d + suc d + suc d = grind arith in
    rw (floor_mod_neg n d) (elim (dec_lt (2 * (d - n % suc d)) (suc d)) [
      | yes near ↦ inl (near, rw (round_floor n d near, error_neg (n / suc d) d n) (omega arith))
      | no far ↦ inr (
        omega arith,
        rw (round_down n d (omega arith), error_neg (suc (n / suc d)) d n) (omega arith),
      )
    ])

-- how far `to_fp num den` is from the rational number, in units of the last place
abbrev pub Rounds : ℤ → ℕ → Type 0
Rounds (pos n) d = double_error (pos n *ℤ pos scale) (suc d) (to_fp (pos n) (pos (suc d))) ≤ suc d
Rounds (negsuc n) d =
    ((2 * remainder (negsuc n) d < suc d)
      × (double_error (negsuc n *ℤ pos scale) (suc d) (to_fp (negsuc n) (pos (suc d))) ≤ suc d))
    ⊎ ((suc d ≤ 2 * remainder (negsuc n) d)
        × (2 * suc d
            < double_error (negsuc n *ℤ pos scale) (suc d) (to_fp (negsuc n) (pos (suc d)))))

-- With a positive denominator `to_fp` is within half a unit of a rational number that is not negative.
-- Of a negative one it is within half a unit where the remainder of the floored division is less
-- than half the denominator, and elsewhere it is wrong by more than a whole unit.
pub to_fp-Rounds : (num : ℤ) (d : ℕ) → Rounds num d
unfolding to_fp
to_fp-Rounds (pos n) d = rw (pos_mul n scale) (round_quotient_pos (n * scale) d)
to_fp-Rounds (negsuc n) d =
    let r : ℕ = 4294967295 in rw (negsuc_mul n r) (round_quotient_neg (suc n * suc r - 1) d)
