-- ===== src/Ration/Total.antt =====
-- What a recorded step adds to the weighted total.
use dentatus.Prelude.{
  ◌≡◌, refl, sym, ap, ◌∙◌, true, false, String, [], ◌∷◌, arith, Bool-cases, inl, inr, ◌*◌, ◌+◌, ℕ,
}
use Prim.Native.String.{compare as compare_text}
use Prim.Native.Nat.{Ordering}
use dentatus.Prelude.Int.{ℤ, pos, ◌+ℤ◌, ◌*ℤ◌, int_laws, pos_part, neg_part, +ℤ_parts, eq_of_parts}
use dentatus.Prelude.Eq.{◌≟◌, string_eq}
use dentatus.Prelude.Dict.{Dict, lookup_or, lookup, insert}
use dentatus.Prelude.Sorting.{insert_entry, sorted_entries}
use dentatus.Ration.{Counts, add, sum_weighted, step_total}

*ℤ_parts :
    (a w : ℤ)
    → pos_part (a *ℤ w) + (pos_part a * neg_part w + neg_part a * pos_part w)
      ≡ neg_part (a *ℤ w) + (pos_part a * pos_part w + neg_part a * neg_part w)
unfolding ◌*ℤ◌
*ℤ_parts a w = ground arith

sum_times : (x y z w : ℕ) → (x + y + z) * w ≡ x * w + y * w + z * w
sum_times x y z w = grind arith

balance_times :
    (a b : ℤ) (v : ℕ)
    → pos_part (a +ℤ b) * v + neg_part a * v + neg_part b * v
      ≡ neg_part (a +ℤ b) * v + pos_part a * v + pos_part b * v
balance_times a b v =
    sym (sum_times (pos_part (a +ℤ b)) (neg_part a) (neg_part b) v)
    ∙ ap (λ n. n * v) (+ℤ_parts a b)
    ∙ sum_times (neg_part (a +ℤ b)) (pos_part a) (pos_part b) v

*ℤ_distrib : (a b w : ℤ) → (a +ℤ b) *ℤ w ≡ a *ℤ w +ℤ b *ℤ w
*ℤ_distrib a b w = eq_of_parts _ _ (
    omega (
      arith,
      balance_times a b (pos_part w),
      balance_times a b (neg_part w),
      *ℤ_parts (a +ℤ b) w,
      *ℤ_parts a w,
      *ℤ_parts b w,
      +ℤ_parts (a *ℤ w) (b *ℤ w),
    ))

+ℤ_swap : (a b c : ℤ) → a +ℤ (b +ℤ c) ≡ b +ℤ (a +ℤ c)
+ℤ_swap a b c = omega int_laws

+ℤ_turn : (a b c : ℤ) → a +ℤ b +ℤ c ≡ b +ℤ (a +ℤ c)
+ℤ_turn a b c = omega int_laws

sum_weighted-insert_entry :
    (k : String) (n : ℤ) (counts : Counts) (weights : Dict String ℤ)
    → sum_weighted (insert_entry (k, n) counts) weights
      ≡ n *ℤ lookup_or k (pos 1) weights +ℤ sum_weighted counts weights
unfolding sum_weighted insert_entry
sum_weighted-insert_entry k n [] weights = refl
sum_weighted-insert_entry k n ((j, m) ∷ counts) weights =
    placed (compare_text k j) (sum_weighted-insert_entry k n counts weights)
  where
    placed :
        (o : Ordering)
        → sum_weighted (insert_entry (k, n) counts) weights
          ≡ n *ℤ lookup_or k (pos 1) weights +ℤ sum_weighted counts weights
        → sum_weighted
            (elim o [
              | Ordering.gt ↦ (j, m) ∷ insert_entry (k, n) counts
              | _ ↦ (k, n) ∷ (j, m) ∷ counts
            ])
            weights
          ≡ n *ℤ lookup_or k (pos 1) weights +ℤ sum_weighted ((j, m) ∷ counts) weights
    placed Ordering.gt h = ap (λ t. m *ℤ lookup_or j (pos 1) weights +ℤ t) h ∙ +ℤ_swap _ _ _
    placed Ordering.lt h = refl
    placed Ordering.eq h = refl

sum_weighted-sorted_entries :
    (counts : Counts) (weights : Dict String ℤ)
    → sum_weighted (sorted_entries counts) weights ≡ sum_weighted counts weights
unfolding sum_weighted sorted_entries
sum_weighted-sorted_entries [] weights = refl
sum_weighted-sorted_entries ((k, n) ∷ counts) weights =
    sum_weighted-insert_entry k n (sorted_entries counts) weights
    ∙ ap (λ t. n *ℤ lookup_or k (pos 1) weights +ℤ t) (sum_weighted-sorted_entries counts weights)

zero_times : (w : ℤ) → pos 0 *ℤ w ≡ pos 0
unfolding ◌*ℤ◌
zero_times w = ground arith

lookup_or-head :
    (c j : String) (m : ℤ) (counts : Counts)
    → (j ≟ c) ≡ true
    → lookup_or c (pos 0) ((j, m) ∷ counts) ≡ m
unfolding lookup_or lookup
lookup_or-head c j m counts same = rw same refl

lookup_or-tail :
    (c j : String) (m : ℤ) (counts : Counts)
    → (j ≟ c) ≡ false
    → lookup_or c (pos 0) ((j, m) ∷ counts) ≡ lookup_or c (pos 0) counts
unfolding lookup_or lookup
lookup_or-tail c j m counts other = rw other refl

-- the value that is inserted is `n` more than the one before
sum_weighted-insert :
    (c : String) (n x : ℤ) (counts : Counts) (weights : Dict String ℤ)
    → x ≡ lookup_or c (pos 0) counts +ℤ n
    → sum_weighted (insert c x counts) weights
      ≡ n *ℤ lookup_or c (pos 1) weights +ℤ sum_weighted counts weights
unfolding sum_weighted insert
sum_weighted-insert c n x [] weights e =
    let whole : pos 0 +ℤ n ≡ n = omega int_laws in
    let empty : lookup_or {K = String} {V = ℤ} c (pos 0) [] ≡ pos 0 =
      unfold lookup_or lookup in refl in
    ap (λ m. m *ℤ lookup_or c (pos 1) weights +ℤ pos 0) (e ∙ ap (λ t. t +ℤ n) empty ∙ whole)
sum_weighted-insert c n x ((j, m) ∷ counts) weights e = elim (Bool-cases (j ≟ c)) [
  | inl same ↦
      let w = lookup_or j (pos 1) weights in
      let more = e ∙ ap (λ t. t +ℤ n) (lookup_or-head c j m counts same) in
      rw (same, ← (string_eq.decides j c).0 same, more)
        (ap (λ t. t +ℤ sum_weighted counts weights) (*ℤ_distrib m n w) ∙ +ℤ_turn _ _ _)
  | inr other ↦ rw other (
      ap (λ t. m *ℤ lookup_or j (pos 1) weights +ℤ t)
        (sum_weighted-insert c n x counts weights
          (e ∙ ap (λ t. t +ℤ n) (lookup_or-tail c j m counts other)))
      ∙ +ℤ_swap _ _ _)
]

-- Recording `n` steps of a category adds `n` times the weight of the category to the weighted total,
-- whatever was recorded before and in whatever order.
pub step_total-add :
    (category : String) (n : ℤ) (counts : Counts) (weights : Dict String ℤ)
    → step_total (add category n counts) weights
      ≡ n *ℤ lookup_or category (pos 1) weights +ℤ step_total counts weights
unfolding step_total add
step_total-add category n counts weights =
    sum_weighted-sorted_entries _ weights
    ∙ sum_weighted-insert category n _ counts weights refl
    ∙ ap (λ t. n *ℤ lookup_or category (pos 1) weights +ℤ t)
        (sym (sum_weighted-sorted_entries counts weights))
