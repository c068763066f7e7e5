-- ===== src/Prelude/Sorting.antt =====
-- Python's `sorted` on texts, by code points.
use Prim.Native.String.{String, compare as compare_text}
use Prim.Native.Nat.{Ordering}
use mathlib.Core.List.{List, [], ◌∷◌}

unfoldable pub insert_sorted : String → List String → List String
insert_sorted s [] = s ∷ []
insert_sorted s (t ∷ ts) = elim (compare_text s t) [
  | Ordering.gt ↦ t ∷ insert_sorted s ts
  | _ ↦ s ∷ t ∷ ts
]

unfoldable pub sorted : List String → List String
unfolding insert_sorted
sorted [] = []
sorted (s ∷ ts) = insert_sorted s (sorted ts)

module _ {ℓ} {V : Type ℓ} where
  unfoldable pub insert_entry : String × V → List (String × V) → List (String × V)
  insert_entry (k, v) [] = (k, v) ∷ []
  insert_entry (k, v) ((j, w) ∷ es) = elim (compare_text k j) [
    | Ordering.gt ↦ (j, w) ∷ insert_entry (k, v) es
    | _ ↦ (k, v) ∷ (j, w) ∷ es
  ]

  -- pairs whose first components differ are ordered by them
  unfoldable pub sorted_entries : List (String × V) → List (String × V)
  unfolding insert_entry
  sorted_entries [] = []
  sorted_entries (e ∷ es) = insert_entry e (sorted_entries es)
