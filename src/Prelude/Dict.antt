-- ===== src/Prelude/Dict.antt =====
-- A Python dict, in insertion order, over keys that can be compared.
use mathlib.Core.Path.{◌≡◌, refl}
use mathlib.Core.Logic.{inl, inr}
use mathlib.Core.Bool.{Bool, true, false}
use mathlib.Core.Option.{Option, none, some}
use mathlib.Core.List.{List, [], ◌∷◌}
use native.Mathlib.Omega.{arith}
use dentatus.Prelude.Tests.{if◌then◌else◌, Bool-cases}
use dentatus.Prelude.Eq.{Eq, ◌≟◌, beq_refl}

abbrev pub Dict {ℓ κ} : Type ℓ → Type κ → Type (ℓ ⊔ κ)
Dict K V = List (K × V)

abbrev pub or_default {κ} : {V : Type κ} → V → Option V → V
or_default v none = v
or_default v (some w) = w

module _ {ℓ κ} {K : Type ℓ} {V : Type κ} ⦃e : Eq K⦄ where
  -- `d.get(k)`
  unfoldable pub lookup : K → Dict K V → Option V
  lookup k [] = none
  lookup k ((j, v) ∷ d) = if j ≟ k then some v else lookup k d

  -- `d[k] = v`
  unfoldable pub insert : K → V → Dict K V → Dict K V
  insert k v [] = (k, v) ∷ []
  insert k v ((j, w) ∷ d) = if j ≟ k then (j, v) ∷ d else (j, w) ∷ insert k v d

  -- `del d[k]`; keys are unique, since `insert` replaces
  unfoldable pub erase : K → Dict K V → Dict K V
  erase k [] = []
  erase k ((j, w) ∷ d) = let rest = erase k d in if j ≟ k then rest else (j, w) ∷ rest

  -- `d.get(k, default)`
  unfoldable pub lookup_or : K → V → Dict K V → V
  lookup_or k v d = or_default v (lookup k d)

  -- `k in d`
  unfoldable pub contains : K → Dict K V → Bool
  contains k d = elim (lookup k d) [ none ↦ false | some _ ↦ true ]

  pub lookup-insert :
      (j k : K) (v : V) (d : Dict K V)
      → lookup j (insert k v d) ≡ (if k ≟ j then some v else lookup j d)
  unfolding lookup insert
  lookup-insert j k v [] = refl
  lookup-insert j k v ((i, w) ∷ d) =
      ground (arith, e.decides i k, e.decides i j, e.decides k j, lookup-insert j k v d)

  pub lookup-insert_self : (k : K) (v : V) (d : Dict K V) → lookup k (insert k v d) ≡ some v
  lookup-insert_self k v d = rw (lookup-insert, beq_refl k)

  pub lookup_or-insert :
      (j k : K) (dflt v : V) (d : Dict K V)
      → lookup_or j dflt (insert k v d) ≡ (if k ≟ j then v else lookup_or j dflt d)
  unfolding lookup_or
  lookup_or-insert j k dflt v d = elim (Bool-cases (k ≟ j)) [
    | inl same ↦ rw (lookup-insert, same)
    | inr other ↦ rw (lookup-insert, other)
  ]

  pub lookup-erase :
      (j k : K) (d : Dict K V) → lookup j (erase k d) ≡ (if k ≟ j then none else lookup j d)
  unfolding lookup erase
  lookup-erase j k [] = ground arith
  lookup-erase j k ((i, w) ∷ d) =
      ground (arith, e.decides i k, e.decides i j, e.decides k j, lookup-erase j k d)

  -- No key stands twice, as in every dict that `insert` builds from the empty one.
  abbrev pub IsUnique : Dict K V → Type (ℓ ⊔ κ)
  IsUnique [] = Unit
  IsUnique ((k, v) ∷ d) = (lookup k d ≡ none) × IsUnique d

  pub insert-IsUnique : (k : K) (v : V) (d : Dict K V) → IsUnique d → IsUnique (insert k v d)
  unfolding lookup insert
  insert-IsUnique k v [] u = (refl, tt)
  insert-IsUnique k v ((j, w) ∷ d) u = elim (Bool-cases (j ≟ k)) [
    | inl same ↦ rw same u
    | inr other ↦
        rw other (
          rw lookup-insert (ground (arith, e.decides j k, e.decides k j)),
          insert-IsUnique k v d u.1,
        )
  ]
