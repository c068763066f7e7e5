-- ===== src/Glitch/Shrinking.antt =====
-- Shrinking keeps the failure, and ends at a path of which no event can be left out.
use mathlib.Core.Path.{subst}
use dentatus.Prelude.{
  ℕ, zero, suc, ◌<◌, String, ◌≡◌, refl, ap, ◌∙◌, ◌⊎◌, Bool, true, false, none, some, List, [], ◌∷◌,
  ◌++◌, map, take, drop, arith, length, Bool-cases, Option-cases, inl, inr,
}
use dentatus.Glitch.{still_fails, candidates, first_failing, shrink_from, shrink}

module _ {E : Type 0} where
  -- The first path is the second with some events left out.
  abbrev pub Within : List E → List E → Type 0
  Within [] path = Unit
  Within (e ∷ p) [] = ⊥
  Within (e ∷ p) (f ∷ path) = ((e ≡ f) × Within p path) ⊎ Within (e ∷ p) path

  -- the path without its event at i
  abbrev pub without : ℕ → List E → List E
  without i path = take i path ++ drop (suc i) path

  Within-refl : (path : List E) → Within path path
  Within-refl [] = tt
  Within-refl (e ∷ path) = inl (refl, Within-refl path)

  Within-tail : (e : E) (path : List E) → Within path (e ∷ path)
  Within-tail e [] = tt
  Within-tail e (f ∷ path) = inr (Within-refl (f ∷ path))

  Within-trans : (p q r : List E) → Within p q → Within q r → Within p r
  Within-trans [] q r h k = tt
  Within-trans (e ∷ p) [] r h k = absurd h
  Within-trans (e ∷ p) (f ∷ q) [] h k = absurd k
  Within-trans (e ∷ p) (f ∷ q) (g ∷ r) h (inr k) = inr (Within-trans (e ∷ p) (f ∷ q) r h k)
  Within-trans (e ∷ p) (f ∷ q) (g ∷ r) (inl (same, h)) (inl (same2, k)) =
      inl (same ∙ same2, Within-trans p q r h k)
  Within-trans (e ∷ p) (f ∷ q) (g ∷ r) (inr h) (inl (same, k)) = inr (Within-trans (e ∷ p) q r h k)

  Shorter : List E → List E → Type 0
  Shorter path q = (suc (length q) ≡ length path) × Within q path

  abbrev AllShorter : List E → List (List E) → Type 0
  AllShorter path [] = Unit
  AllShorter path (q ∷ qs) = Shorter path q × AllShorter path qs

  map-AllShorter :
      (ev : E) (path : List E) (ps : List (List E))
      → AllShorter path ps
      → AllShorter (ev ∷ path) (map (λ p. ev ∷ p) ps)
  unfolding Shorter
  map-AllShorter ev path [] a = tt
  map-AllShorter ev path (p ∷ ps) ((l, w), a) =
      ((ap suc l, inl (refl, w)), map-AllShorter ev path ps a)

module _ {S E : Type 0} (hash : S → String) (step_fn : S → E → S) (invariant_fn : S → Bool) where
  -- No path of the list violates the invariant.
  abbrev NoneFails : S → List (List E) → Type 0
  NoneFails initial [] = Unit
  NoneFails initial (p ∷ ps) =
      (still_fails hash step_fn invariant_fn initial p ≡ false) × NoneFails initial ps

  candidates-AllShorter :
      (path : List E) → AllShorter path (candidates hash step_fn invariant_fn path)
  unfolding candidates Shorter
  candidates-AllShorter [] = tt
  candidates-AllShorter (ev ∷ path) =
      ((refl, Within-tail ev path), map-AllShorter ev path _ (candidates-AllShorter path))

  first_failing-none :
      (initial : S) (ps : List (List E))
      → first_failing hash step_fn invariant_fn initial ps ≡ none
      → NoneFails initial ps
  unfolding first_failing
  first_failing-none initial [] e = tt
  first_failing-none initial (p ∷ ps) e =
      elim (Bool-cases (still_fails hash step_fn invariant_fn initial p)) [
        | inl bad ↦ absurd (ground arith)
        | inr fine ↦ (fine, first_failing-none initial ps (ground arith))
      ]

  first_failing-some :
      (initial : S) (path : List E) (ps : List (List E)) {q : List E}
      → AllShorter path ps
      → first_failing hash step_fn invariant_fn initial ps ≡ some q
      → (still_fails hash step_fn invariant_fn initial q ≡ true) × Shorter path q
  unfolding first_failing
  first_failing-some initial path [] a e = cc
  first_failing-some initial path (p ∷ ps) {q} (l, a) e =
      elim (Bool-cases (still_fails hash step_fn invariant_fn initial p)) [
        | inl bad ↦
            let same : p ≡ q = ground arith in
            subst (λ r. (still_fails hash step_fn invariant_fn initial r ≡ true) × Shorter path r)
              same (bad, l)
        | inr fine ↦ first_failing-some initial path ps a (ground arith)
      ]

  -- every event is left out by some candidate, here with events put before
  candidates-without :
      (initial : S) (given : List E → List E) (path : List E) (i : ℕ)
      → NoneFails initial (map given (candidates hash step_fn invariant_fn path))
      → i < length path
      → still_fails hash step_fn invariant_fn initial (given (without i path)) ≡ false
  unfolding candidates
  candidates-without initial given [] i none_ below = absurd (omega arith)
  candidates-without initial given (ev ∷ path) zero (fine, rest) below = fine
  candidates-without initial given (ev ∷ path) (suc i) (fine, rest) below =
      candidates-without initial (λ p. given (ev ∷ p)) path i
        (mapped (candidates hash step_fn invariant_fn path) rest) (omega arith)
    where
      mapped :
          (ps : List (List E))
          → NoneFails initial (map given (map (λ p. ev ∷ p) ps))
          → NoneFails initial (map (λ p. given (ev ∷ p)) ps)
      mapped [] n = tt
      mapped (p ∷ ps) (f, n) = (f, mapped ps n)

  -- What is left of a path that violates the invariant: it is the path with some events left out, it
  -- violates the invariant, and it violates it no more without the event at any one place.
  pub record Minimal (initial : S) (path result : List E) : Type 0 where
    pub within : Within result path
    pub fails : still_fails hash step_fn invariant_fn initial result ≡ true
    pub tight :
        (i : ℕ)
        → i < length result
        → still_fails hash step_fn invariant_fn initial (without i result) ≡ false

  map_same :
      (initial : S) (ps : List (List E))
      → NoneFails initial ps
      → NoneFails initial (map (λ p. p) ps)
  map_same initial [] n = tt
  map_same initial (p ∷ ps) (f, n) = (f, map_same initial ps n)

  tight_at :
      (initial : S) (path : List E)
      → NoneFails initial (candidates hash step_fn invariant_fn path)
      → (i : ℕ) → i < length path
      → still_fails hash step_fn invariant_fn initial (without i path) ≡ false
  tight_at initial path n i below =
      candidates-without initial (λ p. p) path i (map_same initial _ n) below

  shrink_from-Minimal :
      (fuel : ℕ) (initial : S) (path current : List E)
      → length current ≡ fuel
      → Within current path
      → still_fails hash step_fn invariant_fn initial current ≡ true
      → Minimal initial path (shrink_from hash step_fn invariant_fn fuel initial current)
  unfolding shrink_from Shorter
  shrink_from-Minimal zero initial path [] e w f = record {
    within = w;
    fails = f;
    tight = λ i below. absurd (omega arith);
  }
  shrink_from-Minimal zero initial path (ev ∷ rest) e w f = absurd (omega arith)
  shrink_from-Minimal (suc fuel) initial path current e w f =
      elim (Option-cases (
        first_failing hash step_fn invariant_fn initial
          (candidates hash step_fn invariant_fn current))) [
            | inl none_ ↦
                rw (shrink_from, none_)
                  (record {
                    within = w;
                    fails = f;
                    tight = tight_at initial current (first_failing-none initial _ none_);
                  })
            | inr (q, found) ↦
                let (g, (l, v)) =
                  first_failing-some initial current _ (candidates-AllShorter current) found in
                rw (shrink_from, found)
                  (shrink_from-Minimal fuel initial path q (omega (arith, l, e))
                    (Within-trans q current path v w) g)
          ]

  -- A path that violates the invariant shrinks to the path with some events left out, which still violates
  -- it, and violates it no more when the event at any one place is left out too.
  pub shrink-Minimal :
      (initial : S) (path : List E)
      → still_fails hash step_fn invariant_fn initial path ≡ true
      → Minimal initial path (shrink hash step_fn invariant_fn initial path)
  unfolding shrink
  shrink-Minimal initial path f =
      shrink_from-Minimal (length path) initial path path refl (Within-refl path) f
