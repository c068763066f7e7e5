-- ===== src/Lockstep/Rollback.antt =====
-- Whether a reconciliation changed the last tick.
use dentatus.Prelude.{
  ℕ, ◌+◌, ◌≤◌, String, ◌≡◌, refl, sym, ap, ◌∙◌, Bool, true, false, not, Option, none, some, List,
  [], ◌∷◌, ◌++◌, arith, leb, if◌then◌else◌, length,
}
use dentatus.Prelude.Eq.{◌≟◌, string_eq, beq_refl}
use dentatus.Chronicle.Value.{Value}
use dentatus.Chronicle.Canonical.{canonical_bytes}
use dentatus.Lockstep.{
  Track, tick, last_or, last_hash, divergence_from, first_input_divergence, new_track, advance,
  advance_all, from_inputs, Reconciled, merged, rolled_back, settle, reconcile,
}

-- inputs that are the same in canonical form, one by one
abbrev SameInputs : List Value → List Value → Type 0
SameInputs [] [] = Unit
SameInputs [] (b ∷ bs) = ⊥
SameInputs (a ∷ as_) [] = ⊥
SameInputs (a ∷ as_) (b ∷ bs) = (canonical_bytes a ≡ canonical_bytes b) × SameInputs as_ bs

SameInputs-refl : (ps : List Value) → SameInputs ps ps
SameInputs-refl [] = tt
SameInputs-refl (p ∷ ps) = (refl, SameInputs-refl ps)

differs :
    (b : Bool) (i : ℕ) (rest : Option ℕ)
    → (if not b then some i else rest) ≡ none
    → (b ≡ true) × (rest ≡ none)
differs true i rest e = (refl, e)
differs false i rest e = cc

merged-SameInputs :
    (sha256 : String → String) (step_fn : Value → Value → Value) (i : ℕ) (ps as_ : List Value)
    → divergence_from i ps as_ ≡ none
    → length as_ ≤ length ps
    → SameInputs ps (merged sha256 step_fn ps as_)
unfolding divergence_from
merged-SameInputs sha256 step_fn i ps [] e h = SameInputs-refl ps
merged-SameInputs sha256 step_fn i [] (a ∷ as_) e h = absurd (omega arith)
merged-SameInputs sha256 step_fn i (p ∷ ps) (a ∷ as_) e h =
    let (same, rest) = differs (canonical_bytes p ≟ canonical_bytes a) i _ e in
    (
      (string_eq.decides _ _).0 same,
      merged-SameInputs sha256 step_fn (i + 1) ps as_ rest (omega arith),
    )

append_nil : (xs : List Value) → xs ++ [] ≡ xs
append_nil [] = refl
append_nil (x ∷ xs) = ap (λ ys. x ∷ ys) (append_nil xs)

append_shift : (xs : List Value) (y : Value) (ys : List Value) → (xs ++ y ∷ []) ++ ys ≡ xs ++ y ∷ ys
append_shift [] y ys = refl
append_shift (x ∷ xs) y ys = ap (λ zs. x ∷ zs) (append_shift xs y ys)

module _ (sha256 : String → String) (step_fn : Value → Value → Value)
    (respects : (s a b : Value)
      → canonical_bytes a ≡ canonical_bytes b
      → step_fn s a ≡ step_fn s b) where
  last_or-snoc : {A : Type 0} (x y : A) (xs : List A) → last_or x (xs ++ y ∷ []) ≡ y
  unfolding last_or
  last_or-snoc x y [] = refl
  last_or-snoc x y (z ∷ xs) = last_or-snoc z y xs

  next_state :
      (t u : Track) (p q : Value)
      → t.later ≡ u.later
      → t.first ≡ u.first
      → canonical_bytes p ≡ canonical_bytes q
      → step_fn (last_or t.first t.later) p ≡ step_fn (last_or u.first u.later) q
  next_state t u p q l f e = rw (l, f) (respects (last_or u.first u.later) p q e)

  advance-first :
      (t u : Track) (p q : Value)
      → t.first ≡ u.first
      → (advance sha256 step_fn t p).first ≡ (advance sha256 step_fn u q).first
  unfolding advance
  advance-first t u p q f = f

  advance-later :
      (t u : Track) (p q : Value)
      → t.later ≡ u.later
      → t.first ≡ u.first
      → canonical_bytes p ≡ canonical_bytes q
      → (advance sha256 step_fn t p).later ≡ (advance sha256 step_fn u q).later
  unfolding advance
  advance-later t u p q l f e = rw (next_state t u p q l f e, l) refl

  advance-last_hash :
      (t u : Track) (p q : Value)
      → t.later ≡ u.later
      → t.first ≡ u.first
      → canonical_bytes p ≡ canonical_bytes q
      → last_hash (advance sha256 step_fn t p) ≡ last_hash (advance sha256 step_fn u q)
  unfolding advance tick
  advance-last_hash t u p q l f e =
      last_or-snoc t.first_hash _ t.hashes
      ∙ rw (next_state t u p q l f e, l) refl
      ∙ sym (last_or-snoc u.first_hash _ u.hashes)

  -- The last hash of a track depends on the canonical form of its inputs alone.
  advance_all-last_hash :
      (t u : Track) (ps qs : List Value)
      → t.later ≡ u.later
      → t.first ≡ u.first
      → last_hash t ≡ last_hash u
      → SameInputs ps qs
      → last_hash (advance_all sha256 step_fn t ps) ≡ last_hash (advance_all sha256 step_fn u qs)
  unfolding advance_all
  advance_all-last_hash t u [] [] l f h s = h
  advance_all-last_hash t u [] (q ∷ qs) l f h s = elim s [ ]
  advance_all-last_hash t u (p ∷ ps) [] l f h s = elim s [ ]
  advance_all-last_hash t u (p ∷ ps) (q ∷ qs) l f h (e, s) =
      advance_all-last_hash (advance sha256 step_fn t p) (advance sha256 step_fn u q) ps qs
        (advance-later t u p q l f e) (advance-first t u p q f) (advance-last_hash t u p q l f e) s

  advance_all-inputs :
      (t : Track) (ps : List Value) → (advance_all sha256 step_fn t ps).inputs ≡ t.inputs ++ ps
  unfolding advance_all advance
  advance_all-inputs t [] = sym (append_nil t.inputs)
  advance_all-inputs t (p ∷ ps) =
      advance_all-inputs (advance sha256 step_fn t p) ps ∙ append_shift t.inputs p ps

  from_inputs-inputs : (g : Value) (ps : List Value) → (from_inputs sha256 step_fn g ps).inputs ≡ ps
  unfolding from_inputs new_track
  from_inputs-inputs g ps = advance_all-inputs (new_track sha256 step_fn g) ps

  advance_all-first :
      (t : Track) (ps : List Value) → (advance_all sha256 step_fn t ps).first ≡ t.first
  unfolding advance_all advance
  advance_all-first t [] = refl
  advance_all-first t (p ∷ ps) = advance_all-first (advance sha256 step_fn t p) ps

  from_inputs-first : (g : Value) (ps : List Value) → (from_inputs sha256 step_fn g ps).first ≡ g
  unfolding from_inputs new_track
  from_inputs-first g ps = advance_all-first (new_track sha256 step_fn g) ps

  from_inputs-last_hash :
      (g : Value) (ps qs : List Value)
      → SameInputs ps qs
      → last_hash (from_inputs sha256 step_fn g ps) ≡ last_hash (from_inputs sha256 step_fn g qs)
  unfolding from_inputs
  from_inputs-last_hash g ps qs s =
      advance_all-last_hash (new_track sha256 step_fn g) (new_track sha256 step_fn g) ps qs refl
        refl refl s

  -- what is claimed of a change, for a predicted track with inputs `ps`
  abbrev Tells : Track → Track → Reconciled sha256 step_fn → Type 0
  Tells predicted corrected r = r.changed ≡ not (last_hash corrected ≟ last_hash predicted)

  settle-Tells :
      (predicted corrected : Track) (as_ : List Value) (o : Option ℕ)
      → (o ≡ none
          → length as_ ≤ length predicted.inputs
          → last_hash predicted ≡ last_hash corrected)
      → Tells predicted corrected (settle sha256 step_fn predicted as_ corrected o)
  unfolding settle rolled_back
  settle-Tells predicted corrected as_ (some d) h = refl
  settle-Tells predicted corrected as_ none h =
      short (leb (length as_) (length predicted.inputs)) (λ b. h refl (ground arith))
    where
      short :
          (b : Bool)
          → (b ≡ true → last_hash predicted ≡ last_hash corrected)
          → Tells predicted corrected (
              if b
              then record {
                rollback_depth = 0;
                last_valid = tick predicted;
                changed = false;
                corrected = corrected;
              }
              else rolled_back sha256 step_fn predicted corrected (length predicted.inputs))
      short true h = rw (h refl, beq_refl (last_hash corrected)) refl
      short false h = refl

  -- For a track that was run on predicted inputs, by a step that reads the canonical form of its input,
  -- `reconcile` reports a change exactly when the last hash of the corrected track differs.
  pub reconcile-Tells :
      (genesis : Value) (predicted authoritative : List Value)
      → (reconcile sha256 step_fn
          (from_inputs sha256 step_fn genesis predicted)
          authoritative).changed
        ≡ not (
            last_hash
              (from_inputs sha256 step_fn genesis (merged sha256 step_fn predicted authoritative))
            ≟ last_hash (from_inputs sha256 step_fn genesis predicted))
  unfolding reconcile
  reconcile-Tells genesis predicted authoritative =
      rw (from_inputs-first genesis predicted, from_inputs-inputs genesis predicted)
        (settle-Tells (from_inputs sha256 step_fn genesis predicted)
          (from_inputs sha256 step_fn genesis (merged sha256 step_fn predicted authoritative))
          authoritative (first_input_divergence predicted authoritative)
          (λ agree short.
            from_inputs-last_hash genesis predicted (merged sha256 step_fn predicted authoritative)
              (unfold first_input_divergence in
                merged-SameInputs sha256 step_fn 0 predicted authoritative agree (
                  omega (
                    arith,
                    short,
                    ap (λ (xs : List Value). length xs) (from_inputs-inputs genesis predicted),
                  )))))
