-- ===== src/CausalRuntime/Fallback/Hysteresis.antt =====
-- The latch of causal_runtime/fallback.py changes its mode on sustained evidence alone.
use mathlib.Core.Path.{subst}
use dentatus.Prelude.{
  ℕ, zero, suc, ◌≤◌, ◌<◌, ◌≡◌, ◌⊎◌, leb, refl, sym, ap, ◌∙◌, Bool, true, false, not, Bool-cases,
  inl, inr, if◌then◌else◌, List, [], ◌∷◌, arith,
}
use dentatus.Prelude.Int.{ℤ, pos, ltb_ℤ}
use dentatus.CausalRuntime.Fallback.{
  Mode, future, distance, DegradationLatch, latch_after, switch, update,
}

-- the last n frames pass the test
abbrev pub Lasts : (ℤ → Bool) → ℕ → List ℤ → Type 0
Lasts test zero rels = Unit
Lasts test (suc n) [] = ⊥
Lasts test (suc n) (r ∷ rels) = (test r ≡ true) × Lasts test n rels

-- the number of frames since one that does not pass
streak : (ℤ → Bool) → List ℤ → ℕ
streak test [] = 0
streak test (r ∷ rels) = let rest = streak test rels in if test r then suc rest else 0

Lasts-streak : (test : ℤ → Bool) (n : ℕ) (rels : List ℤ) → n ≤ streak test rels → Lasts test n rels
unfolding streak
Lasts-streak test zero rels le = tt
Lasts-streak test (suc n) [] le = omega arith
Lasts-streak test (suc n) (r ∷ rels) le = elim (Bool-cases (test r)) [
  | inl passes ↦
      let le2 : suc n ≤ suc (streak test rels) = rw passes at le in
      (passes, Lasts-streak test n rels (omega arith))
  | inr fails ↦ let le2 : suc n ≤ 0 = rw fails at le in absurd (omega arith)
]

streak-Lasts : (test : ℤ → Bool) (n : ℕ) (rels : List ℤ) → Lasts test n rels → n ≤ streak test rels
unfolding streak
streak-Lasts test zero rels l = omega arith
streak-Lasts test (suc n) [] l = absurd l
streak-Lasts test (suc n) (r ∷ rels) (passes, l) =
    let le : n ≤ streak test rels = streak-Lasts test n rels l in rw passes (omega arith)

abbrev lowered : DegradationLatch → DegradationLatch
lowered l = record l { low = suc l.low; high = 0; mode = switch distance (suc l.low) l }

abbrev raised : DegradationLatch → DegradationLatch
raised l = record l { high = suc l.high; low = 0; mode = switch future (suc l.high) l }

update_low : (r : ℤ) (l : DegradationLatch) → ltb_ℤ r l.threshold ≡ true → update r l ≡ lowered l
unfolding update
update_low r l low = rw low refl

update_reliable :
    (r : ℤ) (l : DegradationLatch) → ltb_ℤ r l.threshold ≡ false → update r l ≡ raised l
unfolding update
update_reliable r l reliable = rw reliable refl

-- the switch is thrown where the count has reached `persist`
switch_reached :
    (m : Mode) (n p : ℕ) (l : DegradationLatch) → l.persist ≡ pos p → p ≤ n → switch m n l ≡ m
switch_reached m n p l same le =
    let there_ : ltb_ℤ (pos n) l.persist ≡ false = ap (ltb_ℤ (pos n)) same ∙ ground arith in
    rw there_ refl

switch_short :
    (m : Mode) (n p : ℕ) (l : DegradationLatch) → l.persist ≡ pos p → n < p → switch m n l ≡ l.mode
switch_short m n p l same lt =
    let short : ltb_ℤ (pos n) l.persist ≡ true = ap (ltb_ℤ (pos n)) same ∙ ground arith in
    rw short refl

reaches_or_not : (p n : ℕ) → (p ≤ n) ⊎ (n < p)
reaches_or_not p n = elim (Bool-cases (leb p n)) [
  | inl le ↦ inl (ground arith)
  | inr gt ↦ inr (ground arith)
]

module _ (threshold : ℤ) (persist : ℕ) where
  abbrev pub is_low : ℤ → Bool
  is_low rel = ltb_ℤ rel threshold

  abbrev pub is_reliable : ℤ → Bool
  is_reliable rel = not (is_low rel)

  abbrev pub latch : List ℤ → DegradationLatch
  latch rels = latch_after threshold (pos persist) rels

  -- the counts of a latch are the streaks of its frames
  record Counts (rels : List ℤ) (l : DegradationLatch) : Type 0 where
    threshold_is : l.threshold ≡ threshold
    persist_is : l.persist ≡ pos persist
    low_is : l.low ≡ streak is_low rels
    high_is : l.high ≡ streak is_reliable rels

  latch-Counts : (rels : List ℤ) → Counts rels (latch rels)
  unfolding latch_after streak
  latch-Counts [] = record { threshold_is = refl; persist_is = refl; low_is = refl; high_is = refl }
  latch-Counts (r ∷ rels) =
      let before = latch-Counts rels in
      elim (Bool-cases (is_low r)) [
        | inl low ↦
            subst (Counts (r ∷ rels))
              (sym (update_low r (latch rels) (ap (ltb_ℤ r) before.threshold_is ∙ low)))
              (record {
                threshold_is = before.threshold_is;
                persist_is = before.persist_is;
                low_is = rw low (ap suc before.low_is);
                high_is = rw low refl;
              })
        | inr reliable ↦
            subst (Counts (r ∷ rels))
              (sym (update_reliable r (latch rels) (ap (ltb_ℤ r) before.threshold_is ∙ reliable)))
              (record {
                threshold_is = before.threshold_is;
                persist_is = before.persist_is;
                low_is = rw reliable refl;
                high_is = rw reliable (ap suc before.high_is);
              })
      ]

  -- the last frame and the frames before it, as many as `persist`, pass the test
  abbrev pub IsSustained : (ℤ → Bool) → ℤ → List ℤ → Type 0
  IsSustained test r rels = (test r ≡ true) × Lasts test persist (r ∷ rels)

  -- The three things that a frame does to the latch.
  pub data Turns (r : ℤ) (rels : List ℤ) : Type 0 where
    gives_up : IsSustained is_low r rels → (latch (r ∷ rels)).mode ≡ distance → Turns r rels
    takes_up : IsSustained is_reliable r rels → (latch (r ∷ rels)).mode ≡ future → Turns r rels
    stays :
        ¬ IsSustained is_low r rels
        → ¬ IsSustained is_reliable r rels
        → (latch (r ∷ rels)).mode ≡ (latch rels).mode
        → Turns r rels

  turned_low : (r : ℤ) (rels : List ℤ) → is_low r ≡ true → Turns r rels
  unfolding latch_after streak
  turned_low r rels low =
      let before = latch-Counts rels in
      let after : latch (r ∷ rels) ≡ lowered (latch rels) =
        update_low r (latch rels) (ap (ltb_ℤ r) before.threshold_is ∙ low) in
      let count : suc (latch rels).low ≡ streak is_low (r ∷ rels) = rw low (ap suc before.low_is) in
      elim (reaches_or_not persist (streak is_low (r ∷ rels))) [
        | inl le ↦
            gives_up (low, Lasts-streak is_low persist (r ∷ rels) le)
              (ap (λ (l : DegradationLatch). l.mode) after
                ∙ switch_reached distance _ persist (latch rels) before.persist_is
                    (omega (arith, le, count)))
        | inr lt ↦
            stays (λ s. absurd (omega (arith, lt, streak-Lasts is_low persist (r ∷ rels) s.1)))
              (λ s. let fails : not true ≡ true = ap not (sym low) ∙ s.0 in absurd (cc))
              (ap (λ (l : DegradationLatch). l.mode) after
                ∙ switch_short distance _ persist (latch rels) before.persist_is
                    (omega (arith, lt, count)))
      ]

  turned_reliable : (r : ℤ) (rels : List ℤ) → is_low r ≡ false → Turns r rels
  unfolding latch_after streak
  turned_reliable r rels reliable =
      let before = latch-Counts rels in
      let after : latch (r ∷ rels) ≡ raised (latch rels) =
        update_reliable r (latch rels) (ap (ltb_ℤ r) before.threshold_is ∙ reliable) in
      let count : suc (latch rels).high ≡ streak is_reliable (r ∷ rels) =
        rw reliable (ap suc before.high_is) in
      elim (reaches_or_not persist (streak is_reliable (r ∷ rels))) [
        | inl le ↦
            takes_up (ap not reliable, Lasts-streak is_reliable persist (r ∷ rels) le)
              (ap (λ (l : DegradationLatch). l.mode) after
                ∙ switch_reached future _ persist (latch rels) before.persist_is
                    (omega (arith, le, count)))
        | inr lt ↦
            stays (λ s. let fails : true ≡ false = sym s.0 ∙ reliable in absurd (cc))
              (λ s. absurd (omega (arith, lt, streak-Lasts is_reliable persist (r ∷ rels) s.1)))
              (ap (λ (l : DegradationLatch). l.mode) after
                ∙ switch_short future _ persist (latch rels) before.persist_is
                    (omega (arith, lt, count)))
      ]

  -- At each frame the latch falls back to the distance when that frame is low and the last `persist` frames
  -- are, takes the field up again when it is reliable and the last `persist` frames are, and otherwise
  -- keeps its mode.
  pub latch_after-Turns : (r : ℤ) (rels : List ℤ) → Turns r rels
  latch_after-Turns r rels = elim (Bool-cases (is_low r)) [
    | inl low ↦ turned_low r rels low
    | inr reliable ↦ turned_reliable r rels reliable
  ]
