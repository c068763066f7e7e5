-- ===== src/Stasis/Batch/Inclusion.antt =====
-- Every leaf of a batch has a sibling path that recomputes the root.
use dentatus.Prelude.{
  ℕ, zero, suc, ◌+◌, ◌*◌, ◌/◌, ◌^◌, ◌%◌, ◌≤◌, ◌<◌, String, ◌≡◌, refl, sym, ap, ◌∙◌, true, inl, inr,
  List, [], ◌∷◌, arith, leb, Bool-cases, lt→ltb, length, get_or, ok,
}
use native.Mathlib.Nat.{pow-suc}
use dentatus.Prelude.Eq.{string_eq, beq_refl}
use dentatus.Stasis.Batch.{
  ProofStep, flip_last_bit, level_up, climb, merkle_root, sibling_step, sibling_path,
  inclusion_proof, fold_step, recompute, verify_inclusion,
}

module _ (sha256 : String → String) where
  length-level_up : (nodes : List String) → length (level_up sha256 nodes) ≡ (length nodes + 1) / 2
  unfolding level_up
  length-level_up [] = omega arith
  length-level_up (a ∷ []) = omega arith
  length-level_up (a ∷ b ∷ nodes) = omega (arith, length-level_up nodes)

  -- the loop of `merkle_root` ends with one node
  length-climb :
      (f : ℕ) (nodes : List String)
      → 0 < length nodes
      → length nodes ≤ suc f
      → length (climb sha256 f nodes) ≡ 1
  unfolding climb
  length-climb zero nodes pos fits = omega arith
  length-climb (suc f) nodes pos fits =
      ground (arith, length-level_up nodes, length-climb f (level_up sha256 nodes))

  flip_last_bit-step : (i : ℕ) → flip_last_bit (suc (suc i)) ≡ suc (suc (flip_last_bit i))
  unfolding flip_last_bit
  flip_last_bit-step i = ground arith

  sibling_step-step :
      (a b : String) (nodes : List String) (i : ℕ)
      → sibling_step sha256 (a ∷ b ∷ nodes) (suc (suc i)) ≡ sibling_step sha256 nodes i
  unfolding sibling_step
  sibling_step-step a b nodes i =
      let e : (suc (suc i) % 2) ≡ i % 2 = omega arith in rw (flip_last_bit-step i, e)

  step_folds :
      (nodes : List String) (i : ℕ) (d : String)
      → i < length nodes
      → get_or (level_up sha256 nodes) (i / 2) d
        ≡ fold_step sha256 (get_or nodes i "") (sibling_step sha256 nodes i)
  unfolding level_up fold_step sibling_step
  step_folds [] i d h = elim h [ ]
  step_folds (a ∷ []) zero d h = refl
  step_folds (a ∷ []) (suc i) d h = absurd (omega arith)
  step_folds (a ∷ b ∷ nodes) zero d h = refl
  step_folds (a ∷ b ∷ nodes) (suc zero) d h = refl
  step_folds (a ∷ b ∷ nodes) (suc (suc i)) d h =
      let half : suc (suc i) / 2 ≡ suc (i / 2) = omega arith in
      rw half (
        step_folds nodes i d (omega arith)
        ∙ ap (fold_step sha256 (get_or nodes i "")) (sym (sibling_step-step a b nodes i)))

  get_or-single :
      (nodes : List String) (i : ℕ) (d : String)
      → i < length nodes
      → length nodes ≤ 1
      → get_or nodes i "" ≡ get_or nodes 0 d
  get_or-single [] i d h one = elim h [ ]
  get_or-single (a ∷ nodes) zero d h one = refl
  get_or-single (a ∷ nodes) (suc i) d h one = absurd (omega arith)

  path_climbs :
      (f : ℕ) (nodes : List String) (i : ℕ) (d : String)
      → i < length nodes
      → length nodes ≤ suc f
      → recompute sha256 (get_or nodes i "") (sibling_path sha256 f nodes i)
        ≡ get_or (climb sha256 f nodes) 0 d
  unfolding recompute sibling_path climb
  path_climbs zero nodes i d h fits = get_or-single nodes i d h fits
  path_climbs (suc f) nodes i d h fits = elim (Bool-cases (leb (length nodes) 1)) [
    | inl one ↦ rw one (get_or-single nodes i d h (ground arith))
    | inr more ↦ rw more (
        ap (λ h. recompute sha256 h (sibling_path sha256 f (level_up sha256 nodes) (i / 2)))
          (sym (step_folds nodes i "" h))
        ∙ path_climbs f (level_up sha256 nodes) (i / 2) d (ground (arith, length-level_up nodes))
            (ground (arith, length-level_up nodes)))
  ]

  -- For every batch and every index of a leaf in it, `inclusion_proof` and `merkle_root` both return,
  -- and `verify_inclusion` accepts that leaf with that proof against that root.
  pub verify_inclusion-inclusion_proof :
      (leaves : List String) (i : ℕ)
      → i < length leaves
      → (proof : List ProofStep) × (root : String) × (inclusion_proof sha256 leaves i ≡ ok proof)
        × (merkle_root sha256 leaves ≡ ok root)
        × (verify_inclusion sha256 (get_or leaves i "") proof root ≡ true)
  unfolding inclusion_proof merkle_root verify_inclusion
  verify_inclusion-inclusion_proof [] i h = elim h [ ]
  verify_inclusion-inclusion_proof (a ∷ leaves) i h =
      let nodes : List String = a ∷ leaves in
      let n : ℕ = length nodes in
      (
        sibling_path sha256 n nodes i,
        get_or (climb sha256 n nodes) 0 a,
        rw (lt→ltb i n h),
        refl,
        rw (path_climbs n nodes i a h (omega arith)) (beq_refl (get_or (climb sha256 n nodes) 0 a)),
      )

  length-sibling_path :
      (k f : ℕ) (nodes : List String) (i : ℕ)
      → length nodes ≤ 2 ^ k
      → length (sibling_path sha256 f nodes i) ≤ k
  unfolding sibling_path
  length-sibling_path k zero nodes i h = omega arith
  length-sibling_path zero (suc f) nodes i h = ground arith
  length-sibling_path (suc k) (suc f) nodes i h =
      let double : 2 ^ suc k ≡ 2 ^ k * 2 = pow-suc 2 k in
      ground (arith, length-level_up nodes, length-sibling_path k f (level_up sha256 nodes) (i / 2))

  -- The proof that is returned for a leaf of a batch of at most 2^k leaves has at most k steps.
  inclusion_proof-length :
      (k : ℕ) (leaves : List String) (i : ℕ) {proof : List ProofStep}
      → length leaves ≤ 2 ^ k
      → inclusion_proof sha256 leaves i ≡ ok proof
      → length proof ≤ k
  unfolding inclusion_proof
  inclusion_proof-length k leaves i fits e =
      ground (arith, length-sibling_path k (length leaves) leaves i)
