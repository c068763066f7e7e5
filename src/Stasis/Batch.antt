-- ===== src/Stasis/Batch.antt =====
-- stasis/batch.py: many shard hashes are folded into one Merkle root, and one leaf is proven on
-- demand by its sibling path.
pub mod Inclusion
use dentatus.Prelude.{
  ℕ, zero, suc, ◌+◌, ◌-◌, ◌*◌, ◌/◌, ◌%◌, String, Bool, Option, none, some, List, [], ◌∷◌, ltb, leb,
  ◌==◌, ◌&&◌, not, if◌then◌else◌, length, get_or, Outcome, ok, err,
}
use dentatus.Prelude.Eq.{◌≟◌, string_eq}
use dentatus.Chronicle.Value.{Value, str, nat, dict, field, end}
use dentatus.Chronicle.Canonical.{hash_pair}

pub data Side : Type 0 where
  left right : Side

pub record ProofStep : Type 0 where
  pub sib : String
  pub side : Side

-- `idx ^ 1`
unfoldable pub flip_last_bit : ℕ → ℕ
flip_last_bit i = if i % 2 == 0 then i + 1 else i - 1

module _ (sha256 : String → String) where
  -- pairs from the left, the last one doubled on an odd count
  unfoldable pub level_up : List String → List String
  level_up [] = []
  level_up (a ∷ []) = hash_pair sha256 a a ∷ []
  level_up (a ∷ b ∷ nodes) = hash_pair sha256 a b ∷ level_up nodes

  -- `while len(nodes) > 1: nodes = _level_up(nodes)`
  unfoldable pub climb : ℕ → List String → List String
  climb zero nodes = nodes
  climb (suc f) nodes =
      let above = climb f (level_up nodes) in if leb (length nodes) 1 then nodes else above

  unfoldable pub merkle_root : List String → Outcome String
  unfolding climb
  merkle_root [] = err "empty batch has no root"
  merkle_root (a ∷ leaves) = ok (get_or (climb (length (a ∷ leaves)) (a ∷ leaves)) 0 a)

  unfoldable pub sibling_step : List String → ℕ → ProofStep
  unfolding flip_last_bit
  sibling_step nodes i = record {
    sib = get_or nodes (flip_last_bit i) (get_or nodes i "");
    side = if i % 2 == 0 then right else left;
  }

  unfoldable pub sibling_path : ℕ → List String → ℕ → List ProofStep
  sibling_path zero nodes i = []
  sibling_path (suc f) nodes i =
      let above = sibling_path f (level_up nodes) (i / 2) in
      if leb (length nodes) 1 then [] else sibling_step nodes i ∷ above

  unfoldable pub inclusion_proof : List String → ℕ → Outcome (List ProofStep)
  inclusion_proof leaves index =
      if ltb index (length leaves)
      then ok (sibling_path (length leaves) leaves index)
      else err "index out of range"

  unfoldable pub fold_step : String → ProofStep → String
  fold_step h step = elim step.side [
    | right ↦ hash_pair sha256 h step.sib
    | left ↦ hash_pair sha256 step.sib h
  ]

  unfoldable pub recompute : String → List ProofStep → String
  recompute h [] = h
  recompute h (step ∷ proof) = recompute (fold_step h step) proof

  unfoldable pub verify_inclusion : String → List ProofStep → String → Bool
  verify_inclusion leaf proof root = recompute leaf proof ≟ root

  unfoldable pub batch_shard : List String → Outcome Value
  batch_shard leaves = elim (merkle_root leaves) [
    | ok root ↦ ok (
        dict (
          field "protocol" (str "stasis-batch/1")
            (field "count" (nat (length leaves)) (field "root" (str root) end))))
    | err e ↦ err e
  ]
