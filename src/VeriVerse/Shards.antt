-- ===== src/VeriVerse/Shards.antt =====
-- VeriVerse/shards.py: signed chunk shards and the Merkle root of a region. The height amplitude of a chunk
-- is the default of `generate_chunk`.
pub mod RoundTrip
use dentatus.Prelude.{
  ℕ, String, Bool, true, false, not, Option, none, some, List, [], ◌∷◌, Outcome, ok, err, ◌>>=◌,
  if◌then◌else◌, get_or,
}
use dentatus.Prelude.Eq.{◌≟◌, string_eq}
use dentatus.Prelude.Int.{ℤ}
use dentatus.Chronicle.Value.{Value, int, nat, str, list, dict, cons, nil, field, end}
use dentatus.Chronicle.Canonical.{canonical_bytes}
use dentatus.Chronicle.Signing.{Verifier, Signer}
use dentatus.Stasis.Batch.{ProofStep, merkle_root, inclusion_proof}
use dentatus.Tessera.{sign_with, algo_of, material_of}
use dentatus.VeriVerse.World.{
  Feature, Chunk, feature_value, generate_chunk, chunk_hash, verify_feature,
}

pub record ChunkShard : Type 0 where
  pub schema : String
  pub seed : ℤ
  pub cx : ℤ
  pub cz : ℤ
  pub size : ℕ
  pub chunk_hash_ : String
  pub feature_ : Feature
  pub signature : Option String
  pub algo : Option String
  pub public_material : Option String

abbrev pub height_amp : ℕ
height_amp = 24

unfoldable pub shard_body : ChunkShard → Value
unfolding feature_value
shard_body s = dict (
    field "schema" (str s.schema) (
      field "seed" (int s.seed) (
        field "coord" (list (cons (int s.cx) (cons (int s.cz) nil))) (
          field "size" (nat s.size) (
            field "chunk_hash" (str s.chunk_hash_)
              (field "feature" (feature_value s.feature_) end))))))

module _ (sha256 : String → String) (digest : String → ℕ) (max_steps : ℕ)
    (material : Signer → String) (ed25519 : String → Verifier) where
  -- the public material of an Ed25519 signer
  abbrev pub key_material : Option Signer → Option String
  key_material none = none
  key_material (some s) = if s.algo ≟ "ed25519" then some (material s) else none

  abbrev pub bare : ℤ → ℤ → ℤ → ℕ → String → Feature → ChunkShard
  bare seed cx cz size ch f = record {
    schema = "veriverse-chunk/1";
    seed = seed;
    cx = cx;
    cz = cz;
    size = size;
    chunk_hash_ = ch;
    feature_ = f;
    signature = none;
    algo = none;
    public_material = none;
  }

  abbrev pub sign_shard : Option Signer → ChunkShard → ChunkShard
  sign_shard signer s = record s {
    signature = sign_with signer (canonical_bytes (shard_body s));
    algo = algo_of signer;
    public_material = key_material signer;
  }

  unfoldable pub mint_chunk_shard : ℤ → ℤ → ℤ → ℕ → Option Signer → Outcome ChunkShard
  unfolding generate_chunk chunk_hash shard_body
  mint_chunk_shard seed cx cz size signer =
      generate_chunk sha256 digest max_steps seed cx cz size height_amp >>= λ ch.
      chunk_hash sha256 digest max_steps ch >>= λ h.
      ok (sign_shard signer (bare seed cx cz size h ch.feature_))

  -- the key that the signature is checked with
  abbrev pub shard_key : ChunkShard → Option Verifier → Option Verifier
  shard_key s (some v) = some v
  shard_key s none = elim s.algo [
    | some a ↦ elim s.public_material [
      | some m ↦ if a ≟ "ed25519" then (if m ≟ "" then none else some (ed25519 m)) else none
      | none ↦ none
    ]
    | none ↦ none
  ]

  abbrev pub check_shard_key : ChunkShard → String → Option Verifier → Outcome (Bool × String)
  check_shard_key s sig none = ok (false, "SIGNATURE present but no verifier key")
  check_shard_key s sig (some v) = v.verify (canonical_bytes (shard_body s)) sig >>= λ valid.
      ok (
        if not valid then (false, "SIGNATURE invalid (forged / wrong key)") else (true, "VERIFIED"))

  abbrev pub check_shard_signature :
      ChunkShard → Option Verifier → Option String → Outcome (Bool × String)
  check_shard_signature s verifier none = ok (true, "VERIFIED")
  check_shard_signature s verifier (some sig) = check_shard_key s sig (shard_key s verifier)

  unfoldable pub verify_chunk_shard : ChunkShard → Option Verifier → Outcome (Bool × String)
  unfolding generate_chunk chunk_hash verify_feature shard_body
  verify_chunk_shard s verifier =
      generate_chunk sha256 digest max_steps s.seed s.cx s.cz s.size height_amp >>= λ ch.
      chunk_hash sha256 digest max_steps ch >>= λ h.
      if not (h ≟ s.chunk_hash_)
      then ok (false, "CHUNK mismatch (regenerated chunk differs from claim)")
      else (verify_feature sha256 digest max_steps s.feature_ >>= λ fok.
          if not fok.0
          then ok (false, "FEATURE provenance mismatch (stopping time recomputes differently)")
          else check_shard_signature s verifier s.signature)

  -- the chunk hashes of a region
  unfoldable pub leaves_of : ℤ → ℕ → List (ℤ × ℤ) → Outcome (List String)
  unfolding generate_chunk chunk_hash
  leaves_of seed size [] = ok []
  leaves_of seed size ((cx, cz) ∷ coords) =
      generate_chunk sha256 digest max_steps seed cx cz size height_amp >>= λ ch.
      chunk_hash sha256 digest max_steps ch >>= λ h.
      leaves_of seed size coords >>= λ hs. ok (h ∷ hs)

  -- the root of a region, and its leaves
  unfoldable pub world_shard : ℤ → List (ℤ × ℤ) → ℕ → Outcome (String × List String)
  unfolding leaves_of
  world_shard seed coords size = leaves_of seed size coords >>= λ leaves.
      merkle_root sha256 leaves >>= λ root. ok (root, leaves)

  -- the proof that a chunk belongs to a region, and its hash
  unfoldable pub chunk_inclusion : ℤ → List (ℤ × ℤ) → ℕ → ℕ → Outcome (List ProofStep × String)
  unfolding world_shard
  chunk_inclusion seed coords index size = world_shard seed coords size >>= λ w.
      inclusion_proof sha256 w.1 index >>= λ proof. ok (proof, get_or w.1 index "")
