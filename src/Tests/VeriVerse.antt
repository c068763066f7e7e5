-- ===== src/Tests/VeriVerse.antt =====
-- VeriVerse/ on a small cross-section.
use Prim.Native.String.{len}
use dentatus.Prelude.{ℕ, ◌≡◌, refl, List, [], ◌∷◌, ok, arith, ◌<◌, String, true, some}
use dentatus.Prelude.Int.{ℤ, pos, negsuc}
use dentatus.Stasis.Batch.{ProofStep, verify_inclusion}
use dentatus.Chronicle.Signing.{Signer}
use dentatus.VeriVerse.Shards.{ChunkShard, mint_chunk_shard, verify_chunk_shard, world_shard}
use dentatus.VeriVerse.Shards.RoundTrip.{verify-mint_chunk_shard, Included, world_shard-Included}
use dentatus.Chronicle.Value.{list}
use dentatus.Chronicle.Canonical.{canonical_bytes}
use dentatus.VeriVerse.Physics.{Grid, settle, settle_from, rows}
use dentatus.VeriVerse.Physics.Falling.{height}
use dentatus.VeriVerse.Physics.Settling.{Settled, settle-Settled}
use dentatus.Tests.Keys.{brief, signer, verifier, verifier-Matches}

-- two grains, of which one falls beside a solid cell
abbrev heap : Grid
heap = (2 ∷ 2 ∷ 0 ∷ []) ∷ (0 ∷ 0 ∷ 0 ∷ []) ∷ (0 ∷ 1 ∷ 0 ∷ []) ∷ []

heap_settles :
    settle_from 9 heap 0 ≡ ok ((0 ∷ 0 ∷ 0 ∷ []) ∷ (0 ∷ 0 ∷ 0 ∷ []) ∷ (2 ∷ 1 ∷ 2 ∷ []) ∷ [], 3)
unfolding settle_from
heap_settles = refl

heap-height : height heap < 9
unfolding dentatus.VeriVerse.Physics.Weight.tally
heap-height = omega arith

settle-Settled_example :
    (r : Grid × ℕ) × ((settle brief heap 9
        ≡ ok (r.0, r.1, brief (canonical_bytes (list (rows r.0)))))
      × Settled heap 0 r)
settle-Settled_example =
    settle-Settled brief (2 ∷ 2 ∷ 0 ∷ []) ((0 ∷ 0 ∷ 0 ∷ []) ∷ (0 ∷ 1 ∷ 0 ∷ []) ∷ []) 9
      (omega arith, (omega arith, (omega arith, tt))) heap-height

abbrev digest : String → ℕ
digest s = len s

abbrev material : Signer → String
material s = s.algo

minted :
    (s : ChunkShard) × (mint_chunk_shard brief digest 60 material verifier
        (pos 7)
        (pos 1)
        (negsuc 0)
        2
        (some (signer "a"))
      ≡ ok s)
unfolding mint_chunk_shard dentatus.Chronicle.Canonical.show_int dentatus.Stasis.Canon.canon_hash
minted = (_, refl)

verify-mint_chunk_shard_example :
    verify_chunk_shard brief digest 60 material verifier minted.0 (some (verifier "a"))
    ≡ ok (true, "VERIFIED")
verify-mint_chunk_shard_example =
    verify-mint_chunk_shard brief digest 60 material verifier (pos 7) (pos 1) (negsuc 0) 2
      (some (signer "a")) (some (verifier "a")) (verifier-Matches "a") minted.1

abbrev region : List (ℤ × ℤ)
region = (pos 0, pos 0) ∷ (pos 1, pos 0) ∷ (pos 0, negsuc 0) ∷ []

rooted :
    (w : String × List String) × (world_shard brief digest 60 material verifier (pos 7) region 2
      ≡ ok (w.0, w.1))
unfolding world_shard dentatus.Chronicle.Canonical.show_int dentatus.Stasis.Canon.canon_hash
    dentatus.Stasis.Batch.merkle_root
rooted = (_, refl)

world_shard-Included_example :
    Included brief digest 60 material verifier (pos 7) region 2 2 (pos 0) (negsuc 0) rooted.0.0
world_shard-Included_example =
    world_shard-Included brief digest 60 material verifier (pos 7) region 2 2 rooted.1 refl
