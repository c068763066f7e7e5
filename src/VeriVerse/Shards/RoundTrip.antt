-- ===== src/VeriVerse/Shards/RoundTrip.antt =====
-- A chunk shard of VeriVerse/shards.py that is minted verifies, and a chunk is proved part of its region.
use mathlib.Core.Path.{subst}
use dentatus.Prelude.{
  ℕ, ◌+◌, ◌%◌, ◌<◌, String, ◌≡◌, refl, sym, ap, ◌∙◌, true, Option, none, some, List, [], ◌∷◌, ok,
  ◌>>=◌, >>=-eq-ok, length, get_or, get_elem?, zero, suc, ◌==◌, arith,
}
use dentatus.Prelude.Eq.{string_eq, beq_refl}
use dentatus.Prelude.Int.{ℤ}
use dentatus.Chronicle.Canonical.{canonical_bytes, show_int}
use dentatus.Chronicle.Signing.{Verifier, Signer, Matches}
use dentatus.Stasis.Batch.{ProofStep, merkle_root, verify_inclusion}
use dentatus.Stasis.Batch.Inclusion.{verify_inclusion-inclusion_proof}
use dentatus.Syracuse.{Gates, gates}
use dentatus.VeriVerse.Noise.{hash_int}
use dentatus.VeriVerse.World.{
  Feature, Chunk, feature, feature_of, verify_feature, generate_chunk, chunk_hash,
}
use dentatus.VeriVerse.Shards.{
  ChunkShard, mint_chunk_shard, verify_chunk_shard, bare, sign_shard, check_shard_signature,
  height_amp, shard_body, world_shard, leaves_of, chunk_inclusion,
}

module _ (sha256 : String → String) (digest : String → ℕ) (max_steps : ℕ)
    (material : Signer → String) (ed25519 : String → Verifier) where
  -- no signer, or a verifier that matches it
  abbrev pub IsAuthentic : Option Signer → Option Verifier → Type 0
  IsAuthentic none v = Unit
  IsAuthentic (some s) none = ⊥
  IsAuthentic (some s) (some v) = Matches v s

  feature-verify :
      (seed cx cz : ℤ) (f : Feature)
      → feature sha256 digest max_steps seed cx cz ≡ ok f
      → (o : Option ℕ) × (verify_feature sha256 digest max_steps f ≡ ok (true, o))
  unfolding feature verify_feature
  feature-verify seed cx cz f e =
      let n : ℕ = 2 + hash_int digest seed ("feat" ∷ show_int cx ∷ show_int cz ∷ []) % 100000 in
      let (g, walked, e2) =
        >>=-eq-ok (gates sha256 n max_steps true)
          (λ g. feature_of sha256 digest max_steps seed cx cz n g.stopping_time) e in
      timed n g g.stopping_time refl walked e2
    where
      timed :
          (n : ℕ) (g : Gates) (o : Option ℕ)
          → g.stopping_time ≡ o
          → gates sha256 n max_steps true ≡ ok g
          → feature_of sha256 digest max_steps seed cx cz n o ≡ ok f
          → (o2 : Option ℕ) × (verify_feature sha256 digest max_steps f ≡ ok (true, o2))
      timed n g none same walked made = cc
      timed n g (some s) same walked made =
          let n_is : n ≡ f.seed_n = cc in
          let s_is : s ≡ f.stopping_time = cc in
          let there_ : gates sha256 f.seed_n max_steps true ≡ ok g =
            ap (λ m. gates sha256 m max_steps true) (sym n_is) ∙ walked in
          let equal : (s == f.stopping_time) ≡ true = ground arith in
          (g.stopping_time, rw there_ (rw same (rw equal refl)))

  signature-accepted :
      (signer : Option Signer) (verifier : Option Verifier) (s : ChunkShard)
      → IsAuthentic signer verifier
      → check_shard_signature sha256 digest max_steps material ed25519
          (sign_shard sha256 digest max_steps material ed25519 signer s)
          verifier
          (sign_shard sha256 digest max_steps material ed25519 signer s).signature
        ≡ ok (true, "VERIFIED")
  unfolding shard_body
  signature-accepted none v s a = refl
  signature-accepted (some k) none s a = absurd a
  signature-accepted (some k) (some v) s a = rw (a (canonical_bytes (shard_body s))) refl

  chunk_feature :
      (seed cx cz : ℤ) (size : ℕ) (ch : Chunk)
      → generate_chunk sha256 digest max_steps seed cx cz size height_amp ≡ ok ch
      → (o : Option ℕ) × (verify_feature sha256 digest max_steps ch.feature_ ≡ ok (true, o))
  unfolding generate_chunk
  chunk_feature seed cx cz size ch e =
      let (f, made, e2) = >>=-eq-ok _ _ e in
      let same : f ≡ ch.feature_ = cc in
      let (o, checks) = feature-verify seed cx cz f made in
      (o, ap (λ x. verify_feature sha256 digest max_steps x) (sym same) ∙ checks)

  accepted :
      (seed cx cz : ℤ) (size : ℕ) (signer : Option Signer) (verifier : Option Verifier) (ch : Chunk)
      (h : String) (o : Option ℕ)
      → IsAuthentic signer verifier
      → generate_chunk sha256 digest max_steps seed cx cz size height_amp ≡ ok ch
      → chunk_hash sha256 digest max_steps ch ≡ ok h
      → verify_feature sha256 digest max_steps ch.feature_ ≡ ok (true, o)
      → verify_chunk_shard sha256 digest max_steps material ed25519
          (sign_shard sha256 digest max_steps material ed25519 signer
            (bare sha256 digest max_steps material ed25519 seed cx cz size h ch.feature_))
          verifier
        ≡ ok (true, "VERIFIED")
  unfolding verify_chunk_shard
  accepted seed cx cz size signer verifier ch h o a generated hashed checks = rw generated (
      rw hashed (
        rw (beq_refl h) (
          rw checks (
            signature-accepted signer verifier
              (bare sha256 digest max_steps material ed25519 seed cx cz size h ch.feature_) a))))

  -- A chunk shard that is minted verifies: signed, with a verifier that matches its signer, or unsigned.
  pub verify-mint_chunk_shard :
      (seed cx cz : ℤ) (size : ℕ) (signer : Option Signer) (verifier : Option Verifier)
      {s : ChunkShard}
      → IsAuthentic signer verifier
      → mint_chunk_shard sha256 digest max_steps material ed25519 seed cx cz size signer ≡ ok s
      → verify_chunk_shard sha256 digest max_steps material ed25519 s verifier
        ≡ ok (true, "VERIFIED")
  unfolding mint_chunk_shard
  verify-mint_chunk_shard seed cx cz size signer verifier {s} a e =
      let (ch, generated, e2) = >>=-eq-ok _ _ e in
      let (h, hashed, e3) = >>=-eq-ok (chunk_hash sha256 digest max_steps ch) _ e2 in
      let (o, checks) = chunk_feature seed cx cz size ch generated in
      let made : sign_shard sha256 digest max_steps material ed25519 signer
            (bare sha256 digest max_steps material ed25519 seed cx cz size h ch.feature_)
          ≡ s =
        cc in
      subst
        (λ x.
          verify_chunk_shard sha256 digest max_steps material ed25519 x verifier
          ≡ ok (true, "VERIFIED"))
        made (accepted seed cx cz size signer verifier ch h o a generated hashed checks)

  -- a leaf is the hash of the chunk at its place
  record Leaf (seed : ℤ) (size : ℕ) (leaves : List String) (index : ℕ) (cx cz : ℤ) : Type 0 where
    chunk : Chunk
    hash : String
    generated : generate_chunk sha256 digest max_steps seed cx cz size height_amp ≡ ok chunk
    hashed : chunk_hash sha256 digest max_steps chunk ≡ ok hash
    here : get_or leaves index "" ≡ hash
    below : index < length leaves

  leaves_of-Leaf :
      (seed : ℤ) (size : ℕ) (coords : List (ℤ × ℤ)) (index : ℕ) {cx cz : ℤ} {leaves : List String}
      → leaves_of sha256 digest max_steps material ed25519 seed size coords ≡ ok leaves
      → get_elem? coords index ≡ some (cx, cz)
      → Leaf seed size leaves index cx cz
  unfolding leaves_of
  leaves_of-Leaf seed size [] index e at_ = cc
  leaves_of-Leaf seed size ((x, z) ∷ coords) index {cx} {cz} {leaves} e at_ =
      let (ch, generated, e2) =
        >>=-eq-ok (generate_chunk sha256 digest max_steps seed x z size height_amp) _ e in
      let (h, hashed, e3) = >>=-eq-ok (chunk_hash sha256 digest max_steps ch) _ e2 in
      let (hs, rest, e4) =
        >>=-eq-ok (leaves_of sha256 digest max_steps material ed25519 seed size coords) _ e3 in
      let same : h ∷ hs ≡ leaves = cc in
      subst (λ l. Leaf seed size l index cx cz) same
        (place index ch h hs generated hashed at_ (λ i. leaves_of-Leaf seed size coords i rest))
    where
      place :
          (i : ℕ) (ch : Chunk) (h : String) (hs : List String)
          → generate_chunk sha256 digest max_steps seed x z size height_amp ≡ ok ch
          → chunk_hash sha256 digest max_steps ch ≡ ok h
          → get_elem? ((x, z) ∷ coords) i ≡ some (cx, cz)
          → ((j : ℕ) → get_elem? coords j ≡ some (cx, cz) → Leaf seed size hs j cx cz)
          → Leaf seed size (h ∷ hs) i cx cz
      place zero ch h hs generated hashed found later =
          let x_is : x ≡ cx = cc in
          let z_is : z ≡ cz = cc in
          record {
            chunk = ch;
            hash = h;
            generated = rw (← x_is, ← z_is) generated;
            hashed = hashed;
            here = refl;
            below = omega arith;
          }
      place (suc i) ch h hs generated hashed found later =
          let r = later i found in
          record {
            chunk = r.chunk;
            hash = r.hash;
            generated = r.generated;
            hashed = r.hashed;
            here = r.here;
            below = omega (arith, r.below);
          }

  -- The chunk of a seed at a place is part of a region: its hash, with the proof that is made for its index,
  -- recomputes the root.
  pub record Included (seed : ℤ) (coords : List (ℤ × ℤ)) (size index : ℕ) (cx cz : ℤ)
      (root : String) : Type 0 where
    pub chunk : Chunk
    pub hash : String
    pub proof : List ProofStep
    pub generated : generate_chunk sha256 digest max_steps seed cx cz size height_amp ≡ ok chunk
    pub hashed : chunk_hash sha256 digest max_steps chunk ≡ ok hash
    pub proves :
        chunk_inclusion sha256 digest max_steps material ed25519 seed coords index size
        ≡ ok (proof, hash)
    pub checks : verify_inclusion sha256 hash proof root ≡ true

  -- Every chunk of a region that has a root is proved part of it: where a place stands at an index of the
  -- region's list, the inclusion for that index gives the hash of the chunk that is generated from the seed
  -- at that place, and a proof that recomputes the root from it.
  pub world_shard-Included :
      (seed : ℤ) (coords : List (ℤ × ℤ)) (size index : ℕ) {cx cz : ℤ} {root : String}
      {leaves : List String}
      → world_shard sha256 digest max_steps material ed25519 seed coords size ≡ ok (root, leaves)
      → get_elem? coords index ≡ some (cx, cz)
      → Included seed coords size index cx cz root
  unfolding chunk_inclusion world_shard
  world_shard-Included seed coords size index {root = root} {leaves = leaves} e at_ =
      let (hs, all, e2) =
        >>=-eq-ok (leaves_of sha256 digest max_steps material ed25519 seed size coords)
          (λ hs. merkle_root sha256 hs >>= λ root. ok (root, hs)) e in
      let (root2, rooted, e3) = >>=-eq-ok (merkle_root sha256 hs) _ e2 in
      let same_root : root2 ≡ root = cc in
      let leaf = leaves_of-Leaf seed size coords index all at_ in
      let (proof, root3, proves, rooted3, checks) =
        verify_inclusion-inclusion_proof sha256 hs index leaf.below in
      let joined : ok root3 ≡ ok root = sym rooted3 ∙ rooted ∙ ap ok same_root in
      let root_is : root3 ≡ root = cc in
      record {
        chunk = leaf.chunk;
        hash = leaf.hash;
        proof = proof;
        generated = leaf.generated;
        hashed = leaf.hashed;
        proves = rw all (rw rooted (rw proves (ap (λ h. ok (proof, h)) leaf.here)));
        checks =
            subst (λ r. verify_inclusion sha256 leaf.hash proof r ≡ true) root_is
              (subst (λ h. verify_inclusion sha256 h proof root3 ≡ true) leaf.here checks);
      }
