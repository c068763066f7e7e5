-- ===== src/Chronicle/Signing.antt =====
-- The attestation seam of chronicle/signing.py, which every component takes as an argument. The two
-- backends (HMAC, Ed25519) rest on `hmac` and on the optional `cryptography` package, so a signer and a
-- verifier are interfaces here.
use dentatus.Prelude.{String, Bool, true, ◌≡◌, Outcome, ok}

pub record Verifier : Type 0 where
  -- a malformed signature may raise
  pub verify : String → String → Outcome Bool

pub record Signer : Type 0 where
  pub sign : String → String
  pub algo : String

-- What a key pair promises: the verifier accepts what its signer signed.
abbrev pub Matches : Verifier → Signer → Type 0
Matches v s = (message : String) → v.verify message (s.sign message) ≡ ok true
