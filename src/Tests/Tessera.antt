-- ===== src/Tests/Tessera.antt =====
-- tessera/shard.py on a countdown.
use dentatus.Prelude.{
  ℕ, zero, ◌-◌, String, ◌≡◌, refl, Bool, true, false, Option, none, some, Outcome, ok, err,
}
use dentatus.Prelude.Int.{pos, negsuc}
use dentatus.Prelude.Eq.{string_eq}
use dentatus.Chronicle.Value.{Value, int, nat}
use dentatus.Chronicle.Canonical.{canon}
use dentatus.Chronicle.Signing.{Signer}
use dentatus.Tessera.{Tessera, unsigned, signed, mint, verify, roll}
use dentatus.Tessera.RoundTrip.{IsRegular, Replays, verify-mint, verify-Replays}
use dentatus.Tests.Keys.{brief, signer, verifier, verifier-Matches}

-- every other value is left alone
abbrev pub count_down : Value → Value
count_down (int (pos n)) = nat (n - 1)
count_down v = v

abbrev pub at_zero : Value → Bool
at_zero (int (pos zero)) = true
at_zero v = false

abbrev pub material : Signer → String
material s = ""

pub regular : IsRegular brief "rule" count_down at_zero material verifier
unfolding canon
regular (int (pos n)) e = refl
regular (int (negsuc n)) e = e
regular Value.null e = e
regular (Value.bool b) e = e
regular (Value.float t f) e = e
regular (Value.str s) e = e
regular (Value.list xs) e = e
regular (Value.dict fs) e = e

pub canonical : canon (nat 2) ≡ nat 2
unfolding canon
canonical = refl

abbrev minted : Outcome Tessera
minted =
    mint brief "rule" count_down at_zero material verifier (nat 2) 5 (some (signer "a")) none none

abbrev path_hash : Option (String × Value × ℕ) → String
path_hash none = ""
path_hash (some (h, t, n)) = h

abbrev shard : Tessera
shard = signed brief "rule" count_down at_zero material verifier (some (signer "a")) (
    unsigned brief "rule" count_down at_zero material verifier (nat 2) none none
      (path_hash (roll brief "rule" count_down at_zero material verifier (nat 2) 5), nat 0, 2))

mint-shard : minted ≡ ok shard
unfolding mint
mint-shard = refl

mint_over_budget :
    mint brief "rule" count_down at_zero material verifier (nat 2) 1 none none none
    ≡ err "terminus not reached"
unfolding mint
mint_over_budget = refl

verify-mint_example :
    verify brief "rule" count_down at_zero material verifier shard (some (verifier "a"))
    ≡ ok (true, "VERIFIED")
verify-mint_example =
    verify-mint brief "rule" count_down at_zero material verifier (some (signer "a")) (nat 2) none
      none (some (verifier "a")) canonical (verifier-Matches "a") 5 regular mint-shard

verified :
    verify brief "rule" count_down at_zero material verifier shard (some (verifier "a"))
    ≡ ok (true, "VERIFIED")
verified =
    verify-mint brief "rule" count_down at_zero material verifier (some (signer "a")) (nat 2) none
      none (some (verifier "a")) canonical (verifier-Matches "a") 5 regular mint-shard

verify-Replays_example : Replays brief "rule" count_down at_zero material verifier shard
verify-Replays_example =
    verify-Replays brief "rule" count_down at_zero material verifier shard (some (verifier "a"))
      verified
