-- ===== src/Tests/Keys.antt =====
-- A signature scheme for the runs: a key's name before the message.
use Prim.Native.String.{slice, len}
use dentatus.Prelude.{◌-◌, String, ◌≡◌, ◌≢◌, ap, false, ok, [], ◌∷◌}
use dentatus.Prelude.Eq.{◌≟◌, string_eq, beq_refl}
use dentatus.Prelude.Dict.{Dict}
use dentatus.Chronicle.Canonical.{◌^^◌}
use dentatus.Chronicle.Signing.{Verifier, Signer, Matches}

abbrev pub same : String → String
same s = s

-- the last twelve characters
abbrev pub brief : String → String
brief s = slice s (len s - 12) (len s)

abbrev pub signer : String → Signer
signer name = record { sign = λ message. name ^^ ":" ^^ message; algo = "hmac-sha256" }

abbrev pub verifier : String → Verifier
verifier name = record { verify = λ message sig. ok ((name ^^ ":" ^^ message) ≟ sig) }

pub verifier-Matches : (name : String) → Matches (verifier name) (signer name)
verifier-Matches name message = ap ok (beq_refl (name ^^ ":" ^^ message))

abbrev pub registry : Dict String Verifier
registry = ("a", verifier "a") ∷ ("b", verifier "b") ∷ ("c", verifier "c") ∷ []

pub apart : (a b : String) → (a ≟ b) ≡ false → a ≢ b
apart a b no_ e = cc ((string_eq.decides a b).1 e)
