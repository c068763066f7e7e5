-- ===== src/Stasis/Canon.antt =====
-- stasis/canon.py: what may enter a hash. Of the refused types only floats occur among the values of
-- `Chronicle.Value`; sets, raw bytes, foreign objects and dict keys that are no texts do not.
pub mod Floatless
use dentatus.Prelude.{
  ℕ, ◌+◌, String, Bool, true, false, Outcome, ok, err, ◌>>=◌, if◌then◌else◌, not,
}
use dentatus.Chronicle.Value.{
  Value, null, bool, int, float, str, list, dict, Values, nil, cons, Fields, end, field,
}
use dentatus.Chronicle.Canonical.{◌^^◌, show_nat, canonical_bytes}

infixl 5 ◌then◌
abbrev pub ◌then◌ : Outcome (Unit {0}) → Outcome (Unit {0}) → Outcome (Unit {0})
ok _ then k = k
err e then k = err e

unfoldable pub check_float : Bool → Bool → String → String → Outcome (Unit {0})
check_float allow_float finite text path =
    if not allow_float
    then err (path ^^ ": float not allowed in canonical bytes (use integers/fixed-point)")
    else if finite
    then ok tt
    else err (path ^^ ": non-finite float " ^^ text)

unfoldable mutual
  pub check : Value → Bool → String → Outcome (Unit {0})
  check null allow_float path = ok tt
  check (bool b) allow_float path = ok tt
  check (int n) allow_float path = ok tt
  check (str s) allow_float path = ok tt
  check (float text finite) allow_float path = check_float allow_float finite text path
  check (list xs) allow_float path = check_items xs allow_float path 0
  check (dict fs) allow_float path = check_fields fs allow_float path

  pub check_items : Values → Bool → String → ℕ → Outcome (Unit {0})
  check_items nil allow_float path i = ok tt
  check_items (cons x xs) allow_float path i =
      check x allow_float (path ^^ "[" ^^ show_nat i ^^ "]")
      then check_items xs allow_float path (i + 1)

  pub check_fields : Fields → Bool → String → Outcome (Unit {0})
  check_fields end allow_float path = ok tt
  check_fields (field k v fs) allow_float path =
      check v allow_float (path ^^ "." ^^ k) then check_fields fs allow_float path

unfoldable pub canonicalize : Value → Bool → Outcome String
unfolding check
canonicalize v allow_float = check v allow_float "$" >>= λ _. ok (canonical_bytes v)

unfoldable pub is_canonical : Value → Bool → Bool × String
is_canonical v allow_float = elim (canonicalize v allow_float) [
  | ok text ↦ (true, "canonical")
  | err e ↦ (false, e)
]

module _ (sha256 : String → String) where
  unfoldable pub canon_hash : Value → Bool → Outcome String
  unfolding canonicalize
  canon_hash v allow_float = canonicalize v allow_float >>= λ text. ok (sha256 text)
