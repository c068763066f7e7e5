-- ===== src/Stasis/Canon/Floatless.antt =====
-- What `canon_hash` of stasis/canon.py takes when floats are not allowed.
use dentatus.Prelude.{
  ℕ, ◌+◌, String, ◌≡◌, refl, false, Bool-cases, some, Outcome, ok, err, Outcome-cases, inl, inr,
}
use dentatus.Prelude.Eq.{◌≟◌, string_eq}
use dentatus.Chronicle.Value.{
  Value, null, bool, int, float, str, list, dict, Values, nil, cons, Fields, end, field, find, get,
}
use dentatus.Chronicle.Canonical.{canonical_bytes}
use dentatus.Stasis.Canon.{check, check_items, check_fields, canon_hash, ◌then◌}

unfoldable mutual
  -- No float occurs in the value, at any depth.
  pub Floatless : Value → Type 0
  Floatless null = Unit
  Floatless (bool b) = Unit
  Floatless (int n) = Unit
  Floatless (str s) = Unit
  Floatless (float text finite) = ⊥
  Floatless (list xs) = AllFloatless xs
  Floatless (dict fs) = HoldFloatless fs

  pub AllFloatless : Values → Type 0
  AllFloatless nil = Unit
  AllFloatless (cons x xs) = Floatless x × AllFloatless xs

  pub HoldFloatless : Fields → Type 0
  HoldFloatless end = Unit
  HoldFloatless (field k v fs) = Floatless v × HoldFloatless fs

then-ok : (m k : Outcome (Unit {0})) → (m then k) ≡ ok tt → (m ≡ ok tt) × (k ≡ ok tt)
then-ok (ok tt) k e = (refl, e)
then-ok (err why) k e = absurd (cc)

mutual
  unfolding check Floatless dentatus.Stasis.Canon.check_float

  check-Floatless : (v : Value) (path : String) → check v false path ≡ ok tt → Floatless v
  check-Floatless null path e = tt
  check-Floatless (bool b) path e = tt
  check-Floatless (int n) path e = tt
  check-Floatless (str s) path e = tt
  check-Floatless (float text finite) path e = cc
  check-Floatless (list xs) path e = check_items-AllFloatless xs path 0 e
  check-Floatless (dict fs) path e = check_fields-HoldFloatless fs path e

  check_items-AllFloatless :
      (xs : Values) (path : String) (i : ℕ) → check_items xs false path i ≡ ok tt → AllFloatless xs
  check_items-AllFloatless nil path i e = tt
  check_items-AllFloatless (cons x xs) path i e =
      let (first, rest) = then-ok _ _ e in
      (check-Floatless x _ first, check_items-AllFloatless xs path (i + 1) rest)

  check_fields-HoldFloatless :
      (fs : Fields) (path : String) → check_fields fs false path ≡ ok tt → HoldFloatless fs
  check_fields-HoldFloatless end path e = tt
  check_fields-HoldFloatless (field k v fs) path e =
      let (first, rest) = then-ok _ _ e in
      (check-Floatless v _ first, check_fields-HoldFloatless fs path rest)

mutual
  unfolding check Floatless dentatus.Stasis.Canon.check_float

  Floatless-check : (v : Value) (path : String) → Floatless v → check v false path ≡ ok tt
  Floatless-check null path p = refl
  Floatless-check (bool b) path p = refl
  Floatless-check (int n) path p = refl
  Floatless-check (str s) path p = refl
  Floatless-check (float text finite) path p = absurd p
  Floatless-check (list xs) path p = AllFloatless-check_items xs path 0 p
  Floatless-check (dict fs) path p = HoldFloatless-check_fields fs path p

  AllFloatless-check_items :
      (xs : Values) (path : String) (i : ℕ) → AllFloatless xs → check_items xs false path i ≡ ok tt
  AllFloatless-check_items nil path i p = refl
  AllFloatless-check_items (cons x xs) path i (first, rest) =
      rw (Floatless-check x _ first) (AllFloatless-check_items xs path (i + 1) rest)

  HoldFloatless-check_fields :
      (fs : Fields) (path : String) → HoldFloatless fs → check_fields fs false path ≡ ok tt
  HoldFloatless-check_fields end path p = refl
  HoldFloatless-check_fields (field k v fs) path (first, rest) =
      rw (Floatless-check v _ first) (HoldFloatless-check_fields fs path rest)

-- A field of a value without floats has none.
find-Floatless :
    (k : String) (fs : Fields) {v : Value} → HoldFloatless fs → find k fs ≡ some v → Floatless v
unfolding find Floatless
find-Floatless k end p e = cc
find-Floatless k (field j w fs) {v} (first, rest) e = elim (Bool-cases (j ≟ k)) [
  | inl same ↦ let found : some w ≡ some v = rw same at e in let eq : w ≡ v = cc in rw eq at first
  | inr other ↦ find-Floatless k fs rest (rw other at e)
]

pub get-Floatless :
    (k : String) (obj : Value) {v : Value} → Floatless obj → get k obj ≡ some v → Floatless v
unfolding get Floatless
get-Floatless k (dict fs) p e = find-Floatless k fs p e
get-Floatless k null p e = cc
get-Floatless k (bool b) p e = cc
get-Floatless k (int n) p e = cc
get-Floatless k (str s) p e = cc
get-Floatless k (float text finite) p e = cc
get-Floatless k (list xs) p e = cc

module _ (sha256 : String → String) where
  pub canon_hash-Floatless :
      (v : Value) {h : String} → canon_hash sha256 v false ≡ ok h → Floatless v
  unfolding canon_hash dentatus.Stasis.Canon.canonicalize
  canon_hash-Floatless v e = elim (Outcome-cases (check v false "$")) [
    | inl (tt, fine) ↦ check-Floatless v "$" fine
    | inr (why, bad) ↦ let raises = rw bad at e in cc
  ]

  pub Floatless-canon_hash :
      (v : Value) → Floatless v → (h : String) × (canon_hash sha256 v false ≡ ok h)
  unfolding canon_hash dentatus.Stasis.Canon.canonicalize
  Floatless-canon_hash v p = (sha256 (canonical_bytes v), rw (Floatless-check v "$" p) refl)
