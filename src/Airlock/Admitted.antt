-- ===== src/Airlock/Admitted.antt =====
-- What the gates of airlock/membrane.py ask of a proposal, and that the code tests it.
use dentatus.Prelude.{
  ap, sym, ℕ, String, ◌≡◌, ◌≢◌, refl, ◌⊎◌, Bool, true, not, ltb, Option, none, some, List, [], ◌∷◌,
  length, Outcome, ok, Bool-cases, inl, inr, arith,
}
use dentatus.Prelude.Int.{ℤ, pos}
use dentatus.Prelude.Eq.{◌≟◌, string_eq}
use dentatus.Prelude.Dict.{or_default}
use dentatus.Chronicle.Value.{Value, null, bool, int, str, list, dict, Fields, get}
use dentatus.Stasis.Canon.Floatless.{Floatless, get-Floatless}
use dentatus.Airlock.Adapter.{applied, Adapter}
use dentatus.Airlock.Membrane.{Ledger, get_or_empty, as_txn}
use dentatus.Airlock.Propose.{Setup, agreeing, witnessed, strict_verdict}
use dentatus.Airlock.Conditions.{Affords, Known, Derive, agreeing-Derive, Derive-agreeing}

module _ (sha256 : String → String) (repr : Value → String) (A : Adapter) (S : Setup A)
    (world : A.World) (proposal : Value) (ledger : Ledger) where
  abbrev pub constraints : Value
  constraints = get_or_empty "constraints" proposal

  -- the strict validator is not there, not asked for, or content
  abbrev pub Deep : Option (A.World → Value → Outcome (Bool × String)) → String → A.World → Type 0
  Deep none sev w = Unit
  Deep (some check) sev w =
      (sev ≢ "strict") ⊎ ((why : String) × (check w constraints ≡ ok (true, why)))

  -- there are no witnesses, or `k` of them, else all, re-derive the hash of the new world
  abbrev pub Agreed : Value → A.World → Type 0
  Agreed txn w =
      (S.witnesses ≡ [])
      ⊎ Derive sha256 repr world txn (A.state_hash w) (or_default (length S.witnesses) S.k)
          S.witnesses

  abbrev pub Within : String → Outcome ℤ → Type 0
  Within key n = (m : ℤ) × ((n ≡ ok m) × Affords key m (get_or_empty "budget" proposal))

  abbrev pub Small : A.World → Type 0
  Small w =
      (d : ℕ) × ((A.delta_norm world w ≡ ok d)
        × Affords "max_delta" (pos d) (get_or_empty "budget" proposal))

  abbrev pub Valid : A.World → Type 0
  Valid w = (why : String) × (A.validate w constraints ≡ ok (true, why))

  abbrev pub Measured : A.World → Type 0
  Measured w = (r : Option ℕ) × (A.residual w (get_or_empty "claims" proposal) ≡ ok r)

  -- the transition is a dict, and stands in the proposal
  abbrev pub IsTransition : Value → Option Value → Type 0
  IsTransition txn o = (fs : Fields) × ((txn ≡ dict fs) × (o ≡ some (dict fs)))

  -- The conditions of the gates, each in its own words. Of the claims no more is asked than that the
  -- residual can be computed; provenance, the ledger and the telemetry do not occur.
  pub record Admitted (txn : Value) (w : A.World) : Type 0 where
    pub canonical : Floatless proposal
    pub shaped : IsTransition txn (get "transition" proposal)
    pub known : Known A.allowed_ops (get "op" txn)
    pub cheap : Within "max_cost" (A.cost txn)
    pub applies : A.apply world txn ≡ applied w
    pub small : Small w
    pub valid : Valid w
    pub measured : Measured w
    pub deep : Deep A.validate_strict (S.severity world txn) w
    pub agreed : Agreed txn w

  pub as_txn-IsTransition :
      (o : Option Value) {txn : Value} → as_txn o ≡ some txn → IsTransition txn o
  as_txn-IsTransition (some (dict fs)) e = (fs, (cc, refl))
  as_txn-IsTransition none e = cc
  as_txn-IsTransition (some null) e = cc
  as_txn-IsTransition (some (bool b)) e = cc
  as_txn-IsTransition (some (int n)) e = cc
  as_txn-IsTransition (some (Value.float t b)) e = cc
  as_txn-IsTransition (some (str s)) e = cc
  as_txn-IsTransition (some (list xs)) e = cc

  pub IsTransition-as_txn :
      (o : Option Value) {txn : Value} → IsTransition txn o → as_txn o ≡ some txn
  IsTransition-as_txn o (fs, (txn_is, there)) = rw there (ap some (sym txn_is))

  -- the transition of a proposal without floats has none
  pub transition-Floatless :
      {txn : Value}
      → Floatless proposal
      → IsTransition txn (get "transition" proposal)
      → Floatless txn
  transition-Floatless p (fs, (txn_is, there)) =
      rw txn_is (get-Floatless "transition" proposal p there)

  pub witnessed-Agreed :
      (txn : Value) (w : A.World)
      → witnessed sha256 repr A S world proposal ledger txn w ≡ true
      → Agreed txn w
  unfolding witnessed
  witnessed-Agreed txn w e = split S.witnesses refl e
    where
      split :
          (ws : List (A.World → Value → String))
          → S.witnesses ≡ ws
          → witnessed sha256 repr A S world proposal ledger txn w ≡ true
          → Agreed txn w
      split [] same e2 = inl same
      split (v ∷ vs) same e2 =
          let enough : not (
                ltb (agreeing sha256 repr S.witnesses world txn (A.state_hash w))
                  (or_default (length S.witnesses) S.k))
              ≡ true =
            rw same (rw same at e2) in
          inr (
            agreeing-Derive sha256 repr world txn (A.state_hash w) _ S.witnesses
              (ground (arith, enough)))

  pub Agreed-witnessed :
      (txn : Value) (w : A.World)
      → Agreed txn w
      → witnessed sha256 repr A S world proposal ledger txn w ≡ true
  unfolding witnessed
  Agreed-witnessed txn w (inl same) = rw same refl
  Agreed-witnessed txn w (inr d) =
      let le = Derive-agreeing sha256 repr world txn (A.state_hash w) _ S.witnesses d in
      ground (arith, le)

  pub strict_verdict-Deep :
      (o : Option (A.World → Value → Outcome (Bool × String))) (sev : String) (w : A.World)
      {why : String}
      → strict_verdict sha256 repr A S world proposal ledger o sev w ≡ ok (true, why)
      → Deep o sev w
  unfolding strict_verdict
  strict_verdict-Deep none sev w e = tt
  strict_verdict-Deep (some check) sev w {why} e = elim (Bool-cases (sev ≟ "strict")) [
    | inl strict_ ↦ inr (why, rw strict_ at e)
    | inr other ↦ inl (λ eq.
        let same : (sev ≟ "strict") ≡ true = (string_eq.decides sev "strict").1 eq in absurd (cc))
  ]

  pub Deep-strict_verdict :
      (o : Option (A.World → Value → Outcome (Bool × String))) (sev : String) (w : A.World)
      → Deep o sev w
      → (why : String) × (strict_verdict sha256 repr A S world proposal ledger o sev w
          ≡ ok (true, why))
  unfolding strict_verdict
  Deep-strict_verdict none sev w d = ("", refl)
  Deep-strict_verdict (some check) sev w d = elim (Bool-cases (sev ≟ "strict")) [
    | inr other ↦ ("", rw other refl)
    | inl strict_ ↦ content strict_ d
  ]
    where
      content :
          (sev ≟ "strict") ≡ true
          → (sev ≢ "strict") ⊎ ((why : String) × (check w constraints ≡ ok (true, why)))
          → (why : String) × (strict_verdict sha256 repr A S world proposal ledger
                (some check)
                sev
                w
              ≡ ok (true, why))
      content strict_ (inl apart) = absurd (apart ((string_eq.decides sev "strict").0 strict_))
      content strict_ (inr (why, checks)) = (why, rw strict_ checks)
