-- ===== src/Airlock/Audit.antt =====
-- `audit` of airlock/membrane.py: the heavy validator, run offline on a transition that was committed at a
-- lower tier.
use dentatus.Prelude.{
  String, ◌≡◌, ◌≢◌, refl, ◌↔◌, ◌⊎◌, inl, inr, Bool, true, false, Option, none, some, Outcome, ok,
  err, ◌>>=◌,
}
use dentatus.Prelude.Eq.{string_eq}
use dentatus.Chronicle.Value.{Value, Fields, str, dict, field, end, or_empty, truthy, opt_str}
use dentatus.Chronicle.Canonical.{◌^^◌, state_hash}
use dentatus.Chronicle.Signing.{Signer}
use dentatus.Airlock.Adapter.{Applied, applied, refused, raised, Adapter}
use dentatus.Airlock.Membrane.{Commit, Ledger, get_or_empty, opt_sign}
use dentatus.Airlock.Propose.{committed, Setup, propose}
use dentatus.Airlock.Admitted.{Admitted, Deep}
use dentatus.Airlock.Admission.{Commits, commit_sound, commit_complete}

pub record Audit : Type 0 where
  pub commit_hash : Option String
  pub verdict : String
  pub reason : String
  pub shard_hash : String
  pub signature : Option String
  pub algo : Option String

abbrev pub audit_fields : Audit → Fields → Fields
audit_fields a rest = field "event" (str "AUDIT") (
    field "severity" (str "strict") (
      field "commit_hash" (opt_str a.commit_hash)
        (field "verdict" (str a.verdict) (field "reason" (str a.reason) rest))))

abbrev pub judge : Bool × String → String × String
judge (true, why) = ("PASS", "admissible")
judge (false, why) = ("FLAG", why)

abbrev algo_of : Option Signer → Option String
algo_of none = none
algo_of (some s) = some s.algo

module _ (sha256 : String → String) (A : Adapter) where
  -- the verdict and its reason
  abbrev pub judge_applied :
      (A.World → Value → Outcome (Bool × String))
      → Option Value
      → Applied A.World
      → Outcome (String × String)
  judge_applied strict_fn constraints (applied w) =
      strict_fn w (or_empty constraints) >>= λ v. ok (judge v)
  judge_applied strict_fn constraints (refused e) = ok ("FLAG", "apply failed under audit: " ^^ e)
  judge_applied strict_fn constraints (raised e) = err e

  abbrev pub audit_verdict :
      Option (A.World → Value → Outcome (Bool × String))
      → A.World
      → Value
      → Option Value
      → Outcome (String × String)
  audit_verdict none world txn constraints = ok ("PASS", "no strict validator")
  audit_verdict (some strict_fn) world txn constraints =
      judge_applied strict_fn constraints (A.apply world txn)

  abbrev pub seal_audit : Option Signer → Option String → String × String → Audit
  seal_audit signer commit_hash (verdict, reason) =
      let rec : Audit = record {
        commit_hash = commit_hash;
        verdict = verdict;
        reason = reason;
        shard_hash = "";
        signature = none;
        algo = none;
      } in
      let h = state_hash sha256 (dict (audit_fields rec end)) in
      record rec {
        shard_hash = h;
        signature = opt_sign signer (audit_fields rec (field "shard_hash" (str h) end));
        algo = algo_of signer;
      }

  unfoldable pub audit :
      A.World → Value → Option Value → Option String → Option Signer → Outcome Audit
  audit world txn constraints commit_hash signer =
      audit_verdict A.validate_strict world txn constraints >>= λ v.
      ok (seal_audit signer commit_hash v)

abbrev pub Passes : Outcome Audit → Type 0
Passes (ok a) = a.verdict ≡ "PASS"
Passes (err e) = ⊥

-- the setup with every transition at the strict tier
abbrev pub at_strict : {A : Adapter} → Setup A → Setup A
at_strict S = record S { severity = λ w txn. "strict" }

or_empty_dict : (fs : Fields) → or_empty (some (dict fs)) ≡ dict fs
unfolding or_empty truthy
or_empty_dict Fields.end = refl
or_empty_dict (Fields.field k v fs) = refl

module _ (sha256 : String → String) (repr : Value → String) (A : Adapter) (S : Setup A)
    (world : A.World) (proposal : Value) (ledger : Ledger) where
  Passes-iff :
      (o : Outcome (Bool × String)) (commit_hash : Option String) (signer : Option Signer)
      → Passes ((o >>= λ v. ok (judge v)) >>= λ v. ok (seal_audit sha256 A signer commit_hash v))
        ↔ ((why : String) × (o ≡ ok (true, why)))
  Passes-iff (err e) commit_hash signer = (λ p. absurd p, λ (why, e2). cc)
  Passes-iff (ok (true, why)) commit_hash signer = (λ p. (why, refl), λ r. refl)
  Passes-iff (ok (false, why)) commit_hash signer =
      (λ p. let same = (string_eq.decides "FLAG" "PASS").1 p in cc, λ (why2, e). cc)

  abbrev DeepAt : Option (A.World → Value → Outcome (Bool × String)) → A.World → Type 0
  DeepAt o w = Deep sha256 repr A (at_strict S) world proposal ledger o "strict" w

  abbrev Lenient : String → Type 0
  Lenient sev = sev ≢ "strict"

  audit_deep :
      (o : Option (A.World → Value → Outcome (Bool × String))) (w : A.World)
      (commit_hash : Option String) (signer : Option Signer) {txn : Value} {fs : Fields}
      → A.apply world txn ≡ applied w
      → get_or_empty "constraints" proposal ≡ dict fs
      → Passes (
          audit_verdict sha256 A o world txn (some (dict fs)) >>= λ v.
          ok (seal_audit sha256 A signer commit_hash v))
        ↔ DeepAt o w
  audit_deep none w commit_hash signer applies dict_ = (λ _. tt, λ _. refl)
  audit_deep (some check) w commit_hash signer {fs = fs} applies dict_ =
      let passes = Passes-iff (check w (dict fs)) commit_hash signer in
      rw applies (rw (or_empty_dict fs) (λ p. inr (rw dict_ (passes.0 p)), λ d. passes.1 (asked d)))
    where
      asked :
          Lenient "strict"
            ⊎ ((why : String) × (check w (get_or_empty "constraints" proposal) ≡ ok (true, why)))
          → (why : String) × (check w (dict fs) ≡ ok (true, why))
      asked (inl apart) = absurd (apart refl)
      asked (inr (why, checks)) = (why, rw dict_ at checks)

  -- The tier occurs in the condition on the strict validator only.
  at_tier :
      {txn : Value} {w : A.World}
      → Admitted sha256 repr A S world proposal ledger txn w
      → DeepAt A.validate_strict w
      → Admitted sha256 repr A (at_strict S) world proposal ledger txn w
  at_tier a deep = record {
    canonical = a.canonical;
    shaped = a.shaped;
    known = a.known;
    cheap = a.cheap;
    applies = a.applies;
    small = a.small;
    valid = a.valid;
    measured = a.measured;
    deep = deep;
    agreed = a.agreed;
  }

  -- When a proposal whose constraints are a dict has been committed at any tier, the offline audit of the
  -- recorded transition passes exactly when the same proposal would have been committed at the
  -- strict tier.
  pub audit_iff :
      {w : A.World} {c : Commit} {l : Ledger} {fs : Fields} (commit_hash : Option String)
      (signer : Option Signer)
      → propose sha256 repr A S world proposal ledger ≡ ok (committed w c, l)
      → get_or_empty "constraints" proposal ≡ dict fs
      → Passes (audit sha256 A world c.txn (some (dict fs)) commit_hash signer)
        ↔ Commits sha256 repr A S world proposal ledger w
            (propose sha256 repr A (at_strict S) world proposal ledger)
  unfolding audit
  audit_iff {w} {c} commit_hash signer committed_ dict_ =
      let a = commit_sound sha256 repr A S world proposal ledger committed_ in
      let deep = audit_deep A.validate_strict w commit_hash signer a.applies dict_ in
      (
        λ passes.
            commit_complete sha256 repr A (at_strict S) world proposal ledger c.txn w
              (at_tier a (deep.0 passes)),
        λ (c2, l2, e2).
            deep.1 (commit_sound sha256 repr A (at_strict S) world proposal ledger e2).deep,
      )
