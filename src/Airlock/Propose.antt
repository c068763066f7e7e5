-- ===== src/Airlock/Propose.antt =====
-- `propose` of airlock/membrane.py, one function for each stage, from the last to the first.
use Prim.Native.String.{slice}
use dentatus.Prelude.{
  ℕ, suc, String, Bool, true, false, Option, none, some, List, [], ◌∷◌, ◌++◌, ltb, Outcome, ok, err,
  ◌>>=◌, if◌then◌else◌, length, ◌||◌, not,
}
use dentatus.Prelude.Int.{ℤ, pos}
use dentatus.Prelude.Eq.{◌≟◌, string_eq}
use dentatus.Prelude.Dict.{or_default}
use dentatus.Chronicle.Value.{Value, str, dict, field, end, get}
use dentatus.Chronicle.Canonical.{◌^^◌, show_nat, show_int, state_hash}
use dentatus.Chronicle.Signing.{Signer}
use dentatus.Stasis.Canon.{canon_hash}
use dentatus.Airlock.Adapter.{Applied, applied, refused, raised, Adapter}
use dentatus.Airlock.Membrane.{
  Gate, canon, schema, budget, apply, constraint, strict, witness, Telemetry, Reject, Commit,
  Ledger, head, reject_fields, commit_fields, get_or_empty, exceeds, limit_text, op_in, as_txn,
  opt_sign, opt_algo, limit_in,
}

pub data Verdict (W : Type 0) : Type 0 where
  committed : W → Commit → Verdict W
  rejected : Reject → Verdict W

-- the parameters of a call that no stage changes
pub record Setup (A : Adapter) : Type 0 where
  pub witnesses : List (A.World → Value → String)
  pub k : Option ℕ
  pub signer : Option Signer
  -- a fixed tier is a constant function
  pub severity : A.World → Value → String

abbrev is_empty : {A : Type 0} → List A → Bool
is_empty [] = true
is_empty (x ∷ xs) = false

module _ (sha256 : String → String) (repr : Value → String) where
  -- `_shard`: the content address, then the signature over the addressed record
  unfoldable pub seal_reject : Option Signer → Reject → Reject
  seal_reject signer r =
      let h = state_hash sha256 (dict (reject_fields r end)) in
      record r {
        shard_hash = h;
        signature = opt_sign signer (reject_fields r (field "shard_hash" (str h) end));
        algo = opt_algo signer;
      }

  unfoldable pub seal_commit : Option Signer → Commit → Commit
  seal_commit signer c =
      let h = state_hash sha256 (dict (commit_fields c end)) in
      record c {
        shard_hash = h;
        signature = opt_sign signer (commit_fields c (field "shard_hash" (str h) end));
        algo = opt_algo signer;
      }

  -- how many witnesses re-derive the candidate's hash
  unfoldable pub agreeing : {W : Type 0} → List (W → Value → String) → W → Value → String → ℕ
  agreeing [] world txn h = 0
  agreeing (w ∷ ws) world txn h =
      let rest = agreeing ws world txn h in if w world txn ≟ h then suc rest else rest

  module _ (A : Adapter) (S : Setup A) (world : A.World) (proposal : Value) (ledger : Ledger) where
    abbrev pub Decision : Type 0
    Decision = Outcome (Verdict A.World × Ledger)

    unfoldable pub reject : Gate → String → String → Option Telemetry → Verdict A.World × Ledger
    unfolding seal_reject
    reject gate reason ph telemetry =
        let shard = seal_reject S.signer (record {
          gate = gate;
          reason = reason;
          prev = head ledger;
          proposal_hash = ph;
          telemetry = telemetry;
          shard_hash = "";
          signature = none;
          algo = none;
        }) in
        (rejected shard, record ledger { rejections = ledger.rejections ++ shard ∷ [] })

    unfoldable pub commit : Value → String → A.World → Telemetry → String → Verdict A.World × Ledger
    commit txn txn_hash world2 telemetry sev =
        let shard = seal_commit S.signer (record {
          prev = head ledger;
          txn = txn;
          txn_hash = txn_hash;
          pre_hash = A.state_hash world;
          post_hash = A.state_hash world2;
          telemetry = telemetry;
          provenance = get_or_empty "provenance" proposal;
          severity = sev;
          shard_hash = "";
          signature = none;
          algo = none;
        }) in
        (committed world2 shard, record ledger { commits = ledger.commits ++ shard ∷ [] })

    -- 7) a transition inside a canonical proposal is canonical too, so its hash does not raise here
    unfoldable pub commit_step : Value → String → A.World → Telemetry → String → Decision
    commit_step txn ph world2 telemetry sev =
        canon_hash sha256 txn false >>= λ h. ok (commit txn h world2 telemetry sev)

    unfoldable pub needed : ℕ
    needed = or_default (length S.witnesses) S.k

    -- `witnesses` is empty or enough of them agree
    unfoldable pub witnessed : Value → A.World → Bool
    unfolding needed
    witnessed txn world2 =
        is_empty S.witnesses
        || not (ltb (agreeing S.witnesses world txn (A.state_hash world2)) needed)

    -- 5) and 6)
    unfoldable pub witness_step : Value → String → A.World → Telemetry → String → Decision
    witness_step txn ph world2 telemetry sev =
        let h2 = A.state_hash world2 in
        let seen = record telemetry { post_hash_preview = some (slice h2 0 16) } in
        let next = commit_step txn ph world2 seen sev in
        if witnessed txn world2
        then next
        else ok (
            reject witness
              ("reproduction "
                ^^ show_nat (agreeing S.witnesses world txn h2)
                ^^ "/"
                ^^ show_nat (length S.witnesses)
                ^^ " < k="
                ^^ show_nat needed)
              ph (some seen))

    -- the inline verdict of the strict validator, where there is one and the tier asks for it
    unfoldable pub strict_verdict :
        Option (A.World → Value → Outcome (Bool × String))
        → String
        → A.World
        → Outcome (Bool × String)
    strict_verdict none sev world2 = ok (true, "")
    strict_verdict (some check) sev world2 =
        if sev ≟ "strict" then check world2 (get_or_empty "constraints" proposal) else ok (true, "")

    -- the validators that are left to the audit
    unfoldable pub put_off :
        Option (A.World → Value → Outcome (Bool × String)) → String → List String
    put_off none sev = []
    put_off (some check) sev = if sev ≟ "strict" then [] else "validate_strict" ∷ []

    -- 4b), with the tier and the verdict
    unfoldable pub strict_step :
        Outcome (Bool × String) → String → Value → String → A.World → Telemetry → Decision
    strict_step (err e) sev txn ph world2 telemetry = err e
    strict_step (ok (fine, why)) sev txn ph world2 telemetry =
        let recorded = record telemetry { severity = some sev } in
        let next =
          witness_step txn ph world2
            (record recorded { deferred = some (put_off A.validate_strict sev) }) sev in
        if fine then next else ok (reject strict why ph (some recorded))

    -- 4), with the verdict, the residual, the cost and the magnitude
    unfoldable pub validate_step :
        Outcome (Bool × String) → Outcome (Option ℕ) → Value → String → A.World → ℤ → ℕ → Decision
    validate_step (err e) r txn ph world2 cost delta = err e
    validate_step (ok v) (err e) txn ph world2 cost delta = err e
    validate_step (ok (fine, why)) (ok r) txn ph world2 cost delta =
        let telemetry : Telemetry = record {
          residual = r;
          cost = cost;
          delta = delta;
          post_hash_preview = none;
          severity = none;
          deferred = none;
        } in
        let sev = S.severity world txn in
        let next =
          strict_step (strict_verdict A.validate_strict sev world2) sev txn ph world2 telemetry in
        if fine then next else ok (reject constraint why ph (some telemetry))

    unfoldable pub delta_limit : Outcome (Option ℤ)
    unfolding limit_in
    delta_limit = limit_in "max_delta" (get_or_empty "budget" proposal)

    unfoldable pub cost_limit : Outcome (Option ℤ)
    unfolding limit_in
    cost_limit = limit_in "max_cost" (get_or_empty "budget" proposal)

    -- the magnitude budget, after the shadow apply
    unfoldable pub delta_step :
        Outcome ℕ → Outcome (Option ℤ) → Value → String → A.World → ℤ → Decision
    delta_step (err e) limit txn ph world2 cost = err e
    delta_step (ok delta) (err e) txn ph world2 cost = err e
    delta_step (ok delta) (ok limit) txn ph world2 cost =
        let next =
          validate_step (A.validate world2 (get_or_empty "constraints" proposal))
            (A.residual world2 (get_or_empty "claims" proposal)) txn ph world2 cost delta in
        if exceeds (pos delta) limit
        then ok (
            reject budget ("delta " ^^ show_nat delta ^^ " > max_delta " ^^ limit_text limit) ph
              none)
        else next

    -- 3)
    unfoldable pub apply_step : Applied A.World → Value → String → ℤ → Decision
    apply_step (raised e) txn ph cost = err e
    apply_step (refused e) txn ph cost = ok (reject apply e ph none)
    apply_step (applied world2) txn ph cost =
        delta_step (A.delta_norm world world2) delta_limit txn ph world2 cost

    -- 2)
    unfoldable pub cost_step : Outcome ℤ → Outcome (Option ℤ) → Value → String → Decision
    cost_step (err e) limit txn ph = err e
    cost_step (ok cost) (err e) txn ph = err e
    cost_step (ok cost) (ok limit) txn ph =
        let next = apply_step (A.apply world txn) txn ph cost in
        if exceeds cost limit
        then ok
            (reject budget ("cost " ^^ show_int cost ^^ " > max_cost " ^^ limit_text limit) ph none)
        else next

    unfoldable pub schema_step : Option Value → String → Decision
    schema_step none ph = ok (reject schema "unknown or missing op" ph none)
    schema_step (some txn) ph =
        let next = cost_step (A.cost txn) cost_limit txn ph in
        if op_in A.allowed_ops (get "op" txn)
        then next
        else ok (reject schema "unknown or missing op" ph none)

    -- 1)
    unfoldable pub canon_step : Outcome String → Decision
    canon_step (err e) = ok (reject canon e ("noncanon:" ^^ sha256 (repr proposal)) none)
    canon_step (ok ph) = schema_step (as_txn (get "transition" proposal)) ph

    unfoldable pub propose : Decision
    propose = canon_step (canon_hash sha256 proposal false)
