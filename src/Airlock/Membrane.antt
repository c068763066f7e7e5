-- ===== src/Airlock/Membrane.antt =====
-- airlock/membrane.py: `propose` takes one proposal through the gates
-- CANON, SCHEMA, BUDGET, APPLY, CONSTRAINT, STRICT and WITNESS, and commits it or writes a rejection.
-- A proposal is a dict, as the callers build it; its budget is any value, and what is no dict raises as
-- `in` and `[]` do.
use text.Mathlib.Text.{find?}
use dentatus.Prelude.{
  ℕ, String, Bool, true, false, Option, none, some, List, [], ◌∷◌, Outcome, ok, err, if◌then◌else◌,
}
use dentatus.Prelude.Int.{ℤ, pos, ltb_ℤ}
use dentatus.Prelude.Eq.{◌≟◌, string_eq}
use dentatus.Chronicle.Value.{
  Value, Values, nil, cons, null, bool, int, str, nat, list, dict, Fields, field, end, find, get,
  opt_str,
}
use dentatus.Chronicle.Canonical.{show_int, canonical_bytes, genesis}
use dentatus.Chronicle.Signing.{Signer}

pub data Gate : Type 0 where
  canon schema budget apply constraint strict witness : Gate

unfoldable pub gate_name : Gate → String
gate_name canon = "CANON"
gate_name schema = "SCHEMA"
gate_name budget = "BUDGET"
gate_name apply = "APPLY"
gate_name constraint = "CONSTRAINT"
gate_name strict = "STRICT"
gate_name witness = "WITNESS"

-- a key that is not in the dict yet is `none`
pub record Telemetry : Type 0 where
  pub residual : Option ℕ
  pub cost : ℤ
  pub delta : ℕ
  pub post_hash_preview : Option String
  pub severity : Option String
  pub deferred : Option (List String)

pub record Reject : Type 0 where
  pub gate : Gate
  pub reason : String
  pub prev : String
  pub proposal_hash : String
  pub telemetry : Option Telemetry
  pub shard_hash : String
  pub signature : Option String
  pub algo : Option String

pub record Commit : Type 0 where
  pub prev : String
  pub txn : Value
  pub txn_hash : String
  pub pre_hash : String
  pub post_hash : String
  pub telemetry : Telemetry
  pub provenance : Value
  pub severity : String
  pub shard_hash : String
  pub signature : Option String
  pub algo : Option String

pub record Ledger : Type 0 where
  pub commits : List Commit
  pub rejections : List Reject

abbrev pub empty_ledger : Ledger
empty_ledger = record { commits = []; rejections = [] }

unfoldable pub last_hash : String → List Commit → String
last_hash h [] = h
last_hash h (c ∷ cs) = last_hash c.shard_hash cs

-- `Ledger.head`
unfoldable pub head : Ledger → String
unfolding last_hash
head ledger = last_hash genesis ledger.commits

abbrev strings : List String → Values
strings [] = nil
strings (s ∷ ss) = cons (str s) (strings ss)

abbrev opt_nat : Option ℕ → Value
opt_nat none = null
opt_nat (some n) = nat n

abbrev severity_field : Option String → Fields → Fields
severity_field none fs = fs
severity_field (some s) fs = field "severity" (str s) fs

abbrev deferred_field : Option (List String) → Fields → Fields
deferred_field none fs = fs
deferred_field (some ds) fs = field "deferred" (list (strings ds)) fs

unfoldable pub telemetry_value : Option Telemetry → Value
telemetry_value none = dict end
telemetry_value (some t) = dict (
    field "R_p" (opt_nat t.residual) (
      field "cost" (int t.cost) (
        field "delta" (nat t.delta) (
          field "post_hash_preview" (opt_str t.post_hash_preview)
            (severity_field t.severity (deferred_field t.deferred end))))))

unfoldable pub reject_fields : Reject → Fields → Fields
reject_fields r rest = field "event" (str "REJECT") (
    field "gate" (str (gate_name r.gate)) (
      field "reason" (str r.reason) (
        field "prev" (str r.prev) (
          field "proposal_hash" (str r.proposal_hash)
            (field "telemetry" (telemetry_value r.telemetry) rest)))))

unfoldable pub commit_fields : Commit → Fields → Fields
commit_fields c rest = field "event" (str "COMMIT") (
    field "prev" (str c.prev) (
      field "txn" c.txn (
        field "txn_hash" (str c.txn_hash) (
          field "pre_hash" (str c.pre_hash) (
            field "post_hash" (str c.post_hash) (
              field "telemetry" (telemetry_value (some c.telemetry))
                (field "provenance" c.provenance (field "severity" (str c.severity) rest))))))))

-- `proposal.get(key, {})`
unfoldable pub get_or_empty : String → Value → Value
get_or_empty key proposal = elim (get key proposal) [ none ↦ dict end | some v ↦ v ]

abbrev pub as_limit : Option Value → Outcome (Option ℤ)
as_limit none = ok none
as_limit (some (int n)) = ok (some n)
as_limit (some (bool true)) = ok (some (pos 1))
as_limit (some (bool false)) = ok (some (pos 0))
as_limit (some _) = err "'>' not supported between these types"

-- `key in xs`, of a list
abbrev pub has_text : String → Values → Bool
has_text key nil = false
has_text key (cons (str s) xs) = if s ≟ key then true else has_text key xs
has_text key (cons _ xs) = has_text key xs

-- a list or a text that holds the key has no item by it
abbrev pub absent_unless : Bool → Outcome (Option ℤ)
absent_unless true = err "indices must be integers"
absent_unless false = ok none

abbrev pub is_found : Option ℕ → Bool
is_found none = false
is_found (some i) = true

-- `budget[key]` if `key in budget`
unfoldable pub limit_in : String → Value → Outcome (Option ℤ)
limit_in key (dict fs) = as_limit (find key fs)
limit_in key (list xs) = absent_unless (has_text key xs)
limit_in key (str s) = absent_unless (is_found (find? s key))
limit_in key _ = err "argument is not iterable"

-- `"max_cost" in budget and cost > budget["max_cost"]`
abbrev pub exceeds : ℤ → Option ℤ → Bool
exceeds n none = false
exceeds n (some limit) = ltb_ℤ limit n

abbrev pub limit_text : Option ℤ → String
limit_text none = ""
limit_text (some limit) = show_int limit

-- `isinstance(txn, dict) and txn.get("op") in ALLOWED_OPS`
unfoldable pub op_in : List String → Option Value → Bool
op_in [] op = false
op_in (o ∷ os) (some (str s)) = if o ≟ s then true else op_in os (some (str s))
op_in (o ∷ os) _ = false

abbrev pub as_txn : Option Value → Option Value
as_txn (some (dict fs)) = some (dict fs)
as_txn _ = none

unfoldable pub opt_sign : Option Signer → Fields → Option String
opt_sign none fs = none
opt_sign (some signer) fs = some (signer.sign (canonical_bytes (dict fs)))

abbrev pub opt_algo : Option Signer → Option String
opt_algo none = none
opt_algo (some signer) = some signer.algo
