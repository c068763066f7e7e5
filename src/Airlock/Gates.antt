-- ===== src/Airlock/Gates.antt =====
-- What a decision of `propose` in airlock/membrane.py does to the ledger, and when it is a commit.
use dentatus.Prelude.{
  ℕ, String, ◌≡◌, refl, inl, inr, Bool, true, false, Option, none, some, [], ◌∷◌, ◌++◌, Outcome,
  Outcome-cases, ok, err, if◌then◌else◌,
}
use dentatus.Prelude.Int.{ℤ}
use dentatus.Prelude.Eq.{string_eq}
use dentatus.Chronicle.Value.{Value}
use dentatus.Stasis.Canon.{canon_hash}
use dentatus.Airlock.Adapter.{Applied, applied, refused, raised, Adapter}
use dentatus.Airlock.Membrane.{Gate, Telemetry, Ledger, head}
use dentatus.Airlock.Propose.{
  Verdict, committed, rejected, Setup, seal_commit, seal_reject, reject, commit, commit_step,
  witness_step, strict_step, validate_step, delta_step, apply_step, cost_step, schema_step,
  canon_step, propose, Decision,
}

module _ (sha256 : String → String) (repr : Value → String) (A : Adapter) (S : Setup A)
    (world : A.World) (proposal : Value) (ledger : Ledger) where
  -- A decision writes one record and no more: a commit goes to the commits, bound to their head, and
  -- addresses the new world; a rejection goes to the rejections, and leaves the commits alone.
  abbrev pub Logged : Verdict A.World × Ledger → Type 0
  Logged (committed w c, l) =
      (l.commits ≡ ledger.commits ++ c ∷ [])
      × (l.rejections ≡ ledger.rejections)
      × (c.prev ≡ head ledger)
      × (c.pre_hash ≡ A.state_hash world)
      × (c.post_hash ≡ A.state_hash w)
  Logged (rejected r, l) =
      (l.rejections ≡ ledger.rejections ++ r ∷ [])
      × (l.commits ≡ ledger.commits)
      × (r.prev ≡ head ledger)

  abbrev pub LoggedOk : Decision sha256 repr A S world proposal ledger → Type 0
  LoggedOk (ok d) = Logged d
  LoggedOk (err e) = Unit

  reject-Logged :
      (gate : Gate) (reason ph : String) (t : Option Telemetry)
      → Logged (reject sha256 repr A S world proposal ledger gate reason ph t)
  unfolding reject seal_reject
  reject-Logged gate reason ph t = (refl, refl, refl)

  commit_step-Logged :
      (txn : Value) (ph : String) (w : A.World) (t : Telemetry) (sev : String)
      → LoggedOk (commit_step sha256 repr A S world proposal ledger txn ph w t sev)
  unfolding commit_step commit seal_commit
  commit_step-Logged txn ph w t sev = elim (Outcome-cases (canon_hash sha256 txn false)) [
    | inl (h, e) ↦ rw e (refl, refl, refl, refl, refl)
    | inr (why, e) ↦ rw e tt
  ]

  branch :
      (b : Bool) (next : Decision sha256 repr A S world proposal ledger)
      (other : Verdict A.World × Ledger)
      → LoggedOk next
      → Logged other
      → LoggedOk (if b then next else ok other)
  branch true next other n o = n
  branch false next other n o = o

  branch' :
      (b : Bool) (next : Decision sha256 repr A S world proposal ledger)
      (other : Verdict A.World × Ledger)
      → LoggedOk next
      → Logged other
      → LoggedOk (if b then ok other else next)
  branch' true next other n o = o
  branch' false next other n o = n

  witness_step-Logged :
      (txn : Value) (ph : String) (w : A.World) (t : Telemetry) (sev : String)
      → LoggedOk (witness_step sha256 repr A S world proposal ledger txn ph w t sev)
  unfolding witness_step
  witness_step-Logged txn ph w t sev =
      branch _ _ _ (commit_step-Logged txn ph w _ sev) (reject-Logged _ _ ph _)

  strict_step-Logged :
      (v : Outcome (Bool × String)) (sev : String) (txn : Value) (ph : String) (w : A.World)
      (t : Telemetry)
      → LoggedOk (strict_step sha256 repr A S world proposal ledger v sev txn ph w t)
  unfolding strict_step
  strict_step-Logged (err e) sev txn ph w t = tt
  strict_step-Logged (ok (fine, why)) sev txn ph w t =
      branch _ _ _ (witness_step-Logged txn ph w _ _) (reject-Logged _ _ ph _)

  validate_step-Logged :
      (v : Outcome (Bool × String)) (r : Outcome (Option ℕ)) (txn : Value) (ph : String)
      (w : A.World) (cost : ℤ) (delta : ℕ)
      → LoggedOk (validate_step sha256 repr A S world proposal ledger v r txn ph w cost delta)
  unfolding validate_step
  validate_step-Logged (err e) r txn ph w cost delta = tt
  validate_step-Logged (ok v) (err e) txn ph w cost delta = tt
  validate_step-Logged (ok (fine, why)) (ok r) txn ph w cost delta =
      branch _ _ _ (strict_step-Logged _ _ txn ph w _) (reject-Logged _ _ ph _)

  delta_step-Logged :
      (d : Outcome ℕ) (limit : Outcome (Option ℤ)) (txn : Value) (ph : String) (w : A.World)
      (cost : ℤ)
      → LoggedOk (delta_step sha256 repr A S world proposal ledger d limit txn ph w cost)
  unfolding delta_step
  delta_step-Logged (err e) limit txn ph w cost = tt
  delta_step-Logged (ok d) (err e) txn ph w cost = tt
  delta_step-Logged (ok d) (ok limit) txn ph w cost =
      branch' _ _ _ (validate_step-Logged _ _ txn ph w cost d) (reject-Logged _ _ ph _)

  apply_step-Logged :
      (o : Applied A.World) (txn : Value) (ph : String) (cost : ℤ)
      → LoggedOk (apply_step sha256 repr A S world proposal ledger o txn ph cost)
  unfolding apply_step
  apply_step-Logged (raised e) txn ph cost = tt
  apply_step-Logged (refused e) txn ph cost = reject-Logged _ _ ph _
  apply_step-Logged (applied w) txn ph cost = delta_step-Logged _ _ txn ph w cost

  cost_step-Logged :
      (c : Outcome ℤ) (limit : Outcome (Option ℤ)) (txn : Value) (ph : String)
      → LoggedOk (cost_step sha256 repr A S world proposal ledger c limit txn ph)
  unfolding cost_step
  cost_step-Logged (err e) limit txn ph = tt
  cost_step-Logged (ok c) (err e) txn ph = tt
  cost_step-Logged (ok c) (ok limit) txn ph =
      branch' _ _ _ (apply_step-Logged (A.apply world txn) txn ph c) (reject-Logged _ _ ph _)

  schema_step-Logged :
      (o : Option Value) (ph : String)
      → LoggedOk (schema_step sha256 repr A S world proposal ledger o ph)
  unfolding schema_step
  schema_step-Logged none ph = reject-Logged _ _ ph _
  schema_step-Logged (some txn) ph =
      branch _ _ _ (cost_step-Logged _ _ txn ph) (reject-Logged _ _ ph _)

  canon_step-Logged :
      (o : Outcome String) → LoggedOk (canon_step sha256 repr A S world proposal ledger o)
  unfolding canon_step
  canon_step-Logged (err e) = reject-Logged _ _ _ _
  canon_step-Logged (ok ph) = schema_step-Logged _ ph

  -- Whatever `propose` decides, it writes exactly the record of that decision. A commit is appended
  -- to the commits, bound to the head they had, with the hashes of the old and of the new world, and
  -- the rejections stay; a rejection is appended to the rejections, bound to the same head, and the
  -- commits stay.
  pub propose-Logged : LoggedOk (propose sha256 repr A S world proposal ledger)
  unfolding propose
  propose-Logged = canon_step-Logged (canon_hash sha256 proposal false)
