-- ===== src/Airlock/Admission.antt =====
-- Exactly which proposals `propose` of airlock/membrane.py commits.
use mathlib.Core.Path.{subst}
use dentatus.Prelude.{
  ℕ, String, ◌≡◌, refl, Bool, true, false, Option, none, some, Outcome, ok, err, if◌then◌else◌,
  Outcome-cases, inl, inr,
}
use dentatus.Prelude.Int.{ℤ, pos}
use dentatus.Prelude.Eq.{string_eq}
use dentatus.Chronicle.Value.{Value, get}
use dentatus.Stasis.Canon.{canon_hash}
use dentatus.Stasis.Canon.Floatless.{canon_hash-Floatless, Floatless-canon_hash}
use dentatus.Airlock.Adapter.{Applied, applied, refused, raised, Adapter}
use dentatus.Airlock.Membrane.{Telemetry, Commit, Ledger, get_or_empty, as_txn}
use dentatus.Airlock.Propose.{
  Verdict, committed, rejected, Setup, seal_commit, reject, commit, commit_step, witness_step,
  strict_verdict, strict_step, validate_step, delta_limit, cost_limit, delta_step, apply_step,
  cost_step, schema_step, canon_step, propose, Decision,
}
use dentatus.Airlock.Conditions.{Affords-Under, Under-Affords, op_in-Known, Known-op_in}
use dentatus.Airlock.Admitted.{
  constraints, Deep, Agreed, Within, Small, Valid, Measured, Admitted, as_txn-IsTransition,
  IsTransition-as_txn, transition-Floatless, witnessed-Agreed, Agreed-witnessed,
  strict_verdict-Deep, Deep-strict_verdict,
}

module _ (sha256 : String → String) (repr : Value → String) (A : Adapter) (S : Setup A)
    (world : A.World) (proposal : Value) (ledger : Ledger) where
  abbrev Meets : Value → A.World → Type 0
  Meets = Admitted sha256 repr A S world proposal ledger

  abbrev FromStrict : Value → A.World → Type 0
  FromStrict txn w =
      Deep sha256 repr A S world proposal ledger A.validate_strict (S.severity world txn) w
      → Agreed sha256 repr A S world proposal ledger txn w
      → Meets txn w

  abbrev FromValid : Value → A.World → Type 0
  FromValid txn w =
      Valid sha256 repr A S world proposal ledger w
      → Measured sha256 repr A S world proposal ledger w
      → FromStrict txn w

  -- what is left to show after the shadow apply
  abbrev FromDelta : Value → A.World → Type 0
  FromDelta txn w = Small sha256 repr A S world proposal ledger w → FromValid txn w

  abbrev Passed : Decision sha256 repr A S world proposal ledger → Type 0
  Passed (ok (committed w c, l)) = Meets c.txn w
  Passed (ok (rejected r, l)) = Unit
  Passed (err e) = Unit

  Passed-then :
      (b : Bool) (next : Decision sha256 repr A S world proposal ledger)
      (other : Verdict A.World × Ledger)
      → (b ≡ true → Passed next)
      → Passed (ok other)
      → Passed (if b then next else ok other)
  Passed-then true next other n o = n refl
  Passed-then false next other n o = o

  Passed-else :
      (b : Bool) (next : Decision sha256 repr A S world proposal ledger)
      (other : Verdict A.World × Ledger)
      → (b ≡ false → Passed next)
      → Passed (ok other)
      → Passed (if b then ok other else next)
  Passed-else true next other n o = o
  Passed-else false next other n o = n refl

  commit_step-Passed :
      (txn : Value) (ph : String) (w : A.World) (t : Telemetry) (sev : String)
      → Meets txn w
      → Passed (commit_step sha256 repr A S world proposal ledger txn ph w t sev)
  unfolding commit_step commit seal_commit
  commit_step-Passed txn ph w t sev a = elim (Outcome-cases (canon_hash sha256 txn false)) [
    | inl (h, e) ↦ rw e a
    | inr (why, e) ↦ rw e tt
  ]

  witness_step-Passed :
      (txn : Value) (ph : String) (w : A.World) (t : Telemetry) (sev : String)
      → (Agreed sha256 repr A S world proposal ledger txn w → Meets txn w)
      → Passed (witness_step sha256 repr A S world proposal ledger txn ph w t sev)
  unfolding witness_step reject
  witness_step-Passed txn ph w t sev a =
      Passed-then _ _ _
        (λ e.
          commit_step-Passed txn ph w _ sev
            (a (witnessed-Agreed sha256 repr A S world proposal ledger txn w e)))
        tt

  strict_step-Passed :
      (o : Outcome (Bool × String)) (sev : String) (txn : Value) (ph : String) (w : A.World)
      (t : Telemetry)
      → strict_verdict sha256 repr A S world proposal ledger A.validate_strict sev w ≡ o
      → (Deep sha256 repr A S world proposal ledger A.validate_strict sev w
          → Agreed sha256 repr A S world proposal ledger txn w
          → Meets txn w)
      → Passed (strict_step sha256 repr A S world proposal ledger o sev txn ph w t)
  unfolding strict_step reject
  strict_step-Passed (err e) sev txn ph w t judged a = tt
  strict_step-Passed (ok (true, why)) sev txn ph w t judged a =
      witness_step-Passed txn ph w _ sev (
        a (
          strict_verdict-Deep sha256 repr A S world proposal ledger A.validate_strict sev w judged))
  strict_step-Passed (ok (false, why)) sev txn ph w t judged a = tt

  validate_step-Passed :
      (v : Outcome (Bool × String)) (r : Outcome (Option ℕ)) (txn : Value) (ph : String)
      (w : A.World) (cost : ℤ) (delta : ℕ)
      → A.validate w (constraints sha256 repr A S world proposal ledger) ≡ v
      → A.residual w (get_or_empty "claims" proposal) ≡ r
      → FromValid txn w
      → Passed (validate_step sha256 repr A S world proposal ledger v r txn ph w cost delta)
  unfolding validate_step reject
  validate_step-Passed (err e) r txn ph w cost delta ev er a = tt
  validate_step-Passed (ok v) (err e) txn ph w cost delta ev er a = tt
  validate_step-Passed (ok (true, why)) (ok r) txn ph w cost delta ev er a =
      strict_step-Passed _ _ txn ph w _ refl (a (why, ev) (r, er))
  validate_step-Passed (ok (false, why)) (ok r) txn ph w cost delta ev er a = tt

  delta_step-Passed :
      (d : Outcome ℕ) (o : Outcome (Option ℤ)) (txn : Value) (ph : String) (w : A.World) (cost : ℤ)
      → A.delta_norm world w ≡ d
      → delta_limit sha256 repr A S world proposal ledger ≡ o
      → FromDelta txn w
      → Passed (delta_step sha256 repr A S world proposal ledger d o txn ph w cost)
  unfolding delta_step reject delta_limit
  delta_step-Passed (err e) o txn ph w cost ed eo a = tt
  delta_step-Passed (ok d) (err e) txn ph w cost ed eo a = tt
  delta_step-Passed (ok d) (ok limit) txn ph w cost ed eo a =
      Passed-else _ _ _
        (λ x. validate_step-Passed _ _ txn ph w cost d refl refl (
          a (
            d,
            (
              ed,
              Under-Affords "max_delta" (pos d) (get_or_empty "budget" proposal) (limit, (eo, x)),
            ),
          )))
        tt

  apply_step-Passed :
      (o : Applied A.World) (txn : Value) (ph : String) (cost : ℤ)
      → ((w : A.World) → o ≡ applied w → FromDelta txn w)
      → Passed (apply_step sha256 repr A S world proposal ledger o txn ph cost)
  unfolding apply_step reject
  apply_step-Passed (raised e) txn ph cost a = tt
  apply_step-Passed (refused e) txn ph cost a = tt
  apply_step-Passed (applied w) txn ph cost a =
      delta_step-Passed _ _ txn ph w cost refl refl (a w refl)

  cost_step-Passed :
      (c : Outcome ℤ) (o : Outcome (Option ℤ)) (txn : Value) (ph : String)
      → A.cost txn ≡ c
      → cost_limit sha256 repr A S world proposal ledger ≡ o
      → (Within sha256 repr A S world proposal ledger "max_cost" (A.cost txn)
          → (w : A.World) → A.apply world txn ≡ applied w
          → FromDelta txn w)
      → Passed (cost_step sha256 repr A S world proposal ledger c o txn ph)
  unfolding cost_step reject cost_limit
  cost_step-Passed (err e) o txn ph ec eo a = tt
  cost_step-Passed (ok c) (err e) txn ph ec eo a = tt
  cost_step-Passed (ok c) (ok limit) txn ph ec eo a =
      Passed-else _ _ _
        (λ x. apply_step-Passed (A.apply world txn) txn ph c (
          a (
            c,
            (ec, Under-Affords "max_cost" c (get_or_empty "budget" proposal) (limit, (eo, x))),
          )))
        tt

  schema_step-Passed :
      (ph : String) (o : Option Value)
      → canon_hash sha256 proposal false ≡ ok ph
      → as_txn (get "transition" proposal) ≡ o
      → Passed (schema_step sha256 repr A S world proposal ledger o ph)
  unfolding schema_step reject
  schema_step-Passed ph none c e = tt
  schema_step-Passed ph (some txn) c e =
      Passed-then _ _ _
        (λ known.
          cost_step-Passed _ _ txn ph refl refl (λ cheap w applies small valid measured deep agreed.
            record {
              canonical = canon_hash-Floatless sha256 proposal c;
              shaped = as_txn-IsTransition sha256 repr A S world proposal ledger _ e;
              known = op_in-Known A.allowed_ops (get "op" txn) known;
              cheap = cheap;
              applies = applies;
              small = small;
              valid = valid;
              measured = measured;
              deep = deep;
              agreed = agreed;
            }))
        tt

  canon_step-Passed :
      (o : Outcome String)
      → canon_hash sha256 proposal false ≡ o
      → Passed (canon_step sha256 repr A S world proposal ledger o)
  unfolding canon_step reject
  canon_step-Passed (err e) c = tt
  canon_step-Passed (ok ph) c = schema_step-Passed ph _ c refl

  -- A proposal that is committed met the conditions of every gate: it holds no float, its budget affords the
  -- cost and the magnitude, the validators that the tier asks for accept the new world, and enough
  -- witnesses, if there are any, re-derive its hash. The world that is promoted is the one that the kernel's
  -- `apply` made of the old world and the recorded transition.
  pub commit_sound :
      {w : A.World} {c : Commit} {l : Ledger}
      → propose sha256 repr A S world proposal ledger ≡ ok (committed w c, l)
      → Admitted sha256 repr A S world proposal ledger c.txn w
  unfolding propose
  commit_sound e = subst Passed e (canon_step-Passed (canon_hash sha256 proposal false) refl)

  abbrev pub Commits : A.World → Decision sha256 repr A S world proposal ledger → Type 0
  Commits w d = (c : Commit) × (l : Ledger) × (d ≡ ok (committed w c, l))

  -- A proposal without floats is committed, with no exception, if its transition is a dict with an operation
  -- of the kernel, its budget affords the cost and the magnitude, the transition applies, the validators
  -- that the tier asks for accept the new world, the residual of its claims can be computed, and, where
  -- there are witnesses, enough of them re-derive the hash of the new world.
  pub commit_complete :
      (txn : Value) (w : A.World)
      → Admitted sha256 repr A S world proposal ledger txn w
      → Commits w (propose sha256 repr A S world proposal ledger)
  unfolding propose canon_step schema_step cost_step apply_step delta_step validate_step strict_step
      witness_step commit_step commit cost_limit delta_limit
  commit_complete txn w a =
      let (ph, sealed) = Floatless-canon_hash sha256 proposal a.canonical in
      let (h, txn_sealed) =
        Floatless-canon_hash sha256 txn
          (transition-Floatless sha256 repr A S world proposal ledger a.canonical a.shaped) in
      let (m, (cost_is, affords)) = a.cheap in
      let (limit, (limit_is, under)) =
        Affords-Under "max_cost" m (get_or_empty "budget" proposal) affords in
      let (d, (delta_is, affords2)) = a.small in
      let (limit2, (limit2_is, under2)) =
        Affords-Under "max_delta" (pos d) (get_or_empty "budget" proposal) affords2 in
      let (why, checks) =
        Deep-strict_verdict sha256 repr A S world proposal ledger A.validate_strict
          (S.severity world txn) w a.deep in
      rw sealed (
        rw (IsTransition-as_txn sha256 repr A S world proposal ledger _ a.shaped) (
          rw (Known-op_in A.allowed_ops (get "op" txn) a.known) (
            rw cost_is (
              rw limit_is (
                rw under (
                  rw a.applies (
                    rw delta_is (
                      rw limit2_is (
                        rw under2 (
                          rw a.valid.1 (
                            rw a.measured.1 (
                              rw checks (
                                rw
                                  (Agreed-witnessed sha256 repr A S world proposal ledger txn w
                                    a.agreed)
                                  (rw txn_sealed (_, _, refl)))))))))))))))
