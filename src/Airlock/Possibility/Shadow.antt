-- ===== src/Airlock/Possibility/Shadow.antt =====
-- The shadow runs of airlock/possibility.py tell what the membrane would do on the real ledger.
use mathlib.Core.Path.{subst}
use dentatus.Prelude.{
  ℕ, zero, suc, ◌+◌, String, ◌≡◌, refl, ◌↔◌, true, false, Option, none, some, List, [], ◌∷◌, ◌==◌,
  ok, >>=-eq-ok, get_elem?, arith, ◌≤◌, ◌≢◌, sym, ◌⊎◌, inl, inr, Bool-cases, ==_iff,
}
use dentatus.Chronicle.Value.{Value}
use dentatus.Airlock.Adapter.{Adapter}
use dentatus.Airlock.Membrane.{Ledger, empty_ledger}
use dentatus.Airlock.Propose.{Verdict, committed, rejected, Setup, propose}
use dentatus.Airlock.Admitted.{Admitted}
use dentatus.Airlock.Admission.{Commits, commit_sound, commit_complete}
use dentatus.Airlock.Possibility.{
  Entry, entry, elem, admissible_of, AdmissibleSet, shadow, summarise, evaluate_from,
  admissible_set,
}

module _ (sha256 : String → String) (repr : Value → String) (A : Adapter) where
  -- The ledger has no part in what is admitted.
  Admitted-ledger :
      (S : Setup A) (world : A.World) (proposal : Value) (old new : Ledger) {txn : Value}
      {w : A.World}
      → Admitted sha256 repr A S world proposal old txn w
      → Admitted sha256 repr A S world proposal new txn w
  Admitted-ledger S world proposal old new a = record {
    canonical = a.canonical;
    shaped = a.shaped;
    known = a.known;
    cheap = a.cheap;
    applies = a.applies;
    small = a.small;
    valid = a.valid;
    measured = a.measured;
    deep = a.deep;
    agreed = a.agreed;
  }

  Commits-ledger :
      (S : Setup A) (world : A.World) (proposal : Value) (old new : Ledger) {w : A.World}
      → Commits sha256 repr A S world proposal old w (propose sha256 repr A S world proposal old)
      → Commits sha256 repr A S world proposal new w (propose sha256 repr A S world proposal new)
  Commits-ledger S world proposal old new {w} (c, l, e) =
      commit_complete sha256 repr A S world proposal new c.txn w (
        Admitted-ledger S world proposal old new
          (commit_sound sha256 repr A S world proposal old e))

  module _ (severity : A.World → Value → String) (world : A.World) (ledger : Ledger) where
    abbrev S : Setup A
    S = shadow sha256 repr A severity

    -- the proposal would be committed by the membrane as it stands
    abbrev pub Realizable : Option Value → Type 0
    Realizable none = ⊥
    Realizable (some p) =
        (w : A.World) × Commits sha256 repr A S world p ledger w
          (propose sha256 repr A S world p ledger)

    pub record Evaluated (k : ℕ) (p : Value) (ps : List Value) (per : List Entry) : Type 0 where
      pub verdict : Verdict A.World
      pub after : Ledger
      pub rest : List Entry
      pub run : propose sha256 repr A S world p empty_ledger ≡ ok (verdict, after)
      pub others : evaluate_from sha256 repr A severity (k + 1) world ps ≡ ok rest
      pub whole : per ≡ entry k verdict ∷ rest

    evaluate_from-cons :
        (k : ℕ) (p : Value) (ps : List Value) {per : List Entry}
        → evaluate_from sha256 repr A severity k world (p ∷ ps) ≡ ok per
        → Evaluated k p ps per
    unfolding evaluate_from
    evaluate_from-cons k p ps e =
        let (r, run, e2) = >>=-eq-ok (propose sha256 repr A S world p empty_ledger) _ e in
        let (rest, others, e3) =
          >>=-eq-ok (evaluate_from sha256 repr A severity (k + 1) world ps) _ e2 in
        record { verdict = r.0; after = r.1; rest = rest; run = run; others = others; whole = cc }

    elem-entry :
        (j k : ℕ) (v : Verdict A.World) (rest : List Entry)
        → elem j (admissible_of (entry k v ∷ rest)) ≡ true
        → (j ≡ k) ⊎ (elem j (admissible_of rest) ≡ true)
    unfolding elem admissible_of
    elem-entry j k (committed w c) rest e = elim (Bool-cases (j == k)) [
      | inl same ↦ inl ((==_iff j k).0 same)
      | inr other ↦ inr (rw other at e)
    ]
    elem-entry j k (rejected r) rest e = inr e

    not_elem :
        (k j : ℕ) {per : List Entry}
        → evaluate_from sha256 repr A severity k world [] ≡ ok per
        → elem j (admissible_of per) ≢ true
    unfolding evaluate_from elem admissible_of
    not_elem k j {per} e m =
        let empty : [] ≡ per = cc in
        let absent : false ≡ true = subst (λ es. elem j (admissible_of es) ≡ true) (sym empty) m in
        cc

    above :
        (ps : List Value) (k j : ℕ) {per : List Entry}
        → evaluate_from sha256 repr A severity k world ps ≡ ok per
        → elem j (admissible_of per) ≡ true
        → k ≤ j
    above [] k j e m = absurd (not_elem k j e m)
    above (p ∷ ps) k j e m =
        let v = evaluate_from-cons k p ps e in
        elim (elem-entry j k v.verdict v.rest
          (subst (λ es. elem j (admissible_of es) ≡ true) v.whole m)) [
            | inl same ↦ omega (arith, same)
            | inr later ↦ omega (arith, above ps (k + 1) j v.others later)
          ]

    at_head :
        (k : ℕ) (p : Value) (ps : List Value) (v : Verdict A.World) {after : Ledger}
        {rest : List Entry}
        → propose sha256 repr A S world p empty_ledger ≡ ok (v, after)
        → evaluate_from sha256 repr A severity (k + 1) world ps ≡ ok rest
        → (elem k (admissible_of (entry k v ∷ rest)) ≡ true) ↔ Realizable (some p)
    unfolding elem admissible_of
    at_head k p ps (committed w c) {after} run others =
        (λ m. (w, Commits-ledger S world p empty_ledger ledger (c, after, run)), λ r. ground arith)
    at_head k p ps (rejected shard) run others = (
      λ m. absurd (omega (arith, above ps (k + 1) k others m)),
      λ (w, commits). let (c, l, e) = Commits-ledger S world p ledger empty_ledger commits in cc,
    )

    elem-later :
        (j k : ℕ) (v : Verdict A.World) (rest : List Entry)
        → j ≢ k
        → elem j (admissible_of (entry k v ∷ rest)) ≡ elem j (admissible_of rest)
    unfolding elem admissible_of
    elem-later j k (committed w c) rest apart = ground arith
    elem-later j k (rejected r) rest apart = refl

    evaluate_from-Realizable :
        (ps : List Value) (k i : ℕ) {per : List Entry}
        → evaluate_from sha256 repr A severity k world ps ≡ ok per
        → (elem (k + i) (admissible_of per) ≡ true) ↔ Realizable (get_elem? ps i)
    evaluate_from-Realizable [] k i e = (λ m. absurd (not_elem k (k + i) e m), λ r. absurd r)
    evaluate_from-Realizable (p ∷ ps) k zero e =
        let v = evaluate_from-cons k p ps e in
        let still : k + 0 ≡ k = omega arith in
        rw v.whole (rw still (at_head k p ps v.verdict v.run v.others))
    evaluate_from-Realizable (p ∷ ps) k (suc i) e =
        let v = evaluate_from-cons k p ps e in
        let shift : k + suc i ≡ k + 1 + i = omega arith in
        rw v.whole (
          rw (elem-later (k + suc i) k v.verdict v.rest (omega arith))
            (rw shift (evaluate_from-Realizable ps (k + 1) i v.others)))

    -- A set of candidates that has been evaluated names exactly those indices whose proposals the
    -- membrane, at the same tier and without witnesses, commits on any ledger.
    pub admissible_set-Realizable :
        (candidates : List Value) (i : ℕ) {s : AdmissibleSet}
        → admissible_set sha256 repr A severity world candidates ≡ ok s
        → (elem i s.admissible ≡ true) ↔ Realizable (get_elem? candidates i)
    unfolding admissible_set
    admissible_set-Realizable candidates i {s} e =
        let (per, run, e2) =
          >>=-eq-ok (evaluate_from sha256 repr A severity 0 world candidates) _ e in
        let same = evaluate_from-Realizable candidates 0 i run in
        let start : 0 + i ≡ i = omega arith in
        let found : summarise sha256 repr A severity candidates per ≡ s = cc in
        subst
          (λ (x : AdmissibleSet).
            (elem i x.admissible ≡ true) ↔ Realizable (get_elem? candidates i))
          found (rw start at same)
