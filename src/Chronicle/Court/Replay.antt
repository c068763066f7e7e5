-- ===== src/Chronicle/Court/Replay.antt =====
-- What a verdict of the replay court means, and which ledgers pass.
use mathlib.Core.Path.{subst}
use mathlib.Core.Option.{some-injective}
use dentatus.Prelude.{
  ℕ, zero, suc, String, ◌≡◌, refl, sym, ap, ◌∙◌, Bool, true, false, Option, none, some, List, [],
  ◌∷◌, ◌++◌, ◌+◌, ◌||◌, Outcome, ok, err, ◌>>=◌, arith, get_elem?, if◌then◌else◌, length,
  length-append, not,
}
use dentatus.Prelude.Eq.{◌≟◌, string_eq, nat_eq, beq_refl}
use dentatus.Chronicle.Value.{Value}
use dentatus.Chronicle.Canonical.{canonical_bytes, state_hash, hash_pair, genesis}
use dentatus.Chronicle.Signing.{Verifier, Signer, Matches}
use dentatus.Chronicle.Recorder.{
  Receipt, Recorder, frame_value, next_frame, seal, record_decision, new_recorder,
}
use dentatus.Chronicle.Court.{
  Fault, unless_fault, replayed, committed_again, check_content, check_receipt, verify_from,
  verify_chain,
}

-- the hash that the receipt at an index has to bind to, after the hash `p`
abbrev pub committed_before : String → List Receipt → ℕ → String
committed_before p ledger zero = p
committed_before p [] (suc i) = p
committed_before p (r ∷ ledger) (suc i) = committed_before r.committed_hash ledger i

unless_fault-none :
    (m rest : Outcome (Option Fault))
    → (m >>= unless_fault rest) ≡ ok none
    → (m ≡ ok none) × (rest ≡ ok none)
unless_fault-none (ok none) rest e = (refl, e)
unless_fault-none (ok (some f)) rest e = cc
unless_fault-none (err why) rest e = cc

module _ (sha256 : String → String) (pinned_rules : String) (logic : Value → Value)
    (invariant : Value → Value → Bool) (vf : Verifier) where
  -- What a receipt that the court accepts at position `i`, after the hash `p`, satisfies.
  pub record Reproduced (p : String) (i : ℕ) (r : Receipt) : Type 0 where
    pub linked : r.frame.prev ≡ p
    pub contiguous : r.frame.seq ≡ i
    pub same_rules : r.frame.ruleset_hash ≡ pinned_rules
    pub same_outputs : canonical_bytes (logic r.frame.inputs) ≡ canonical_bytes r.frame.outputs
    pub lawful : invariant r.frame.inputs (logic r.frame.inputs) ≡ true
    pub addressed :
        committed_again sha256 pinned_rules logic invariant vf p r.frame ≡ r.committed_hash
    pub attested : vf.verify r.committed_hash r.signature ≡ ok true

  valid_if :
      (m : Outcome Bool) (f : Fault)
      → (m >>= λ valid. ok (if not valid then some f else none)) ≡ ok none
      → m ≡ ok true
  valid_if (ok true) f e = refl
  valid_if (ok false) f e = cc
  valid_if (err why) f e = cc

  passes :
      (b : Bool) (f : Fault) (next : Outcome (Option Fault))
      → (if not b then ok (some f) else next) ≡ ok none
      → (b ≡ true) × (next ≡ ok none)
  passes true f next e = (refl, e)
  passes false f next e = cc

  links :
      (a b : Bool) (f : Fault) (next : Outcome (Option Fault))
      → (if not a || not b then ok (some f) else next) ≡ ok none
      → (a ≡ true) × (b ≡ true) × (next ≡ ok none)
  links true true f next e = (refl, refl, e)
  links true false f next e = cc
  links false b f next e = cc

  check_receipt-Reproduced :
      (p : String) (i : ℕ) (r : Receipt)
      → check_receipt sha256 pinned_rules logic invariant vf p i r ≡ ok none
      → Reproduced p i r
  unfolding check_receipt check_content
  check_receipt-Reproduced p i r e =
      let f = r.frame in
      let (a, b, e1) = links (f.prev ≟ p) (f.seq ≟ i) _ _ e in
      let (c, e2) = passes (f.ruleset_hash ≟ pinned_rules) _ _ e1 in
      let (d, e3) = passes (canonical_bytes (logic f.inputs) ≟ canonical_bytes f.outputs) _ _ e2 in
      let (g, e4) = passes (invariant f.inputs (logic f.inputs)) _ _ e3 in
      let (h, e5) =
        passes (committed_again sha256 pinned_rules logic invariant vf p f ≟ r.committed_hash) _ _
          e4 in
      let same = (string_eq.decides _ _).0 h in
      record {
        linked = (string_eq.decides _ _).0 a;
        contiguous = (nat_eq.decides _ _).0 b;
        same_rules = (string_eq.decides _ _).0 c;
        same_outputs = (string_eq.decides _ _).0 d;
        lawful = g;
        addressed = same;
        attested = subst (λ m. vf.verify m r.signature ≡ ok true) same (valid_if _ _ e5);
      }

  verify_from-Reproduced :
      (p : String) (n : ℕ) (ledger : List Receipt) (i : ℕ) {r : Receipt}
      → verify_from sha256 pinned_rules logic invariant vf p n ledger ≡ ok none
      → get_elem? ledger i ≡ some r
      → Reproduced (committed_before p ledger i) (n + i) r
  unfolding verify_from
  verify_from-Reproduced p n [] i e m = cc
  verify_from-Reproduced p n (x ∷ ledger) zero {r} e m =
      let (h, t) =
        unless_fault-none (check_receipt sha256 pinned_rules logic invariant vf p n x) _ e in
      let zero_right : n ≡ n + 0 = omega arith in
      subst (Reproduced p (n + 0)) (some-injective x r m)
        (subst (λ k. Reproduced p k x) zero_right (check_receipt-Reproduced p n x h))
  verify_from-Reproduced p n (x ∷ ledger) (suc i) {r} e m =
      let (h, t) =
        unless_fault-none (check_receipt sha256 pinned_rules logic invariant vf p n x) _ e in
      let shift : n + 1 + i ≡ n + suc i = omega arith in
      subst (λ k. Reproduced (committed_before x.committed_hash ledger i) k r) shift
        (verify_from-Reproduced x.committed_hash (n + 1) ledger i t m)

  -- In a ledger that the court accepts, the receipt at index `i` carries sequence number `i`, binds to
  -- the hash of the receipt before it (the first one to the genesis hash) and to the ruleset of the auditor;
  -- its outputs are, byte for byte, those of the auditor's logic on its inputs; they satisfy the
  -- invariant; its hash is that of the replayed frame; and its signature verifies.
  pub verify_chain-Reproduced :
      (ledger : List Receipt) (i : ℕ) {r : Receipt}
      → verify_chain sha256 pinned_rules logic invariant vf ledger ≡ ok none
      → get_elem? ledger i ≡ some r
      → Reproduced (committed_before genesis ledger i) i r
  unfolding verify_chain
  verify_chain-Reproduced ledger i {r} e m =
      let shift : 0 + i ≡ i = omega arith in
      subst (λ k. Reproduced (committed_before genesis ledger i) k r) shift
        (verify_from-Reproduced genesis 0 ledger i e m)

  -- How a ledger comes about: a recorder without a store, and then decisions of the logic that it records.
  pub data Recorded (signer : Signer) : List Receipt → Recorder → Type 0 where
    opened : Recorded signer [] (new_recorder signer pinned_rules none none none)
    recorded :
        {ledger : List Receipt} {rec : Recorder} (id : String) (inputs : Value) (r : Receipt)
        (rec' : Recorder)
        → Recorded signer ledger rec
        → record_decision sha256 rec id inputs (logic inputs) invariant ≡ ok (r, rec')
        → Recorded signer (ledger ++ r ∷ []) rec'

  module _ (signer : Signer) (pinned : Matches vf signer) where
    -- where the recorder stands after a ledger
    record At (ledger : List Receipt) (rec : Recorder) : Type 0 where
      head : rec.prev ≡ committed_before genesis ledger (length ledger)
      count : rec.seq ≡ length ledger
      rules : rec.ruleset_h ≡ pinned_rules
      signs : rec.signer ≡ signer

    seal-accepted :
        (rec : Recorder) (id : String) (inputs : Value)
        → rec.ruleset_h ≡ pinned_rules
        → rec.signer ≡ signer
        → invariant inputs (logic inputs) ≡ true
        → check_receipt sha256 pinned_rules logic invariant vf rec.prev rec.seq
            (seal sha256 rec (next_frame sha256 rec id inputs (logic inputs)))
          ≡ ok none
    unfolding check_receipt check_content committed_again replayed seal next_frame
    seal-accepted rec id inputs same key lawful =
        let committed =
          hash_pair sha256
            (state_hash sha256 (
              frame_value (
                replayed sha256 pinned_rules logic invariant vf rec.prev
                  (next_frame sha256 rec id inputs (logic inputs)))))
            rec.prev in
        rw
          (
            beq_refl rec.prev,
            beq_refl rec.seq,
            same,
            beq_refl pinned_rules,
            beq_refl (canonical_bytes (logic inputs)),
            lawful,
            key,
            beq_refl committed,
            pinned committed,
          )
          refl

    decided :
        (b : Bool) (m : String) (x : Receipt × Recorder) {y : Receipt × Recorder}
        → (if not b then err m else ok x) ≡ ok y
        → (b ≡ true) × (x ≡ y)
    decided true m x e = (refl, cc)
    decided false m x e = cc

    record_decision-ok :
        (rec : Recorder) (id : String) (inputs : Value) {r : Receipt} {rec' : Recorder}
        → record_decision sha256 rec id inputs (logic inputs) invariant ≡ ok (r, rec')
        → (invariant inputs (logic inputs) ≡ true)
          × (r ≡ seal sha256 rec (next_frame sha256 rec id inputs (logic inputs)))
          × (rec'.prev ≡ r.committed_hash)
          × (rec'.seq ≡ rec.seq + 1)
          × (rec'.ruleset_h ≡ rec.ruleset_h)
          × (rec'.signer ≡ rec.signer)
    unfolding record_decision
    record_decision-ok rec id inputs e =
        let (lawful, q) = decided (invariant inputs (logic inputs)) _ _ e in
        let sealed = ap (λ (x : Receipt × Recorder). x.0) q in
        (
          lawful,
          sym sealed,
          ap (λ (x : Receipt × Recorder). x.1.prev) (sym q)
              ∙ ap (λ (x : Receipt). x.committed_hash) sealed,
          ap (λ (x : Receipt × Recorder). x.1.seq) (sym q),
          ap (λ (x : Receipt × Recorder). x.1.ruleset_h) (sym q),
          ap (λ (x : Receipt × Recorder). x.1.signer) (sym q),
        )

    verify_from-snoc :
        (p : String) (i : ℕ) (ledger : List Receipt) (r : Receipt)
        → verify_from sha256 pinned_rules logic invariant vf p i ledger ≡ ok none
        → check_receipt sha256 pinned_rules logic invariant vf
            (committed_before p ledger (length ledger))
            (i + length ledger)
            r
          ≡ ok none
        → verify_from sha256 pinned_rules logic invariant vf p i (ledger ++ r ∷ []) ≡ ok none
    unfolding verify_from
    verify_from-snoc p i [] r e c = let here : i + 0 ≡ i = omega arith in rw (← here) (rw c refl)
    verify_from-snoc p i (x ∷ ledger) r e c =
        let (h, t) =
          unless_fault-none (check_receipt sha256 pinned_rules logic invariant vf p i x) _ e in
        let shift : i + suc (length ledger) ≡ i + 1 + length ledger = omega arith in
        rw
          (
            h,
            verify_from-snoc x.committed_hash (i + 1) ledger r t (
                subst
                  (λ k.
                    check_receipt sha256 pinned_rules logic invariant vf
                      (committed_before x.committed_hash ledger (length ledger)) k r
                    ≡ ok none)
                  shift c),
          )
          refl

    committed_before-snoc :
        (p : String) (ledger : List Receipt) (r : Receipt)
        → committed_before p (ledger ++ r ∷ []) (length (ledger ++ r ∷ [])) ≡ r.committed_hash
    committed_before-snoc p [] r = refl
    committed_before-snoc p (x ∷ ledger) r = committed_before-snoc x.committed_hash ledger r

    Recorded-At :
        {ledger : List Receipt} {rec : Recorder} → Recorded signer ledger rec → At ledger rec
    unfolding new_recorder
    Recorded-At opened = record { head = refl; count = refl; rules = refl; signs = refl }
    Recorded-At (recorded {ledger} {rec} id inputs r rec' before e) =
        let at = Recorded-At before in
        let (lawful, sealed, prev, seq, rules, key) = record_decision-ok rec id inputs e in
        record {
          head = prev ∙ sym (committed_before-snoc genesis ledger r);
          count = omega (arith, seq, at.count, length-append ledger (r ∷ []));
          rules = rules ∙ at.rules;
          signs = key ∙ at.signs;
        }

    -- A ledger that the recorder wrote, of decisions of the logic, passes the court that replays the same
    -- logic under the same ruleset, with a verifier that matches the signer.
    pub Recorded-verify_chain :
        {ledger : List Receipt} {rec : Recorder}
        → Recorded signer ledger rec
        → verify_chain sha256 pinned_rules logic invariant vf ledger ≡ ok none
    unfolding verify_chain
    Recorded-verify_chain opened = unfold verify_from in refl
    Recorded-verify_chain (recorded {ledger} {rec} id inputs r rec' before e) =
        let at = Recorded-At before in
        let (lawful, sealed, prev, seq, rules, key) = record_decision-ok rec id inputs e in
        let place : 0 + length ledger ≡ rec.seq = omega (arith, at.count) in
        verify_from-snoc genesis 0 ledger r (Recorded-verify_chain before)
          (rw (sealed, ← at.head, place) (seal-accepted rec id inputs at.rules at.signs lawful))
