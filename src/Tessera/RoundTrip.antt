-- ===== src/Tessera/RoundTrip.antt =====
-- A minted shard verifies, and a shard that verifies was rolled.
use mathlib.Core.Path.{subst}
use mathlib.Core.Option.{some-injective}
use dentatus.Prelude.{
  unless_differ, ℕ, zero, suc, ◌+◌, String, ◌≡◌, refl, ap, ◌∙◌, Bool, true, false, Option, none,
  some, ok, ◌==◌, arith, if◌then◌else◌, inl, inr, ◌⊎◌,
}
use dentatus.Prelude.Eq.{◌≟◌, string_eq, beq_refl}
use dentatus.Chronicle.Value.{Value, or_empty-or_empty}
use dentatus.Chronicle.Canonical.{canon, canonical_bytes, state_hash, hash_pair}
use dentatus.Chronicle.Signing.{Verifier, Signer, Matches}
use dentatus.Tessera.{
  Tessera, Rolled, body, rebuilt, roll_from, roll, mint, forge, signed, unsigned, verify,
  check_replay, check_signature, key_for, sign_with,
}

module _ (sha256 : String → String) (rule_hash : String) (rule_step : Value → Value)
    (done : Value → Bool) (material : Signer → String) (ed25519 : String → Verifier) where
  -- the states that are canonical stay so under the rule
  abbrev pub IsRegular : Type 0
  IsRegular = (s : Value) → canon s ≡ s → canon (rule_step s) ≡ rule_step s

  -- the shard is unsigned, or the verifier that is given matches its signer
  abbrev pub Authentic : Option Signer → Option Verifier → Type 0
  Authentic none v = Unit
  Authentic (some s) none = ⊥
  Authentic (some s) (some v) = Matches v s

  chosen :
      {x y : Rolled} (b : Bool) (rest : Option Rolled)
      → (if b then some x else rest) ≡ some y
      → ((b ≡ true) × (x ≡ y)) ⊎ ((b ≡ false) × (rest ≡ some y))
  chosen {x} {y} true rest e = inl (refl, some-injective x y e)
  chosen false rest e = inr (refl, e)

  -- the number of steps that a roll took is enough to make it again
  roll_from-again :
      (left : ℕ) (h : String) (s : Value) (k : ℕ) (h' : String) (t : Value) (n : ℕ)
      → roll_from sha256 rule_hash rule_step done material ed25519 left h s k ≡ some (h', t, n)
      → (m : ℕ) × (n ≡ k + m)
        × (roll_from sha256 rule_hash rule_step done material ed25519 m h s k ≡ some (h', t, n))
  unfolding roll_from
  roll_from-again zero h s k h' t n e = elim (chosen (done s) none e) [
    | inl (d, same) ↦ (zero, omega (arith, ap (λ (r : Rolled). r.2) same), e)
    | inr (d, absent) ↦ absurd (cc)
  ]
  roll_from-again (suc left) h s k h' t n e =
      let s' = rule_step s in
      let h2 = hash_pair sha256 h (state_hash sha256 s') in
      elim (chosen (done s)
        (roll_from sha256 rule_hash rule_step done material ed25519 left h2 s' (k + 1)) e) [
          | inl (d, same) ↦
              (zero, omega (arith, ap (λ (r : Rolled). r.2) same), rw d (ap some same))
          | inr (d, rest) ↦
              let (m, count, again) = roll_from-again left h2 s' (k + 1) h' t n rest in
              (suc m, omega (arith, count), rw d again)
        ]

  roll_from-canon :
      (left : ℕ) (h : String) (s : Value) (k : ℕ) (h' : String) (t : Value) (n : ℕ)
      → IsRegular
      → canon s ≡ s
      → roll_from sha256 rule_hash rule_step done material ed25519 left h s k ≡ some (h', t, n)
      → canon t ≡ t
  unfolding roll_from
  roll_from-canon zero h s k h' t n r c e = elim (chosen (done s) none e) [
    | inl (d, same) ↦ subst (λ v. canon v ≡ v) (ap (λ (x : Rolled). x.1) same) c
    | inr (d, absent) ↦ absurd (cc)
  ]
  roll_from-canon (suc left) h s k h' t n r c e =
      let s' = rule_step s in
      let h2 = hash_pair sha256 h (state_hash sha256 s') in
      elim (chosen (done s)
        (roll_from sha256 rule_hash rule_step done material ed25519 left h2 s' (k + 1)) e) [
          | inl (d, same) ↦ subst (λ v. canon v ≡ v) (ap (λ (x : Rolled). x.1) same) c
          | inr (d, rest) ↦ roll_from-canon left h2 s' (k + 1) h' t n r (r s c) rest
        ]

  -- The replay of a shard takes the claimed steps along the claimed path to the claimed terminus.
  pub record Replays (t : Tessera) : Type 0 where
    pub same_rule : rule_hash ≡ t.ruleset_hash
    pub terminus : Value
    pub rolled :
        roll sha256 rule_hash rule_step done material ed25519 t.seed t.steps
        ≡ some (t.path_hash, terminus, t.steps)
    pub same_terminus : canonical_bytes terminus ≡ canonical_bytes t.terminus

  check_replay-Replays :
      (t : Tessera) (v : Option Verifier) (o : Option Rolled) {d : String}
      → rule_hash ≡ t.ruleset_hash
      → roll sha256 rule_hash rule_step done material ed25519 t.seed t.steps ≡ o
      → check_replay sha256 rule_hash rule_step done material ed25519 t v o ≡ ok (true, d)
      → Replays t
  unfolding check_replay
  check_replay-Replays t v none {d} same r e = cc
  check_replay-Replays t v (some (h, terminus, n)) same r e =
      let (a, e1) = unless_differ (n == t.steps) _ _ e in
      let (b, e2) = unless_differ (canonical_bytes terminus ≟ canonical_bytes t.terminus) _ _ e1 in
      let (c, e3) = unless_differ (h ≟ t.path_hash) _ _ e2 in
      let steps : n ≡ t.steps = ground arith in
      record {
        same_rule = same;
        terminus = terminus;
        rolled = r ∙ ap some (rw ((string_eq.decides h t.path_hash).0 c, steps) refl);
        same_terminus = (string_eq.decides _ _).0 b;
      }

  -- A shard that verifies, signed or not, was made by the verifier's rule: the replay from its seed takes
  -- the claimed number of steps, has the claimed path hash and ends at the claimed terminus.
  pub verify-Replays :
      (t : Tessera) (v : Option Verifier) {d : String}
      → verify sha256 rule_hash rule_step done material ed25519 t v ≡ ok (true, d)
      → Replays t
  unfolding verify
  verify-Replays t v e =
      let (a, e1) = unless_differ (rule_hash ≟ t.ruleset_hash) _ _ e in
      check_replay-Replays t v _ ((string_eq.decides rule_hash t.ruleset_hash).0 a) refl e1

  module _ (signer : Option Signer) (seed : Value) (prev : Option String) (meta : Option Value)
      (verifier : Option Verifier) (canonical : canon seed ≡ seed)
      (authentic : Authentic signer verifier) where
    abbrev shard : Rolled → Tessera
    shard r =
        signed sha256 rule_hash rule_step done material ed25519 signer
          (unsigned sha256 rule_hash rule_step done material ed25519 seed prev meta r)

    body-rebuilt :
        (h : String) (t : Value) (n : ℕ)
        → canon t ≡ t
        → body (rebuilt (shard (h, t, n)))
          ≡ body
              (unsigned sha256 rule_hash rule_step done material ed25519 seed prev meta (h, t, n))
    unfolding body
    body-rebuilt h t n c = rw (ap canon canonical, ap canon c, or_empty-or_empty meta) refl

    signature-accepted :
        (s : Option Signer) (v : Option Verifier) (h : String) (t : Value) (n : ℕ)
        (message : String)
        → Authentic s v
        → canonical_bytes (body (rebuilt (shard (h, t, n)))) ≡ message
        → check_signature sha256 rule_hash rule_step done material ed25519
            (shard (h, t, n))
            v
            (sign_with s message)
          ≡ ok (true, "VERIFIED")
    unfolding key_for
    signature-accepted none v h t n message a e = refl
    signature-accepted (some s) none h t n message a e = elim a [ ]
    signature-accepted (some s) (some v) h t n message a e = rw (e, a message) refl

    replay-accepted :
        (h : String) (t : Value) (n : ℕ)
        → canon t ≡ t
        → roll sha256 rule_hash rule_step done material ed25519 seed n ≡ some (h, t, n)
        → verify sha256 rule_hash rule_step done material ed25519 (shard (h, t, n)) verifier
          ≡ ok (true, "VERIFIED")
    unfolding verify check_replay
    replay-accepted h t n c e =
        let number : (n == n) ≡ true = ground arith in
        let rolled : roll sha256 rule_hash rule_step done material ed25519 (canon seed) n
            ≡ some (h, t, n) =
          ap (λ v. roll sha256 rule_hash rule_step done material ed25519 v n) canonical ∙ e in
        let same : (canonical_bytes t ≟ canonical_bytes (canon t)) ≡ true =
          ap (λ v. canonical_bytes t ≟ canonical_bytes v) c ∙ beq_refl (canonical_bytes t) in
        rw (beq_refl rule_hash, rolled, number, same, beq_refl h)
          (signature-accepted signer verifier h t n _ authentic
            (ap canonical_bytes (body-rebuilt h t n c)))

    forged :
        (max_steps : ℕ) (o : Option Rolled) {t : Tessera}
        → IsRegular
        → roll sha256 rule_hash rule_step done material ed25519 seed max_steps ≡ o
        → forge sha256 rule_hash rule_step done material ed25519 signer seed prev meta o ≡ ok t
        → verify sha256 rule_hash rule_step done material ed25519 t verifier ≡ ok (true, "VERIFIED")
    unfolding roll
    forged max_steps none r e f = cc
    forged max_steps (some (h, terminus, n)) {t} r e f =
        let (m, count, again) = roll_from-again max_steps _ seed 0 h terminus n e in
        let number : m ≡ n = omega (arith, count) in
        let same : shard (h, terminus, n) ≡ t = cc in
        subst
          (λ u.
            verify sha256 rule_hash rule_step done material ed25519 u verifier
            ≡ ok (true, "VERIFIED"))
          same
          (replay-accepted h terminus n
            (roll_from-canon max_steps _ seed 0 h terminus n r canonical e)
            (subst
              (λ k.
                roll sha256 rule_hash rule_step done material ed25519 seed k
                ≡ some (h, terminus, n))
              number again))

    -- A shard that is minted from a canonical seed, by a rule that keeps states canonical, verifies under
    -- the same rule, with a verifier that matches its signer where it has one.
    pub verify-mint :
        (max_steps : ℕ) {t : Tessera}
        → IsRegular
        → mint sha256 rule_hash rule_step done material ed25519 seed max_steps signer prev meta
          ≡ ok t
        → verify sha256 rule_hash rule_step done material ed25519 t verifier ≡ ok (true, "VERIFIED")
    unfolding mint
    verify-mint max_steps r e = forged max_steps _ r refl e
