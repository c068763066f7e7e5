-- ===== src/VeriSim/Court/Again.antt =====
-- The history that VeriSim/court.py makes again is the one that VeriSim/runner.py made.
use mathlib.Core.Path.{subst}
use dentatus.Prelude.{
  ℕ, zero, suc, ◌+◌, ◌≤◌, String, ◌≡◌, refl, sym, ap, ◌∙◌, Bool, true, false, Bool-cases, inl, inr,
  Option, none, some, [], ok, ◌>>=◌, >>=-eq-ok, arith,
}
use dentatus.Prelude.Eq.{string_eq}
use dentatus.Chronicle.Value.{Value}
use dentatus.Chronicle.Canonical.{canon, hash_pair, state_hash}
use dentatus.Chronicle.Signing.{Verifier, Signer}
use dentatus.Stasis.Canon.{canon_hash}
use dentatus.Tessera.{Tessera, Rolled, roll_from, roll, mint, forge, signed, unsigned}
use dentatus.VeriSim.Runner.{History, prepend, history_from, step_history}

module _ (sha256 : String → String) (rule : Value → Value) (done : Value → Bool) where
  -- the history of a walk that ends is the same for every budget that the walk fits in
  record Settled (k : ℕ) (s : Value) (r : History) : Type 0 where
    m : ℕ
    count : r.2 ≡ k + m
    again : (j : ℕ) → m ≤ j → history_from sha256 rule done j s k ≡ ok r

  ended :
      (k j : ℕ) (s : Value) → done s ≡ true → history_from sha256 rule done j s k ≡ ok ([], s, k)
  unfolding history_from
  ended k zero s d = refl
  ended k (suc j) s d = rw d refl

  settled_here : (k : ℕ) (s : Value) → done s ≡ true → Settled k s ([], s, k)
  settled_here k s d = record { m = 0; count = omega arith; again = λ j _. ended k j s d }

  -- one more step in front of a settled walk
  front_again :
      (k : ℕ) (s : Value) (h : String) (r : History)
      → done s ≡ false
      → canon_hash sha256 (rule s) false ≡ ok h
      → (w : Settled (k + 1) (rule s) r) (j : ℕ) → suc w.m ≤ j
      → history_from sha256 rule done j s k ≡ ok (prepend sha256 h r)
  unfolding history_from
  front_again k s h r go hashed w zero le = absurd (omega arith)
  front_again k s h r go hashed w (suc j) le = rw go (rw hashed (rw (w.again j (omega arith)) refl))

  front :
      (k : ℕ) (s : Value) (h : String) (r : History)
      → done s ≡ false
      → canon_hash sha256 (rule s) false ≡ ok h
      → Settled (k + 1) (rule s) r
      → Settled k s (prepend sha256 h r)
  unfolding history_from
  front k s h r go hashed w = record {
    m = suc w.m;
    count = omega (arith, w.count);
    again = λ j le. front_again k s h r go hashed w j le;
  }

  walk :
      (left k : ℕ) (s : Value) (r : History)
      → done s ≡ false
      → (canon_hash sha256 (rule s) false >>= λ h.
          history_from sha256 rule done left (rule s) (k + 1) >>= λ r. ok (prepend sha256 h r))
        ≡ ok r
      → done r.1 ≡ true
      → ((r' : History)
          → history_from sha256 rule done left (rule s) (k + 1) ≡ ok r'
          → done r'.1 ≡ true
          → Settled (k + 1) (rule s) r')
      → Settled k s r
  walk left k s r go e d ih =
      let (h, hashed, e2) = >>=-eq-ok (canon_hash sha256 (rule s) false) _ e in
      let (r', rest, e3) = >>=-eq-ok (history_from sha256 rule done left (rule s) (k + 1)) _ e2 in
      let same : prepend sha256 h r' ≡ r = cc in
      subst (Settled k s) same (
        front k s h r' go hashed
          (ih r' rest (subst (λ (x : History). done x.1 ≡ true) (sym same) d)))

  history_from-Settled :
      (left k : ℕ) (s : Value) (r : History)
      → history_from sha256 rule done left s k ≡ ok r
      → done r.1 ≡ true
      → Settled k s r
  unfolding history_from
  history_from-Settled zero k s r e d =
      let same : ([], s, k) ≡ r = cc in
      subst (Settled k s) same
        (settled_here k s (subst (λ (x : History). done x.1 ≡ true) (sym same) d))
  history_from-Settled (suc left) k s r e d = elim (Bool-cases (done s)) [
    | inl stop ↦
        let at_ : ok ([], s, k) ≡ ok r = rw stop at e in
        let same : ([], s, k) ≡ r = cc in subst (Settled k s) same (settled_here k s stop)
    | inr go ↦ walk left k s r go (rw go at e) d (history_from-Settled left (k + 1) (rule s))
  ]

  module _ (source_hash : String) (material : Signer → String) (ed25519 : String → Verifier) where
    -- the walk of a tessera and the history of the same length end in the same, ended state
    roll_from-done :
        (left k k' : ℕ) (h : String) (s : Value) (x : Rolled) (r : History)
        → roll_from sha256 source_hash rule done material ed25519 left h s k ≡ some x
        → history_from sha256 rule done left s k' ≡ ok r
        → done r.1 ≡ true
    unfolding roll_from history_from
    roll_from-done zero k k' h s x r rolled e = elim (Bool-cases (done s)) [
      | inl stop ↦
          let same : ([], s, k') ≡ r = cc in subst (λ (y : History). done y.1 ≡ true) same stop
      | inr go ↦ let absent : none ≡ some x = rw go at rolled in absurd (cc)
    ]
    roll_from-done (suc left) k k' h s x r rolled e = elim (Bool-cases (done s)) [
      | inl stop ↦
          let at_ : ok ([], s, k') ≡ ok r = rw stop at e in
          let same : ([], s, k') ≡ r = cc in subst (λ (y : History). done y.1 ≡ true) same stop
      | inr go ↦
          let (h', hashed, e2) = >>=-eq-ok (canon_hash sha256 (rule s) false) _ (rw go at e) in
          let (r', rest, e3) =
            >>=-eq-ok (history_from sha256 rule done left (rule s) (k' + 1)) _ e2 in
          let same : prepend sha256 h' r' ≡ r = cc in
          subst (λ (y : History). done y.1 ≡ true) same
            (roll_from-done left (k + 1) (k' + 1) (hash_pair sha256 h (state_hash sha256 (rule s)))
              (rule s) x r' (rw go at rolled) rest)
    ]

    minted :
        (o : Option Rolled) (seed : Value) (meta : Option Value) {t : Tessera}
        → forge sha256 source_hash rule done material ed25519 none seed none meta o ≡ ok t
        → (x : Rolled) × (o ≡ some x) × (t.seed ≡ canon seed)
    minted none seed meta e = absurd (cc)
    minted (some x) seed meta {t} e =
        let made : signed sha256 source_hash rule done material ed25519 none
              (unsigned sha256 source_hash rule done material ed25519 seed none meta x)
            ≡ t =
          cc in
        (x, refl, ap (λ (u : Tessera). u.seed) (sym made))

    -- the history that the court makes again, with two steps to spare
    pub step_history-again :
        (seed : Value) (fuel_budget : ℕ) (meta : Option Value) {t : Tessera} {r : History}
        → canon seed ≡ seed
        → mint sha256 source_hash rule done material ed25519 seed fuel_budget none none meta ≡ ok t
        → step_history sha256 rule done seed fuel_budget ≡ ok r
        → step_history sha256 rule done t.seed (r.2 + 2) ≡ ok r
    unfolding mint roll step_history
    step_history-again seed fuel_budget meta {t} {r} canonical mints e =
        let (x, rolled, seeded) = minted _ seed meta mints in
        let (h, hashed, e2) = >>=-eq-ok (canon_hash sha256 seed false) _ e in
        let (r', rest, e3) = >>=-eq-ok (history_from sha256 rule done fuel_budget seed 0) _ e2 in
        let whole : prepend sha256 h r' ≡ r = cc in
        let settled =
          history_from-Settled fuel_budget 0 seed r' rest
            (roll_from-done fuel_budget 0 0 _ seed x r' rolled rest) in
        subst (λ (y : History). step_history sha256 rule done t.seed (y.2 + 2) ≡ ok y) whole
          (rw (seeded ∙ canonical)
            (rw hashed (rw (settled.again (r'.2 + 2) (omega (arith, settled.count))) refl)))
