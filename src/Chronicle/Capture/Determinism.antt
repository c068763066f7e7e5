-- ===== src/Chronicle/Capture/Determinism.antt =====
-- The leak detector of chronicle/capture.py.
use mathlib.Core.Path.{subst}
use dentatus.Prelude.{
  ℕ, zero, suc, ◌+◌, ◌<◌, ◌≡◌, refl, true, false, Bool-cases, inl, inr, ◌↔◌, arith,
}
use dentatus.Prelude.Eq.{◌≟◌, string_eq}
use dentatus.Chronicle.Value.{Value}
use dentatus.Chronicle.Canonical.{canonical_bytes}
use dentatus.Chronicle.Capture.{determinism_from, verify_determinism}

-- a call returns what the first has returned, as bytes
abbrev IsSame : (ℕ → Value) → ℕ → Type 0
IsSame call i = canonical_bytes (call i) ≡ canonical_bytes (call 0)

determinism_from-IsSame :
    (call : ℕ → Value) (n i left : ℕ)
    → (determinism_from call n i left).0 ≡ true
    → (j : ℕ) → j < left
    → IsSame call (i + j)
unfolding determinism_from
determinism_from-IsSame call n i zero e j below = absurd (omega arith)
determinism_from-IsSame call n i (suc left) e j below =
    elim (Bool-cases (canonical_bytes (call i) ≟ canonical_bytes (call 0))) [
      | inl same ↦
          here_or_later j below
            ((string_eq.decides (canonical_bytes (call i)) (canonical_bytes (call 0))).0 same)
            (determinism_from-IsSame call n (i + 1) left (rw same at e))
      | inr other ↦ let fails : false ≡ true = rw other at e in absurd (cc)
    ]
  where
    here_or_later :
        (j : ℕ)
        → j < suc left
        → IsSame call i
        → ((k : ℕ) → k < left → IsSame call (i + 1 + k))
        → IsSame call (i + j)
    here_or_later zero below here_ rest = subst (IsSame call) (omega arith) here_
    here_or_later (suc j) below here_ rest =
        subst (IsSame call) (omega arith) (rest j (omega arith))

determinism_from-true :
    (call : ℕ → Value) (n i left : ℕ)
    → ((j : ℕ) → j < left → IsSame call (i + j))
    → (determinism_from call n i left).0 ≡ true
unfolding determinism_from
determinism_from-true call n i zero same = refl
determinism_from-true call n i (suc left) same =
    let first : IsSame call i = subst (IsSame call) (omega arith) (same 0 (omega arith)) in
    let equal : (canonical_bytes (call i) ≟ canonical_bytes (call 0)) ≡ true =
      (string_eq.decides (canonical_bytes (call i)) (canonical_bytes (call 0))).1 first in
    rw equal (
      determinism_from-true call n (i + 1) left
        (λ j below. subst (IsSame call) (omega arith) (same (suc j) (omega arith))))

-- The leak detector is content with n runs exactly when each of them returns, in canonical bytes, what the
-- first returned.
pub verify_determinism_iff :
    (call : ℕ → Value) (n : ℕ)
    → ((verify_determinism call n).0 ≡ true)
      ↔ ((i : ℕ) → i < n → canonical_bytes (call i) ≡ canonical_bytes (call 0))
unfolding verify_determinism
verify_determinism_iff call zero = (λ e i below. absurd (omega arith), λ same. refl)
verify_determinism_iff call (suc n) = (
  λ e i below. later i below (determinism_from-IsSame call (suc n) 1 n e),
  λ same. determinism_from-true call (suc n) 1 n (λ j below. same (1 + j) (omega arith)),
)
  where
    later : (i : ℕ) → i < suc n → ((j : ℕ) → j < n → IsSame call (1 + j)) → IsSame call i
    later zero below rest = refl
    later (suc i) below rest = subst (IsSame call) (omega arith) (rest i (omega arith))
