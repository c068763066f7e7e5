-- ===== src/Chronicle/Canonical/Insertion.antt =====
-- The order of the keys in `_canon` of chronicle/core.py, and where a key is put.
use Prim.Native.Nat.compare as compare_ℕ
use Prim.Native.Nat.{Ordering, compare as compare_ℕ}
use Prim.Native.Char.{code}
use Prim.Native.String.compare as compare_text
use Prim.Native.String.{compare as compare_text, then as first_of}
use dentatus.Prelude.{ℕ, zero, suc, String, ◌≡◌, refl, ◌⊎◌, inl, inr, true, false, Bool-cases}
use dentatus.Prelude.Eq.{◌≟◌, string_eq, beq_refl}
use dentatus.Chronicle.Value.{Value, Fields, field}
use dentatus.Chronicle.Canonical.{insert_key}

abbrev pub swap : Ordering → Ordering
swap Ordering.lt = Ordering.gt
swap Ordering.eq = Ordering.eq
swap Ordering.gt = Ordering.lt

swap-first_of : (o r : Ordering) → swap (first_of o r) ≡ first_of (swap o) (swap r)
swap-first_of Ordering.lt r = refl
swap-first_of Ordering.eq r = refl
swap-first_of Ordering.gt r = refl

compare_ℕ-swap : (m n : ℕ) → compare_ℕ m n ≡ swap (compare_ℕ n m)
compare_ℕ-swap zero zero = rw (compare_ℕ.zero-zero) refl
compare_ℕ-swap zero (suc n) = rw (compare_ℕ.zero-suc n, compare_ℕ.suc-zero n) refl
compare_ℕ-swap (suc m) zero = rw (compare_ℕ.zero-suc m, compare_ℕ.suc-zero m) refl
compare_ℕ-swap (suc m) (suc n) =
    rw (compare_ℕ.suc-suc m n, compare_ℕ.suc-suc n m) (compare_ℕ-swap m n)

pub compare_text-swap : (s t : String) → compare_text s t ≡ swap (compare_text t s)
compare_text-swap String.[] String.[] = rw (compare_text.nil-nil) refl
compare_text-swap String.[] (String.◌∷◌ d t) =
    rw (compare_text.nil-cons d t, compare_text.cons-nil d t) refl
compare_text-swap (String.◌∷◌ c s) String.[] =
    rw (compare_text.nil-cons c s, compare_text.cons-nil c s) refl
compare_text-swap (String.◌∷◌ c s) (String.◌∷◌ d t) =
    rw (compare_text.cons-cons c d s t, compare_text.cons-cons d c t s)
      (rw (swap-first_of (compare_ℕ (code d) (code c)) (compare_text t s))
        (rw⁻¹ (compare_ℕ-swap (code c) (code d), compare_text-swap s t) refl))

-- where the first key is greater, the two differ
pub greater_apart : (j k : String) → compare_text j k ≡ Ordering.gt → (k ≟ j) ≡ false
greater_apart j k g = elim (Bool-cases (k ≟ j)) [
  | inl same ↦
      let eq : k ≡ j = (string_eq.decides k j).0 same in
      let self : compare_text j j ≡ Ordering.gt = rw eq at g in
      let refl_ : (j ≟ j) ≡ true = beq_refl j in let absurd_ : false ≡ true = rw self at refl_ in cc
  | inr other ↦ other
]

pub insert_key_past :
    (k j : String) (v w : Value) (fs : Fields)
    → compare_text k j ≡ Ordering.gt
    → insert_key k v (field j w fs) ≡ field j w (insert_key k v fs)
unfolding insert_key
insert_key_past k j v w fs g = rw (g, insert_key) refl

pub insert_key_front :
    (k j : String) (v w : Value) (fs : Fields)
    → (compare_text k j ≡ Ordering.eq) ⊎ (compare_text k j ≡ Ordering.lt)
    → insert_key k v (field j w fs) ≡ field k v (field j w fs)
unfolding insert_key
insert_key_front k j v w fs (inl e) = rw (e, insert_key) refl
insert_key_front k j v w fs (inr l) = rw (l, insert_key) refl

-- A comparison is one of the three.
pub Ordering-cases :
    (j k : String)
    → (compare_text j k ≡ Ordering.gt)
      ⊎ ((compare_text j k ≡ Ordering.eq) ⊎ (compare_text j k ≡ Ordering.lt))
Ordering-cases j k = cases (compare_text j k) refl
  where
    cases :
        (o : Ordering)
        → compare_text j k ≡ o
        → (compare_text j k ≡ Ordering.gt)
          ⊎ ((compare_text j k ≡ Ordering.eq) ⊎ (compare_text j k ≡ Ordering.lt))
    cases Ordering.gt e = inl e
    cases Ordering.eq e = inr (inl e)
    cases Ordering.lt e = inr (inr e)
