-- ===== src/Airlock/Conditions.antt =====
-- The conditions of the gates of airlock/membrane.py, in words of their own, and that the membrane tests them.
use text.Mathlib.Text.{find?}
use dentatus.Prelude.{
  ℕ, zero, suc, ◌≤◌, String, ◌≡◌, ◌≢◌, refl, ap, ◌∙◌, ◌⊎◌, inl, inr, true, false, Bool-cases,
  Option, none, some, Option-cases, List, [], ◌∷◌, Outcome, ok, arith,
}
use dentatus.Prelude.Int.{ℤ, pos, ◌≤ℤ◌}
use dentatus.Prelude.Eq.{◌≟◌, string_eq}
use dentatus.Chronicle.Value.{Value, Values, nil, cons, null, bool, int, str, list, dict, find}
use dentatus.Airlock.Membrane.{as_limit, has_text, limit_in, exceeds, op_in}
use dentatus.Airlock.Propose.{agreeing}

abbrev pub AffordsField : ℤ → Option Value → Type 0
AffordsField n none = Unit
AffordsField n (some (int m)) = n ≤ℤ m
AffordsField n (some (bool true)) = n ≤ℤ pos 1
AffordsField n (some (bool false)) = n ≤ℤ pos 0
AffordsField n (some _) = ⊥

abbrev pub Lacks : String → Values → Type 0
Lacks key nil = Unit
Lacks key (cons (str s) xs) = (s ≢ key) × Lacks key xs
Lacks key (cons _ xs) = Lacks key xs

-- The budget sets no limit under the key, or one that n does not pass. Only a list or a text may lack the
-- key instead of being a dict.
abbrev pub Affords : String → ℤ → Value → Type 0
Affords key n (dict fs) = AffordsField n (find key fs)
Affords key n (list xs) = Lacks key xs
Affords key n (str s) = find? s key ≡ none
Affords key n _ = ⊥

abbrev pub Under : ℤ → Outcome (Option ℤ) → Type 0
Under n o = (limit : Option ℤ) × ((o ≡ ok limit) × (exceeds n limit ≡ false))

AffordsField-Under : (n : ℤ) (o : Option Value) → AffordsField n o → Under n (as_limit o)
AffordsField-Under n none a = (none, (refl, refl))
AffordsField-Under n (some (int m)) a = (some m, (refl, ground arith))
AffordsField-Under n (some (bool true)) a = (some (pos 1), (refl, ground arith))
AffordsField-Under n (some (bool false)) a = (some (pos 0), (refl, ground arith))
AffordsField-Under n (some null) a = absurd a
AffordsField-Under n (some (Value.float t b)) a = absurd a
AffordsField-Under n (some (str s)) a = absurd a
AffordsField-Under n (some (list xs)) a = absurd a
AffordsField-Under n (some (dict fs)) a = absurd a

Under-AffordsField : (n : ℤ) (o : Option Value) → Under n (as_limit o) → AffordsField n o
Under-AffordsField n none u = tt
Under-AffordsField n (some (int m)) (limit, (e, x)) =
    let same : some m ≡ limit = cc in
    let kept : exceeds n (some m) ≡ false = ap (exceeds n) same ∙ x in ground arith
Under-AffordsField n (some (bool true)) (limit, (e, x)) =
    let same : some (pos 1) ≡ limit = cc in
    let kept : exceeds n (some (pos 1)) ≡ false = ap (exceeds n) same ∙ x in ground arith
Under-AffordsField n (some (bool false)) (limit, (e, x)) =
    let same : some (pos 0) ≡ limit = cc in
    let kept : exceeds n (some (pos 0)) ≡ false = ap (exceeds n) same ∙ x in ground arith
Under-AffordsField n (some null) (limit, (e, x)) = cc
Under-AffordsField n (some (Value.float t b)) (limit, (e, x)) = cc
Under-AffordsField n (some (str s)) (limit, (e, x)) = cc
Under-AffordsField n (some (list xs)) (limit, (e, x)) = cc
Under-AffordsField n (some (dict fs)) (limit, (e, x)) = cc

Lacks-has_text : (key : String) (xs : Values) → Lacks key xs → has_text key xs ≡ false
Lacks-has_text key nil l = refl
Lacks-has_text key (cons (str s) xs) (apart, l) = elim (Bool-cases (s ≟ key)) [
  | inl same ↦ absurd (apart ((string_eq.decides s key).0 same))
  | inr other ↦ rw other (Lacks-has_text key xs l)
]
Lacks-has_text key (cons null xs) l = Lacks-has_text key xs l
Lacks-has_text key (cons (bool b) xs) l = Lacks-has_text key xs l
Lacks-has_text key (cons (int n) xs) l = Lacks-has_text key xs l
Lacks-has_text key (cons (Value.float t b) xs) l = Lacks-has_text key xs l
Lacks-has_text key (cons (list ys) xs) l = Lacks-has_text key xs l
Lacks-has_text key (cons (dict fs) xs) l = Lacks-has_text key xs l

has_text-Lacks : (key : String) (xs : Values) → has_text key xs ≡ false → Lacks key xs
has_text-Lacks key nil e = tt
has_text-Lacks key (cons (str s) xs) e = elim (Bool-cases (s ≟ key)) [
  | inl same ↦ let held : true ≡ false = rw same at e in absurd (cc)
  | inr other ↦ (
    λ eq. let same : (s ≟ key) ≡ true = (string_eq.decides s key).1 eq in absurd (cc),
    has_text-Lacks key xs (rw other at e),
  )
]
has_text-Lacks key (cons null xs) e = has_text-Lacks key xs e
has_text-Lacks key (cons (bool b) xs) e = has_text-Lacks key xs e
has_text-Lacks key (cons (int n) xs) e = has_text-Lacks key xs e
has_text-Lacks key (cons (Value.float t b) xs) e = has_text-Lacks key xs e
has_text-Lacks key (cons (list ys) xs) e = has_text-Lacks key xs e
has_text-Lacks key (cons (dict fs) xs) e = has_text-Lacks key xs e

pub Affords-Under :
    (key : String) (n : ℤ) (budget : Value) → Affords key n budget → Under n (limit_in key budget)
unfolding limit_in
Affords-Under key n (dict fs) a = AffordsField-Under n (find key fs) a
Affords-Under key n (list xs) a = rw (Lacks-has_text key xs a) (none, (refl, refl))
Affords-Under key n (str s) a = rw a (none, (refl, refl))
Affords-Under key n null a = absurd a
Affords-Under key n (bool b) a = absurd a
Affords-Under key n (int m) a = absurd a
Affords-Under key n (Value.float t b) a = absurd a

pub Under-Affords :
    (key : String) (n : ℤ) (budget : Value) → Under n (limit_in key budget) → Affords key n budget
unfolding limit_in
Under-Affords key n (dict fs) u = Under-AffordsField n (find key fs) u
Under-Affords key n (list xs) (limit, (e, x)) = elim (Bool-cases (has_text key xs)) [
  | inl held ↦ let raises = rw held at e in cc
  | inr free ↦ has_text-Lacks key xs free
]
Under-Affords key n (str s) (limit, (e, x)) = elim (Option-cases (find? s key)) [
  | inl free ↦ free
  | inr (i, held) ↦ let raises = rw held at e in cc
]
Under-Affords key n null (limit, (e, x)) = cc
Under-Affords key n (bool b) (limit, (e, x)) = cc
Under-Affords key n (int m) (limit, (e, x)) = cc
Under-Affords key n (Value.float t b) (limit, (e, x)) = cc

abbrev pub Among : String → List String → Type 0
Among s [] = ⊥
Among s (t ∷ ts) = (t ≡ s) ⊎ Among s ts

-- The value is a text, and one of the operations.
abbrev pub Known : List String → Option Value → Type 0
Known ops op = (s : String) × ((op ≡ some (str s)) × Among s ops)

op_in-Among : (s : String) (ops : List String) → op_in ops (some (str s)) ≡ true → Among s ops
unfolding op_in
op_in-Among s [] e = absurd (cc)
op_in-Among s (t ∷ ts) e = elim (Bool-cases (t ≟ s)) [
  | inl same ↦ inl ((string_eq.decides t s).0 same)
  | inr other ↦ inr (op_in-Among s ts (rw other at e))
]

Among-op_in : (s : String) (ops : List String) → Among s ops → op_in ops (some (str s)) ≡ true
unfolding op_in
Among-op_in s [] a = absurd a
Among-op_in s (t ∷ ts) (inl eq) = rw ((string_eq.decides t s).1 eq) refl
Among-op_in s (t ∷ ts) (inr a) = elim (Bool-cases (t ≟ s)) [
  | inl same ↦ rw same refl
  | inr other ↦ rw other (Among-op_in s ts a)
]

pub op_in-Known : (ops : List String) (op : Option Value) → op_in ops op ≡ true → Known ops op
unfolding op_in
op_in-Known ops (some (str s)) e = (s, (refl, op_in-Among s ops e))
op_in-Known [] op e = absurd (cc)
op_in-Known (t ∷ ts) none e = absurd (cc)
op_in-Known (t ∷ ts) (some null) e = absurd (cc)
op_in-Known (t ∷ ts) (some (bool b)) e = absurd (cc)
op_in-Known (t ∷ ts) (some (int n)) e = absurd (cc)
op_in-Known (t ∷ ts) (some (Value.float x b)) e = absurd (cc)
op_in-Known (t ∷ ts) (some (list xs)) e = absurd (cc)
op_in-Known (t ∷ ts) (some (dict fs)) e = absurd (cc)

pub Known-op_in : (ops : List String) (op : Option Value) → Known ops op → op_in ops op ≡ true
Known-op_in ops op (s, (e, a)) = rw e (Among-op_in s ops a)

module _ (sha256 : String → String) (repr : Value → String) {W : Type 0} (world : W) (txn : Value)
    (h : String) where
  -- At least n of the witnesses re-derive the hash.
  abbrev pub Derive : ℕ → List (W → Value → String) → Type 0
  Derive zero ws = Unit
  Derive (suc n) [] = ⊥
  Derive (suc n) (w ∷ ws) = ((w world txn ≡ h) × Derive n ws) ⊎ Derive (suc n) ws

  Derive-suc : (n : ℕ) (ws : List (W → Value → String)) → Derive (suc n) ws → Derive n ws
  Derive-suc zero ws d = tt
  Derive-suc (suc n) [] d = absurd d
  Derive-suc (suc n) (w ∷ ws) (inl (e, d)) = inl (e, Derive-suc n ws d)
  Derive-suc (suc n) (w ∷ ws) (inr d) = inr (Derive-suc (suc n) ws d)

  pub agreeing-Derive :
      (n : ℕ) (ws : List (W → Value → String))
      → n ≤ agreeing sha256 repr ws world txn h
      → Derive n ws
  unfolding agreeing
  agreeing-Derive zero ws le = tt
  agreeing-Derive (suc n) [] le = absurd (omega (arith, le))
  agreeing-Derive (suc n) (w ∷ ws) le = elim (Bool-cases (w world txn ≟ h)) [
    | inl same ↦
        let le2 : suc n ≤ suc (agreeing sha256 repr ws world txn h) = rw same at le in
        inl ((string_eq.decides (w world txn) h).0 same, agreeing-Derive n ws (omega (arith, le2)))
    | inr other ↦ inr (agreeing-Derive (suc n) ws (rw other at le))
  ]

  pub Derive-agreeing :
      (n : ℕ) (ws : List (W → Value → String))
      → Derive n ws
      → n ≤ agreeing sha256 repr ws world txn h
  unfolding agreeing
  Derive-agreeing zero ws d = omega arith
  Derive-agreeing (suc n) [] d = absurd d
  Derive-agreeing (suc n) (w ∷ ws) (inl (e, d)) =
      rw ((string_eq.decides (w world txn) h).1 e) (omega (arith, Derive-agreeing n ws d))
  Derive-agreeing (suc n) (w ∷ ws) (inr d) = elim (Bool-cases (w world txn ≟ h)) [
    | inl same ↦ rw same (omega (arith, Derive-agreeing (suc n) ws d))
    | inr other ↦ rw other (Derive-agreeing (suc n) ws d)
  ]
