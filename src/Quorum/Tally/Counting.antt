-- ===== src/Quorum/Tally/Counting.antt =====
-- The counter and its mode, against the plain count of a hash in a list.
use dentatus.Prelude.{
  ℕ, suc, ◌+◌, ◌≤◌, String, ◌≡◌, ◌≢◌, refl, ◌⊎◌, inl, inr, Bool-cases, Option, none, some, List, [],
  ◌∷◌, ltb, arith, if◌then◌else◌, length,
}
use dentatus.Prelude.Eq.{◌≟◌, string_eq}
use dentatus.Prelude.Dict.{
  Dict, lookup, lookup_or, insert, lookup_or-insert, IsUnique, insert-IsUnique,
}
use dentatus.Quorum.Tally.{counter, most_common}

unfoldable pub count : String → List String → ℕ
count h [] = 0
count h (g ∷ gs) = let rest = count h gs in if g ≟ h then suc rest else rest

abbrev at : String → Dict String ℕ → ℕ
at h c = lookup_or h 0 c

pub lookup_or-counter :
    (h : String) (gs : List String) (c : Dict String ℕ) → at h (counter gs c) ≡ at h c + count h gs
unfolding counter count
lookup_or-counter h [] c = omega arith
lookup_or-counter h (g ∷ gs) c =
    rw (lookup_or-counter h gs (insert g (at g c + 1) c), lookup_or-insert h g 0 (at g c + 1) c)
      (ground (arith, string_eq.decides g h))

pub counter-IsUnique : (gs : List String) (c : Dict String ℕ) → IsUnique c → IsUnique (counter gs c)
unfolding counter
counter-IsUnique [] c u = u
counter-IsUnique (g ∷ gs) c u = counter-IsUnique gs _ (insert-IsUnique g (at g c + 1) c u)

abbrev better : Option String × ℕ → String → ℕ → Option String × ℕ
better best h n = if ltb best.1 n then (some h, n) else best

pub most_common-start :
    (best : Option String × ℕ) (c : Dict String ℕ) → best.1 ≤ (most_common best c).1
unfolding most_common
most_common-start best [] = omega arith
most_common-start best ((h, n) ∷ c) = ground (arith, most_common-start (better best h n) c)

-- the mode's count is the largest
pub most_common-largest :
    (best : Option String × ℕ) (c : Dict String ℕ) (h : String) (n : ℕ)
    → lookup h c ≡ some n
    → n ≤ (most_common best c).1
unfolding most_common lookup
most_common-largest best [] h n e = cc
most_common-largest best ((g, k) ∷ c) h n e = elim (Bool-cases (g ≟ h)) [
  | inl same ↦ ground (arith, most_common-start (better best g k) c)
  | inr other ↦ ground (arith, most_common-largest (better best g k) c h n)
]

abbrev Attained : Option String × ℕ → Dict String ℕ → Type 0
Attained (mode, m) c = (h : String) × (mode ≡ some h) × (lookup h c ≡ some m)

Attained-tail :
    (r : Option String × ℕ) (g : String) (k : ℕ) (c : Dict String ℕ)
    → lookup g c ≡ none
    → Attained r c
    → Attained r ((g, k) ∷ c)
unfolding lookup
Attained-tail r g k c new (h, e, l) = (h, e, ground (arith, string_eq.decides g h))

Attained-better :
    (best : Option String × ℕ) (g : String) (k : ℕ) (c : Dict String ℕ) (r : Option String × ℕ)
    → r ≡ better best g k
    → (r ≡ best) ⊎ Attained r ((g, k) ∷ c)
unfolding lookup
Attained-better best g k c r e = elim (Bool-cases (ltb best.1 k)) [
  | inl more ↦ inr (g, ground arith, ground (arith, string_eq.decides g g))
  | inr less ↦ inl (ground arith)
]

-- the mode is the start or an entry
pub most_common-Attained :
    (best : Option String × ℕ) (c : Dict String ℕ)
    → IsUnique c
    → (most_common best c ≡ best) ⊎ Attained (most_common best c) c
unfolding most_common
most_common-Attained best [] u = inl refl
most_common-Attained best ((g, k) ∷ c) (new, u) =
    elim (most_common-Attained (better best g k) c u) [
      | inl e ↦ Attained-better best g k c _ e
      | inr a ↦ inr (Attained-tail (most_common (better best g k) c) g k c new a)
    ]

pub count_disjoint : (h g : String) (gs : List String) → h ≢ g → count h gs + count g gs ≤ length gs
unfolding count
count_disjoint h g [] ne = omega arith
count_disjoint h g (x ∷ gs) ne =
    ground (arith, string_eq.decides x h, string_eq.decides x g, count_disjoint h g gs ne)
