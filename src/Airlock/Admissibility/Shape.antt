-- ===== src/Airlock/Admissibility/Shape.antt =====
-- The histogram of a ledger's gates, and the merge of several sessions.
use dentatus.Prelude.{
  ℕ, suc, ◌+◌, String, ◌≡◌, refl, ◌∙◌, true, false, none, List, [], ◌∷◌, ◌++◌, arith, if◌then◌else◌,
  length, length-append, Bool-cases, inl, inr,
}
use dentatus.Prelude.Eq.{◌≟◌, string_eq}
use dentatus.Prelude.Dict.{
  Dict, lookup, lookup_or, insert, lookup_or-insert, IsUnique, insert-IsUnique,
}
use dentatus.Airlock.Membrane.{gate_name, Reject, Ledger}
use dentatus.Airlock.Admissibility.{
  Geometry, histogram, add_histogram, merge_histograms, geometry, merge, sum_realized,
  sum_unrealized,
}

-- how many of the rejections were at a gate
unfoldable pub refused_at : String → List Reject → ℕ
refused_at g [] = 0
refused_at g (s ∷ rejections) =
    let rest = refused_at g rejections in if gate_name s.gate ≟ g then suc rest else rest

-- the sessions' ledgers, one after the other
abbrev pub join : List Ledger → Ledger
join [] = record { commits = []; rejections = [] }
join (l ∷ ls) = record {
  commits = l.commits ++ (join ls).commits;
  rejections = l.rejections ++ (join ls).rejections;
}

abbrev pub geometries : List Ledger → List Geometry
geometries [] = []
geometries (l ∷ ls) = geometry l ∷ geometries ls

at_miss :
    (g k : String) (n : ℕ) (hist : Dict String ℕ)
    → (k ≟ g) ≡ false
    → lookup_or g 0 (insert k n hist) ≡ lookup_or g 0 hist
at_miss g k n hist other = lookup_or-insert g k 0 n hist ∙ rw other refl

at_hit :
    (g k : String) (hist : Dict String ℕ)
    → (k ≟ g) ≡ true
    → lookup_or g 0 (insert k (lookup_or k 0 hist + 1) hist) ≡ lookup_or g 0 hist + 1
at_hit g k hist same =
    lookup_or-insert g k 0 (lookup_or k 0 hist + 1) hist
    ∙ rw (same, (string_eq.decides k g).0 same) refl

histogram-count :
    (g : String) (rs : List Reject) (hist : Dict String ℕ)
    → lookup_or g 0 (histogram rs hist) ≡ refused_at g rs + lookup_or g 0 hist
unfolding histogram refused_at
histogram-count g [] hist = omega arith
histogram-count g (s ∷ rs) hist = elim (Bool-cases (gate_name s.gate ≟ g)) [
  | inl same ↦ rw same (
      omega (
        arith,
        histogram-count g rs
            (insert (gate_name s.gate) (lookup_or (gate_name s.gate) 0 hist + 1) hist),
        at_hit g (gate_name s.gate) hist same,
      ))
  | inr other ↦ rw other (
      omega (
        arith,
        histogram-count g rs
            (insert (gate_name s.gate) (lookup_or (gate_name s.gate) 0 hist + 1) hist),
        at_miss g (gate_name s.gate) (lookup_or (gate_name s.gate) 0 hist + 1) hist other,
      ))
]

histogram-IsUnique :
    (rs : List Reject) (hist : Dict String ℕ) → IsUnique hist → IsUnique (histogram rs hist)
unfolding histogram
histogram-IsUnique [] hist u = u
histogram-IsUnique (s ∷ rs) hist u =
    histogram-IsUnique rs _ (insert-IsUnique (gate_name s.gate) _ hist u)

lookup_or-absent : (g : String) (h : Dict String ℕ) → lookup g h ≡ none → lookup_or g 0 h ≡ 0
unfolding lookup_or
lookup_or-absent g h e = rw e refl

lookup_or-cons :
    (g k : String) (v : ℕ) (h : Dict String ℕ)
    → lookup_or g 0 ((k, v) ∷ h) ≡ (if k ≟ g then v else lookup_or g 0 h)
unfolding lookup_or lookup
lookup_or-cons g k v h = elim (Bool-cases (k ≟ g)) [
  | inl same ↦ rw same refl
  | inr other ↦ rw other refl
]

add_histogram-count :
    (g : String) (h hist : Dict String ℕ)
    → IsUnique h
    → lookup_or g 0 (add_histogram h hist) ≡ lookup_or g 0 h + lookup_or g 0 hist
unfolding add_histogram
add_histogram-count g [] hist u = unfold lookup_or lookup in omega arith
add_histogram-count g ((k, v) ∷ h) hist (fresh, u) = elim (Bool-cases (k ≟ g)) [
  | inl same ↦
      let eq = (string_eq.decides k g).0 same in
      let gone : lookup_or g 0 h ≡ 0 = rw (← eq) (lookup_or-absent k h fresh) in
      let mine : lookup_or g 0 ((k, v) ∷ h) ≡ v = lookup_or-cons g k v h ∙ rw same refl in
      let there : lookup_or g 0 (insert k (lookup_or k 0 hist + v) hist) ≡ lookup_or g 0 hist + v =
        lookup_or-insert g k 0 _ hist ∙ rw (same, eq) refl in
      omega (
        arith,
        add_histogram-count g h (insert k (lookup_or k 0 hist + v) hist) u,
        gone,
        mine,
        there,
      )
  | inr other ↦
      let mine : lookup_or g 0 ((k, v) ∷ h) ≡ lookup_or g 0 h =
        lookup_or-cons g k v h ∙ rw other refl in
      omega (
        arith,
        add_histogram-count g h (insert k (lookup_or k 0 hist + v) hist) u,
        mine,
        at_miss g k (lookup_or k 0 hist + v) hist other,
      )
]

refused_at-append :
    (g : String) (rs ss : List Reject) → refused_at g (rs ++ ss) ≡ refused_at g rs + refused_at g ss
unfolding refused_at
refused_at-append g [] ss = omega arith
refused_at-append g (s ∷ rs) ss = elim (Bool-cases (gate_name s.gate ≟ g)) [
  | inl same ↦ rw same (omega (arith, refused_at-append g rs ss))
  | inr other ↦ rw other (refused_at-append g rs ss)
]

-- The histogram of a ledger's geometry counts, for every gate, the rejections at it.
pub geometry-refused_at :
    (g : String) (ledger : Ledger)
    → lookup_or g 0 (geometry ledger).gate_histogram ≡ refused_at g ledger.rejections
unfolding geometry
geometry-refused_at g ledger =
    let empty : lookup_or {K = String} {V = ℕ} g 0 [] ≡ 0 = unfold lookup_or lookup in refl in
    omega (arith, histogram-count g ledger.rejections [], empty)

merge_histograms-count :
    (g : String) (ls : List Ledger) (hist : Dict String ℕ)
    → lookup_or g 0 (merge_histograms (geometries ls) hist)
      ≡ refused_at g (join ls).rejections + lookup_or g 0 hist
unfolding merge_histograms
merge_histograms-count g [] hist = unfold refused_at in omega arith
merge_histograms-count g (l ∷ ls) hist =
    let unique : IsUnique (geometry l).gate_histogram =
      unfold geometry in histogram-IsUnique l.rejections [] tt in
    omega (
      arith,
      merge_histograms-count g ls (add_histogram (geometry l).gate_histogram hist),
      add_histogram-count g (geometry l).gate_histogram hist unique,
      geometry-refused_at g l,
      refused_at-append g l.rejections (join ls).rejections,
    )

sum_realized-join : (ls : List Ledger) → sum_realized (geometries ls) ≡ length (join ls).commits
unfolding sum_realized geometry
sum_realized-join [] = refl
sum_realized-join (l ∷ ls) =
    omega (arith, sum_realized-join ls, length-append l.commits (join ls).commits)

sum_unrealized-join :
    (ls : List Ledger) → sum_unrealized (geometries ls) ≡ length (join ls).rejections
unfolding sum_unrealized geometry
sum_unrealized-join [] = refl
sum_unrealized-join (l ∷ ls) =
    omega (arith, sum_unrealized-join ls, length-append l.rejections (join ls).rejections)

-- The parts in which two geometries agree; the order of a histogram's gates and the mean are left out.
pub record SameShape (a b : Geometry) : Type 0 where
  pub realized : a.realized ≡ b.realized
  pub unrealized : a.unrealized ≡ b.unrealized
  pub proposed : a.proposed ≡ b.proposed
  pub admissibility : a.admissibility_permille ≡ b.admissibility_permille
  pub pressure : a.proposal_pressure_permille ≡ b.proposal_pressure_permille
  pub histogram : (g : String) → lookup_or g 0 a.gate_histogram ≡ lookup_or g 0 b.gate_histogram

-- Merging the geometries of several sessions gives the counts, the ratios and the gate counts of the
-- geometry of all their records in one ledger.
pub merge-SameShape : (ls : List Ledger) → SameShape (merge (geometries ls)) (geometry (join ls))
unfolding merge
merge-SameShape ls = record {
  realized = unfold geometry in sum_realized-join ls;
  unrealized = unfold geometry in sum_unrealized-join ls;
  proposed = unfold geometry in omega (arith, sum_realized-join ls, sum_unrealized-join ls);
  admissibility = unfold geometry in rw (sum_realized-join ls, sum_unrealized-join ls) refl;
  pressure = unfold geometry in rw (sum_realized-join ls, sum_unrealized-join ls) refl;
  histogram = λ g.
      let empty : lookup_or {K = String} {V = ℕ} g 0 [] ≡ 0 = unfold lookup_or lookup in refl in
      omega (arith, merge_histograms-count g ls [], empty, geometry-refused_at g (join ls));
}
