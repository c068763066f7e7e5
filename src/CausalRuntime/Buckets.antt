-- ===== src/CausalRuntime/Buckets.antt =====
-- The two tiers of causal_runtime/tiers.py hold what their names say, and a claim of structure has been earned.
use dentatus.Prelude.{
  ℕ, ◌≤◌, String, ◌≡◌, refl, ap, sym, ◌∙◌, ◌⊎◌, inl, inr, ◌↔◌, Bool, true, false, not, ◌&&◌, ◌||◌,
  Bool-cases, List, [], ◌∷◌, ok, arith,
}
use dentatus.Prelude.Eq.{string_eq}
use dentatus.CausalRuntime.Falsification.{
  Status, proposed, corroborated, decaying, rejected, Proposal, Discipline, status_of,
  apply_heldout,
}
use dentatus.CausalRuntime.Tiers.{
  Edge, edge_of, same_edge, member, add, insert_edge, sort_edges, usable, survived, edge_set,
  predictive_edges, corroborated_edges, is_subset, difference, Report, classify,
}

-- some proposal for the edge has a status of this kind
abbrev pub has : (Status → Bool) → Edge → List Proposal → Bool
has keep e [] = false
has keep e (p ∷ ps) = (keep p.status && same_edge (edge_of p) e) || has keep e ps

same_edge_iff : (e f : Edge) → (same_edge e f ≡ true) ↔ (e ≡ f)
same_edge_iff (s, t) (u, v) = ground (arith, string_eq.decides s u, string_eq.decides t v)

same_edge_refl : (e : Edge) → same_edge e e ≡ true
same_edge_refl e = (same_edge_iff e e).1 refl

member-insert_edge :
    (e f : Edge) (fs : List Edge) → member e (insert_edge f fs) ≡ (same_edge f e || member e fs)
unfolding member insert_edge
member-insert_edge e f [] = refl
member-insert_edge e f (g ∷ gs) = ground (arith, member-insert_edge e f gs)

member-sort_edges : (e : Edge) (es : List Edge) → member e (sort_edges es) ≡ member e es
unfolding member sort_edges
member-sort_edges e [] = refl
member-sort_edges e (f ∷ fs) =
    member-insert_edge e f (sort_edges fs)
    ∙ ap (λ (b : Bool). same_edge f e || b) (member-sort_edges e fs)

member-add : (e f : Edge) (set : List Edge) → member e (add f set) ≡ (same_edge f e || member e set)
unfolding member
member-add e f set = ground (arith, same_edge_iff f e)

member-edge_set :
    (keep : Status → Bool) (e : Edge) (ps : List Proposal)
    → member e (edge_set keep ps) ≡ has keep e ps
unfolding edge_set
member-edge_set keep e [] = refl
member-edge_set keep e (p ∷ ps) = elim (Bool-cases (keep p.status)) [
  | inl kept ↦
      rw kept
        (rw (member-add e (edge_of p) (edge_set keep ps)) (rw (member-edge_set keep e ps) refl))
  | inr left ↦ rw left (member-edge_set keep e ps)
]

member-difference :
    (e : Edge) (es set : List Edge)
    → member e (difference es set) ≡ (member e es && not (member e set))
unfolding member difference
member-difference e [] set = refl
member-difference e (f ∷ fs) set = ground (arith, member-difference e fs set, same_edge_iff f e)

subset_of :
    (es set : List Edge)
    → ((e : Edge) → member e es ≡ true → member e set ≡ true)
    → is_subset es set ≡ true
unfolding is_subset member
subset_of [] set h = refl
subset_of (e ∷ es) set h =
    rw (h e (rw (same_edge_refl e) refl)) (subset_of es set (λ f m. h f (ground arith)))

survived-usable : (s : Status) → survived s ≡ true → usable s ≡ true
survived-usable proposed e = refl
survived-usable corroborated e = refl
survived-usable decaying e = refl
survived-usable rejected e = cc

has-usable : (e : Edge) (ps : List Proposal) → has survived e ps ≡ true → has usable e ps ≡ true
has-usable e [] h = h
has-usable e (p ∷ ps) h = ground (arith, survived-usable p.status, has-usable e ps)

-- The status is what the held-out record gives, as for every proposal that the module makes.
abbrev pub IsTracked : Discipline → Proposal → Type 0
IsTracked d p = p.status ≡ status_of d p.heldout_hits p.heldout_misses

abbrev pub AllTracked : Discipline → List Proposal → Type 0
AllTracked d [] = Unit
AllTracked d (p ∷ ps) = IsTracked d p × AllTracked d ps

pub apply_heldout-IsTracked :
    (sha256 : String → String) (d : Discipline) (p : Proposal) (hits misses epoch : ℕ)
    → IsTracked d (apply_heldout sha256 d p hits misses epoch)
unfolding apply_heldout
apply_heldout-IsTracked sha256 d p hits misses epoch = refl

-- A proposal for the edge passed the tests and never failed one.
abbrev pub Earned : Discipline → Edge → List Proposal → Type 0
Earned d e [] = ⊥
Earned d e (p ∷ ps) =
    ((edge_of p ≡ e) × (p.heldout_misses ≡ 0) × (d.min_tests ≤ p.heldout_hits)) ⊎ Earned d e ps

corroborated-Survived :
    (d : Discipline) (hits misses : ℕ)
    → survived (status_of d hits misses) ≡ true
    → (misses ≡ 0) × (d.min_tests ≤ hits)
unfolding status_of
corroborated-Survived d hits misses e = ground arith

has-Earned :
    (d : Discipline) (e : Edge) (ps : List Proposal)
    → AllTracked d ps
    → has survived e ps ≡ true
    → Earned d e ps
has-Earned d e [] t h = absurd (cc)
has-Earned d e (p ∷ ps) t h = elim (Bool-cases (survived p.status && same_edge (edge_of p) e)) [
  | inl here_ ↦
      let kept : survived p.status ≡ true = ground arith in
      let same : same_edge (edge_of p) e ≡ true = ground arith in
      let (none_, enough) =
        corroborated-Survived d p.heldout_hits p.heldout_misses (rw t.0 at kept) in
      inl ((same_edge_iff (edge_of p) e).0 same, none_, enough)
  | inr later ↦ inr (has-Earned d e ps t.1 (rw later at h))
]

pub record Bucketed (d : Discipline) (ps : List Proposal) (r : Report) : Type 0 where
  pub predicts : (e : Edge) → member e r.predictive ≡ has usable e ps
  pub claims : (e : Edge) → member e r.may_claim_structure ≡ has survived e ps
  pub allocates :
      (e : Edge) → member e r.allocation_only ≡ (has usable e ps && not (has survived e ps))
  pub earned : (e : Edge) → member e r.may_claim_structure ≡ true → Earned d e ps

predictive-has : (e : Edge) (ps : List Proposal) → member e (predictive_edges ps) ≡ has usable e ps
unfolding predictive_edges
predictive-has e ps = member-sort_edges e (edge_set usable ps) ∙ member-edge_set usable e ps

corroborated-has :
    (e : Edge) (ps : List Proposal) → member e (corroborated_edges ps) ≡ has survived e ps
unfolding corroborated_edges
corroborated-has e ps = member-sort_edges e (edge_set survived ps) ∙ member-edge_set survived e ps

-- For proposals with tracked statuses `classify` returns: its assertion holds. An edge is predictive when
-- some proposal for it is not rejected, it may claim structure when some proposal for it is
-- corroborated, and it is for allocation only when the first holds without the second. A claim of
-- structure is backed by a proposal with enough held-out hits and no held-out miss.
pub classify-Bucketed :
    (d : Discipline) (ps : List Proposal)
    → AllTracked d ps
    → (r : Report) × (classify ps ≡ ok r) × Bucketed d ps r
unfolding classify
classify-Bucketed d ps tracked =
    let inside =
      subset_of (corroborated_edges ps) (predictive_edges ps)
        (λ e m. predictive-has e ps ∙ has-usable e ps (sym (corroborated-has e ps) ∙ m)) in
    rw inside (
      _,
      refl,
      record {
        predicts = λ e. predictive-has e ps;
        claims = λ e. corroborated-has e ps;
        allocates = λ e.
            member-sort_edges e (difference (predictive_edges ps) (corroborated_edges ps))
            ∙ member-difference e (predictive_edges ps) (corroborated_edges ps)
            ∙ rw (predictive-has e ps, corroborated-has e ps) refl;
        earned = λ e m. has-Earned d e ps tracked (sym (corroborated-has e ps) ∙ m);
      },
    )
