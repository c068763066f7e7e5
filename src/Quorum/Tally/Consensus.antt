-- ===== src/Quorum/Tally/Consensus.antt =====
-- What a certificate of `tally` says about the votes that were counted.
use mathlib.Core.Path.{subst}
use dentatus.Prelude.{
  ℕ, suc, ◌*◌, ◌≤◌, ◌<◌, String, ◌≡◌, refl, sym, ap, ◌∙◌, ◌≢◌, ◌⊎◌, inl, inr, true, false,
  Bool-cases, Option, none, some, List, [], ◌∷◌, ltb, leb, arith, if◌then◌else◌, length, ok,
}
use dentatus.Prelude.Eq.{◌≟◌, string_eq}
use dentatus.Prelude.Dict.{Dict, lookup, lookup_or}
use dentatus.Chronicle.Value.{Value}
use dentatus.Quorum.Votes.{Vote, Registry, authentic_votes}
use dentatus.Quorum.Tally.{
  Certificate, counter, modal, values, counted_votes, reaches, certificate, tally,
}
use dentatus.Quorum.Tally.Counting.{
  count, lookup_or-counter, counter-IsUnique, most_common-largest, most_common-Attained,
  count_disjoint,
}

length-values : (d : Dict String String) → length (values d) ≡ length d
unfolding values
length-values [] = refl
length-values ((w, h) ∷ d) = ap suc (length-values d)

-- how many of the counted witnesses signed `h`
abbrev pub support : Dict String String → String → ℕ
support counted h = count h (values counted)

lookup_or-some :
    (h : String) (c : Dict String ℕ) (n : ℕ) → 0 < n → lookup_or h 0 c ≡ n → lookup h c ≡ some n
unfolding lookup_or
lookup_or-some h c n p e = ground arith

some-lookup_or :
    (h : String) (c : Dict String ℕ) (n : ℕ) → lookup h c ≡ some n → lookup_or h 0 c ≡ n
unfolding lookup_or
some-lookup_or h c n e = ground arith

tallied : (h : String) (gs : List String) → lookup_or h 0 (counter gs []) ≡ count h gs
unfolding lookup_or lookup
tallied h gs = rw lookup_or-counter (omega arith)

abbrev votes_for : Dict String String → Dict String ℕ
votes_for counted = counter (values counted) []

support-le-modal :
    (counted : Dict String String) (h : String) → support counted h ≤ (modal counted).1
unfolding modal
support-le-modal counted h = elim (Bool-cases (ltb 0 (support counted h))) [
  | inl some_votes ↦
      most_common-largest (none, 0) (votes_for counted) h (support counted h)
        (lookup_or-some h (votes_for counted) _ (ground arith) (tallied h (values counted)))
  | inr no_votes ↦ ground arith
]

support-modal :
    (counted : Dict String String) {h : String}
    → (modal counted).0 ≡ some h
    → support counted h ≡ (modal counted).1
unfolding modal
support-modal counted {h} e =
    elim (most_common-Attained (none, 0) (votes_for counted) (counter-IsUnique _ [] tt)) [
      | inl start ↦ cc (ap (λ (r : Option String × ℕ). r.0) start)
      | inr (g, eg, l) ↦
          let same : g ≡ h = cc in
          rw (← same) (sym (tallied g (values counted)) ∙ some-lookup_or g (votes_for counted) _ l)
    ]

modal-none : (counted : Dict String String) → (modal counted).0 ≡ none → (modal counted).1 ≡ 0
unfolding modal
modal-none counted e =
    elim (most_common-Attained (none, 0) (votes_for counted) (counter-IsUnique _ [] tt)) [
      | inl start ↦ ap (λ (r : Option String × ℕ). r.1) start
      | inr (g, eg, l) ↦ absurd (cc)
    ]

-- What the certificate's fields promise about the votes that were counted.
pub record Consensus (k : ℕ) (counted : Dict String String) (c : Certificate) : Type 0 where
  pub agreed_largest : (h : String) → support counted h ≤ c.agreed
  pub outcome :
      ((h : String) × (c.certified ≡ true)
        × (c.quorum_hash ≡ some h)
        × (support counted h ≡ c.agreed)
        × (k ≤ c.agreed))
      ⊎ ((c.certified ≡ false) × (c.quorum_hash ≡ none) × (c.agreed < k))

outcome_Consensus :
    (k : ℕ) (counted : Dict String String) (c : Certificate) (mode : Option String)
    → 1 ≤ k
    → (modal counted).0 ≡ mode
    → c.agreed ≡ (modal counted).1
    → c.certified ≡ reaches k (mode, (modal counted).1)
    → c.quorum_hash ≡ (if c.certified then mode else none)
    → Consensus k counted c
unfolding reaches
outcome_Consensus k counted c none p em ea ec eq = record {
  agreed_largest = λ h. rw ea (support-le-modal counted h);
  outcome = inr (cc, rw eq (ground arith), omega (arith, modal-none counted em));
}
outcome_Consensus k counted c (some h) p em ea ec eq = elim (Bool-cases (leb k (modal counted).1)) [
  | inl fits ↦ record {
    agreed_largest = λ g. rw ea (support-le-modal counted g);
    outcome = inl (h, ground arith, ground arith, support-modal counted em ∙ sym ea, ground arith);
  }
  | inr short ↦ record {
    agreed_largest = λ g. rw ea (support-le-modal counted g);
    outcome = inr (ground arith, ground arith, ground arith);
  }
]

module _ (k : ℕ) (counted : Dict String String) (c : Certificate)
    (agreement : Consensus k counted c) where
  pub certified_support :
      c.certified ≡ true
      → (h : String) × (c.quorum_hash ≡ some h) × (support counted h ≡ c.agreed) × (k ≤ c.agreed)
  certified_support yes_ = elim agreement.outcome [
    | inl (h, e, q, s, fits) ↦ (h, q, s, fits)
    | inr (e, q, short) ↦ absurd (cc)
  ]

  pub supported_certified : (h : String) → k ≤ support counted h → c.certified ≡ true
  supported_certified h enough = elim agreement.outcome [
    | inl (g, e, q, s, fits) ↦ e
    | inr (e, q, short) ↦ absurd (omega (arith, agreement.agreed_largest h))
  ]

module _ (sha256 : String → String) where
  pub tally-ok :
      (votes : List Vote) (k : ℕ) (registry : Registry) (round_id : Value) {c : Certificate}
      → tally sha256 votes k registry round_id ≡ ok c
      → (1 ≤ k) × (c ≡ certificate sha256 votes k registry round_id)
  unfolding tally
  tally-ok votes k registry round_id e = (ground arith, ground arith)

  certificate-Consensus :
      (votes : List Vote) (k : ℕ) (registry : Registry) (round_id : Value)
      → 1 ≤ k
      → Consensus k
          (counted_votes (authentic_votes registry votes))
          (certificate sha256 votes k registry round_id)
  unfolding certificate
  certificate-Consensus votes k registry round_id p =
      let counted = counted_votes (authentic_votes registry votes) in
      outcome_Consensus k counted _ (modal counted).0 p refl refl refl refl

  certificate-n :
      (votes : List Vote) (k : ℕ) (registry : Registry) (round_id : Value)
      → (certificate sha256 votes k registry round_id).n
        ≡ length (counted_votes (authentic_votes registry votes))
  unfolding certificate
  certificate-n votes k registry round_id = refl

  -- Whenever `tally` returns a certificate, no hash has more counted signers than `agreed`, and either
  -- the round is certified and names a hash that exactly `agreed` counted witnesses signed, at least k,
  -- or it is not certified, names no hash, and `agreed` is below k.
  pub tally-Consensus :
      (votes : List Vote) (k : ℕ) (registry : Registry) (round_id : Value) {c : Certificate}
      → tally sha256 votes k registry round_id ≡ ok c
      → Consensus k (counted_votes (authentic_votes registry votes)) c
  tally-Consensus votes k registry round_id {c} e =
      let (p, q) = tally-ok votes k registry round_id e in
      subst (Consensus k (counted_votes (authentic_votes registry votes))) (sym q)
        (certificate-Consensus votes k registry round_id p)

  -- With a strict majority as the threshold, a hash that k counted witnesses signed is the one that
  -- the certificate names.
  pub tally_majority :
      (votes : List Vote) (k : ℕ) (registry : Registry) (round_id : Value) {c : Certificate}
      (h : String)
      → tally sha256 votes k registry round_id ≡ ok c
      → c.n < 2 * k
      → k ≤ support (counted_votes (authentic_votes registry votes)) h
      → c.quorum_hash ≡ some h
  tally_majority votes k registry round_id {c} h e strict enough =
      let counted = counted_votes (authentic_votes registry votes) in
      let agreement = tally-Consensus votes k registry round_id e in
      let (p, q) = tally-ok votes k registry round_id e in
      let (g, named, all_of_them, fits) =
        certified_support k counted c agreement
          (supported_certified k counted c agreement h enough) in
      let size = ap (λ (r : Certificate). r.n) q ∙ certificate-n votes k registry round_id in
      elim (Bool-cases (g ≟ h)) [
        | inl same ↦ named ∙ ap some ((string_eq.decides g h).0 same)
        | inr other ↦
            let ne : g ≢ h = λ s. cc ((string_eq.decides g h).1 s) in
            absurd
              (omega (arith, count_disjoint g h (values counted) ne, size, length-values counted))
      ]
