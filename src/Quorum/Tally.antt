-- ===== src/Quorum/Tally.antt =====
-- `tally` of quorum/tally.py: exact integer counting of the authentic votes of a round.
pub mod Counting
pub mod Consensus
pub mod Equivocation
use dentatus.Prelude.{
  ℕ, suc, ◌+◌, ◌-◌, ◌*◌, String, Bool, true, false, not, ◌&&◌, Option, none, some, List, [], ◌∷◌,
  ltb, leb, map, Outcome, ok, err, if◌then◌else◌, length, max,
}
use dentatus.Prelude.Eq.{◌≟◌, string_eq}
use dentatus.Prelude.Dict.{Dict, lookup_or, insert}
use dentatus.Prelude.Sorting.{sorted, sorted_entries}
use dentatus.Chronicle.Value.{Value, Values, nil, cons, str, nat, opt_str, list, dict, field, end}
use dentatus.Chronicle.Canonical.{state_hash}
use dentatus.Quorum.Votes.{Vote, Registry, Reason, protocol, authentic_votes, rejected_votes}

-- `x in xs`
unfoldable pub mem : String → List String → Bool
mem s [] = false
mem s (t ∷ ts) = if t ≟ s then true else mem s ts

-- a set of texts, as the list of its elements
unfoldable pub add_to_set : String → List String → List String
unfolding mem
add_to_set s ts = if mem s ts then ts else s ∷ ts

-- the distinct hashes that each witness signed
unfoldable pub hashes_by_witness : List Vote → Dict String (List String) → Dict String (List String)
hashes_by_witness [] by_w = by_w
hashes_by_witness (vote ∷ votes) by_w =
    hashes_by_witness votes
      (insert vote.witness (add_to_set vote.state_hash (lookup_or vote.witness [] by_w)) by_w)

-- the witnesses with more than one hash
unfoldable pub equivocating : Dict String (List String) → List String
equivocating [] = []
equivocating ((w, hs) ∷ by_w) =
    let rest = equivocating by_w in if ltb 1 (length hs) then w ∷ rest else rest

unfoldable pub count_votes : List String → List Vote → Dict String String → Dict String String
count_votes equivocators [] counted = counted
count_votes equivocators (vote ∷ votes) counted =
    count_votes equivocators votes (
      if mem vote.witness equivocators
      then counted
      else insert vote.witness vote.state_hash counted)

unfoldable pub values : Dict String String → List String
values [] = []
values ((w, h) ∷ d) = h ∷ values d

-- `Counter(values)`
unfoldable pub counter : List String → Dict String ℕ → Dict String ℕ
counter [] c = c
counter (h ∷ hs) c = counter hs (insert h (lookup_or h 0 c + 1) c)

-- `c.most_common(1)[0]`: the first entry with the largest count
unfoldable pub most_common : Option String × ℕ → Dict String ℕ → Option String × ℕ
most_common best [] = best
most_common best ((h, n) ∷ c) = most_common (if ltb best.1 n then (some h, n) else best) c

-- a float quotient, as numerator and denominator
pub record Ratio : Type 0 where
  pub num : ℕ
  pub den : ℕ

pub record Observables : Type 0 where
  pub agreement_ratio : Ratio
  pub ess_opinions : Ratio
  pub divergence : Ratio

unfoldable pub sum_squares : Dict String ℕ → ℕ
sum_squares [] = 0
sum_squares ((h, n) ∷ c) = n * n + sum_squares c

unfoldable pub sum_counts : Dict String ℕ → ℕ
sum_counts [] = 0
sum_counts ((h, n) ∷ c) = n + sum_counts c

abbrev zero_ratio : Ratio
zero_ratio = record { num = 0; den = 1 }

unfoldable pub observables : Dict String String → Observables
unfolding sum_squares sum_counts counter most_common values
observables [] = record {
  agreement_ratio = zero_ratio;
  ess_opinions = zero_ratio;
  divergence = zero_ratio;
}
observables (e ∷ d) =
    let n = length (e ∷ d) in
    let c = counter (values (e ∷ d)) [] in
    let m = (most_common (none, 0) c).1 in
    record {
      agreement_ratio = record { num = m; den = n };
      ess_opinions = record { num = sum_counts c * sum_counts c; den = sum_squares c };
      divergence = record { num = n - m; den = n };
    }

-- the outvoted witnesses with their hashes
unfoldable pub dissent : Option String → Dict String String → Dict String String
dissent mode [] = []
dissent mode ((w, h) ∷ d) =
    let rest = dissent mode d in
    elim mode [ none ↦ (w, h) ∷ rest | some m ↦ if h ≟ m then rest else (w, h) ∷ rest ]

abbrev vote_values : List (String × String) → Values
vote_values [] = nil
vote_values ((w, h) ∷ d) = cons (list (cons (str w) (cons (str h) nil))) (vote_values d)

module _ (sha256 : String → String) where
  unfoldable pub certificate_hash : Value → Dict String String → Option String → ℕ → ℕ → String
  certificate_hash round_id counted quorum_hash k n = state_hash sha256 (
      dict (
        field "protocol" protocol (
          field "round" round_id (
            field "votes" (list (vote_values (sorted_entries counted))) (
              field "quorum_hash" (opt_str quorum_hash)
                (field "k" (nat k) (field "n" (nat n) end)))))))

pub record Certificate : Type 0 where
  pub round : Value
  pub certified : Bool
  pub quorum_hash : Option String
  pub modal_hash : Option String
  pub agreed : ℕ
  pub n : ℕ
  pub k : ℕ
  pub equivocators : List String
  pub rejected : List (String × Reason)
  pub ghost : Dict String String
  pub observed : Observables
  pub cert_hash : String

-- the one hash of each witness that did not equivocate
unfoldable pub counted_votes : List Vote → Dict String String
unfolding hashes_by_witness equivocating
counted_votes votes = count_votes (sorted (equivocating (hashes_by_witness votes []))) votes []

unfoldable pub modal : Dict String String → Option String × ℕ
modal counted = most_common (none, 0) (counter (values counted) [])

-- `h_mode is not None and m >= k`
unfoldable pub reaches : ℕ → Option String × ℕ → Bool
reaches k (none, m) = false
reaches k (some h, m) = leb k m

module _ (sha256 : String → String) where
  unfoldable pub certificate : List Vote → ℕ → Registry → Value → Certificate
  unfolding reaches
  certificate votes k registry round_id =
      let valid = authentic_votes registry votes in
      let counted = counted_votes valid in
      let (h_mode, m) = modal counted in
      let certified = reaches k (h_mode, m) in
      let quorum_hash = if certified then h_mode else none in
      let n = length counted in
      record {
        round = round_id;
        certified = certified;
        quorum_hash = quorum_hash;
        modal_hash = h_mode;
        agreed = m;
        n = n;
        k = k;
        equivocators = sorted (equivocating (hashes_by_witness valid []));
        rejected = rejected_votes registry votes;
        ghost = dissent h_mode counted;
        observed = observables counted;
        cert_hash = certificate_hash sha256 round_id counted quorum_hash k n;
      }

  unfoldable pub tally : List Vote → ℕ → Registry → Value → Outcome Certificate
  unfolding certificate
  tally votes k registry round_id =
      if ltb k 1
      then err "k must be >= 1 (k is the declared quorum threshold, an explicit model cut)"
      else ok (certificate votes k registry round_id)
