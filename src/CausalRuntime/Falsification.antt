-- ===== src/CausalRuntime/Falsification.antt =====
-- causal_runtime/falsification.py: the track record of a proposed edge. The values of a state are integers; the
-- ratio of rejection is a fraction with a denominator that is not 0, where the code has a float.
use dentatus.Prelude.{
  ℕ, zero, suc, ◌+◌, ◌-◌, ◌*◌, ◌==◌, String, Bool, true, false, not, ◌&&◌, Option, none, some, List,
  [], ◌∷◌, ltb, leb, if◌then◌else◌, length, get_elem?, Outcome, ok, err, ◌>>=◌,
}
use dentatus.Prelude.Int.{ℤ, pos, ◌+ℤ◌, ◌-ℤ◌, ◌*ℤ◌, eqb_ℤ}
use dentatus.Prelude.Eq.{string_eq}
use dentatus.Prelude.Dict.{Dict, lookup}
use dentatus.Chronicle.Canonical.{◌^^◌, show_nat}

pub data Status : Type 0 where
  proposed corroborated decaying rejected : Status

pub record Proposal : Type 0 where
  pub source : String
  pub target : String
  pub train_hits : ℕ
  pub train_misses : ℕ
  pub heldout_hits : ℕ
  pub heldout_misses : ℕ
  pub last_test_epoch : ℕ
  pub status : Status
  pub h : String

abbrev pub State : Type 0
State = Dict String ℤ

-- `_changed`
unfoldable pub changed : Option ℤ → Option ℤ → Bool
changed (some a) (some b) = not (eqb_ℤ a b)
changed _ _ = false

-- hits, misses, opportunities
pub record Tested : Type 0 where
  pub hits : ℕ
  pub misses : ℕ
  pub opps : ℕ

abbrev pub count_event : Bool → Bool → Tested → Tested
count_event false responded r = r
count_event true true r = record r { hits = r.hits + 1; opps = r.opps + 1 }
count_event true false r = record r { misses = r.misses + 1; opps = r.opps + 1 }

abbrev pub at : List State → ℕ → Outcome State
at history t = elim (get_elem? history t) [ none ↦ err "list index out of range" | some s ↦ ok s ]

-- the rounds that are left, from time `t` on
unfoldable pub test_from : String → String → List State → ℕ → ℕ → ℕ → Tested → Outcome Tested
unfolding changed
test_from source target history lag zero t r = ok r
test_from source target history lag (suc left) t r = at history t >>= λ now.
    at history (t + 1) >>= λ next. at history (t + lag) >>= λ later.
    test_from source target history lag left (t + 1) (
      count_event (changed (lookup source now) (lookup source next))
        (changed (lookup target now) (lookup target later)) r)

unfoldable pub test_edge : String → String → List State → ℕ → Outcome Tested
unfolding test_from
test_edge source target history lag =
    test_from source target history lag (length history - lag) 0
      (record { hits = 0; misses = 0; opps = 0 })

pub record Discipline : Type 0 where
  pub min_tests : ℕ
  pub reject_num : ℕ
  pub reject_den : ℕ

-- `_status`; the evidence of training has no part in it
unfoldable pub status_of : Discipline → ℕ → ℕ → Status
status_of d ho_hits ho_misses =
    let n = ho_hits + ho_misses in
    if ltb n d.min_tests
    then proposed
    else if ho_misses == 0 && leb d.min_tests ho_hits
    then corroborated
    else if leb (d.reject_num * n) (ho_misses * d.reject_den)
    then rejected
    else decaying

-- (hits - 2 * misses) * 1000 + (train_hits - train_misses)
unfoldable pub corroboration_score : Proposal → ℤ
corroboration_score p =
    (pos p.heldout_hits -ℤ pos (2 * p.heldout_misses)) *ℤ pos 1000
    +ℤ (pos p.train_hits -ℤ pos p.train_misses)

-- the defaults of the code: three tests, and a third of a hundred and two
abbrev pub default_discipline : Discipline
default_discipline = record { min_tests = 3; reject_num = 34; reject_den = 100 }

abbrev join_bars : List String → String
join_bars [] = ""
join_bars (s ∷ []) = s
join_bars (s ∷ ss) = s ^^ "|" ^^ join_bars ss

module _ (sha256 : String → String) where
  -- `_hash`
  unfoldable pub proposal_hash : String → String → ℕ → ℕ → ℕ → ℕ → ℕ → String
  proposal_hash source target train_hits train_misses hits misses epoch = sha256 (
      join_bars (
        "SP"
        ∷ source
        ∷ target
        ∷ show_nat train_hits
        ∷ show_nat train_misses
        ∷ show_nat hits
        ∷ show_nat misses
        ∷ show_nat epoch
        ∷ []))

  unfoldable pub make_proposal : String → String → ℕ → ℕ → Proposal
  unfolding proposal_hash status_of
  make_proposal source target train_hits train_misses = record {
    source = source;
    target = target;
    train_hits = train_hits;
    train_misses = train_misses;
    heldout_hits = 0;
    heldout_misses = 0;
    last_test_epoch = 0;
    status = status_of default_discipline 0 0;
    h = proposal_hash source target train_hits train_misses 0 0 0;
  }

  unfoldable pub apply_heldout : Discipline → Proposal → ℕ → ℕ → ℕ → Proposal
  unfolding proposal_hash status_of
  apply_heldout d p hits misses epoch =
      let hh = p.heldout_hits + hits in
      let hm = p.heldout_misses + misses in
      record p {
        heldout_hits = hh;
        heldout_misses = hm;
        last_test_epoch = epoch;
        status = status_of d hh hm;
        h = proposal_hash p.source p.target p.train_hits p.train_misses hh hm epoch;
      }
