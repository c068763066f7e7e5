-- ===== src/Airlock/Admissibility.antt =====
-- airlock/admissibility.py and airlock/possibility.py: what a ledger's gates let pass, and which
-- candidates they would let pass. Both only read.
pub mod Shape
use Prim.Native.String.{compare as compare_text}
use Prim.Native.Nat.{Ordering}
use dentatus.Prelude.{
  ℕ, zero, suc, ◌+◌, ◌*◌, ◌/◌, String, Bool, true, false, Option, none, some, List, [], ◌∷◌,
  Outcome, ok, err, ◌>>=◌, ◌==◌, ltb, if◌then◌else◌, length,
}
use dentatus.Prelude.Eq.{string_eq}
use dentatus.Prelude.Dict.{Dict, lookup_or, insert}
use dentatus.Chronicle.Value.{Value}
use dentatus.Airlock.Adapter.{Adapter}
use dentatus.Airlock.Membrane.{gate_name, Reject, Commit, Ledger, empty_ledger}
use dentatus.Airlock.Propose.{Verdict, committed, rejected, Setup, propose}

pub record Geometry : Type 0 where
  pub realized : ℕ
  pub unrealized : ℕ
  pub proposed : ℕ
  pub admissibility_permille : Option ℕ
  pub proposal_pressure_permille : Option ℕ
  pub gate_histogram : Dict String ℕ
  pub dominant_gate : Option String
  pub mean_residual_commit : Option ℕ

-- `a * 1000 // n if n else None`
unfoldable pub permille : ℕ → ℕ → Option ℕ
permille a zero = none
permille a (suc n) = some (a * 1000 / suc n)

unfoldable pub histogram : List Reject → Dict String ℕ → Dict String ℕ
histogram [] hist = hist
histogram (s ∷ rejections) hist =
    histogram rejections (insert (gate_name s.gate) (lookup_or (gate_name s.gate) 0 hist + 1) hist)

-- `(count, gate)` of the entry is above that of the best
unfoldable pub above : String × ℕ → String × ℕ → Bool
above (g, n) (h, m) = elim (compare_text g h) [ Ordering.gt ↦ ltb m (n + 1) | _ ↦ ltb m n ]

unfoldable pub largest : String × ℕ → Dict String ℕ → String
largest best [] = best.0
largest best (e ∷ hist) = largest (if above e best then e else best) hist

unfoldable pub dominant : Dict String ℕ → Option String
unfolding largest
dominant [] = none
dominant (e ∷ hist) = some (largest e hist)

-- the residuals that are integers
unfoldable pub residuals : List Commit → List ℕ
residuals [] = []
residuals (c ∷ commits) =
    let rest = residuals commits in elim c.telemetry.residual [ some r ↦ r ∷ rest | none ↦ rest ]

unfoldable pub total : List ℕ → ℕ
total [] = 0
total (n ∷ ns) = n + total ns

unfoldable pub mean : List ℕ → Option ℕ
unfolding total
mean [] = none
mean (r ∷ rs) = some (total (r ∷ rs) / suc (length rs))

unfoldable pub geometry : Ledger → Geometry
unfolding permille histogram dominant residuals mean
geometry ledger =
    let nc = length ledger.commits in
    let nr = length ledger.rejections in
    let hist = histogram ledger.rejections [] in
    record {
      realized = nc;
      unrealized = nr;
      proposed = nc + nr;
      admissibility_permille = permille nc (nc + nr);
      proposal_pressure_permille = permille nr (nc + nr);
      gate_histogram = hist;
      dominant_gate = dominant hist;
      mean_residual_commit = mean (residuals ledger.commits);
    }

unfoldable pub add_histogram : Dict String ℕ → Dict String ℕ → Dict String ℕ
add_histogram [] hist = hist
add_histogram ((k, v) ∷ h) hist = add_histogram h (insert k (lookup_or k 0 hist + v) hist)

unfoldable pub merge_histograms : List Geometry → Dict String ℕ → Dict String ℕ
unfolding add_histogram
merge_histograms [] hist = hist
merge_histograms (g ∷ gs) hist = merge_histograms gs (add_histogram g.gate_histogram hist)

unfoldable pub sum_realized : List Geometry → ℕ
sum_realized [] = 0
sum_realized (g ∷ gs) = g.realized + sum_realized gs

unfoldable pub sum_unrealized : List Geometry → ℕ
sum_unrealized [] = 0
sum_unrealized (g ∷ gs) = g.unrealized + sum_unrealized gs

unfoldable pub merge : List Geometry → Geometry
unfolding permille merge_histograms dominant sum_realized sum_unrealized
merge geometries =
    let realized = sum_realized geometries in
    let unrealized = sum_unrealized geometries in
    let n = realized + unrealized in
    let hist = merge_histograms geometries [] in
    record {
      realized = realized;
      unrealized = unrealized;
      proposed = n;
      admissibility_permille = permille realized n;
      proposal_pressure_permille = permille unrealized n;
      gate_histogram = hist;
      dominant_gate = dominant hist;
      mean_residual_commit = none;
    }
