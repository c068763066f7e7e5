-- ===== src/CausalRuntime/Fallback.antt =====
-- causal_runtime/fallback.py: the latch that gives up an unreliable field for the distance, and takes it
-- up again. The allocation and its benchmark are not modelled.
pub mod Hysteresis
use dentatus.Prelude.{ℕ, suc, Bool, not, if◌then◌else◌, List, [], ◌∷◌}
use dentatus.Prelude.Int.{ℤ, pos, ◌-ℤ◌, ltb_ℤ}

pub data Mode : Type 0 where
  future : Mode
  distance : Mode

abbrev pub scale : ℤ
scale = pos 65536

abbrev min : ℤ → ℤ → ℤ
min a b = if ltb_ℤ b a then b else a

abbrev max : ℤ → ℤ → ℤ
max a b = if ltb_ℤ a b then b else a

unfoldable pub reliability : ℤ → ℤ
reliability ghost_pressure_q16 = max (pos 0) (scale -ℤ max (pos 0) (min scale ghost_pressure_q16))

pub record DegradationLatch : Type 0 where
  pub threshold : ℤ
  pub persist : ℤ
  pub mode : Mode
  pub low : ℕ
  pub high : ℕ

-- `DegradationLatch(threshold, persist)`
abbrev pub new_latch : ℤ → ℤ → DegradationLatch
new_latch threshold persist = record {
  threshold = threshold;
  persist = persist;
  mode = future;
  low = 0;
  high = 0;
}

-- the mode where the count has reached `persist`
abbrev pub switch : Mode → ℕ → DegradationLatch → Mode
switch target count latch = if not (ltb_ℤ (pos count) latch.persist) then target else latch.mode

-- `update`, whose result is the mode
unfoldable pub update : ℤ → DegradationLatch → DegradationLatch
update rel latch =
    if ltb_ℤ rel latch.threshold
    then record latch {
      low = suc latch.low;
      high = 0;
      mode = switch distance (suc latch.low) latch;
    }
    else record latch {
      high = suc latch.high;
      low = 0;
      mode = switch future (suc latch.high) latch;
    }

-- the latch after the frames, of which the last comes first
unfoldable pub latch_after : ℤ → ℤ → List ℤ → DegradationLatch
unfolding update
latch_after threshold persist [] = new_latch threshold persist
latch_after threshold persist (rel ∷ earlier) = update rel (latch_after threshold persist earlier)
