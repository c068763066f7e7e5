-- ===== src/CausalRuntime.antt =====
-- causal_runtime/: proposals of structure are tested on held-out history, and sorted into two tiers.
pub mod Falsification
pub mod Tiers
pub mod Fallback
pub mod Buckets
