-- ===== src/Aether.antt =====
-- aether/: fixed-point arithmetic in integers.
pub mod FixedPoint
pub mod Rounding
