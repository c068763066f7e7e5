-- ===== src/VeriVerse.antt =====
-- VeriVerse/: worlds that are computed from a seed.
pub mod Physics
pub mod Noise
pub mod World
pub mod Shards
