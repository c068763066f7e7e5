-- ===== src/Stasis.antt =====
-- The canonical boundary (stasis/): the Iron Canon, drift classification and Merkle batches.
pub mod Canon
pub mod Batch
