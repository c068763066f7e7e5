-- ===== src/Quorum.antt =====
-- quorum/: exact integer consensus over content-addressed state.
pub mod Votes
pub mod Tally
pub mod Lattice
