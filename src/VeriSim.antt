-- ===== src/VeriSim.antt =====
-- VeriSim/: verifiable simulations over tessera shards and Merkle batches.
pub mod Scenarios
pub mod Runner
pub mod Court
pub mod Fields
pub mod Regular
