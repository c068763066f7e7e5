-- ===== src/Tests.antt =====
-- Runs on concrete inputs, and the theorems at concrete inputs.
mod Chronicle
mod Stasis
mod Fuel
mod Keys
mod Quorum
mod Polity
mod Pact
mod Airlock
mod Conformance
mod Crucible
mod Lattice
mod Lockstep
mod Ration
mod Glitch
mod Tessera
mod Elenchus
mod Possibility
mod Frames
mod Capture
mod VeriSim
mod VeriVerse
mod Consequence
mod CausalRuntime
