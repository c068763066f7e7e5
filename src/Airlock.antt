-- ===== src/Airlock.antt =====
-- airlock/: the membrane through which a proposer's transition reaches a deterministic kernel.
pub mod Adapter
pub mod Membrane
pub mod Propose
pub mod Gates
pub mod Conditions
pub mod Admitted
pub mod Admission
pub mod Audit
pub mod Possibility
pub mod Impact
pub mod KeyValue
pub mod Admissibility
pub mod Conformance
