-- ===== src/Consequence.antt =====
-- consequence/: how much of the future hangs on a node of a dependency graph, and what is worth a budget.
pub mod Graph
pub mod Propagation
pub mod Cache
