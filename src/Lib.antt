-- ===== src/Lib.antt =====
-- Dentatus: deterministic, content-addressed decisions.
--
-- The program is a family of small Python packages over one frozen core. `chronicle` turns a value into
-- canonical bytes and addresses it by their SHA-256; `stasis` says which values may be hashed and folds
-- many hashes into one Merkle root; `fuel` runs integer programs under a budget; `quorum` tallies the
-- signed votes of pinned witnesses; `polity` ratifies versions of a ruleset by such a tally; `pact` chains
-- the signed receipts of agents that check one another; `airlock` is the membrane that lets a proposed
-- transition of a world through its gates, or refuses it, and keeps a hash-chained ledger of both.
-- `syracuse` and `crucible` give integer workloads that are easy to verify; `glitch` searches a state
-- machine for a violation of an invariant; `tessera` makes a shard of a computation's history that anyone
-- can replay; `lockstep` keeps a track of ticks and runs it again when an authority corrects its inputs;
-- `ration` gates integer counts of logical steps; `elenchus` replays a derivation step by step under pinned
-- rules; `aether` computes in fixed point; `VeriSim` runs scenarios whose path and states are proven by a
-- shard and a Merkle root; `consequence` weighs the nodes of a dependency graph and caches the best tokens;
-- `causal_runtime` tests proposed edges on held-out history before they may claim structure; `VeriVerse`
-- computes a world from a seed and signs its chunks.
--
-- Which file models what (paths are the repository's):
-- - Chronicle/Value, Chronicle/Canonical: chronicle/core.py. `canon` is `_canon`, `dumps` is
--   `json.dumps` with sorted keys, `canonical_bytes` and `state_hash` keep their names.
-- - Chronicle/Signing: the seam of chronicle/signing.py, an interface.
-- - Stasis/Canon: stasis/canon.py; Stasis/Batch: stasis/batch.py.
-- - Fuel, Fuel/Run: fuel/vm.py (`vm_step`; `run`). `attempt`, `charge` and `exec` are the parts of `vm_step`.
-- - Quorum/Votes, Quorum/Tally: quorum/tally.py. The parts of `tally` have names of their own.
-- - Quorum/Lattice: quorum/lattice.py, over Quorum/Tally and Pact.
-- - Polity: polity/constitution.py. Pact: pact/covenant.py.
-- - Airlock/Adapter: airlock/contract.py; Airlock/Membrane and Airlock/Propose: airlock/membrane.py, where
--   `propose` is one function for each stage; Airlock/KeyValue: airlock/adapters_kv.py.
-- - Chronicle/Recorder: `Recorder` of chronicle/core.py and `MemoryStore` of chronicle/store.py;
--   Chronicle/Court: `verify_chain` of chronicle/court.py.
-- - Chronicle/Capture: chronicle/capture.py, where `capture_get` is `Capture._get`.
-- - Airlock/Audit: `audit` of airlock/membrane.py; Airlock/Possibility: airlock/possibility.py and
--   airlock/horizon.py; Airlock/Impact: airlock/impact.py.
-- - Airlock/Conformance: airlock/conformance.py; Airlock/Admissibility: airlock/admissibility.py.
-- - Syracuse: syracuse/orbit.py; Crucible: crucible/forest.py, whose `generate` is `grow` on the queue.
-- - Glitch: glitch/explorer.py, where `explore` is `search` on the queue and `scan` is its inner loop.
-- - Tessera: tessera/shard.py, where `roll` is `roll_from` on the steps that are left.
-- - Lockstep: lockstep/tick.py and lockstep/rollback.py.
-- - Lockstep/Frames: lockstep/interp.py.
-- - Ration: ration/meter.py.
-- - Elenchus: elenchus/interrogate.py, where `interrogate` is the loop of `verify_trace`.
-- - Aether/FixedPoint: aether/fixedpoint.py.
-- - Consequence/Graph: consequence/graph.py; Consequence/Propagation: consequence/propagation.py;
--   Consequence/Cache: consequence/fingerprint.py and consequence/cache.py.
-- - CausalRuntime/Falsification, CausalRuntime/Tiers: causal_runtime/falsification.py and tiers.py.
-- - CausalRuntime/Fallback: causal_runtime/fallback.py, the latch and its signal.
-- - VeriSim/Scenarios, VeriSim/Runner, VeriSim/Court: VeriSim/scenarios.py, runner.py and court.py.
-- - VeriVerse/Physics, VeriVerse/Noise, VeriVerse/World, VeriVerse/Shards: VeriVerse/physics.py, noise.py,
--   world.py and shards.py; `fall` is the body of the loops of `step`.
-- - Prelude: what the parts share. Tests: runs, and the theorems at concrete inputs.
-- The other files state and prove: each is named for what it proves.
--
-- How state is modelled. A ledger, a machine, a store is a record, and an operation returns the new one.
-- A Python exception is the `err` of `Outcome`; the exceptions that a caller catches are values of their
-- own. A dict is a list of pairs in insertion order, a set is a list. Python's integers are `ℤ`, or `ℕ`
-- where they count.
--
-- What is a parameter. SHA-256 is a function on texts; nothing is assumed of it, and the number of its first
-- eight bytes is another. The step budget of the orbits behind a chunk's feature is an argument. A
-- signer and a verifier are records; where a theorem needs a key pair to match, it says so (`Matches`).
-- Python's `repr` of a proposal, which enters the hash of a refused proposal, is a function, and so is
-- what `int` reads of a text. An adapter's operations may raise, but for `state_hash`: the worlds of the
-- modelled kernels hold canonical values.
--
-- Bounds and fuel. The machine's loop is given the number of rounds after which its own guard raises;
-- the decimal digits of n take at most n + 1 rounds, since each one divides; a Merkle tree is climbed in
-- at most as many levels as it has leaves, since each level halves what has more than one node. The
-- forest is grown with a unit of fuel for the root and for every seed that may be emitted; the search of
-- glitch has a unit for every node of the tree of its events down to its depth. A trace
-- of n steps is interrogated in n + 1 rounds, one for each step and one that finds the end. The sand has
-- the budget of its caller.
--
-- Not modelled. A float carries the text that `format(x, ".12g")` gives and whether it is finite; ratios
-- of a certificate are a numerator and a denominator. Sets, raw bytes, objects of other classes and dict
-- keys that are no texts have no value here. A proposal is a dict, as its callers build it; its budget,
-- constraints and claims are any values, and what the source raises on one of the wrong shape is an `err`.
-- A limit or a count is a float in none of them, since the CANON gate refuses floats first. `%r` of a text
-- is written for texts that need no escape. The packages on floats and matrices (the rest of aether,
-- AetherPulse, AetherManifold, manifold, dini), on experiments and scores (salience, intervention, assay,
-- toolkit), the servers and agents, the game and the archive under docs are left out.
pub mod Prelude
pub mod Chronicle
pub mod Stasis
pub mod Fuel
pub mod Quorum
pub mod Polity
pub mod Pact
pub mod Airlock
pub mod Syracuse
pub mod Crucible
pub mod Glitch
pub mod Tessera
pub mod Lockstep
pub mod Ration
pub mod Elenchus
pub mod Aether
pub mod VeriSim
pub mod Consequence
pub mod CausalRuntime
pub mod VeriVerse
pub mod Tests
