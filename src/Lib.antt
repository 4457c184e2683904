-- ===== src/Lib.antt =====
-- The block builder (crates/), modelled and verified: how orders and constraints reach a block.
--
-- Parts and files. The state of a Rust object is a record, a method a function that returns the new
-- state and its result, an enum a data type, a trait a record of functions.
--   Shared: Boolean tests, lists, sets and the standard library's hash maps.
--   Primitives: crates/rbuilder-primitives/src: transactions (Tx), share bundles (Sbundle), orders
--     (Orders) and the constructors of share bundles (Orders.ShareBundles), the nonces of an order
--     (Nonces), simulation values (SimValue), order counts (Statistics).
--   OrderInput: crates/rbuilder/src/live_builder/order_input: the sinks of orders (Sink:
--     order_sink.rs), the manager of replacements (Replacement: order_replacement_manager.rs) and the
--     repository of orders (PoolState, Pool: orderpool.rs).
--   ConstraintInput: crates/rbuilder/src/live_builder/constraint_input: constraints and their sinks
--     (Sink: constraint_sink.rs, crates/rbuilder-primitives/src/constraints.rs), the cache of known
--     constraints (Lru), the pool (Pool: constraintpool.rs).
--   BlockOrders: crates/rbuilder/src/building/block_orders: the simulated orders by priority and nonce
--     (Store: prioritized_order_store.rs), over a priority and a queue (Queue),
--     and the priorities (Priority: order_priority.rs); the stores that a builder fills from the
--     channel of simulated orders (Intake, Intake.Consumer: mod.rs,
--     crates/rbuilder/src/building/builders/mod.rs and
--     parallel_builder/order_intake_store.rs beside it).
--   Simulation: the tree of simulations (TreeState, Tree: crates/rbuilder/src/building/sim.rs) and the
--     job that feeds it (Job: crates/rbuilder/src/live_builder/simulation/simulation_job.rs).
--   Parallel: crates/rbuilder/src/building/builders/parallel_builder: the best results of groups
--     (Results: results_aggregator.rs), the cache of simulations (SimulationCache:
--     simulation_cache.rs), the tasks (Task: task.rs) and their generator (TaskGenerator:
--     conflict_task_generator.rs), the finder of conflicts (Groups: groups.rs) and the resolver, which
--     commits the orders of a group in given sequences (Resolver: conflict_resolvers.rs). The loop
--     that feeds them is in Intake (run_order_intake of mod.rs).
--   Redistribution: crates/rbuilder/src/backtest/redistribute/redistribution_algo.rs: how the profit of
--     a landed block is given back (Signed: I256; Calculate: calculate_redistribution).
--   ConstraintProofs: crates/rbuilder/src/live_builder/block_output: the storage of proofs (Storage:
--     constraint_proof_storage.rs) and the observer that generates them (Observer:
--     constraint_proof_observer.rs), with the trie of the transactions of a block (Trie:
--     crates/rbuilder/src/building/constraint_proofs.rs).
--
-- Orders and cancellations go from the pool through the manager to the simulation job, which sends
-- the simulated ones and cancellations to the block order stores; constraints go from their pool to
-- the builders of a block.
--
-- Addresses, hashes and uuids are numbers, since they are only compared, for equality
-- or order. A hash map is an association list; its order stands for the table's. Where a number of the
-- source can wrap, the wrap is written out. Loops walk lists, but for two on fuel that is shown to be
-- enough: the one that empties the ready simulations (Simulation.Job.send_loop), with their number
-- and one, and the one over the prefixes of an ordering (Parallel.SimulationCache.longest_prefix),
-- with its length and one. The loop of the resolver takes one from a
-- budget for each commit, which the number of orders is shown to cover
-- (Parallel.Resolver.Loop.process_loop).
--
-- Parameters: code of other crates (keccak256, alone or over SSZ, the `lru` cache, the queue of
-- `priority-queue`, the tries of eth_trie, RLP, `permutations` and `shuffle`) and trait objects enter
-- as arguments, with what their documentation says as fields; so do the clock, random numbers, the
-- nonces of the chain, and the answers of channels.
--
-- Not modelled: tasks, channels and locks of tokio and parking_lot (each locked call is a step), RPC
-- servers, logs, metrics, configuration, execution in the EVM, tries, databases.
pub mod Shared
pub mod Primitives
pub mod OrderInput
pub mod ConstraintInput
pub mod BlockOrders
pub mod Simulation
pub mod ConstraintProofs
pub mod Redistribution
pub mod Parallel
