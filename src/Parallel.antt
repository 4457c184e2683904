-- ===== src/Parallel.antt =====
-- The parallel builder (crates/rbuilder/src/building/builders/parallel_builder): the best results of
-- the groups of orders, the cache of simulations and the order of tasks.
pub mod Results
pub mod SimulationCache
pub mod Task
pub mod Groups
pub mod Resolver
pub mod TaskGenerator
pub mod Intake
pub mod Examples
