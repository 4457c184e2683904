-- ===== src/Simulation.antt =====
-- The simulation of orders: crates/rbuilder/src/building/sim.rs and
-- crates/rbuilder/src/live_builder/simulation.
pub mod TreeState
mod Filled
pub mod Tree
pub mod Job
mod Examples
