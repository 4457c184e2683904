-- ===== src/ConstraintInput.antt =====
-- crates/rbuilder/src/live_builder/constraint_input: the pool of constraints and its sinks.
pub mod Sink
mod Examples
pub mod Lru
pub mod Pool
