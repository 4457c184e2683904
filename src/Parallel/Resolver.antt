-- ===== src/Parallel/Resolver.antt =====
-- conflict_resolvers.rs: the orders of a group are committed in the order of each of some sequences.
pub mod Errors
pub mod Loop
pub mod Run
pub mod Kept
pub mod Resolved
pub mod Sequence
pub mod Sorted
pub mod Ordered
pub mod Each
pub mod Tried
pub mod Planned
pub mod Solved
pub mod Examples
pub mod Sequences
