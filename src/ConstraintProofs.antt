-- ===== src/ConstraintProofs.antt =====
-- The proofs that constraint transactions are in a block.
pub mod Storage
pub mod Trie
pub mod Observer
mod Examples
