-- ===== src/OrderInput.antt =====
-- crates/rbuilder/src/live_builder/order_input: orders and cancellations on their way to a block.
pub mod Sink
mod Examples
pub mod Replacement
pub mod PoolState
pub mod Pool
