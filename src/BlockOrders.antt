-- ===== src/BlockOrders.antt =====
-- crates/rbuilder/src/building/block_orders: the simulated orders of a block.
pub mod Intake
pub mod Queue
pub mod Priority
pub mod Store
mod Examples
