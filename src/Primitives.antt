-- ===== src/Primitives.antt =====
-- crates/rbuilder-primitives: orders, their identifiers, their nonces and what a simulation says of
-- them.
pub mod Tx
pub mod Examples
pub mod Sbundle
pub mod Orders
pub mod Nonces
pub mod SimValue
pub mod Statistics
