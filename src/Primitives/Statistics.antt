-- ===== src/Primitives/Statistics.antt =====
-- crates/rbuilder-primitives/src/order_statistics.rs. An `i32` is its bit pattern below 2^32.
use constraints_builder.Shared.{ℕ, ◌+◌, ◌-◌, ◌%◌, ◌^◌, if◌then◌else◌, ltb}
use constraints_builder.Primitives.Orders.{Order}

abbrev pub i32_mod : ℕ
i32_mod = 2 ^ 32

pub record OrderStatistics : Type 0 where
  pub tx_count : ℕ
  pub bundle_count : ℕ
  pub sbundle_count : ℕ

abbrev pub default : OrderStatistics
default = record { tx_count = 0; bundle_count = 0; sbundle_count = 0 }

abbrev inc : ℕ → ℕ
inc n = (n + 1) % i32_mod

abbrev dec : ℕ → ℕ
dec n = (n + (i32_mod - 1)) % i32_mod

unfoldable pub add : OrderStatistics → Order → OrderStatistics
add s (Order.bundle b) = record s { bundle_count = inc s.bundle_count }
add s (Order.tx t) = record s { tx_count = inc s.tx_count }
add s (Order.share_bundle b) = record s { sbundle_count = inc s.sbundle_count }

unfoldable pub remove : OrderStatistics → Order → OrderStatistics
remove s (Order.bundle b) = record s { bundle_count = dec s.bundle_count }
remove s (Order.tx t) = record s { tx_count = dec s.tx_count }
remove s (Order.share_bundle b) = record s { sbundle_count = dec s.sbundle_count }

-- `as u64` of an `i32` extends the sign.
abbrev as_u64 : ℕ → ℕ
as_u64 n = if ltb n (2 ^ 31) then n else n + (2 ^ 64 - i32_mod)

unfoldable pub total : OrderStatistics → ℕ
total s = (as_u64 s.tx_count + as_u64 s.bundle_count + as_u64 s.sbundle_count) % 2 ^ 64
