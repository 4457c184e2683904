-- ===== src/Primitives/SimValue.antt =====
-- What a simulation says of an order (crates/rbuilder-primitives/src/lib.rs). Profits are `U256`
-- values, gas and blob gas `u64`, which wrap in a release build.
use constraints_builder.Shared.{
  ◌>>=◌, ℕ, ◌+◌, ◌-◌, ◌/◌, ◌%◌, Option, none, some, List, if◌then◌else◌, nat_beq, ltb,
}
use constraints_builder.Primitives.Tx.{Address, B256, u64_mod}
use constraints_builder.Primitives.Orders
use constraints_builder.Primitives.Orders.{Order, OrderId}

pub record BlockSpace : Type 0 where
  pub gas : ℕ
  pub rlp_length : ℕ
  pub blob_gas : ℕ

-- `Add` and `AddAssign`; `usize` has 64 bits.
unfoldable pub add : BlockSpace → BlockSpace → BlockSpace
add a b = record {
  gas = (a.gas + b.gas) % u64_mod;
  rlp_length = (a.rlp_length + b.rlp_length) % u64_mod;
  blob_gas = (a.blob_gas + b.blob_gas) % u64_mod;
}

-- `checked_sub(..)`: `none` is the panic of its `unwrap`.
abbrev pub checked_sub : ℕ → ℕ → Option ℕ
checked_sub a b = if ltb a b then none else some (a - b)

-- `SubAssign`
unfoldable pub sub : BlockSpace → BlockSpace → Option BlockSpace
sub a b = do
  g ← checked_sub a.gas b.gas
  r ← checked_sub a.rlp_length b.rlp_length
  l ← checked_sub a.blob_gas b.blob_gas
  some (record { gas = g; rlp_length = r; blob_gas = l })

pub record ProfitInfo : Type 0 where
  pub coinbase_profit : ℕ
  pub mev_gas_price : ℕ

unfoldable pub profit_info : ℕ → ℕ → ProfitInfo
profit_info coinbase_profit gas_used = record {
  coinbase_profit = coinbase_profit;
  mev_gas_price = if nat_beq gas_used 0 then 0 else coinbase_profit / gas_used;
}

pub record SimValue : Type 0 where
  pub full_profit_info : ProfitInfo
  pub non_mempool_profit_info : ProfitInfo
  pub space_used : BlockSpace
  pub paid_kickbacks : List (Address × ℕ)

-- `SimValue::new`
unfoldable pub sim_value : ℕ → ℕ → BlockSpace → List (Address × ℕ) → SimValue
unfolding profit_info
sim_value full_coinbase_profit non_mempool_coinbase_profit space_used paid_kickbacks = record {
  full_profit_info = profit_info full_coinbase_profit space_used.gas;
  non_mempool_profit_info = profit_info non_mempool_coinbase_profit space_used.gas;
  space_used = space_used;
  paid_kickbacks = paid_kickbacks;
}

pub record SlotKey : Type 0 where
  pub address : Address
  pub key : B256

-- `UsedStateTrace` (evm_inspector.rs): of the hash maps only the keys are used here.
pub record UsedStateTrace : Type 0 where
  pub read_slot_values : List SlotKey
  pub written_slot_values : List SlotKey
  pub read_balances : List Address
  pub received_amount : List Address
  pub sent_amount : List Address
  pub created_contracts : List Address
  pub destructed_contracts : List Address

pub record SimulatedOrder : Type 0 where
  pub order : Order
  pub sim_value : SimValue
  pub used_state_trace : Option UsedStateTrace

-- `SimulatedOrder::id`
abbrev pub sim_id : SimulatedOrder → OrderId
sim_id s = Orders.id s.order
