-- ===== src/BlockOrders/Priority.antt =====
-- crates/rbuilder/src/building/block_orders/order_priority.rs, and `Ord` of `OrderId`
-- (crates/rbuilder-primitives/src/lib.rs): which of two simulated orders is tried first. A U256
-- product wraps.
pub mod Total
pub mod Examples
use Prim.Native.Nat.{compare, Ordering}
use constraints_builder.Shared.{
  ℕ, ◌*◌, ◌%◌, ◌^◌, Bool, true, false, ◌&&◌, not, List, [], ◌∷◌, length, leb, ltb, nat_beq,
  if◌then◌else◌, ◌==◌,
}
use constraints_builder.Primitives.Orders.{Order, OrderId, order_id_eq}
use constraints_builder.Primitives.Sbundle
use constraints_builder.Primitives.SimValue.{SimulatedOrder, SimValue, ProfitInfo, sim_id}
use constraints_builder.BlockOrders.Queue.{OrderPriority}

-- `Ordering::then_with`
unfoldable pub then_with : Ordering → Ordering → Ordering
then_with Ordering.lt o = Ordering.lt
then_with Ordering.eq o = o
then_with Ordering.gt o = Ordering.gt

-- The 32 bytes as a big-endian number: a uuid fills the first 16.
unfoldable pub fixed_bytes : OrderId → ℕ
fixed_bytes (OrderId.tx hash) = hash
fixed_bytes (OrderId.bundle uuid) = uuid * 2 ^ 128
fixed_bytes (OrderId.share_bundle hash) = hash

unfoldable pub rank : OrderId → ℕ
rank (OrderId.tx hash) = 1
rank (OrderId.bundle uuid) = 2
rank (OrderId.share_bundle hash) = 3

-- `Ord for OrderId`
unfoldable pub order_id_cmp : OrderId → OrderId → Ordering
unfolding then_with
order_id_cmp a b = then_with (compare (fixed_bytes a) (fixed_bytes b)) (compare (rank a) (rank b))

-- `ProfitInfoGetter`
pub data ProfitInfoGetter : Type 0 where
  full_profit : ProfitInfoGetter
  non_mempool_profit : ProfitInfoGetter

unfoldable pub get_profit_info : ProfitInfoGetter → SimValue → ProfitInfo
get_profit_info ProfitInfoGetter.full_profit v = v.full_profit_info
get_profit_info ProfitInfoGetter.non_mempool_profit v = v.non_mempool_profit_info

unfoldable pub is_tx : Order → Bool
is_tx (Order.tx t) = true
is_tx (Order.bundle b) = false
is_tx (Order.share_bundle b) = false

-- `Order::list_txs_len`
unfoldable pub order_txs_len : Order → ℕ
order_txs_len (Order.bundle b) = length b.txs
order_txs_len (Order.tx t) = 1
order_txs_len (Order.share_bundle b) = b.list_txs_len

abbrev pub bool_same : Bool → Bool → Bool
bool_same true b = b
bool_same false b = not b

-- A comparison that the macro takes: its `eq` and its `cmp`.
pub data Cmp : Type 0 where
  mev_gas_price : ProfitInfoGetter → Cmp
  max_profit : ProfitInfoGetter → Cmp
  order_type : Cmp
  length_three : Cmp

unfoldable pub is_long : SimulatedOrder → Bool
is_long a = leb 3 (order_txs_len a.order)

unfoldable pub gas_price_of : ProfitInfoGetter → SimulatedOrder → ℕ
gas_price_of g a = (get_profit_info g a.sim_value).mev_gas_price

unfoldable pub profit_of : ProfitInfoGetter → SimulatedOrder → ℕ
profit_of g a = (get_profit_info g a.sim_value).coinbase_profit

unfoldable pub cmp_eq : Cmp → SimulatedOrder → SimulatedOrder → Bool
cmp_eq (Cmp.mev_gas_price g) a b = nat_beq (gas_price_of g a) (gas_price_of g b)
cmp_eq (Cmp.max_profit g) a b = nat_beq (profit_of g a) (profit_of g b)
cmp_eq Cmp.order_type a b = bool_same (is_tx a.order) (is_tx b.order)
cmp_eq Cmp.length_three a b = bool_same (is_long a) (is_long b)

unfoldable pub cmp_cmp : Cmp → SimulatedOrder → SimulatedOrder → Ordering
cmp_cmp (Cmp.mev_gas_price g) a b = compare (gas_price_of g a) (gas_price_of g b)
cmp_cmp (Cmp.max_profit g) a b = compare (profit_of g a) (profit_of g b)
cmp_cmp Cmp.order_type a b =
    if bool_same (is_tx a.order) (is_tx b.order)
    then Ordering.eq
    else if is_tx a.order
    then Ordering.lt
    else Ordering.gt
cmp_cmp Cmp.length_three a b =
    if bool_same (is_long a) (is_long b)
    then Ordering.eq
    else if is_long a
    then Ordering.gt
    else Ordering.lt

-- What `create_order_priority!` writes: the comparisons in turn, and then the ids.
unfoldable pub priority_eq : List Cmp → SimulatedOrder → SimulatedOrder → Bool
priority_eq [] a b = sim_id a == sim_id b
priority_eq (c ∷ cs) a b = cmp_eq c a b && priority_eq cs a b

unfoldable pub priority_cmp : List Cmp → SimulatedOrder → SimulatedOrder → Ordering
priority_cmp [] a b = order_id_cmp (sim_id a) (sim_id b)
priority_cmp (c ∷ cs) a b = then_with (cmp_cmp c a b) (priority_cmp cs a b)

-- Any execution giving less than this might be rejected.
abbrev pub min_sim_result_percentage : ℕ
min_sim_result_percentage = 95

abbrev pub u256_mod : ℕ
u256_mod = 2 ^ 256

unfoldable pub new_sim_value_too_low : ℕ → ℕ → Bool
new_sim_value_too_low original_sim new_sim =
    ltb ((new_sim * 100) % u256_mod) ((original_sim * min_sim_result_percentage) % u256_mod)

unfoldable pub simulation_too_low_gas_price : ProfitInfoGetter → SimValue → SimValue → Bool
simulation_too_low_gas_price g original new =
    new_sim_value_too_low (get_profit_info g original).mev_gas_price
      (get_profit_info g new).mev_gas_price

unfoldable pub simulation_too_low_profit : ProfitInfoGetter → SimValue → SimValue → Bool
simulation_too_low_profit g original new =
    new_sim_value_too_low (get_profit_info g original).coinbase_profit
      (get_profit_info g new).coinbase_profit

-- The five priorities that the macro creates.
pub data NamedPriority : Type 0 where
  order_mev_gas_price : NamedPriority
  order_max_profit : NamedPriority
  order_type : NamedPriority
  order_length_three_max_profit : NamedPriority
  order_length_three_mev_gas_price : NamedPriority

unfoldable pub comparisons : NamedPriority → ProfitInfoGetter → List Cmp
comparisons NamedPriority.order_mev_gas_price g = Cmp.mev_gas_price g ∷ []
comparisons NamedPriority.order_max_profit g = Cmp.max_profit g ∷ []
comparisons NamedPriority.order_type g = Cmp.order_type ∷ Cmp.max_profit g ∷ []
comparisons NamedPriority.order_length_three_max_profit g = Cmp.length_three ∷ Cmp.max_profit g ∷ []
comparisons NamedPriority.order_length_three_mev_gas_price g =
    Cmp.length_three ∷ Cmp.mev_gas_price g ∷ []

unfoldable pub simulation_too_low : NamedPriority → ProfitInfoGetter → SimValue → SimValue → Bool
simulation_too_low NamedPriority.order_mev_gas_price g = simulation_too_low_gas_price g
simulation_too_low NamedPriority.order_max_profit g = simulation_too_low_profit g
simulation_too_low NamedPriority.order_type g = simulation_too_low_profit g
simulation_too_low NamedPriority.order_length_three_max_profit g = simulation_too_low_profit g
simulation_too_low NamedPriority.order_length_three_mev_gas_price g = simulation_too_low_profit g

-- The order of the orders as the main queue takes it.
abbrev pub by_priority : List Cmp → OrderPriority
by_priority cs = record {
  Priority = SimulatedOrder;
  new = λ o. o;
  le = λ a b. elim (priority_cmp cs a b) [ Ordering.gt ↦ false | _ ↦ true ];
}
