-- ===== src/OrderInput/Sink.antt =====
-- crates/rbuilder/src/live_builder/order_input/order_sink.rs: the trait `OrderSink` as an interface,
-- and `OrderStore`, which implements it. A method returns the new sink and its result; logging is
-- left out.
use constraints_builder.Shared.{Bool, true, List, []}
use constraints_builder.Shared.Map
use constraints_builder.Shared.Map.{Map, values}
use constraints_builder.Primitives.Orders
use constraints_builder.Primitives.Orders.{Order, OrderId, order_id_eq}

pub record OrderSink : Type 1 where
  pub Sink : Type 0
  pub insert_order : Sink → Order → Sink × Bool
  pub remove_order : Sink → OrderId → Sink × Bool
  pub is_alive : Sink → Bool

pub data OrderPoolCommand : Type 0 where
  insert : Order → OrderPoolCommand
  remove : OrderId → OrderPoolCommand

pub record OrderStore : Type 0 where
  pub orders : Map OrderId Order

abbrev pub new : OrderStore
new = record { orders = [] }

-- `OrderStore::orders` and `into_orders`
abbrev pub orders : OrderStore → List Order
orders s = values s.orders

unfoldable pub insert_order : OrderStore → Order → OrderStore × Bool
insert_order s order = (record s { orders = Map.insert (Orders.id order) order s.orders }, true)

unfoldable pub remove_order : OrderStore → OrderId → OrderStore × Bool
remove_order s id = (record s { orders = Map.remove id s.orders }, true)

-- `impl OrderSink for OrderStore`
abbrev pub order_store : OrderSink
order_store = record {
  Sink = OrderStore;
  insert_order = insert_order;
  remove_order = remove_order;
  is_alive = λ s. true;
}
