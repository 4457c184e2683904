-- ===== src/BlockOrders/Intake.antt =====
-- The way of simulated orders to a builder: `OrderConsumer` (crates/rbuilder/src/building/builders/
-- mod.rs), `SimulatedOrderStore` (block_orders/mod.rs) and `OrderIntakeStore`
-- (builders/parallel_builder/order_intake_store.rs). The channel is the list of its answers.
pub mod Synced
pub mod Consumer
pub mod Examples
use constraints_builder.Shared.{ℕ, Bool, true, false, Option, none, some, List, [], ◌∷◌, ◌++◌, take}
use constraints_builder.Shared.Map.{Map, lookup, insert, remove, values}
use constraints_builder.Primitives.Orders.{OrderId, order_id_eq}
use constraints_builder.Primitives.SimValue.{SimulatedOrder, sim_id}
use constraints_builder.Simulation.Job.{SimulatedOrderCommand}

-- What `blocking_recv` and `try_recv` answer; only the second is ever `empty`.
pub data Received : Type 0 where
  order : SimulatedOrderCommand → Received
  closed lagged empty : Received

pub record OrderConsumer : Type 0 where
  pub new_commands : List SimulatedOrderCommand

abbrev push : SimulatedOrderCommand → OrderConsumer → OrderConsumer
push command c = record c { new_commands = c.new_commands ++ command ∷ [] }

-- The loop over `try_recv`, on its answers; after the last of them nothing is there.
unfoldable pub receive_more : List Received → OrderConsumer → Bool × OrderConsumer
receive_more [] c = (true, c)
receive_more (Received.order command ∷ answers) c = receive_more answers (push command c)
receive_more (Received.empty ∷ answers) c = (true, c)
receive_more (Received.closed ∷ answers) c = (false, c)
receive_more (Received.lagged ∷ answers) c = (true, c)

unfoldable pub blocking_consume_next_commands :
    Received → List Received → OrderConsumer → Bool × OrderConsumer
unfolding receive_more
blocking_consume_next_commands (Received.order command) answers c =
    receive_more (take 1024 answers) (push command c)
blocking_consume_next_commands Received.closed answers c = (false, c)
blocking_consume_next_commands Received.lagged answers c = receive_more (take 1024 answers) c
blocking_consume_next_commands Received.empty answers c = receive_more (take 1024 answers) c

pub record SimulatedOrderStore : Type 0 where
  pub orders : Map OrderId SimulatedOrder
  pub new_orders : Option (List SimulatedOrder)

-- `SimulatedOrderStore::new`
abbrev pub no_orders : SimulatedOrderStore
no_orders = record { orders = []; new_orders = some [] }

unfoldable pub get_orders : SimulatedOrderStore → List SimulatedOrder
get_orders s = values s.orders

unfoldable pub drain_new_orders :
    SimulatedOrderStore → Option (List SimulatedOrder) × SimulatedOrderStore
drain_new_orders s = (s.new_orders, record s { new_orders = some [] })

unfoldable pub insert_order : SimulatedOrder → SimulatedOrderStore → SimulatedOrderStore
unfolding insert
insert_order sim_order s = record {
  orders = insert (sim_id sim_order) sim_order s.orders;
  new_orders = elim s.new_orders [ none ↦ none | some new ↦ some (new ++ sim_order ∷ []) ];
}

unfoldable pub remove_order :
    OrderId → SimulatedOrderStore → Option SimulatedOrder × SimulatedOrderStore
unfolding lookup remove
remove_order id s = (lookup id s.orders, record { orders = remove id s.orders; new_orders = none })

unfoldable pub simulated_order_command_to_sink :
    SimulatedOrderCommand → SimulatedOrderStore → SimulatedOrderStore
unfolding insert_order remove_order
simulated_order_command_to_sink (SimulatedOrderCommand.simulation sim_order) s =
    insert_order sim_order s
simulated_order_command_to_sink (SimulatedOrderCommand.cancellation id) s = (remove_order id s).1

unfoldable pub apply_commands :
    List SimulatedOrderCommand → SimulatedOrderStore → SimulatedOrderStore
unfolding simulated_order_command_to_sink
apply_commands [] s = s
apply_commands (command ∷ commands) s =
    apply_commands commands (simulated_order_command_to_sink command s)

-- The commands are drained.
unfoldable pub apply_new_commands :
    OrderConsumer → SimulatedOrderStore → OrderConsumer × SimulatedOrderStore
unfolding apply_commands
apply_new_commands c s = (record c { new_commands = [] }, apply_commands c.new_commands s)

pub record OrderIntakeStore : Type 0 where
  pub order_consumer : OrderConsumer
  pub order_sink : SimulatedOrderStore

-- `OrderIntakeStore::new`
abbrev pub new_intake : OrderIntakeStore
new_intake = record { order_consumer = record { new_commands = [] }; order_sink = no_orders }

-- Whether the channel is closed is not looked at.
unfoldable pub consume_next_batch :
    Received → List Received → OrderIntakeStore → Bool × OrderIntakeStore
unfolding blocking_consume_next_commands apply_new_commands
consume_next_batch first answers i =
    let received = blocking_consume_next_commands first answers i.order_consumer in
    let applied = apply_new_commands received.1 i.order_sink in
    (true, record { order_consumer = applied.0; order_sink = applied.1 })

unfoldable pub try_drain_new_orders_if_no_cancellations :
    OrderIntakeStore → Option (List SimulatedOrder) × OrderIntakeStore
unfolding drain_new_orders
try_drain_new_orders_if_no_cancellations i =
    let drained = drain_new_orders i.order_sink in (drained.0, record i { order_sink = drained.1 })
