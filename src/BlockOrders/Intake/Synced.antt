-- ===== src/BlockOrders/Intake/Synced.antt =====
-- A reader of the new orders knows the orders of the store.
use mathlib.Core.Path.{subst}
use constraints_builder.Shared.{
  ◌≡◌, ◌∙◌, refl, sym, ap, arith, Option, none, some, List, [], ◌∷◌, ◌++◌, some_inner,
}
use constraints_builder.Shared.Map.{Map, lookup, insert, lookup-insert}
use constraints_builder.Primitives.Orders.{OrderId, order_id_eq}
use constraints_builder.Primitives.SimValue.{SimulatedOrder, sim_id}
use constraints_builder.Simulation.Job.{SimulatedOrderCommand}
use constraints_builder.BlockOrders.Intake.{
  apply_new_commands, drain_new_orders, blocking_consume_next_commands, new_intake, Received,
  SimulatedOrderStore, OrderIntakeStore, insert_order, remove_order,
  simulated_order_command_to_sink, apply_commands, consume_next_batch,
  try_drain_new_orders_if_no_cancellations,
}

abbrev insert_all : List SimulatedOrder → Map OrderId SimulatedOrder → Map OrderId SimulatedOrder
insert_all [] known = known
insert_all (o ∷ orders) known = insert_all orders (insert (sim_id o) o known)

insert_all-append :
    (xs : List SimulatedOrder) (o : SimulatedOrder) (known : Map OrderId SimulatedOrder)
    → insert_all (xs ++ o ∷ []) known ≡ insert (sim_id o) o (insert_all xs known)
insert_all-append [] o known = refl
insert_all-append (x ∷ xs) o known = insert_all-append xs o (insert (sim_id x) x known)

abbrev pub IsSame : Map OrderId SimulatedOrder → Map OrderId SimulatedOrder → Type 0
IsSame a b = (id : OrderId) → lookup id a ≡ lookup id b

-- The new orders, when there are any, lead from what the reader knows to the orders of the store.
abbrev IsTracked : Map OrderId SimulatedOrder → SimulatedOrderStore → Type 0
IsTracked known s = elim s.new_orders [
  | none ↦ Unit
  | some new ↦ IsSame (insert_all new known) s.orders
]

-- What the reader does with the answer: it adds the new orders, or takes all orders anew.
abbrev pub read :
    Option (List SimulatedOrder)
    → Map OrderId SimulatedOrder
    → Map OrderId SimulatedOrder
    → Map OrderId SimulatedOrder
read none all known = all
read (some new) all known = insert_all new known

command-IsTracked :
    (command : SimulatedOrderCommand) (known orders : Map OrderId SimulatedOrder)
    (new : Option (List SimulatedOrder))
    → IsTracked known (record { orders = orders; new_orders = new })
    → IsTracked known
        (simulated_order_command_to_sink command (record { orders = orders; new_orders = new }))
unfolding simulated_order_command_to_sink insert_order remove_order
command-IsTracked (SimulatedOrderCommand.simulation o) known orders none h = tt
command-IsTracked (SimulatedOrderCommand.simulation o) known orders (some new) h = λ id.
    ap (lookup id) (insert_all-append new o known)
    ∙ ground (
      arith,
      lookup-insert (sim_id o) id o (insert_all new known),
      lookup-insert (sim_id o) id o orders,
      h id,
    )
command-IsTracked (SimulatedOrderCommand.cancellation i) known orders new h = tt

commands-IsTracked :
    (commands : List SimulatedOrderCommand) (known : Map OrderId SimulatedOrder)
    (s : SimulatedOrderStore)
    → IsTracked known s
    → IsTracked known (apply_commands commands s)
unfolding apply_commands
commands-IsTracked [] known s h = h
commands-IsTracked (command ∷ commands) known s h =
    commands-IsTracked commands known (simulated_order_command_to_sink command s)
      (command-IsTracked command known s.orders s.new_orders h)

read-IsSame :
    (new : Option (List SimulatedOrder)) (orders known : Map OrderId SimulatedOrder)
    → IsTracked known (record { orders = orders; new_orders = new })
    → IsSame (read new orders known) orders
read-IsSame none orders known h = λ id. refl
read-IsSame (some new) orders known h = h

-- A round of the builder: it consumes a batch, and then reads.
abbrev pub round :
    Received × List Received
    → OrderIntakeStore × Map OrderId SimulatedOrder
    → OrderIntakeStore × Map OrderId SimulatedOrder
round (first, answers) (i, known) =
    let consumed = (consume_next_batch first answers i).1 in
    let drained = try_drain_new_orders_if_no_cancellations consumed in
    (drained.1, read drained.0 consumed.order_sink.orders known)

abbrev pub rounds :
    List (Received × List Received)
    → OrderIntakeStore × Map OrderId SimulatedOrder
    → OrderIntakeStore × Map OrderId SimulatedOrder
rounds [] state = state
rounds (answers ∷ batches) state = rounds batches (round answers state)

abbrev IsSynced : OrderIntakeStore × Map OrderId SimulatedOrder → Type 0
IsSynced state =
    IsSame state.1 state.0.order_sink.orders × (state.0.order_sink.new_orders ≡ some [])

round-IsSynced :
    (answers : Received × List Received) (state : OrderIntakeStore × Map OrderId SimulatedOrder)
    → IsSynced state
    → IsSynced (round answers state)
unfolding consume_next_batch try_drain_new_orders_if_no_cancellations apply_new_commands
    drain_new_orders
round-IsSynced (first, answers) (i, known) (same, drained) =
    let received = (blocking_consume_next_commands first answers i.order_consumer).1 in
    let s = apply_commands received.new_commands i.order_sink in
    (
      read-IsSame s.new_orders s.orders known (
          commands-IsTracked received.new_commands known i.order_sink
            (tracked i.order_sink.new_orders drained)),
      refl,
    )
  where
    tracked :
        (new : Option (List SimulatedOrder))
        → new ≡ some []
        → IsTracked known (record { orders = i.order_sink.orders; new_orders = new })
    tracked none e = tt
    tracked (some new) e =
        subst (λ xs. IsSame (insert_all xs known) i.order_sink.orders) (sym (some_inner e)) same

pub rounds-IsSynced :
    (batches : List (Received × List Received))
    (state : OrderIntakeStore × Map OrderId SimulatedOrder)
    → IsSynced state
    → IsSynced (rounds batches state)
rounds-IsSynced [] state h = h
rounds-IsSynced (answers ∷ batches) state h =
    rounds-IsSynced batches (round answers state) (round-IsSynced answers state h)

-- Whatever a new intake store receives and in whatever batches, a reader that knows nothing at first,
-- and after each batch adds the new orders that it drains, or takes all orders anew when there is no
-- answer, knows after each batch exactly the orders of the store.
pub rounds-new_intake-IsSame :
    (batches : List (Received × List Received))
    → IsSame
        (rounds batches (new_intake, [])).1
        (rounds batches (new_intake, [])).0.order_sink.orders
rounds-new_intake-IsSame batches = (rounds-IsSynced batches (new_intake, []) (λ id. refl, refl)).0
