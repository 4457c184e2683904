-- ===== src/BlockOrders/Intake/Examples.antt =====
-- Runs of the intake store, and a witness.
use constraints_builder.Shared.{◌≡◌, refl, true, List, [], ◌∷◌}
use constraints_builder.Primitives.Orders
use constraints_builder.Primitives.SimValue.{SimulatedOrder, sim_id}
use constraints_builder.Simulation.Job.{SimulatedOrderCommand}
use constraints_builder.BlockOrders.Priority.Examples.{simulated}
use constraints_builder.BlockOrders.Intake.{
  Received, new_intake, consume_next_batch, try_drain_new_orders_if_no_cancellations,
}
use constraints_builder.BlockOrders.Intake.Synced.{IsSame, rounds, rounds-new_intake-IsSame}

abbrev arrives : SimulatedOrder → Received
arrives o = Received.order (SimulatedOrderCommand.simulation o)

-- Two orders, of which the second comes with the cancellation of the first.
abbrev two_batches : List (Received × List Received)
two_batches =
    (arrives (simulated 1 30), [])
    ∷ (
      arrives (simulated 2 70),
      Received.order (SimulatedOrderCommand.cancellation (sim_id (simulated 1 30))) ∷ [],
    )
    ∷ []

rounds_test :
    (rounds two_batches (new_intake, [])).1 ≡ (sim_id (simulated 2 70), simulated 2 70) ∷ []
unfolding consume_next_batch try_drain_new_orders_if_no_cancellations Orders.id
rounds_test = refl

-- A closed channel does not stop the consumer.
closed_test : (consume_next_batch Received.closed [] new_intake).0 ≡ true
unfolding consume_next_batch
closed_test = refl

rounds-new_intake-IsSame_example :
    IsSame
      (rounds two_batches (new_intake, [])).1
      (rounds two_batches (new_intake, [])).0.order_sink.orders
rounds-new_intake-IsSame_example = rounds-new_intake-IsSame two_batches
