-- ===== src/Parallel/Intake/Examples.antt =====
-- A run of the order intake.
use constraints_builder.Shared.{ℕ, ◌≡◌, refl, Bool, false, some, List, [], ◌∷◌, map, ◌==◌, ◌>>=◌}
use constraints_builder.Primitives.Orders
use constraints_builder.Primitives.Orders.{OrderId, order_id_eq}
use constraints_builder.Primitives.SimValue.{SimulatedOrder, UsedStateTrace, sim_id}
use constraints_builder.Simulation.Job.{SimulatedOrderCommand}
use constraints_builder.BlockOrders.Priority.Examples.{simulated}
use constraints_builder.BlockOrders.Intake.{Received, new_intake, get_orders}
use constraints_builder.Parallel.Groups.Finder.{no_groups, get_order_groups}
use constraints_builder.Parallel.Intake.{ParallelIntake, Round, run_order_intake}

abbrev no_trace : UsedStateTrace
no_trace = record {
  read_slot_values = [];
  written_slot_values = [];
  read_balances = [];
  received_amount = [];
  sent_amount = [];
  created_contracts = [];
  destructed_contracts = [];
}

abbrev traced_order : ℕ → SimulatedOrder
traced_order i = record (simulated i 30) { used_state_trace = some no_trace }

abbrev same_id : SimulatedOrder → SimulatedOrder → Bool
same_id a b = sim_id a == sim_id b

abbrev start : ParallelIntake
start = record {
  order_intake_consumer = new_intake;
  conflict_finder = no_groups;
  conflict_task_generator = record {
    existing_groups = [];
    task_queue = [];
    group_result_sender = [];
    safe_sorting_only = false;
  };
}

abbrev arrival : SimulatedOrder → List Received → Round
arrival o answers = record {
  is_cancelled = false;
  first = Received.order (SimulatedOrderCommand.simulation o);
  answers = answers;
  now = 0;
}

-- The orders in the store, and those in the groups.
abbrev ids : ParallelIntake → List OrderId × List (List OrderId)
ids p = (
  map sim_id (get_orders p.order_intake_consumer.order_sink),
  map (λ g. map sim_id g.orders) (get_order_groups p.conflict_finder),
)

-- The second order comes with the cancellation of the first: it is in the store but in no group, and
-- the first is still in one.
cancellation_test :
    (run_order_intake same_id
        (arrival (traced_order 1) []
          ∷ arrival
              (traced_order 2)
              (Received.order (SimulatedOrderCommand.cancellation (sim_id (traced_order 1))) ∷ [])
          ∷ [])
        start
      >>= (λ p. some (ids p)))
    ≡ some (OrderId.tx 2 ∷ [], (OrderId.tx 1 ∷ []) ∷ [])
unfolding run_order_intake get_orders get_order_groups Orders.id
cancellation_test = refl
