-- ===== src/Simulation/Job.antt =====
-- `SimulationJob` of crates/rbuilder/src/live_builder/simulation/simulation_job.rs. The channels are
-- their histories, the latest first: `open` says whether a command can still be sent downstream, and
-- `try_send` whether a request enters the queue of the simulators. A panic of the tree, which does
-- not occur, counts as its error. Logs and the tracer are left out.
pub mod Steps
pub mod Paired
pub mod Drained
use constraints_builder.Shared.{
  ℕ, zero, suc, ◌+◌, ◌%◌, Bool, true, false, not, Option, none, some, List, [], ◌∷◌, ◌++◌, contains,
  set_insert, set_remove, is_empty, length, filter, if◌then◌else◌, ◌==◌, suc,
}
use constraints_builder.Primitives.Tx.{Address, u64_mod}
use constraints_builder.Primitives.Orders
use constraints_builder.Primitives.Orders.{
  Order, OrderId, order_id_eq, OrderReplacementKey, order_replacement_key_eq,
  replacement_key_and_sequence_number,
}
use constraints_builder.Primitives.SimValue.{SimulatedOrder, sim_id}
use constraints_builder.OrderInput.Sink.{OrderPoolCommand}
use constraints_builder.Simulation.TreeState
use constraints_builder.Simulation.TreeState.{
  SimTree, SimulationId, SimulationRequest, SimulatedResult, Ending, pop_simulation_tasks,
}
use constraints_builder.Simulation.Tree.{push_orders, submit_simulation_tasks_results}

pub data SimulatedOrderCommand : Type 0 where
  simulation : SimulatedOrder → SimulatedOrderCommand
  cancellation : OrderId → SimulatedOrderCommand

pub record OrderCounter : Type 0 where
  pub mempool_txs : ℕ
  pub bundles : ℕ
  pub share_bundles : ℕ

abbrev pub no_orders : OrderCounter
no_orders = record { mempool_txs = 0; bundles = 0; share_bundles = 0 }

unfoldable pub accumulate : Order → OrderCounter → OrderCounter
accumulate (Order.tx t) c = record c { mempool_txs = (c.mempool_txs + 1) % u64_mod }
accumulate (Order.bundle b) c = record c { bundles = (c.bundles + 1) % u64_mod }
accumulate (Order.share_bundle b) c = record c { share_bundles = (c.share_bundles + 1) % u64_mod }

pub record SimulationJob : Type 0 where
  pub sim_requests : List SimulationRequest
  pub slot_sim_results : List SimulatedOrderCommand
  pub sim_tree : SimTree
  pub orders_received : OrderCounter
  pub orders_simulated_ok : OrderCounter
  pub unique_replacement_key_bundles : List OrderReplacementKey
  pub orders_with_replacement_key : ℕ
  pub unique_replacement_key_bundles_sim_ok : List OrderReplacementKey
  pub orders_with_replacement_key_sim_ok : ℕ
  pub in_flight_orders : List OrderId
  pub not_cancelled_sent_simulated_orders : List OrderId

abbrev pub new : SimTree → SimulationJob
new sim_tree = record {
  sim_requests = [];
  slot_sim_results = [];
  sim_tree = sim_tree;
  orders_received = no_orders;
  orders_simulated_ok = no_orders;
  unique_replacement_key_bundles = [];
  orders_with_replacement_key = 0;
  unique_replacement_key_bundles_sim_ok = [];
  orders_with_replacement_key_sim_ok = 0;
  in_flight_orders = [];
  not_cancelled_sent_simulated_orders = [];
}

unfoldable pub order_still_valid : OrderId → SimulationJob → Bool
order_still_valid i j = contains j.in_flight_orders i

unfoldable pub note_received : Order → SimulationJob → SimulationJob
note_received o j =
    let counted : SimulationJob = record j { orders_received = accumulate o j.orders_received } in
    elim (replacement_key_and_sequence_number o) [
      | none ↦ counted
      | some (key, n) ↦ record counted {
        unique_replacement_key_bundles = set_insert key counted.unique_replacement_key_bundles;
        orders_with_replacement_key = (counted.orders_with_replacement_key + 1) % u64_mod;
      }
    ]

unfoldable pub note_simulated : Order → SimulationJob → SimulationJob
note_simulated o j =
    let counted : SimulationJob = record j {
      orders_simulated_ok = accumulate o j.orders_simulated_ok;
    } in
    elim (replacement_key_and_sequence_number o) [
      | none ↦ counted
      | some (key, n) ↦ record counted {
        unique_replacement_key_bundles_sim_ok =
            set_insert key counted.unique_replacement_key_bundles_sim_ok;
        orders_with_replacement_key_sim_ok =
            (counted.orders_with_replacement_key_sim_ok + 1) % u64_mod;
      }
    ]

unfoldable pub is_ok : Ending → Bool
is_ok Ending.ok = true
is_ok Ending.provider_error = false
is_ok Ending.panic = false

-- What the job's `select!` may get: what `recv_many` read, or the cancellation of the block.
pub data Event : Type 0 where
  new_commands : List OrderPoolCommand → Event
  new_sim_results : List SimulatedResult → Event
  block_cancelled : Event

module _ (account_nonce : Address → Option ℕ) (random : ℕ → SimulationId)
    (open_for : List SimulatedOrderCommand → SimulatedOrderCommand → Bool)
    (try_send : List SimulationRequest → SimulationRequest → Bool) where
  -- `slot_sim_results_sender.send(..).await.is_ok()`
  unfoldable pub send : SimulatedOrderCommand → SimulationJob → Bool × SimulationJob
  send c j =
      if open_for j.slot_sim_results c
      then (true, record j { slot_sim_results = c ∷ j.slot_sim_results })
      else (false, j)

  -- One request: an order that is not delivered is in flight no more.
  unfoldable pub request : SimulationRequest → SimulationJob → SimulationJob
  request r j =
      if try_send j.sim_requests r
      then record j { sim_requests = r ∷ j.sim_requests }
      else record j { in_flight_orders = set_remove (Orders.id r.order) j.in_flight_orders }

  unfoldable pub request_all : List SimulationRequest → SimulationJob → SimulationJob
  request_all [] j = j
  request_all (r ∷ rs) j = request_all rs (request r j)

  -- The loop, on fuel.
  unfoldable pub send_loop : ℕ → SimulationJob → SimulationJob
  send_loop zero j = j
  send_loop (suc fuel) j =
      let (tasks, tree) = pop_simulation_tasks 1024 j.sim_tree in
      let popped : SimulationJob = record j { sim_tree = tree } in
      elim (is_empty tasks) [
        | true ↦ popped
        | false ↦
            send_loop fuel (
              request_all (filter (λ s. order_still_valid (Orders.id s.order) popped) tasks) popped)
      ]

  unfoldable pub send_new_tasks_for_simulation : SimulationJob → SimulationJob
  send_new_tasks_for_simulation j = send_loop (suc (length j.sim_tree.ready_orders)) j

  -- The order is sent downstream unless it was sent before and not cancelled.
  unfoldable pub deliver : SimulatedResult → SimulationJob → Bool × SimulationJob
  deliver r j =
      let i = sim_id r.simulated_order in
      if contains j.not_cancelled_sent_simulated_orders i
      then (true, j)
      else send (SimulatedOrderCommand.simulation r.simulated_order) (record j {
        not_cancelled_sent_simulated_orders = set_insert i j.not_cancelled_sent_simulated_orders;
      })

  -- The loop of `process_new_simulations`, which gathers the results of orders still in flight.
  unfoldable pub deliver_all :
      List SimulatedResult → SimulationJob → Bool × List SimulatedResult × SimulationJob
  deliver_all [] j = (true, [], j)
  deliver_all (r ∷ rs) j =
      let noted = note_simulated r.simulated_order.order j in
      let i = sim_id r.simulated_order in
      elim (contains noted.in_flight_orders i) [
        | false ↦ deliver_all rs noted
        | true ↦
            let (ok, delivered) =
              deliver r (record noted { in_flight_orders = set_remove i noted.in_flight_orders }) in
            elim ok [
              | false ↦ (false, [], delivered)
              | true ↦
                  let (all_ok, valid, rest) = deliver_all rs delivered in (all_ok, r ∷ valid, rest)
            ]
      ]

  unfoldable pub process_new_simulations :
      List SimulatedResult → SimulationJob → Bool × SimulationJob
  process_new_simulations results j =
      let (ok, valid_simulated_orders, delivered) = deliver_all results j in
      let (ending, tree) =
        submit_simulation_tasks_results account_nonce random valid_simulated_orders
          delivered.sim_tree in
      if ok then (is_ok ending, record delivered { sim_tree = tree }) else (false, delivered)

  unfoldable pub send_cancel : OrderId → SimulationJob → Bool × SimulationJob
  send_cancel i j =
      if contains j.not_cancelled_sent_simulated_orders i
      then send (SimulatedOrderCommand.cancellation i) (record j {
        not_cancelled_sent_simulated_orders = set_remove i j.not_cancelled_sent_simulated_orders;
      })
      else (true, j)

  unfoldable pub process_order_cancellation : OrderId → SimulationJob → Bool × SimulationJob
  process_order_cancellation i j =
      if contains j.in_flight_orders i
      then (true, record j { in_flight_orders = set_remove i j.in_flight_orders })
      else send_cancel i j

  unfoldable pub process_new_order : Order → SimulationJob → Bool × SimulationJob
  process_new_order o j =
      let noted = note_received o j in
      let (ending, tree) = push_orders account_nonce random (o ∷ []) noted.sim_tree in
      let pushed : SimulationJob = record noted { sim_tree = tree } in
      if is_ok ending
      then (
        true,
        record pushed { in_flight_orders = set_insert (Orders.id o) pushed.in_flight_orders },
      )
      else (false, pushed)

  -- A new order that fails is passed over; a cancellation that fails ends the job.
  unfoldable pub process_new_commands : List OrderPoolCommand → SimulationJob → Bool × SimulationJob
  process_new_commands [] j = (true, j)
  process_new_commands (OrderPoolCommand.insert o ∷ cs) j =
      process_new_commands cs (process_new_order o j).1
  process_new_commands (OrderPoolCommand.remove i ∷ cs) j =
      let (ok, cancelled) = process_order_cancellation i j in
      elim ok [ true ↦ process_new_commands cs cancelled | false ↦ (false, cancelled) ]

  -- What one event does, and whether the job goes on.
  unfoldable pub handle : Event → SimulationJob → Bool × SimulationJob
  handle (Event.new_commands []) j = (false, j)
  handle (Event.new_commands (c ∷ cs)) j = process_new_commands (c ∷ cs) j
  handle (Event.new_sim_results []) j = (true, j)
  handle (Event.new_sim_results (r ∷ rs)) j = process_new_simulations (r ∷ rs) j
  handle Event.block_cancelled j = (false, j)

  -- `run_no_trace`, for the events that come.
  unfoldable pub run : List Event → SimulationJob → SimulationJob
  run [] j = send_new_tasks_for_simulation j
  run (e ∷ es) j =
      let (goes_on, handled) = handle e (send_new_tasks_for_simulation j) in
      elim goes_on [ true ↦ run es handled | false ↦ handled ]
