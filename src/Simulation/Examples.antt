-- ===== src/Simulation/Examples.antt =====
-- The theorems on building/sim.rs and simulation_job.rs at concrete inputs.
use constraints_builder.Shared.{
  any, ◌↔◌, ℕ, ◌≡◌, ◌≢◌, refl, Bool, true, false, List, [], ◌∷◌, Option, none, some, contains,
  arith, ◌+◌,
}
use constraints_builder.Primitives.Tx.{Address}
use constraints_builder.Primitives.Examples.{sample_tx}
use constraints_builder.Primitives.Orders
use constraints_builder.Primitives.Orders.{Order, OrderId, order_id_eq}
use constraints_builder.Primitives.SimValue
use constraints_builder.Primitives.SimValue.{SimulatedOrder}
use constraints_builder.OrderInput.Sink.{OrderPoolCommand}
use constraints_builder.Simulation.TreeState
use constraints_builder.Simulation.TreeState.{
  SimulationId, SimulationRequest, SimulatedResult, NonceKey, Ending, OrderNonceState, nonce_key_eq,
}
use constraints_builder.Shared.Map.{lookup-empty}
use constraints_builder.Primitives.Nonces
use constraints_builder.Simulation.Tree.{get_order_nonce_state}
use constraints_builder.Simulation.Tree.Invalid.{behind, get_order_nonce_state-invalid}
use constraints_builder.Simulation.Tree.Kept.{Call, calls, calls-IsKept}
use constraints_builder.Simulation.Filled.{IsKept}
use constraints_builder.Simulation.Job
use constraints_builder.Simulation.Job.{
  SimulatedOrderCommand, SimulationJob, Event, run, process_order_cancellation,
  send_new_tasks_for_simulation,
}
use constraints_builder.Simulation.Job.Steps.{IsPaired, IsTracked, stands}
use constraints_builder.Simulation.Job.Paired.{run-IsPaired, process_order_cancellation_lem}
use constraints_builder.Simulation.Job.Drained.{send_new_tasks_for_simulation-drained}

-- Every account is at nonce 4; the random ids count from 100.
abbrev chain : Address → Option ℕ
chain a = some 4

abbrev random : ℕ → SimulationId
random n = n + 100

abbrev open_for : List SimulatedOrderCommand → SimulatedOrderCommand → Bool
open_for log c = true

abbrev try_send : List SimulationRequest → SimulationRequest → Bool
try_send log r = true

abbrev tx_order : ℕ → ℕ → ℕ → Order
tx_order hash signer nonce = Order.tx (sample_tx hash signer nonce)

abbrev result : ℕ → ℕ → ℕ → ℕ → SimulatedResult
result id hash signer nonce = record {
  id = id;
  simulated_order = record {
    order = tx_order hash signer nonce;
    sim_value =
        SimValue.sim_value 30 30 (record { gas = 21000; rlp_length = 110; blob_gas = 0 }) [];
    used_state_trace = none;
  };
  previous_orders = [];
  nonces_after = (record { address = signer; nonce = nonce + 1 }) ∷ [];
}

-- The second order waits for the first one's simulation.
calls-IsKept_example :
    ((calls chain random
        (Call.push (tx_order 1 9 4 ∷ tx_order 2 9 5 ∷ [])
          ∷ Call.submit (result 100 1 9 4 ∷ [])
          ∷ [])
        TreeState.new).0
      ≢ Ending.panic)
    × IsKept
        (calls chain random
          (Call.push (tx_order 1 9 4 ∷ tx_order 2 9 5 ∷ [])
            ∷ Call.submit (result 100 1 9 4 ∷ [])
            ∷ [])
          TreeState.new).1
calls-IsKept_example =
    calls-IsKept chain random
      (Call.push (tx_order 1 9 4 ∷ tx_order 2 9 5 ∷ []) ∷ Call.submit (result 100 1 9 4 ∷ []) ∷ [])

abbrev events : List Event
events =
    Event.new_commands (OrderPoolCommand.insert (tx_order 1 9 4) ∷ [])
    ∷ Event.new_sim_results (result 100 1 9 4 ∷ [])
    ∷ Event.new_commands (OrderPoolCommand.remove (OrderId.tx 1) ∷ [])
    ∷ []

run-IsPaired_example :
    IsPaired (run chain random open_for try_send events (Job.new TreeState.new)).slot_sim_results
run-IsPaired_example = run-IsPaired chain random open_for try_send TreeState.new events

-- Order 1 was sent, and is in flight again.
abbrev sent_again : SimulationJob
sent_again = record (Job.new TreeState.new) {
  slot_sim_results = SimulatedOrderCommand.simulation (result 100 1 9 4).simulated_order ∷ [];
  in_flight_orders = OrderId.tx 1 ∷ [];
  not_cancelled_sent_simulated_orders = OrderId.tx 1 ∷ [];
}

sent_again-IsTracked : IsTracked sent_again
unfolding IsPaired stands Orders.id
sent_again-IsTracked = ((refl, tt), λ i. ground (arith, order_id_eq.same_iff (OrderId.tx 1) i))

process_order_cancellation_lem_example :
    (contains
        (process_order_cancellation chain random open_for try_send
          (OrderId.tx 1)
          sent_again).1.in_flight_orders
        (OrderId.tx 1)
      ≡ false)
    × (stands
          (OrderId.tx 1)
          (process_order_cancellation chain random open_for try_send
            (OrderId.tx 1)
            sent_again).1.slot_sim_results
        ≡ true)
unfolding stands process_order_cancellation Orders.id
process_order_cancellation_lem_example =
    process_order_cancellation_lem chain random open_for try_send (OrderId.tx 1) sent_again
      sent_again-IsTracked refl

abbrev two_ready : SimulationJob
two_ready = record (Job.new TreeState.new) {
  sim_tree = record TreeState.new {
    ready_orders =
        (record { id = 100; order = tx_order 1 9 4; parents = [] })
        ∷ (record { id = 101; order = tx_order 2 5 4; parents = [] })
        ∷ [];
  };
}

send_new_tasks_for_simulation-drained_example :
    (send_new_tasks_for_simulation chain random open_for try_send two_ready).sim_tree.ready_orders
    ≡ []
send_new_tasks_for_simulation-drained_example =
    send_new_tasks_for_simulation-drained chain random open_for try_send two_ready

-- A bundle whose transactions start at nonces 4 and 2 of two accounts, which are both at 4.
abbrev late_bundle : Order
late_bundle = Order.bundle (record {
  block = some 10;
  txs = sample_tx 1 5 4 ∷ sample_tx 2 9 2 ∷ [];
  reverting_tx_hashes = [];
  dropping_tx_hashes = [];
  uuid = 8;
  replacement_data = none;
  signer = none;
})

new-IsKept : IsKept TreeState.new
new-IsKept key i e = ground (arith, lookup-empty {V = SimulationId} key)

get_order_nonce_state-invalid_example :
    (get_order_nonce_state chain random late_bundle TreeState.new ≡ OrderNonceState.invalid)
    ↔ (any (λ n. behind 4 n) (Nonces.nonces late_bundle) ≡ true)
get_order_nonce_state-invalid_example =
    get_order_nonce_state-invalid (λ a. 4) random late_bundle TreeState.new new-IsKept
