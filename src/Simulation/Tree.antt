-- ===== src/Simulation/Tree.antt =====
-- `SimTree` of crates/rbuilder/src/building/sim.rs: which orders may be simulated, by the nonces of
-- the chain and of earlier simulations. `account_nonce` is the `NonceCache`, where `none` is a
-- provider's error, and `random` gives the n-th random id. Logs and metrics are left out.
pub mod Kept
pub mod Invalid
use constraints_builder.Shared.{
  ℕ, ◌+◌, ◌-◌, ◌%◌, ◌↔◌, ◌≡◌, Bool, true, false, ◌&&◌, not, Option, none, some, List, [], ◌∷◌, ◌++◌,
  length, take, drop, contains, set_insert, nat_beq, nat_eq, ltb, leb, if◌then◌else◌, KeyEq, arith,
}
use constraints_builder.Shared.Map
use constraints_builder.Shared.Map.{Map, lookup, contains_key, or_default}
use constraints_builder.Primitives.Tx.{Address, u64_mod}
use constraints_builder.Primitives.Orders
use constraints_builder.Primitives.Orders.{Order, OrderId, order_id_eq}
use constraints_builder.Primitives.Nonces
use constraints_builder.Primitives.Nonces.{Nonce}
use constraints_builder.Primitives.SimValue.{SimulatedOrder}
use constraints_builder.Simulation.TreeState.{
  SimulationId, SimulatedResult, SimTree, OrderNonceState, Ending, Visited, Visit, visit, concluded,
  and_then, add_pending, fill_single,
}

module _ (account_nonce : Address → Option ℕ) (random : ℕ → SimulationId) where
  unfoldable pub visit_all : SimTree → List Nonce → Visited → OrderNonceState
  visit_all t [] v = concluded v.pending_nonces v.parent_orders
  visit_all t (n ∷ ns) v = elim (visit t (account_nonce n.address) n v) [
    | Visit.stop r ↦ r
    | Visit.next w ↦ visit_all t ns w
  ]

  unfoldable pub get_order_nonce_state : Order → SimTree → OrderNonceState
  get_order_nonce_state o t =
      visit_all t (Nonces.nonces o)
        (record { onchain_nonces_incremented = []; pending_nonces = []; parent_orders = [] })

  unfoldable pub push_ready : Order → List Order → SimTree → SimTree
  push_ready o parents t = record t {
    ready_orders =
        t.ready_orders ++ (record { id = random t.draws; order = o; parents = parents }) ∷ [];
    draws = t.draws + 1;
  }

  unfoldable pub push_state : Order → OrderNonceState → SimTree → Ending × SimTree
  push_state o OrderNonceState.invalid t = (Ending.ok, t)
  push_state o (OrderNonceState.pending_nonces ks) t = (
    Ending.ok,
    record t {
      pending_nonces = add_pending (Orders.id o) ks t.pending_nonces;
      pending_orders =
          Map.insert (Orders.id o) (record { order = o; unsatisfied_nonces = length ks })
            t.pending_orders;
    },
  )
  push_state o (OrderNonceState.ready parents) t = (Ending.ok, push_ready o parents t)
  push_state o OrderNonceState.provider_error t = (Ending.provider_error, t)
  push_state o OrderNonceState.panic t = (Ending.panic, t)

  unfoldable pub push_order : Order → SimTree → Ending × SimTree
  push_order o t =
      if contains_key (Orders.id o) t.pending_orders
      then (Ending.ok, t)
      else push_state o (get_order_nonce_state o t) t

  unfoldable pub push_orders : List Order → SimTree → Ending × SimTree
  push_orders [] t = (Ending.ok, t)
  push_orders (o ∷ os) t = and_then (push_order o t) (push_orders os)

  -- The last loop: an order that became invalid or pending again is only logged.
  unfoldable pub start_ready : List Order → SimTree → Ending × SimTree
  start_ready [] t = (Ending.ok, t)
  start_ready (o ∷ os) t = elim (get_order_nonce_state o t) [
    | OrderNonceState.invalid ↦ start_ready os t
    | OrderNonceState.pending_nonces ks ↦ start_ready os t
    | OrderNonceState.ready parents ↦ start_ready os (push_ready o parents t)
    | OrderNonceState.provider_error ↦ (Ending.provider_error, t)
    | OrderNonceState.panic ↦ (Ending.panic, t)
  ]

  unfoldable pub process_simulation_task_result : SimulatedResult → SimTree → Ending × SimTree
  process_simulation_task_result r t =
      let (ending, orders_ready, filled) =
        fill_single r r.nonces_after (record t { sims = Map.insert r.id r t.sims }) in
      and_then (ending, filled) (start_ready orders_ready)

  unfoldable pub submit_simulation_tasks_results : List SimulatedResult → SimTree → Ending × SimTree
  submit_simulation_tasks_results [] t = (Ending.ok, t)
  submit_simulation_tasks_results (r ∷ rs) t =
      and_then (process_simulation_task_result r t) (submit_simulation_tasks_results rs)
