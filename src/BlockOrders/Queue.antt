-- ===== src/BlockOrders/Queue.antt =====
-- Two interfaces of prioritized_order_store.rs: the trait `OrderPriority` of
-- crates/rbuilder/src/building/block_orders/order_priority.rs, and the `PriorityQueue` of the crate
-- `priority-queue`, a table of keys with priorities, with what its documentation says.
use constraints_builder.Shared.{◌≡◌, Bool, true, Option, none, some, if◌then◌else◌, ◌==◌}
use constraints_builder.Primitives.Orders.{OrderId, order_id_eq}
use constraints_builder.Primitives.SimValue.{SimulatedOrder}

-- `new`, and the comparison of `Ord`: `le p q` if p is no better than q. `simulation_too_low`, which
-- the store of orders does not call, is left out.
pub record OrderPriority : Type 1 where
  pub Priority : Type 0
  pub new : SimulatedOrder → Priority
  pub le : Priority → Priority → Bool

pub record PriorityQueue (O : OrderPriority) : Type 1 where
  pub Queue : Type 0
  pub new : Queue
  pub get_priority : OrderId → Queue → Option O.Priority
  pub push : OrderId → O.Priority → Queue → Queue
  pub remove : OrderId → Queue → Queue
  pub pop : Queue → Option (OrderId × O.Priority)
  pub get-new : (i : OrderId) → get_priority i new ≡ none
  -- `push` inserts the key, or changes its priority.
  pub get-push :
      (i j : OrderId) (p : O.Priority) (q : Queue)
      → get_priority j (push i p q) ≡ (if i == j then some p else get_priority j q)
  pub get-remove :
      (i j : OrderId) (q : Queue)
      → get_priority j (remove i q) ≡ (if i == j then none else get_priority j q)
  -- `pop` gives a key of the queue with the greatest priority.
  pub get-pop :
      (q : Queue) (i : OrderId) (p : O.Priority) → pop q ≡ some (i, p) → get_priority i q ≡ some p
  pub pop-none : (q : Queue) (i : OrderId) → pop q ≡ none → get_priority i q ≡ none
  pub pop-max :
      (q : Queue) (i j : OrderId) (p r : O.Priority)
      → pop q ≡ some (i, p)
      → get_priority j q ≡ some r
      → O.le r p ≡ true
