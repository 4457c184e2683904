-- ===== src/OrderInput/Replacement/Store.antt =====
-- One entry of the manager over an `OrderStore` (order_replacement_manager.rs, order_sink.rs): what a
-- notification about a key does to the orders that the store holds.
use constraints_builder.Shared.{
  ℕ, ◌≡◌, ◌≢◌, refl, Bool, false, Option, none, some, arith, ◌==◌, ◌⊎◌,
}
use constraints_builder.Shared.Map
use constraints_builder.Shared.Map.{
  Map, lookup, contains_key, lookup-insert, contains_key-insert, contains_key-remove,
}
use constraints_builder.Primitives.Orders
use constraints_builder.Primitives.Orders.{
  Order, OrderId, OrderReplacementKey, ReplacementKey, ReplacementData, order_replacement_key_eq,
  order_id_eq, replacement_key_and_sequence_number,
}
use constraints_builder.OrderInput.Sink
use constraints_builder.OrderInput.Sink.{OrderSink, OrderStore, order_store}
use constraints_builder.OrderInput.Replacement.{BundleReplacementState, insert_at, cancel_at, true}

abbrev pub is_current : OrderId → Option BundleReplacementState → Bool
is_current i none = false
is_current i (some (BundleReplacementState.valid v)) = v.order_id == i
is_current i (some (BundleReplacementState.cancelled n)) = false

-- The store after an order is announced under a key with the state `x`.
pub held-insert_at :
    (x : Option BundleReplacementState) (o : Order) (n : ℕ) (s : OrderStore) (i : OrderId)
    → contains_key i s.orders ≡ is_current i x
    → contains_key i (insert_at order_store x o n s).1.orders
      ≡ is_current i (some (insert_at order_store x o n s).0)
unfolding insert_at Sink.insert_order Sink.remove_order
held-insert_at none o n s i h =
    ground
      (arith, contains_key-insert (Orders.id o) i o s.orders, order_id_eq.same_iff (Orders.id o) i)
held-insert_at (some (BundleReplacementState.cancelled c)) o n s i h =
    ground
      (arith, contains_key-insert (Orders.id o) i o s.orders, order_id_eq.same_iff (Orders.id o) i)
held-insert_at (some (BundleReplacementState.valid v)) o n s i h = ground (
  arith,
  contains_key-insert (Orders.id o) i o (Map.remove v.order_id s.orders),
  contains_key-remove v.order_id i s.orders,
  order_id_eq.same_iff (Orders.id o) i,
  order_id_eq.same_iff v.order_id i,
)

-- An id of no interest to the key stays as it is.
pub other-insert_at :
    (x : Option BundleReplacementState) (o : Order) (n : ℕ) (s : OrderStore) (i : OrderId)
    → is_current i x ≡ false
    → Orders.id o ≢ i
    → contains_key i (insert_at order_store x o n s).1.orders ≡ contains_key i s.orders
unfolding insert_at Sink.insert_order Sink.remove_order
other-insert_at none o n s i h d =
    ground
      (arith, contains_key-insert (Orders.id o) i o s.orders, order_id_eq.same_iff (Orders.id o) i)
other-insert_at (some (BundleReplacementState.cancelled c)) o n s i h d =
    ground
      (arith, contains_key-insert (Orders.id o) i o s.orders, order_id_eq.same_iff (Orders.id o) i)
other-insert_at (some (BundleReplacementState.valid v)) o n s i h d = ground (
  arith,
  contains_key-insert (Orders.id o) i o (Map.remove v.order_id s.orders),
  contains_key-remove v.order_id i s.orders,
  order_id_eq.same_iff (Orders.id o) i,
  order_id_eq.same_iff v.order_id i,
)

pub held-cancel_at :
    (x : Option BundleReplacementState) (n : ℕ) (s : OrderStore) (i : OrderId)
    → contains_key i s.orders ≡ is_current i x
    → contains_key i (cancel_at order_store x n s).1.orders
      ≡ is_current i (some (cancel_at order_store x n s).0)
unfolding cancel_at Sink.remove_order
held-cancel_at none n s i h = h
held-cancel_at (some (BundleReplacementState.cancelled c)) n s i h = ground arith
held-cancel_at (some (BundleReplacementState.valid v)) n s i h =
    ground (arith, contains_key-remove v.order_id i s.orders)

pub other-cancel_at :
    (x : Option BundleReplacementState) (n : ℕ) (s : OrderStore) (i : OrderId)
    → is_current i x ≡ false
    → contains_key i (cancel_at order_store x n s).1.orders ≡ contains_key i s.orders
unfolding cancel_at Sink.remove_order
other-cancel_at none n s i h = refl
other-cancel_at (some (BundleReplacementState.cancelled c)) n s i h = ground arith
other-cancel_at (some (BundleReplacementState.valid v)) n s i h =
    ground (arith, contains_key-remove v.order_id i s.orders)

-- What is current after a notification was so before, or is the order just announced.
pub current-insert_at :
    (x : Option BundleReplacementState) (o : Order) (n : ℕ) (s : OrderStore) (i : OrderId)
    → is_current i (some (insert_at order_store x o n s).0) ≡ true
    → (is_current i x ≡ true) ⊎ (Orders.id o ≡ i)
unfolding insert_at
current-insert_at none o n s i h = ground (arith, order_id_eq.same_iff (Orders.id o) i)
current-insert_at (some (BundleReplacementState.cancelled c)) o n s i h =
    ground (arith, order_id_eq.same_iff (Orders.id o) i)
current-insert_at (some (BundleReplacementState.valid v)) o n s i h =
    ground (arith, order_id_eq.same_iff (Orders.id o) i)

pub current-cancel_at :
    (x : Option BundleReplacementState) (n : ℕ) (s : OrderStore) (i : OrderId)
    → is_current i (some (cancel_at order_store x n s).0) ≡ true
    → is_current i x ≡ true
unfolding cancel_at
current-cancel_at none n s i h = ground arith
current-cancel_at (some (BundleReplacementState.cancelled c)) n s i h = ground arith
current-cancel_at (some (BundleReplacementState.valid v)) n s i h = ground arith
