-- ===== src/OrderInput/Pool/Known.antt =====
-- The known orders of orderpool.rs.
use constraints_builder.Shared.{ℕ, ◌≡◌, refl, Bool-cases, inl, inr}
use constraints_builder.Shared.Map.{or_default}
use constraints_builder.Primitives.Orders
use constraints_builder.Primitives.Orders.{Order, OrderId}
use constraints_builder.OrderInput.PoolState.{ReplaceableOrderSink, OrderCache}
use constraints_builder.OrderInput.Pool.{Pool, process_order, store_order}

module _ (C : OrderCache) (S : ReplaceableOrderSink) where
  -- An order that arrives a second time, with no other in between, leaves the pool as it is.
  pub process_order_twice :
      (now later : ℕ) (o : Order) (p : Pool C S)
      → process_order C S later o (process_order C S now o p) ≡ process_order C S now o p
  unfolding process_order
  process_order_twice now later o p =
      let key : OrderId × ℕ = (Orders.id o, or_default 0 (Orders.target_block o)) in
      elim (Bool-cases (C.contains p.known_orders key)) [
        | inl e ↦ rw e (rw e refl)
        | inr e ↦ rw (e, C.contains-put_self (store_order C S now o p).known_orders key) refl
      ]
