-- ===== src/OrderInput/Replacement/Current.antt =====
-- The manager over an `OrderStore` (order_replacement_manager.rs, order_sink.rs): what the store
-- holds is what the notifications leave current.
use constraints_builder.Shared.{
  ℕ, ◌≡◌, refl, Bool, true, false, Option, none, some, List, arith, ◌==◌, any, All, ◌||◌, ◌∙◌, ap,
  [], ◌∷◌,
}
use constraints_builder.Shared.Map.{lookup, contains_key, lookup-insert, contains_key-insert}
use constraints_builder.Primitives.Orders
use constraints_builder.Primitives.Orders.{
  Order, OrderId, OrderReplacementKey, ReplacementKey, ReplacementData, order_replacement_key_eq,
  order_id_eq, replacement_key_and_sequence_number,
}
use constraints_builder.OrderInput.Sink
use constraints_builder.OrderInput.Sink.{OrderSink, OrderStore, order_store}
use constraints_builder.OrderInput.Replacement.{
  OrderReplacementManager, Event, insert_at, cancel_at, cancel, insert_replaceable, handle, run,
  sbundle_sequence_number,
}
use constraints_builder.OrderInput.Replacement.Store.{
  is_current, held-insert_at, other-insert_at, held-cancel_at, other-cancel_at, current-cancel_at,
  current-insert_at,
}
use constraints_builder.OrderInput.Replacement.Latest.{latest, lookup-run}

abbrev Manager : Type 0
Manager = OrderReplacementManager OrderStore

abbrev key_of : Option (OrderReplacementKey × ℕ) → Option OrderReplacementKey
key_of none = none
key_of (some (k, n)) = some k

-- Each order id belongs to the replacement key of the orders that carry it, if they have one.
abbrev pub Owned : (OrderId → Option OrderReplacementKey) → Event → Type 0
Owned owner (Event.insert_order o) =
    owner (Orders.id o) ≡ key_of (replacement_key_and_sequence_number o)
Owned owner _ = Unit

abbrev pub inserts : OrderId → Event → Bool
inserts i (Event.insert_order o) = Orders.id o == i
inserts i _ = false

-- The specification: what the store should hold.
abbrev pub should_hold : OrderId → Option OrderReplacementKey → List Event → Bool
should_hold i none events = any (inserts i) events
should_hold i (some k) events = is_current i (latest k none events)

module _ (owner : OrderId → Option OrderReplacementKey) where
  -- The current order of a key belongs to it, and of the ids of a key the store holds just that.
  record Inv (m : Manager) : Type 0 where
    owned :
        (k : OrderReplacementKey) (i : OrderId)
        → is_current i (lookup k m.replacement_states) ≡ true
        → owner i ≡ some k
    held :
        (k : OrderReplacementKey) (i : OrderId)
        → owner i ≡ some k
        → contains_key i m.sink.orders ≡ is_current i (lookup k m.replacement_states)

  cancel-Inv :
      (k : OrderReplacementKey) (n : ℕ) (m : Manager) → Inv m → Inv (cancel order_store k n m).0
  unfolding cancel
  cancel-Inv j n m h =
      let x = lookup j m.replacement_states in
      let y = (cancel_at order_store x n m.sink).0 in
      record {
        owned = λ k i c. ground (
          arith,
          lookup-insert j k y m.replacement_states,
          order_replacement_key_eq.same_iff j k,
          current-cancel_at x n m.sink i,
          h.owned j i,
          h.owned k i,
        );
        held = λ k i o. ground (
          arith,
          lookup-insert j k y m.replacement_states,
          order_replacement_key_eq.same_iff j k,
          held-cancel_at x n m.sink i,
          other-cancel_at x n m.sink i,
          h.owned j i,
          h.held k i o,
        );
      }

  insert-Inv :
      (r : Option (OrderReplacementKey × ℕ)) (o : Order) (m : Manager)
      → owner (Orders.id o) ≡ key_of r
      → Inv m
      → Inv (insert_replaceable order_store r o m).0
  unfolding insert_replaceable Sink.insert_order
  insert-Inv none o m e h = record {
    owned = h.owned;
    held = λ k i p. ground (
      arith,
      contains_key-insert (Orders.id o) i o m.sink.orders,
      order_id_eq.same_iff (Orders.id o) i,
      h.held k i p,
    );
  }
  insert-Inv (some (j, n)) o m e h =
      let x = lookup j m.replacement_states in
      let y = (insert_at order_store x o n m.sink).0 in
      record {
        owned = λ k i c. ground (
          arith,
          lookup-insert j k y m.replacement_states,
          order_replacement_key_eq.same_iff j k,
          current-insert_at x o n m.sink i,
          h.owned j i,
          h.owned k i,
        );
        held = λ k i p. ground (
          arith,
          lookup-insert j k y m.replacement_states,
          order_replacement_key_eq.same_iff j k,
          held-insert_at x o n m.sink i,
          other-insert_at x o n m.sink i,
          h.owned j i,
          h.held k i p,
        );
      }

  handle-Inv : (e : Event) (m : Manager) → Owned owner e → Inv m → Inv (handle order_store e m).0
  unfolding handle
  handle-Inv (Event.insert_order o) m w h =
      insert-Inv (replacement_key_and_sequence_number o) o m w h
  handle-Inv (Event.remove_bundle r) m w h =
      cancel-Inv (OrderReplacementKey.bundle r.key) r.sequence_number m h
  handle-Inv (Event.remove_sbundle key) m w h =
      cancel-Inv (OrderReplacementKey.share_bundle key) sbundle_sequence_number m h

  -- Orders without a key are only added.
  free-cancel :
      (k : OrderReplacementKey) (n : ℕ) (m : Manager) (i : OrderId)
      → owner i ≡ none
      → Inv m
      → contains_key i (cancel order_store k n m).0.sink.orders ≡ contains_key i m.sink.orders
  unfolding cancel
  free-cancel k n m i p h =
      ground (arith, other-cancel_at (lookup k m.replacement_states) n m.sink i, h.owned k i)

  free-insert :
      (r : Option (OrderReplacementKey × ℕ)) (o : Order) (m : Manager) (i : OrderId)
      → owner (Orders.id o) ≡ key_of r
      → owner i ≡ none
      → Inv m
      → contains_key i (insert_replaceable order_store r o m).0.sink.orders
        ≡ (contains_key i m.sink.orders || (Orders.id o == i))
  unfolding insert_replaceable Sink.insert_order
  free-insert none o m i e p h = ground (arith, contains_key-insert (Orders.id o) i o m.sink.orders)
  free-insert (some (k, n)) o m i e p h = ground (
    arith,
    other-insert_at (lookup k m.replacement_states) o n m.sink i,
    h.owned k i,
    order_id_eq.same_iff (Orders.id o) i,
  )

  free-handle :
      (e : Event) (m : Manager) (i : OrderId)
      → Owned owner e
      → owner i ≡ none
      → Inv m
      → contains_key i (handle order_store e m).0.sink.orders
        ≡ (contains_key i m.sink.orders || inserts i e)
  unfolding handle
  free-handle (Event.insert_order o) m i w p h =
      free-insert (replacement_key_and_sequence_number o) o m i w p h
  free-handle (Event.remove_bundle r) m i w p h =
      ground (arith, free-cancel (OrderReplacementKey.bundle r.key) r.sequence_number m i p h)
  free-handle (Event.remove_sbundle key) m i w p h =
      ground
        (arith, free-cancel (OrderReplacementKey.share_bundle key) sbundle_sequence_number m i p h)

  run-Inv :
      (events : List Event) (m : Manager)
      → All (Owned owner) events
      → Inv m
      → Inv (run order_store events m)
  unfolding run
  run-Inv [] m w h = h
  run-Inv (e ∷ events) m w h = run-Inv events (handle order_store e m).0 w.1 (handle-Inv e m w.0 h)

  free-run :
      (events : List Event) (m : Manager) (i : OrderId)
      → All (Owned owner) events
      → owner i ≡ none
      → Inv m
      → contains_key i (run order_store events m).sink.orders
        ≡ (contains_key i m.sink.orders || any (inserts i) events)
  unfolding run
  free-run [] m i w p h = ground arith
  free-run (e ∷ events) m i w p h = ground (
    arith,
    free-run events (handle order_store e m).0 i w.1 p (handle-Inv e m w.0 h),
    free-handle e m i w.0 p h,
  )

abbrev pub new : OrderReplacementManager OrderStore
new = record { sink = Sink.new; replacement_states = [] }

new-Inv : (owner : OrderId → Option OrderReplacementKey) → Inv owner new
unfolding contains_key lookup
new-Inv owner = record { owned = λ k i c. ground arith; held = λ k i p. refl }

-- From an empty manager over an empty `OrderStore`, for any notifications, if every order id belongs
-- to the one replacement key of the orders that carry it (or to none): the store holds an id of a
-- key exactly when the newest notification of that key is the order with this id, not replaced and
-- not cancelled, and an id without a key exactly when it was inserted.
pub run-should_hold :
    (owner : OrderId → Option OrderReplacementKey) (events : List Event) (i : OrderId)
    → All (Owned owner) events
    → contains_key i (run order_store events new).sink.orders ≡ should_hold i (owner i) events
unfolding contains_key
run-should_hold owner events i w = by_owner (owner i) refl
  where
    by_owner :
        (x : Option OrderReplacementKey)
        → owner i ≡ x
        → contains_key i (run order_store events new).sink.orders ≡ should_hold i x events
    by_owner none p = free-run owner events new i w p (new-Inv owner)
    by_owner (some k) p =
        (run-Inv owner events new w (new-Inv owner)).held k i p
        ∙ ap (is_current i) (lookup-run order_store k events new)
