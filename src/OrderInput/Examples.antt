-- ===== src/OrderInput/Examples.antt =====
-- Small runs of order_replacement_manager.rs, and its theorems at concrete inputs.
use constraints_builder.Shared.{ℕ, ◌≡◌, refl, true, List, [], ◌∷◌, some, none, arith, Option}
use constraints_builder.Shared.Map.{lookup, contains_key}
use constraints_builder.Primitives.Orders.{
  Order, OrderId, OrderReplacementKey, ReplacementKey, id, replacement_key_and_sequence_number,
  order_id_eq, order_replacement_key_eq,
}
use constraints_builder.OrderInput.Sink.{order_store}
use constraints_builder.OrderInput.Replacement.{Event, BundleReplacementState, run, sequence_number}
use constraints_builder.OrderInput.Replacement.Latest.{Reordered, run-Reordered, lookup-run}
use constraints_builder.OrderInput.Replacement.Current.{new, run-should_hold}

abbrev key : ReplacementKey
key = record { id = 3; signer = none }

-- Version n of a bundle under one key, with the uuid u.
abbrev version : ℕ → ℕ → Event
version u n = Event.insert_order (
    Order.bundle (record {
      block = some 10;
      txs = [];
      reverting_tx_hashes = [];
      dropping_tx_hashes = [];
      uuid = u;
      replacement_data = some (record { key = key; sequence_number = n });
      signer = none;
    }))

abbrev cancel_at : ℕ → Event
cancel_at n = Event.remove_bundle (record { key = key; sequence_number = n })

-- The cancellation of version 1 arrives late.
abbrev notifications : List Event
notifications = version 100 0 ∷ version 102 2 ∷ cancel_at 1 ∷ []

abbrev owner : OrderId → Option OrderReplacementKey
owner i = some (OrderReplacementKey.bundle key)

run-should_hold_example :
    contains_key (OrderId.bundle 102) (run order_store notifications new).sink.orders ≡ true
unfolding sequence_number id replacement_key_and_sequence_number
run-should_hold_example =
    run-should_hold owner notifications (OrderId.bundle 102) (refl, (refl, (tt, tt)))

run-Reordered_example :
    lookup
      (OrderReplacementKey.bundle key)
      (run order_store (version 102 2 ∷ cancel_at 1 ∷ []) new).replacement_states
    ≡ lookup
        (OrderReplacementKey.bundle key)
        (run order_store (cancel_at 1 ∷ version 102 2 ∷ []) new).replacement_states
unfolding sequence_number replacement_key_and_sequence_number
run-Reordered_example =
    run-Reordered order_store new (version 102 2 ∷ cancel_at 1 ∷ [])
      (cancel_at 1 ∷ version 102 2 ∷ [])
      (Reordered.swap (version 102 2) (cancel_at 1) [] (λ e. omega arith))
      (OrderReplacementKey.bundle key)

lookup-run_example :
    lookup
      (OrderReplacementKey.bundle key)
      (run order_store (cancel_at 1 ∷ cancel_at 0 ∷ []) new).replacement_states
    ≡ some (BundleReplacementState.cancelled 1)
unfolding sequence_number lookup
lookup-run_example =
    lookup-run order_store (OrderReplacementKey.bundle key) (cancel_at 1 ∷ cancel_at 0 ∷ []) new
