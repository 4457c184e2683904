-- ===== src/OrderInput/Replacement.antt =====
-- crates/rbuilder/src/live_builder/order_input/order_replacement_manager.rs: replacement and
-- cancellation of bundles and share bundles, over any `OrderSink`.
pub mod Latest
pub mod Store
pub mod Current
use constraints_builder.Shared.{
  ℕ, ◌+◌, ◌-◌, ◌^◌, Bool, true, false, ◌&&◌, Option, none, some, List, [], ◌∷◌, leb, if◌then◌else◌,
}
use constraints_builder.Shared.Map.{Map, lookup, insert}
use constraints_builder.Primitives.Orders
use constraints_builder.Primitives.Orders.{
  Order, OrderId, OrderReplacementKey, ReplacementKey, ReplacementData, order_replacement_key_eq,
  replacement_key_and_sequence_number,
}
use constraints_builder.OrderInput.Sink.{OrderSink}

-- `SBUNDLE_SEQUENCE_NUMBER`, which is `u64::MAX`
abbrev pub sbundle_sequence_number : ℕ
sbundle_sequence_number = 2 ^ 64 - 1

pub record ValidBundleState : Type 0 where
  pub sequence_number : ℕ
  pub order_id : OrderId

pub data BundleReplacementState : Type 0 where
  valid : ValidBundleState → BundleReplacementState
  cancelled : ℕ → BundleReplacementState

unfoldable pub sequence_number : BundleReplacementState → ℕ
sequence_number (BundleReplacementState.valid v) = v.sequence_number
sequence_number (BundleReplacementState.cancelled n) = n

pub record OrderReplacementManager (Sink : Type 0) : Type 0 where
  pub sink : Sink
  pub replacement_states : Map OrderReplacementKey BundleReplacementState

-- The calls of `ReplaceableOrderSink`.
pub data Event : Type 0 where
  insert_order : Order → Event
  remove_bundle : ReplacementData → Event
  remove_sbundle : ReplacementKey → Event

module _ (S : OrderSink) where
  open S use {Sink, insert_order as sink_insert, remove_order as sink_remove}

  unfoldable pub send_remove_order_if_needed : BundleReplacementState → Sink → Sink × Bool
  send_remove_order_if_needed (BundleReplacementState.valid v) sink = sink_remove sink v.order_id
  send_remove_order_if_needed (BundleReplacementState.cancelled n) sink = (sink, true)

  -- `BundleReplacementState::insert_order`
  unfoldable pub state_insert :
      BundleReplacementState → Order → ℕ → Sink → BundleReplacementState × Sink × Bool
  unfolding sequence_number send_remove_order_if_needed
  state_insert state order n sink =
      if leb n (sequence_number state)
      then (state, sink, true)
      else let (removed, res) = send_remove_order_if_needed state sink in
        let (inserted, ok) = sink_insert removed order in
        (
          BundleReplacementState.valid (record { sequence_number = n; order_id = Orders.id order }),
          inserted,
          if ok then res else false,
        )

  -- `BundleReplacementState::cancel_order`
  unfoldable pub state_cancel :
      BundleReplacementState → ℕ → Sink → BundleReplacementState × Sink × Bool
  unfolding sequence_number send_remove_order_if_needed
  state_cancel state n sink =
      if leb n (sequence_number state)
      then (state, sink, true)
      else let (removed, res) = send_remove_order_if_needed state sink in
        (BundleReplacementState.cancelled n, removed, res)

  -- The entry of a key: `Occupied` or `Vacant`.
  unfoldable pub insert_at :
      Option BundleReplacementState → Order → ℕ → Sink → BundleReplacementState × Sink × Bool
  unfolding state_insert
  insert_at (some state) order n sink = state_insert state order n sink
  insert_at none order n sink =
      let (inserted, ok) = sink_insert sink order in
      (
        BundleReplacementState.valid (record { sequence_number = n; order_id = Orders.id order }),
        inserted,
        ok,
      )

  unfoldable pub cancel_at :
      Option BundleReplacementState → ℕ → Sink → BundleReplacementState × Sink × Bool
  unfolding state_cancel
  cancel_at (some state) n sink = state_cancel state n sink
  cancel_at none n sink = (BundleReplacementState.cancelled n, sink, true)

  unfoldable pub insert_replaceable :
      Option (OrderReplacementKey × ℕ)
      → Order
      → OrderReplacementManager Sink
      → OrderReplacementManager Sink × Bool
  unfolding insert_at
  insert_replaceable (some (rep_key, n)) order m =
      let (state, sink, ok) = insert_at (lookup rep_key m.replacement_states) order n m.sink in
      (record { sink = sink; replacement_states = insert rep_key state m.replacement_states }, ok)
  insert_replaceable none order m =
      let (sink, ok) = sink_insert m.sink order in (record m { sink = sink }, ok)

  -- `OrderReplacementManager::insert_order`
  unfoldable pub manager_insert :
      Order → OrderReplacementManager Sink → OrderReplacementManager Sink × Bool
  unfolding insert_replaceable
  manager_insert order m = insert_replaceable (replacement_key_and_sequence_number order) order m

  -- What `remove_bundle` and `remove_sbundle` share: cancel a key up to a sequence number.
  unfoldable pub cancel :
      OrderReplacementKey → ℕ → OrderReplacementManager Sink → OrderReplacementManager Sink × Bool
  unfolding cancel_at
  cancel rep_key n m =
      let (state, sink, ok) = cancel_at (lookup rep_key m.replacement_states) n m.sink in
      (record { sink = sink; replacement_states = insert rep_key state m.replacement_states }, ok)

  unfoldable pub manager_remove_bundle :
      ReplacementData → OrderReplacementManager Sink → OrderReplacementManager Sink × Bool
  unfolding cancel
  manager_remove_bundle r m = cancel (OrderReplacementKey.bundle r.key) r.sequence_number m

  unfoldable pub manager_remove_sbundle :
      ReplacementKey → OrderReplacementManager Sink → OrderReplacementManager Sink × Bool
  unfolding cancel
  manager_remove_sbundle key m =
      cancel (OrderReplacementKey.share_bundle key) sbundle_sequence_number m

  unfoldable pub handle : Event → OrderReplacementManager Sink → OrderReplacementManager Sink × Bool
  unfolding manager_insert manager_remove_bundle manager_remove_sbundle
  handle (Event.insert_order order) m = manager_insert order m
  handle (Event.remove_bundle r) m = manager_remove_bundle r m
  handle (Event.remove_sbundle key) m = manager_remove_sbundle key m

  unfoldable pub run : List Event → OrderReplacementManager Sink → OrderReplacementManager Sink
  unfolding handle
  run [] m = m
  run (e ∷ events) m = run events (handle e m).0
