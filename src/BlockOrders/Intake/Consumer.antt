-- ===== src/BlockOrders/Intake/Consumer.antt =====
-- `OrderIntakeConsumer` (crates/rbuilder/src/building/builders/mod.rs): a store of prioritized orders
-- that is fed from the channel, over any priority and queue. What the nonce cache answers in a call
-- is an argument.
use constraints_builder.Shared.{
  ℕ, Option, none, some, List, [], ◌∷◌, ◌++◌, any, nat_beq, if◌then◌else◌,
}
use constraints_builder.Primitives.Tx.{Address}
use constraints_builder.Primitives.Nonces.{Nonce, AccountNonce}
use constraints_builder.Simulation.Job.{SimulatedOrderCommand}
use constraints_builder.BlockOrders.Queue.{OrderPriority, PriorityQueue}
use constraints_builder.BlockOrders.Store.{
  Store, new, sim_nonces, insert_order, remove_order, update_onchain_nonces,
}
use constraints_builder.BlockOrders.Intake.{OrderConsumer, Received, blocking_consume_next_commands}

-- The nonces of the new orders; an order that is cancelled later in the batch counts.
unfoldable pub new_order_nonces : List SimulatedOrderCommand → List Nonce
new_order_nonces [] = []
new_order_nonces (SimulatedOrderCommand.simulation o ∷ commands) =
    sim_nonces o ++ new_order_nonces commands
new_order_nonces (SimulatedOrderCommand.cancellation id ∷ commands) = new_order_nonces commands

-- The loop of `update_onchain_nonces`: the answers, `none` when there is an error, and the updated
-- addresses, which stay noted after an error.
unfoldable pub read_nonces :
    (Address → Option ℕ)
    → List Nonce
    → List AccountNonce
    → List Address
    → Option (List AccountNonce) × List Address
read_nonces nonce [] found updated = (some found, updated)
read_nonces nonce (n ∷ ns) found updated =
    if any (λ a. nat_beq a n.address) updated
    then read_nonces nonce ns found updated
    else elim (nonce n.address) [
      | none ↦ (none, updated)
      | some onchain ↦
          read_nonces nonce ns (found ++ (record { nonce = onchain; account = n.address }) ∷ [])
            (n.address ∷ updated)
    ]

-- What a batch returns.
pub data Outcome : Type 0 where
  consumed stop failed panic : Outcome

pub record OrderIntakeConsumer (S : Type 0) : Type 0 where
  pub block_orders : S
  pub onchain_nonces_updated : List Address
  pub order_consumer : OrderConsumer

module _ (O : OrderPriority) (Q : PriorityQueue O) where
  abbrev pub Consumer : Type 0
  Consumer = OrderIntakeConsumer (Store O Q)

  -- `OrderIntakeConsumer::new`
  unfoldable pub new_consumer : Consumer
  unfolding new
  new_consumer = record {
    block_orders = new O Q [];
    onchain_nonces_updated = [];
    order_consumer = record { new_commands = [] };
  }

  -- The store is updated when every nonce was read; else only the noted addresses change.
  unfoldable pub update_new_nonces : (Address → Option ℕ) → Consumer → Outcome × Consumer
  unfolding new_order_nonces read_nonces update_onchain_nonces
  update_new_nonces nonce c =
      let (found, updated) =
        read_nonces nonce (new_order_nonces c.order_consumer.new_commands) []
          c.onchain_nonces_updated in
      let noted = record c { onchain_nonces_updated = updated } in
      elim found [
        | none ↦ (Outcome.failed, noted)
        | some nonces ↦ elim (update_onchain_nonces O Q nonces c.block_orders) [
          | none ↦ (Outcome.panic, noted)
          | some store ↦ (Outcome.consumed, record noted { block_orders = store })
        ]
      ]

  unfoldable pub apply_to_store : List SimulatedOrderCommand → Store O Q → Store O Q
  unfolding insert_order remove_order
  apply_to_store [] s = s
  apply_to_store (SimulatedOrderCommand.simulation o ∷ commands) s =
      apply_to_store commands (insert_order O Q o s)
  apply_to_store (SimulatedOrderCommand.cancellation id ∷ commands) s =
      apply_to_store commands (remove_order O Q id s).1

  unfoldable pub apply_consumed : Outcome × Consumer → Outcome × Consumer
  unfolding apply_to_store
  apply_consumed (Outcome.consumed, c) = (
    Outcome.consumed,
    record c {
      block_orders = apply_to_store c.order_consumer.new_commands c.block_orders;
      order_consumer = record { new_commands = [] };
    },
  )
  apply_consumed (Outcome.stop, c) = (Outcome.stop, c)
  apply_consumed (Outcome.failed, c) = (Outcome.failed, c)
  apply_consumed (Outcome.panic, c) = (Outcome.panic, c)

  unfoldable pub blocking_consume_next_batch :
      Received → List Received → (Address → Option ℕ) → Consumer → Outcome × Consumer
  unfolding blocking_consume_next_commands update_new_nonces apply_consumed
  blocking_consume_next_batch first answers nonce c =
      let (is_open, received) = blocking_consume_next_commands first answers c.order_consumer in
      let c' = record c { order_consumer = received } in
      if is_open then apply_consumed (update_new_nonces nonce c') else (Outcome.stop, c')
