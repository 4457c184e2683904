-- ===== src/OrderInput/Pool/Examples.antt =====
-- The theorems on orderpool.rs at concrete inputs.
use constraints_builder.Shared.{
  KeyEq, ℕ, ◌≡◌, true, List, [], ◌∷◌, Option, none, some, contains, filter, ltb, pair_eq, nat_eq,
  if◌then◌else◌, arith,
}
use constraints_builder.Shared.Map.{lookup}
use constraints_builder.Primitives.Tx.{Address}
use constraints_builder.Primitives.Examples.{sample_tx}
use constraints_builder.Primitives.Orders.{Order, OrderId, order_id_eq}
use constraints_builder.OrderInput.Replacement.{Event}
use constraints_builder.OrderInput.PoolState.{
  ReplaceableOrderSink, OrderCache, ReplaceableOrderPoolCommand,
}
use constraints_builder.OrderInput.Pool.{Pool, new, head_updated}
use constraints_builder.OrderInput.Pool.Size.{Step, steps, IsSized, steps-IsSized}
use constraints_builder.OrderInput.Pool.Head.{head_updated_lem, is_young, is_retained, IsOrdered}

-- A sink that records its calls, and a cache that forgets nothing.
abbrev recorder : ReplaceableOrderSink
recorder = record {
  Sink = List Event;
  insert_order = λ events o. (Event.insert_order o ∷ events, true);
  remove_bundle = λ events d. (Event.remove_bundle d ∷ events, true);
  remove_sbundle = λ events k. (Event.remove_sbundle k ∷ events, true);
  is_alive = λ events. true;
}

abbrev pair_same : KeyEq (OrderId × ℕ)
pair_same = pair_eq

abbrev known : OrderCache
known = record {
  Cache = List (OrderId × ℕ);
  new = λ n. [];
  contains = λ keys k. contains keys k;
  put = λ keys k. k ∷ keys;
  contains-put_self = λ keys k. ground (arith, pair_same.same_iff k k);
}

abbrev tx_order : ℕ → ℕ → ℕ → Order
tx_order hash signer nonce = Order.tx (sample_tx hash signer nonce)

-- Two transactions, of which the chain passes one; a cancellation that is 100 seconds old.
abbrev arrivals : List (ReplaceableOrderPoolCommand × ℕ)
arrivals =
    (ReplaceableOrderPoolCommand.order (tx_order 1 9 4), 10)
    ∷ (ReplaceableOrderPoolCommand.order (tx_order 2 5 0), 20)
    ∷ (
      ReplaceableOrderPoolCommand.cancel_bundle
          (record { key = record { id = 3; signer = none }; sequence_number = 1 }),
      30,
    )
    ∷ []

abbrev chain : Address → Option (Option ℕ)
chain a = some (some 1)

abbrev history : List (Step known recorder)
history =
    Step.commands arrivals
    ∷ Step.subscribe 10 []
    ∷ Step.head 100000000000 9 chain
    ∷ Step.unsubscribe 0
    ∷ []

steps-IsSized_example :
    IsSized known recorder (steps known recorder history (new known recorder 200000000000))
steps-IsSized_example = steps-IsSized known recorder 200000000000 history

abbrev before : Pool known recorder
before = record (new known recorder 200000000000) {
  mempool_txs = (tx_order 1 9 4, 10) ∷ (tx_order 2 5 0, 20) ∷ [];
  bundle_cancellations =
      (record { key = record { id = 3; signer = none }; sequence_number = 1 }, 30) ∷ [];
}

head_updated_lem_example :
    ((head_updated known recorder 100000000000 9 chain before).mempool_txs
      ≡ filter (is_retained 100000000000 200000000000 chain) before.mempool_txs)
    × ((b : ℕ)
        → lookup b (head_updated known recorder 100000000000 9 chain before).bundles_by_target_block
          ≡ (if ltb 9 b then lookup b before.bundles_by_target_block else none))
    × ((head_updated known recorder 100000000000 9 chain before).bundles_for_current_block ≡ [])
    × ((head_updated known recorder 100000000000 9 chain before).bundle_cancellations ≡ [])
unfolding is_young new IsOrdered
head_updated_lem_example = head_updated_lem known recorder 100000000000 9 chain before (tt, tt)
