-- ===== src/OrderInput/Pool.antt =====
-- The operations of crates/rbuilder/src/live_builder/order_input/orderpool.rs, the repository of the
-- orders, over any sinks and any cache of known orders. A reading of the clock is an argument.
pub mod Size
pub mod Head
pub mod Known
mod Examples
use constraints_builder.Shared.{
  ℕ, ◌+◌, ◌-◌, ◌*◌, ◌%◌, Bool, true, false, ◌&&◌, Option, none, some, List, [], ◌∷◌, ◌++◌, length,
  map, leb, ltb, nat_beq, nat_eq, if◌then◌else◌, map,
}
use constraints_builder.Shared.Map
use constraints_builder.Shared.Map.{Map, lookup, retain, or_default}
use constraints_builder.Primitives.Tx.{Address, u64_mod}
use constraints_builder.Primitives.Orders
use constraints_builder.Primitives.Orders.{Order, OrderId, ReplacementKey, ReplacementData}
use constraints_builder.Primitives.Nonces
use constraints_builder.Primitives.Nonces.{Nonce}
use constraints_builder.OrderInput.PoolState.{
  ReplaceableOrderSink, OrderCache, CancelShareBundle, ReplaceableOrderPoolCommand,
  command_target_block, BundleBlockStore, no_bundles, SinkSubscription, OrderPool,
  time_to_keep_bundle_cancellations, elapsed, measure_tx, nonces_reachable, must_retain_order,
  retain_txs, drop_old, sum_bundles,
}

module _ (C : OrderCache) (S : ReplaceableOrderSink) where
  open C use {Cache}
  open S use {Sink}

  abbrev pub Pool : Type 0
  Pool = OrderPool Cache Sink

  unfoldable pub new : ℕ → Pool
  new time_to_keep_mempool_txs = record {
    mempool_txs = [];
    mempool_txs_size = 0;
    bundle_cancellations = [];
    bundles_by_target_block = [];
    bundles_for_current_block = [];
    known_orders = C.new 10000;
    sinks = [];
    next_sink_id = 0;
    time_to_keep_mempool_txs = time_to_keep_mempool_txs;
  }

  abbrev pub block_store : ℕ → Pool → BundleBlockStore
  block_store block p = or_default no_bundles (lookup block p.bundles_by_target_block)

  unfoldable pub push_bundle : ℕ → Order → Pool → Pool
  push_bundle block o p =
      let store = block_store block p in
      record p {
        bundles_by_target_block =
            Map.insert block (record store { bundles = store.bundles ++ o ∷ [] })
              p.bundles_by_target_block;
      }

  unfoldable pub store_bundle : Option ℕ → Order → Pool → Pool
  store_bundle none o p = record p {
    bundles_for_current_block = p.bundles_for_current_block ++ o ∷ [];
  }
  store_bundle (some block) o p = push_bundle block o p

  -- The `match` of `process_order`, by the kind of the order.
  unfoldable pub store_order : ℕ → Order → Pool → Pool
  store_order now (Order.tx t) p = record p {
    mempool_txs = p.mempool_txs ++ (Order.tx t, now) ∷ [];
    mempool_txs_size = (p.mempool_txs_size + measure_tx (Order.tx t)) % u64_mod;
  }
  store_order now (Order.bundle b) p = store_bundle b.block (Order.bundle b) p
  store_order now (Order.share_bundle b) p = push_bundle b.block (Order.share_bundle b) p

  unfoldable pub process_order : ℕ → Order → Pool → Pool
  process_order now o p =
      let key : OrderId × ℕ = (Orders.id o, or_default 0 (Orders.target_block o)) in
      if C.contains p.known_orders key
      then p
      else let stored = store_order now o p in
        record stored { known_orders = C.put stored.known_orders key }

  unfoldable pub process_remove_sbundle : CancelShareBundle → Pool → Pool
  process_remove_sbundle c p =
      let store = block_store c.block p in
      record p {
        bundles_by_target_block =
            Map.insert c.block
              (record store { cancelled_sbundles = store.cancelled_sbundles ++ c.key ∷ [] })
              p.bundles_by_target_block;
      }

  unfoldable pub process_remove_bundle : ℕ → ReplacementData → Pool → Pool
  process_remove_bundle now key p = record p {
    bundle_cancellations = p.bundle_cancellations ++ (key, now) ∷ [];
  }

  unfoldable pub forward : ReplaceableOrderPoolCommand → Sink → Sink × Bool
  forward (ReplaceableOrderPoolCommand.order o) sink = S.insert_order sink o
  forward (ReplaceableOrderPoolCommand.cancel_share_bundle c) sink = S.remove_sbundle sink c.key
  forward (ReplaceableOrderPoolCommand.cancel_bundle d) sink = S.remove_bundle sink d

  abbrev pub concerns : Option ℕ → ℕ → Bool
  concerns none block = true
  concerns (some target) block = nat_beq target block

  -- `sinks.retain`, whose closure sends the command to the sinks it concerns.
  unfoldable pub notify :
      ReplaceableOrderPoolCommand → Map ℕ (SinkSubscription Sink) → Map ℕ (SinkSubscription Sink)
  notify command [] = []
  notify command ((i, sub) ∷ subs) =
      let rest = notify command subs in
      let (sink, send_ok) = forward command sub.sink in
      if S.is_alive sub.sink
      then if concerns (command_target_block command) sub.block_number
        then if send_ok then (i, record sub { sink = sink }) ∷ rest else rest
        else (i, sub) ∷ rest
      else rest

  unfoldable pub store_command : ℕ → ReplaceableOrderPoolCommand → Pool → Pool
  store_command now (ReplaceableOrderPoolCommand.order o) p = process_order now o p
  store_command now (ReplaceableOrderPoolCommand.cancel_share_bundle c) p =
      process_remove_sbundle c p
  store_command now (ReplaceableOrderPoolCommand.cancel_bundle d) p = process_remove_bundle now d p

  unfoldable pub process_command : ℕ → ReplaceableOrderPoolCommand → Pool → Pool
  process_command now command p =
      let stored = store_command now command p in
      record stored { sinks = notify command stored.sinks }

  -- Each command with the reading of the clock when it is processed.
  unfoldable pub process_commands : List (ReplaceableOrderPoolCommand × ℕ) → Pool → Pool
  process_commands [] p = p
  process_commands ((command, now) ∷ commands) p =
      process_commands commands (process_command now command p)

  unfoldable pub insert_orders : List Order → Sink → Sink
  insert_orders [] sink = sink
  insert_orders (o ∷ os) sink = insert_orders os (S.insert_order sink o).0

  unfoldable pub remove_bundles : List ReplacementData → Sink → Sink
  remove_bundles [] sink = sink
  remove_bundles (d ∷ ds) sink = remove_bundles ds (S.remove_bundle sink d).0

  unfoldable pub remove_sbundles : List ReplacementKey → Sink → Sink
  remove_sbundles [] sink = sink
  remove_sbundles (k ∷ ks) sink = remove_sbundles ks (S.remove_sbundle sink k).0

  unfoldable pub add_sink : ℕ → Sink → Pool → ℕ × Pool
  add_sink block_number sink p =
      let mempool = insert_orders (map (λ x. x.0) p.mempool_txs) sink in
      let cancelled = remove_bundles (map (λ x. x.0) p.bundle_cancellations) mempool in
      let store = block_store block_number p in
      let bundled =
        remove_sbundles store.cancelled_sbundles (insert_orders store.bundles cancelled) in
      let current = insert_orders p.bundles_for_current_block bundled in
      (
        p.next_sink_id,
        record p {
          next_sink_id = p.next_sink_id + 1;
          sinks =
              Map.insert p.next_sink_id (record { sink = current; block_number = block_number })
                p.sinks;
        },
      )

  unfoldable pub remove_sink : ℕ → Pool → Option Sink × Pool
  remove_sink id p = (
    elim (lookup id p.sinks) [ none ↦ none | some sub ↦ some sub.sink ],
    record p { sinks = Map.remove id p.sinks },
  )

  unfoldable pub head_updated : ℕ → ℕ → (Address → Option (Option ℕ)) → Pool → Pool
  head_updated now new_block_number account_nonce p =
      let (txs, size) =
        retain_txs (λ x. must_retain_order now x.1 x.0 account_nonce p.time_to_keep_mempool_txs)
          p.mempool_txs p.mempool_txs_size in
      record p {
        bundles_by_target_block = retain (λ b s. ltb new_block_number b) p.bundles_by_target_block;
        bundles_for_current_block = [];
        mempool_txs = txs;
        mempool_txs_size = size;
        bundle_cancellations = drop_old now p.bundle_cancellations;
      }

  unfoldable pub content_count : Pool → ℕ × ℕ
  content_count p = (length p.mempool_txs, sum_bundles (Map.values p.bundles_by_target_block))
