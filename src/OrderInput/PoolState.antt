-- ===== src/OrderInput/PoolState.antt =====
-- The state of crates/rbuilder/src/live_builder/order_input/orderpool.rs, what it is given (sinks, a
-- cache, the chain's nonces, a clock in nanoseconds), and the loops over its lists. A `usize` has 64
-- bits.
use constraints_builder.Shared.{
  ◌≡◌, ℕ, ◌+◌, ◌-◌, ◌*◌, ◌%◌, Bool, true, false, Option, none, some, List, [], ◌∷◌, length, ltb,
  nat_eq, if◌then◌else◌,
}
use constraints_builder.Shared.Map.{Map, or_default}
use constraints_builder.Primitives.Tx.{Address, u64_mod}
use constraints_builder.Primitives.Orders
use constraints_builder.Primitives.Orders.{Order, OrderId, ReplacementKey, ReplacementData}
use constraints_builder.Primitives.Nonces
use constraints_builder.Primitives.Nonces.{Nonce}

-- The trait `ReplaceableOrderSink` (replaceable_order_sink.rs). A method returns the new sink and
-- its result.
pub record ReplaceableOrderSink : Type 1 where
  pub Sink : Type 0
  pub insert_order : Sink → Order → Sink × Bool
  pub remove_bundle : Sink → ReplacementData → Sink × Bool
  pub remove_sbundle : Sink → ReplacementKey → Sink × Bool
  pub is_alive : Sink → Bool

-- `LruCache<(OrderId, u64), ()>` of the crate `lru`: `put` makes its key present (the capacity is
-- not 0).
pub record OrderCache : Type 1 where
  pub Cache : Type 0
  pub new : ℕ → Cache
  pub contains : Cache → OrderId × ℕ → Bool
  pub put : Cache → OrderId × ℕ → Cache
  pub contains-put_self : (c : Cache) (k : OrderId × ℕ) → contains (put c k) k ≡ true

pub record CancelShareBundle : Type 0 where
  pub block : ℕ
  pub key : ReplacementKey

pub data ReplaceableOrderPoolCommand : Type 0 where
  order : Order → ReplaceableOrderPoolCommand
  cancel_share_bundle : CancelShareBundle → ReplaceableOrderPoolCommand
  cancel_bundle : ReplacementData → ReplaceableOrderPoolCommand

unfoldable pub command_target_block : ReplaceableOrderPoolCommand → Option ℕ
command_target_block (ReplaceableOrderPoolCommand.order o) = Orders.target_block o
command_target_block (ReplaceableOrderPoolCommand.cancel_share_bundle c) = some c.block
command_target_block (ReplaceableOrderPoolCommand.cancel_bundle d) = none

pub record BundleBlockStore : Type 0 where
  pub bundles : List Order
  pub cancelled_sbundles : List ReplacementKey

abbrev pub no_bundles : BundleBlockStore
no_bundles = record { bundles = []; cancelled_sbundles = [] }

pub record SinkSubscription (Sink : Type 0) : Type 0 where
  pub sink : Sink
  pub block_number : ℕ

pub record OrderPool (Cache Sink : Type 0) : Type 0 where
  pub mempool_txs : List (Order × ℕ)
  pub mempool_txs_size : ℕ
  pub bundle_cancellations : List (ReplacementData × ℕ)
  pub bundles_by_target_block : Map ℕ BundleBlockStore
  pub bundles_for_current_block : List Order
  pub known_orders : Cache
  pub sinks : Map ℕ (SinkSubscription Sink)
  pub next_sink_id : ℕ
  pub time_to_keep_mempool_txs : ℕ

-- `TIME_TO_KEEP_BUNDLE_CANCELLATIONS`, 60 seconds
abbrev pub time_to_keep_bundle_cancellations : ℕ
time_to_keep_bundle_cancellations = 60 * 1000000000

-- `inserted.elapsed()`
abbrev pub elapsed : ℕ → ℕ → ℕ
elapsed now inserted = now - inserted

unfoldable pub measure_tx : Order → ℕ
measure_tx (Order.tx t) = t.size
measure_tx (Order.bundle b) = 0
measure_tx (Order.share_bundle b) = 0

-- No mandatory nonce is behind the chain. An account without a nonce, or whose nonce cannot be read,
-- counts as 0.
unfoldable pub nonces_reachable : (Address → Option (Option ℕ)) → List Nonce → Bool
nonces_reachable account_nonce [] = true
nonces_reachable account_nonce (n ∷ ns) =
    let rest = nonces_reachable account_nonce ns in
    let onchain_nonce = or_default 0 (or_default none (account_nonce n.address)) in
    if n.optional then rest else if ltb n.nonce onchain_nonce then false else rest

unfoldable pub must_retain_order : ℕ → ℕ → Order → (Address → Option (Option ℕ)) → ℕ → Bool
must_retain_order now inserted_time o account_nonce time_to_keep =
    if ltb time_to_keep (elapsed now inserted_time)
    then false
    else nonces_reachable account_nonce (Nonces.nonces o)

-- `mempool_txs.retain`, whose closure also keeps the size, which wraps in a release build.
unfoldable pub retain_txs : (Order × ℕ → Bool) → List (Order × ℕ) → ℕ → List (Order × ℕ) × ℕ
retain_txs keep [] size = ([], size)
retain_txs keep ((o, time) ∷ txs) size =
    let kept = keep (o, time) in
    let (rest, left) =
      retain_txs keep txs
        (if kept then size else (size + (u64_mod - measure_tx o % u64_mod)) % u64_mod) in
    (if kept then (o, time) ∷ rest else rest, left)

-- The loop that pops the front of the queue.
unfoldable pub drop_old : ℕ → List (ReplacementData × ℕ) → List (ReplacementData × ℕ)
drop_old now [] = []
drop_old now ((d, oldest_time) ∷ rest) =
    let later = drop_old now rest in
    if ltb (elapsed now oldest_time) time_to_keep_bundle_cancellations
    then (d, oldest_time) ∷ rest
    else later

unfoldable pub sum_bundles : List BundleBlockStore → ℕ
sum_bundles [] = 0
sum_bundles (b ∷ bs) = length b.bundles + sum_bundles bs
