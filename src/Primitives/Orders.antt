-- ===== src/Primitives/Orders.antt =====
-- Orders and their identifiers (crates/rbuilder-primitives/src/lib.rs). Fields that only logs and
-- the wire formats read (metadata, timestamps, versions, refunds, `original_orders`) are left out.
pub mod BaseFee
pub mod ShareBundles
use constraints_builder.Shared.{
  ℕ, ◌+◌, ◌%◌, ◌≡◌, ◌↔◌, Bool, true, false, ◌&&◌, ◌||◌, Option, none, some, List, [], ◌∷◌, map,
  arith, leb, ltb, if◌then◌else◌, KeyEq, ◌==◌, nat_beq, nat_eq, option_eq, option_beq_iff,
  option_beq, contains,
}
use constraints_builder.Primitives.Tx.{
  Address, B256, Uuid, u32_mod, TransactionSignedEcRecoveredWithBlobs,
}
use constraints_builder.Primitives.Sbundle
use constraints_builder.Primitives.Sbundle.{ShareBundleInner}

pub record ReplacementKey : Type 0 where
  pub id : Uuid
  pub signer : Option Address

-- `BundleReplacementKey` and `ShareBundleReplacementKey` are wrappers of a `ReplacementKey` that
-- the constructors keep apart.
pub data OrderReplacementKey : Type 0 where
  bundle : ReplacementKey → OrderReplacementKey
  share_bundle : ReplacementKey → OrderReplacementKey

pub record ReplacementData : Type 0 where
  pub key : ReplacementKey
  pub sequence_number : ℕ

pub record Bundle : Type 0 where
  pub block : Option ℕ
  pub txs : List TransactionSignedEcRecoveredWithBlobs
  pub reverting_tx_hashes : List B256
  pub dropping_tx_hashes : List B256
  pub uuid : Uuid
  pub replacement_data : Option ReplacementData
  pub signer : Option Address

pub record ShareBundle : Type 0 where
  pub hash : B256
  pub block : ℕ
  pub max_block : ℕ
  pub inner_bundle : ShareBundleInner
  pub list_txs_len : ℕ
  pub signer : Option Address
  pub replacement_data : Option ReplacementData

pub data Order : Type 0 where
  bundle : Bundle → Order
  tx : TransactionSignedEcRecoveredWithBlobs → Order
  share_bundle : ShareBundle → Order

pub data OrderId : Type 0 where
  tx : B256 → OrderId
  bundle : Uuid → OrderId
  share_bundle : B256 → OrderId

abbrev pub order_id_beq : OrderId → OrderId → Bool
order_id_beq (OrderId.tx a) (OrderId.tx b) = nat_beq a b
order_id_beq (OrderId.bundle a) (OrderId.bundle b) = nat_beq a b
order_id_beq (OrderId.share_bundle a) (OrderId.share_bundle b) = nat_beq a b
order_id_beq _ _ = false

pub order_id_beq_iff : (a b : OrderId) → (order_id_beq a b ≡ true) ↔ (a ≡ b)
order_id_beq_iff (OrderId.tx a) b = ground arith
order_id_beq_iff (OrderId.bundle a) b = ground arith
order_id_beq_iff (OrderId.share_bundle a) b = ground arith

instance abbrev pub order_id_eq : KeyEq OrderId
order_id_eq = record { same = order_id_beq; same_iff = order_id_beq_iff }

abbrev pub replacement_key_beq : ReplacementKey → ReplacementKey → Bool
replacement_key_beq a b = nat_beq a.id b.id && option_beq a.signer b.signer

pub replacement_key_beq_iff : (a b : ReplacementKey) → (replacement_key_beq a b ≡ true) ↔ (a ≡ b)
replacement_key_beq_iff a b = ground (arith, option_beq_iff a.signer b.signer)

instance abbrev pub replacement_key_eq : KeyEq ReplacementKey
replacement_key_eq = record { same = replacement_key_beq; same_iff = replacement_key_beq_iff }

abbrev pub order_replacement_key_beq : OrderReplacementKey → OrderReplacementKey → Bool
order_replacement_key_beq (OrderReplacementKey.bundle a) (OrderReplacementKey.bundle b) = a == b
order_replacement_key_beq (OrderReplacementKey.share_bundle a)
      (OrderReplacementKey.share_bundle b) =
    a == b
order_replacement_key_beq _ _ = false

pub order_replacement_key_beq_iff :
    (a b : OrderReplacementKey) → (order_replacement_key_beq a b ≡ true) ↔ (a ≡ b)
order_replacement_key_beq_iff (OrderReplacementKey.bundle a) (OrderReplacementKey.bundle b) =
    ground (arith, replacement_key_beq_iff a b)
order_replacement_key_beq_iff (OrderReplacementKey.share_bundle a)
      (OrderReplacementKey.share_bundle b) =
    ground (arith, replacement_key_beq_iff a b)
order_replacement_key_beq_iff _ _ = ground arith

instance abbrev pub order_replacement_key_eq : KeyEq OrderReplacementKey
order_replacement_key_eq = record {
  same = order_replacement_key_beq;
  same_iff = order_replacement_key_beq_iff;
}

-- `Order::id`
unfoldable pub id : Order → OrderId
id (Order.bundle b) = OrderId.bundle b.uuid
id (Order.tx t) = OrderId.tx t.hash
id (Order.share_bundle s) = OrderId.share_bundle s.hash

unfoldable pub target_block : Order → Option ℕ
target_block (Order.bundle b) = b.block
target_block (Order.tx t) = none
target_block (Order.share_bundle s) = some s.block

unfoldable pub signer : Order → Option Address
signer (Order.bundle b) = b.signer
signer (Order.tx t) = none
signer (Order.share_bundle s) = s.signer

abbrev keyed :
    (ReplacementKey → OrderReplacementKey)
    → Option ReplacementData
    → Option (OrderReplacementKey × ℕ)
keyed wrap none = none
keyed wrap (some r) = some (wrap r.key, r.sequence_number)

unfoldable pub replacement_key_and_sequence_number : Order → Option (OrderReplacementKey × ℕ)
replacement_key_and_sequence_number (Order.bundle b) =
    keyed OrderReplacementKey.bundle b.replacement_data
replacement_key_and_sequence_number (Order.tx t) = none
replacement_key_and_sequence_number (Order.share_bundle s) =
    keyed OrderReplacementKey.share_bundle s.replacement_data

-- `Bundle::is_tx_optional`
unfoldable pub is_tx_optional : Bundle → B256 → Bool
is_tx_optional b hash = contains b.reverting_tx_hashes hash || contains b.dropping_tx_hashes hash

-- `Bundle::list_txs`
abbrev pub bundle_list_txs : Bundle → List (TransactionSignedEcRecoveredWithBlobs × Bool)
bundle_list_txs b =
    map (λ (t : TransactionSignedEcRecoveredWithBlobs). (t, is_tx_optional b t.hash)) b.txs

-- `Order::list_txs`
unfoldable pub list_txs : Order → List (TransactionSignedEcRecoveredWithBlobs × Bool)
list_txs (Order.bundle b) = bundle_list_txs b
list_txs (Order.tx t) = (t, true) ∷ []
list_txs (Order.share_bundle s) = Sbundle.list_txs s.inner_bundle

-- The loop of the free function `can_execute_with_block_base_fee`; its `u32` wraps in a release
-- build.
unfoldable pub can_execute_loop : List (TransactionSignedEcRecoveredWithBlobs × Bool) → ℕ → ℕ → Bool
can_execute_loop [] fee executable_tx_count = ltb 0 executable_tx_count
can_execute_loop ((t, opt) ∷ txs) fee executable_tx_count =
    let paid = can_execute_loop txs fee ((executable_tx_count + 1) % u32_mod) in
    let skipped = can_execute_loop txs fee executable_tx_count in
    if leb fee t.max_fee_per_gas then paid else if opt then skipped else false

-- `Order::can_execute_with_block_base_fee`
unfoldable pub can_execute_with_block_base_fee : Order → ℕ → Bool
can_execute_with_block_base_fee (Order.bundle b) fee = can_execute_loop (bundle_list_txs b) fee 0
can_execute_with_block_base_fee (Order.tx t) fee = leb fee t.max_fee_per_gas
can_execute_with_block_base_fee (Order.share_bundle s) fee =
    can_execute_loop (Sbundle.list_txs s.inner_bundle) fee 0
