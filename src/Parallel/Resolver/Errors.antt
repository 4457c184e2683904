-- ===== src/Parallel/Resolver/Errors.antt =====
-- `ExecutionError` and what it holds (building/mod.rs, building/order_commit.rs).
use constraints_builder.Shared.{
  ℕ, Bool, Option, none, some, List, [], ◌∷◌, if◌then◌else◌, nat_eq, pair_eq, nat_beq, ◌>>=◌,
}
use constraints_builder.Primitives.Tx.{Address, B256, TransactionSignedEcRecoveredWithBlobs}
use constraints_builder.Primitives.Orders.{Order, order_id_eq, list_txs}
use constraints_builder.Primitives.SimValue.{SimValue}

-- `InvalidTransaction` of revm: the one error that is looked at, with the nonces of the transaction
-- and of the account, and all others.
pub data InvalidTransaction : Type 0 where
  nonce_too_high : ℕ → ℕ → InvalidTransaction
  other_invalid : InvalidTransaction

pub data TransactionErr : Type 0 where
  invalid_transaction : InvalidTransaction → TransactionErr
  blocklist gas_left blob_gas_left block_space_left : TransactionErr

-- `other_bundle_err` is any of the errors of a bundle that are not about an invalid transaction.
pub data BundleErr : Type 0 where
  invalid_bundle_transaction : B256 → TransactionErr → BundleErr
  other_bundle_err : BundleErr

pub data OrderErr : Type 0 where
  transaction_err : TransactionErr → OrderErr
  bundle_err : BundleErr → OrderErr
  negative_profit : ℕ → OrderErr

pub data ExecutionError : Type 0 where
  order_error : OrderErr → ExecutionError
  lower_inserted_value : SimValue → SimValue → ExecutionError

-- The signer of the transaction with this hash.
unfoldable pub signer_of :
    B256 → List (TransactionSignedEcRecoveredWithBlobs × Bool) → Option Address
signer_of hash [] = none
signer_of hash ((tx, optional) ∷ txs) =
    let rest = signer_of hash txs in if nat_beq tx.hash hash then some tx.signer else rest

unfoldable pub first_signer : List (TransactionSignedEcRecoveredWithBlobs × Bool) → Option Address
first_signer [] = none
first_signer ((tx, optional) ∷ txs) = some tx.signer

unfoldable pub try_get_tx_too_high_error : ExecutionError → Order → Option (Address × ℕ)
unfolding signer_of first_signer list_txs
try_get_tx_too_high_error
      (ExecutionError.order_error (
        OrderErr.transaction_err (
          TransactionErr.invalid_transaction
            (InvalidTransaction.nonce_too_high tx_nonce state_nonce))))
      order =
    do signer ← first_signer (list_txs order); some (signer, tx_nonce)
try_get_tx_too_high_error
      (ExecutionError.order_error (
        OrderErr.bundle_err (
          BundleErr.invalid_bundle_transaction hash (
            TransactionErr.invalid_transaction
              (InvalidTransaction.nonce_too_high tx_nonce state_nonce)))))
      order =
    do signer ← signer_of hash (list_txs order); some (signer, tx_nonce)
try_get_tx_too_high_error e order = none
