-- ===== src/Primitives/Sbundle.antt =====
-- Share bundles of crates/rbuilder-primitives/src/lib.rs: a tree of transactions and inner bundles.
-- A `Vec` of body elements is a type of the block, since a data type may not nest in a list.
pub mod Shape
use constraints_builder.Shared.{
  ℕ, ◌+◌, ◌≡◌, Bool, Option, none, some, List, [], ◌∷◌, ◌++◌, is_empty, if◌then◌else◌,
}
use constraints_builder.Primitives.Tx.{
  Address, TransactionSignedEcRecoveredWithBlobs, TxRevertBehavior, can_revert,
}

pub record ShareBundleTx : Type 0 where
  pub tx : TransactionSignedEcRecoveredWithBlobs
  pub revert_behavior : TxRevertBehavior

pub record Refund : Type 0 where
  pub body_idx : ℕ
  pub percent : ℕ

pub record RefundConfig : Type 0 where
  pub address : Address
  pub percent : ℕ

-- `inner` has the fields `body`, `refund`, `refund_config` and `can_skip`.
mutual
  pub data ShareBundleInner : Type 0 where
    inner : ShareBundleBodies → List Refund → List RefundConfig → Bool → ShareBundleInner

  pub data ShareBundleBody : Type 0 where
    tx : ShareBundleTx → ShareBundleBody
    bundle : ShareBundleInner → ShareBundleBody

  pub data ShareBundleBodies : Type 0 where
    nil : ShareBundleBodies
    cons : ShareBundleBody → ShareBundleBodies → ShareBundleBodies

unfoldable mutual
  pub list_txs : ShareBundleInner → List (TransactionSignedEcRecoveredWithBlobs × Bool)
  list_txs (inner body refund config can_skip) = list_txs_bodies body

  pub list_txs_body : ShareBundleBody → List (TransactionSignedEcRecoveredWithBlobs × Bool)
  list_txs_body (tx t) = (t.tx, can_revert t.revert_behavior) ∷ []
  list_txs_body (bundle b) = list_txs b

  pub list_txs_bodies : ShareBundleBodies → List (TransactionSignedEcRecoveredWithBlobs × Bool)
  list_txs_bodies nil = []
  list_txs_bodies (cons b bs) = list_txs_body b ++ list_txs_bodies bs

unfoldable mutual
  pub list_txs_revert :
      ShareBundleInner → List (TransactionSignedEcRecoveredWithBlobs × TxRevertBehavior)
  list_txs_revert (inner body refund config can_skip) = list_txs_revert_bodies body

  pub list_txs_revert_body :
      ShareBundleBody → List (TransactionSignedEcRecoveredWithBlobs × TxRevertBehavior)
  list_txs_revert_body (tx t) = (t.tx, t.revert_behavior) ∷ []
  list_txs_revert_body (bundle b) = list_txs_revert b

  pub list_txs_revert_bodies :
      ShareBundleBodies → List (TransactionSignedEcRecoveredWithBlobs × TxRevertBehavior)
  list_txs_revert_bodies nil = []
  list_txs_revert_bodies (cons b bs) = list_txs_revert_body b ++ list_txs_revert_bodies bs

unfoldable mutual
  pub list_txs_len : ShareBundleInner → ℕ
  list_txs_len (inner body refund config can_skip) = list_txs_len_bodies body

  pub list_txs_len_body : ShareBundleBody → ℕ
  list_txs_len_body (tx t) = 1
  list_txs_len_body (bundle b) = list_txs_len b

  pub list_txs_len_bodies : ShareBundleBodies → ℕ
  list_txs_len_bodies nil = 0
  list_txs_len_bodies (cons b bs) = list_txs_len_body b + list_txs_len_bodies bs

-- `refund_config` of an inner bundle and of a body element; `first_config` is `self.body[0]`.
unfoldable mutual
  pub refund_config : ShareBundleInner → Option (List RefundConfig)
  refund_config (inner body refund [] can_skip) = first_config body
  refund_config (inner body refund (c ∷ cs) can_skip) = some (c ∷ cs)

  pub refund_config_body : ShareBundleBody → Option (List RefundConfig)
  refund_config_body (tx t) = some ((record { address = t.tx.signer; percent = 100 }) ∷ [])
  refund_config_body (bundle b) = refund_config b

  pub first_config : ShareBundleBodies → Option (List RefundConfig)
  first_config nil = none
  first_config (cons b bs) = refund_config_body b
