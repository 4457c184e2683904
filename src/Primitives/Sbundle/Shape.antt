-- ===== src/Primitives/Sbundle/Shape.antt =====
-- The three walks over a share bundle (crates/rbuilder-primitives/src/lib.rs) agree.
use constraints_builder.Shared.{◌≡◌, refl, Bool, arith, length, length-append, map, map-append}
use constraints_builder.Primitives.Tx.{
  TransactionSignedEcRecoveredWithBlobs, TxRevertBehavior, can_revert,
}
use constraints_builder.Primitives.Sbundle.{
  ShareBundleInner, ShareBundleBody, ShareBundleBodies, inner, tx, bundle, nil, cons, list_txs,
  list_txs_body, list_txs_bodies, list_txs_revert, list_txs_revert_body, list_txs_revert_bodies,
  list_txs_len, list_txs_len_body, list_txs_len_bodies,
}

-- What `list_txs` shows of an entry of `list_txs_revert`.
abbrev pub old_flag :
    TransactionSignedEcRecoveredWithBlobs × TxRevertBehavior
    → TransactionSignedEcRecoveredWithBlobs × Bool
old_flag p = (p.0, can_revert p.1)

mutual
  unfolding list_txs list_txs_revert list_txs_len

  len_inner : (b : ShareBundleInner) → list_txs_len b ≡ length (list_txs b)
  len_inner (inner body refund config can_skip) = len_bodies body

  len_body : (b : ShareBundleBody) → list_txs_len_body b ≡ length (list_txs_body b)
  len_body (tx t) = refl
  len_body (bundle b) = len_inner b

  len_bodies : (bs : ShareBundleBodies) → list_txs_len_bodies bs ≡ length (list_txs_bodies bs)
  len_bodies nil = refl
  len_bodies (cons b bs) =
      omega (arith, len_body b, len_bodies bs, length-append (list_txs_body b) (list_txs_bodies bs))

mutual
  unfolding list_txs list_txs_revert list_txs_len

  flags_inner : (b : ShareBundleInner) → map old_flag (list_txs_revert b) ≡ list_txs b
  flags_inner (inner body refund config can_skip) = flags_bodies body

  flags_body : (b : ShareBundleBody) → map old_flag (list_txs_revert_body b) ≡ list_txs_body b
  flags_body (tx t) = refl
  flags_body (bundle b) = flags_inner b

  flags_bodies :
      (bs : ShareBundleBodies) → map old_flag (list_txs_revert_bodies bs) ≡ list_txs_bodies bs
  flags_bodies nil = refl
  flags_bodies (cons b bs) = simp (map-append, flags_body b, flags_bodies bs)

-- For every tree, `list_txs_len` is the number of transactions that `list_txs` lists,
-- and `list_txs` is `list_txs_revert` with each revert behaviour read as the old Boolean.
pub list_txs_agree :
    (b : ShareBundleInner)
    → (list_txs_len b ≡ length (list_txs b)) × (map old_flag (list_txs_revert b) ≡ list_txs b)
list_txs_agree b = (len_inner b, flags_inner b)
