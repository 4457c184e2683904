-- ===== src/Primitives/Examples.antt =====
-- Small runs of the code of crates/rbuilder-primitives/src, and its theorems at concrete inputs.
use constraints_builder.Shared.{
  ℕ, ◌≡◌, refl, Bool, true, false, List, [], ◌∷◌, some, arith, ◌+◌, none, length,
}
use constraints_builder.Primitives.Tx.{
  B256, TransactionSignedEcRecoveredWithBlobs, TxRevertBehavior,
}
use constraints_builder.Primitives.Sbundle.{ShareBundleInner, inner, tx, bundle, nil, cons}
use constraints_builder.Primitives.Orders.ShareBundles.{
  IsListed, made-IsListed, new, new_with_fake_hash, with_inner_bundle,
}
use constraints_builder.Primitives.Orders.{can_execute_loop}
use constraints_builder.Primitives.Orders.BaseFee.{can_execute_loop_iff}
use constraints_builder.Primitives.Nonces.{bundle_nonces}
use constraints_builder.Primitives.Nonces.Start.{find, find-bundle_nonces}

abbrev pub sample_tx : ℕ → ℕ → ℕ → TransactionSignedEcRecoveredWithBlobs
sample_tx hash signer nonce = record {
  hash = hash;
  signer = signer;
  nonce = nonce;
  max_fee_per_gas = 100;
  gas_limit = 21000;
  length_eip7934 = 110;
  blobs_len = 0;
  size = 500;
}

-- The second transaction of signer 9 has the least nonce.
abbrev three_txs : List (TransactionSignedEcRecoveredWithBlobs × Bool)
three_txs = (sample_tx 1 9 5, false) ∷ (sample_tx 2 4 7, false) ∷ (sample_tx 3 9 4, true) ∷ []

abbrev nested : ShareBundleInner
nested =
    inner
      (cons (tx (record { tx = sample_tx 1 9 5; revert_behavior = TxRevertBehavior.not_allowed })) (
        cons
          (bundle (
            inner
              (cons
                (tx (record {
                  tx = sample_tx 2 9 6;
                  revert_behavior = TxRevertBehavior.allowed_excluded;
                }))
                nil)
              [] [] false))
          nil))
      [] [] false

find-bundle_nonces_example :
    find 9 (bundle_nonces three_txs) ≡ some (record { nonce = 4; address = 9; optional = true })
find-bundle_nonces_example = find-bundle_nonces 9 three_txs

can_execute_loop_iff_example : can_execute_loop three_txs 100 0 ≡ true
can_execute_loop_iff_example = can_execute_loop_iff three_txs 100 (omega arith)

too_expensive : can_execute_loop three_txs 101 0 ≡ false
unfolding can_execute_loop
too_expensive = refl

-- `keccak256`, by the number of hashes.
abbrev counted : List B256 → B256
counted hashes = 1000 + length hashes

-- The hash is that of the two hashes, of which the second is that of the inner bundle's transaction.
new_test : (new counted 7 9 nested none none).hash ≡ 1002
unfolding new
new_test = refl

made-IsListed_example :
    IsListed nested (new counted 7 9 nested none none)
    × IsListed nested (new_with_fake_hash 5 7 9 nested none none)
    × IsListed nested (with_inner_bundle counted nested (new counted 7 9 nested none none))
made-IsListed_example =
    made-IsListed counted 5 7 9 nested none none (new counted 7 9 nested none none)
