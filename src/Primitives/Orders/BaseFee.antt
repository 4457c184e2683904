-- ===== src/Primitives/Orders/BaseFee.antt =====
-- The loop of `can_execute_with_block_base_fee` (crates/rbuilder-primitives/src/lib.rs) against its
-- doc comment: some transaction can execute, and all mandatory ones can.
use constraints_builder.Shared.{
  ℕ, ◌+◌, ◌%◌, ◌≡◌, Bool, ◌&&◌, ◌||◌, List, [], ◌∷◌, any, all, leb, ltb, arith, length, ◌<◌,
}
use constraints_builder.Primitives.Tx.{TransactionSignedEcRecoveredWithBlobs}
use constraints_builder.Primitives.Orders.{can_execute_loop, u32_mod}

abbrev pub pays : ℕ → TransactionSignedEcRecoveredWithBlobs × Bool → Bool
pays fee p = leb fee p.0.max_fee_per_gas

abbrev pub pays_or_optional : ℕ → TransactionSignedEcRecoveredWithBlobs × Bool → Bool
pays_or_optional fee p = pays fee p || p.1

loop_from :
    (txs : List (TransactionSignedEcRecoveredWithBlobs × Bool)) (fee n : ℕ)
    → n + length txs < u32_mod
    → can_execute_loop txs fee n
      ≡ (all (pays_or_optional fee) txs && (ltb 0 n || any (pays fee) txs))
unfolding can_execute_loop
loop_from [] fee n h = ground arith
loop_from ((t, o) ∷ txs) fee n h =
    let counted : (n + 1) % u32_mod ≡ n + 1 = omega arith in
    rw counted
      (ground (arith, loop_from txs fee (n + 1) (omega arith), loop_from txs fee n (omega arith)))

-- For every list of fewer than 2^32 transactions with their optional flags and every base fee, the
-- loop returns true exactly when every transaction that does not pay the fee is optional and some
-- transaction pays it.
pub can_execute_loop_iff :
    (txs : List (TransactionSignedEcRecoveredWithBlobs × Bool)) (fee : ℕ)
    → length txs < u32_mod
    → can_execute_loop txs fee 0 ≡ (all (pays_or_optional fee) txs && any (pays fee) txs)
can_execute_loop_iff txs fee h = ground (arith, loop_from txs fee 0 (omega arith))
