-- ===== src/ConstraintProofs/Observer.antt =====
-- crates/rbuilder/src/live_builder/block_output/constraint_proof_observer.rs: the proofs of the
-- constraint transactions of a submitted block. `decode_2718` of alloy_eips and `to_string` of
-- serde_json are parameters; the task that `block_submitted` spawns is the call of its function.
pub mod Stored
pub mod Examples
use constraints_builder.Shared.{
  ℕ, suc, Bool, Option, none, some, List, [], ◌∷◌, ◌>>=◌, is_empty, if◌then◌else◌,
}
use constraints_builder.Primitives.Tx.{B256}
use constraints_builder.ConstraintProofs.Storage.{Storage, ConstraintProof, add_proof}
use constraints_builder.ConstraintProofs.Trie.{
  Bytes, EthTrie, Encoding, Result, TransactionTrieBuilder, find_tx_index, build, root, get_proof,
}

-- Of the payload what is read here.
pub record ExecutionPayload : Type 0 where
  pub transactions : List Bytes
  pub block_hash : B256

pub data SubmitBlockRequest : Type 0 where
  electra fulu deneb capella : ExecutionPayload → SubmitBlockRequest

unfoldable pub payload_of : SubmitBlockRequest → ExecutionPayload
payload_of (SubmitBlockRequest.electra request) = request
payload_of (SubmitBlockRequest.fulu request) = request
payload_of (SubmitBlockRequest.deneb request) = request
payload_of (SubmitBlockRequest.capella request) = request

unfoldable pub extract_block_hash : SubmitBlockRequest → B256
unfolding payload_of
extract_block_hash submit_block_request = (payload_of submit_block_request).block_hash

-- What a call leaves: the storage and the counts that it logs.
pub record Generated : Type 0 where
  pub storage : Storage
  pub success_count : ℕ
  pub failure_count : ℕ

module _ {Trie Tx : Type 0} (ops : EthTrie Trie) (rlp : Encoding Tx) where
  unfoldable pub generate_single_proof :
      B256
      → B256
      → ℕ
      → ℕ
      → TransactionTrieBuilder Trie
      → Result (ConstraintProof × TransactionTrieBuilder Trie)
  unfolding find_tx_index get_proof
  generate_single_proof tx_hash transactions_root block_number slot b =
      elim (find_tx_index tx_hash b) [
        | Result.err e ↦ Result.err e
        | Result.ok tx_index ↦ elim (get_proof ops rlp tx_index b) [
          | Result.err e ↦ Result.err e
          | Result.ok p ↦ Result.ok (
            record {
              tx_hash = tx_hash;
              tx_index = tx_index;
              proof = p.0;
              transactions_root = transactions_root;
              block_number = block_number;
              slot = slot;
            },
            p.1,
          )
        ]
      ]

module _ {Tx : Type 0} (decode_2718 : Bytes → Option Tx) where
  unfoldable pub decode_all : List Bytes → Option (List Tx)
  decode_all [] = some []
  decode_all (tx_bytes ∷ rest) = do
    tx ← decode_2718 tx_bytes
    txs ← decode_all rest
    some (tx ∷ txs)

  -- `none` is an error: bytes that are no transaction, or a block without transactions.
  unfoldable pub extract_transactions : SubmitBlockRequest → Option (List Tx)
  unfolding decode_all payload_of
  extract_transactions submit_block_request = do
    txs ← decode_all (payload_of submit_block_request).transactions
    if is_empty txs then none else some txs

module _ {Trie Tx : Type 0} (ops : EthTrie Trie) (rlp : Encoding Tx)
    (decode_2718 : Bytes → Option Tx) (to_string_ok : ConstraintProof → Bool) where
  -- The loop over the constraint transactions. A proof that cannot be written as JSON is stored.
  unfoldable pub generate_all :
      List B256 → B256 → ℕ → ℕ → B256 → TransactionTrieBuilder Trie → Generated → Generated
  unfolding generate_single_proof add_proof
  generate_all [] transactions_root block_number slot block_hash b g = g
  generate_all (tx_hash ∷ hashes) transactions_root block_number slot block_hash b g =
      elim (generate_single_proof ops rlp tx_hash transactions_root block_number slot b) [
        | Result.err e ↦
            generate_all hashes transactions_root block_number slot block_hash b
              (record g { failure_count = suc g.failure_count })
        | Result.ok p ↦
            let stored = add_proof slot block_hash block_number p.0 g.storage in
            generate_all hashes transactions_root block_number slot block_hash p.1 (
              if to_string_ok p.0
              then record g { storage = stored; success_count = suc g.success_count }
              else record g { storage = stored; failure_count = suc g.failure_count })
      ]

  -- `none` is one of the early returns, which store nothing.
  unfoldable pub generate_and_log_constraint_proofs :
      SubmitBlockRequest → List B256 → ℕ → ℕ → Storage → Option Generated
  unfolding extract_block_hash extract_transactions build root generate_all
  generate_and_log_constraint_proofs submit_block_request constraint_tx_hashes block_number slot
        storage =
      elim (extract_transactions decode_2718 submit_block_request) [
        | none ↦ none
        | some transactions ↦ elim (build ops rlp transactions) [
          | Result.err e ↦ none
          | Result.ok trie_builder ↦ elim (root ops rlp trie_builder) [
            | Result.err e ↦ none
            | Result.ok r ↦ some (
                generate_all constraint_tx_hashes r.0 block_number slot
                  (extract_block_hash submit_block_request) r.1
                  (record { storage = storage; success_count = 0; failure_count = 0 }))
          ]
        ]
      ]

  -- The storage after `block_submitted` and the task it spawns.
  unfoldable pub block_submitted : SubmitBlockRequest → List B256 → ℕ → ℕ → Storage → Storage
  unfolding generate_and_log_constraint_proofs
  block_submitted submit_block_request appended_constraint_txs block_number slot storage =
      if is_empty appended_constraint_txs
      then storage
      else elim (generate_and_log_constraint_proofs submit_block_request appended_constraint_txs
          block_number slot storage) [ none ↦ storage | some g ↦ g.storage ]
