-- ===== src/ConstraintProofs/Trie.antt =====
-- crates/rbuilder/src/building/constraint_proofs.rs: the Merkle Patricia trie of the transactions of a
-- block. The trie is that of eth_trie and the encodings are those of alloy_rlp, so both are
-- parameters: an interface of operations, and functions.
pub mod Proved
use constraints_builder.Shared.{
  ℕ, zero, suc, Bool, true, false, Option, none, some, List, [], ◌∷◌, ◌++◌, length, get_elem?, leb,
  nat_beq, if◌then◌else◌,
}
use constraints_builder.Primitives.Tx.{B256}

abbrev pub Bytes : Type 0
Bytes = List ℕ

-- `EthTrie`: `none` is a `TrieError`. `verify_proof` answers `some none` when the proof shows that the
-- key is not there.
pub record EthTrie (Trie : Type 0) : Type 0 where
  pub empty : Trie
  pub insert : Bytes → Bytes → Trie → Option Trie
  pub root_hash : Trie → Option (B256 × Trie)
  pub get_proof : Bytes → Trie → Option (List Bytes × Trie)
  pub verify_proof : Trie → B256 → Bytes → List Bytes → Option (Option Bytes)

-- `alloy_rlp::encode` of an index and of a signed transaction, and the hash of a transaction.
pub record Encoding (Tx : Type 0) : Type 0 where
  pub index : ℕ → Bytes
  pub tx : Tx → Bytes
  pub hash : Tx → B256

pub data ConstraintProofError : Type 0 where
  trie_error : ConstraintProofError
  tx_not_found : ℕ → ConstraintProofError
  tx_hash_not_found : B256 → ConstraintProofError
  invalid_proof : ConstraintProofError

pub data Result {ℓ} (A : Type ℓ) : Type ℓ where
  ok : A → Result A
  err : ConstraintProofError → Result A

pub record TransactionTrieBuilder (Trie : Type 0) : Type 0 where
  pub trie : Trie
  pub transactions : List B256

-- `iter().position(..)`
unfoldable pub position : B256 → List B256 → Option ℕ
position tx_hash [] = none
position tx_hash (h ∷ hashes) =
    let rest = position tx_hash hashes in
    if nat_beq h tx_hash then some 0 else elim rest [ none ↦ none | some i ↦ some (suc i) ]

unfoldable pub find_tx_index : {Trie : Type 0} → B256 → TransactionTrieBuilder Trie → Result ℕ
unfolding position
find_tx_index tx_hash b = elim (position tx_hash b.transactions) [
  | none ↦ Result.err (ConstraintProofError.tx_hash_not_found tx_hash)
  | some i ↦ Result.ok i
]

unfoldable pub get_tx_hash : {Trie : Type 0} → ℕ → TransactionTrieBuilder Trie → Result B256
get_tx_hash tx_index b = elim (get_elem? b.transactions tx_index) [
  | none ↦ Result.err (ConstraintProofError.tx_not_found tx_index)
  | some h ↦ Result.ok h
]

module _ {Trie Tx : Type 0} (ops : EthTrie Trie) (rlp : Encoding Tx) where
  -- The loop over the transactions.
  unfoldable pub insert_all :
      ℕ → List Tx → TransactionTrieBuilder Trie → Result (TransactionTrieBuilder Trie)
  insert_all idx [] b = Result.ok b
  insert_all idx (tx ∷ txs) b = elim (ops.insert (rlp.index idx) (rlp.tx tx) b.trie) [
    | none ↦ Result.err ConstraintProofError.trie_error
    | some trie ↦
        insert_all (suc idx) txs
          (record { trie = trie; transactions = b.transactions ++ rlp.hash tx ∷ [] })
  ]

  unfoldable pub build : List Tx → Result (TransactionTrieBuilder Trie)
  unfolding insert_all
  build transactions = insert_all 0 transactions (record { trie = ops.empty; transactions = [] })

  unfoldable pub root : TransactionTrieBuilder Trie → Result (B256 × TransactionTrieBuilder Trie)
  root b = elim (ops.root_hash b.trie) [
    | none ↦ Result.err ConstraintProofError.trie_error
    | some r ↦ Result.ok (r.0, record b { trie = r.1 })
  ]

  unfoldable pub get_proof :
      ℕ → TransactionTrieBuilder Trie → Result (List Bytes × TransactionTrieBuilder Trie)
  get_proof tx_index b =
      if leb (length b.transactions) tx_index
      then Result.err (ConstraintProofError.tx_not_found tx_index)
      else elim (ops.get_proof (rlp.index tx_index) b.trie) [
        | none ↦ Result.err ConstraintProofError.trie_error
        | some p ↦ Result.ok (p.0, record b { trie = p.1 })
      ]

  unfoldable pub verify_proof : ℕ → List Bytes → B256 → TransactionTrieBuilder Trie → Result Bytes
  verify_proof tx_index proof root b =
      elim (ops.verify_proof b.trie root (rlp.index tx_index) proof) [
        | none ↦ Result.err ConstraintProofError.trie_error
        | some answer ↦ elim answer [
          | none ↦ Result.err ConstraintProofError.invalid_proof
          | some value ↦ Result.ok value
        ]
      ]
