-- ===== src/ConstraintProofs/Observer/Examples.antt =====
-- A run of the observer on a trie that is a map, and a witness.
use constraints_builder.Shared.{
  ℕ, ◌≡◌, refl, true, Option, none, some, List, [], ◌∷◌, list_eq, nat_eq,
}
use constraints_builder.Shared.Map.{Map, lookup, insert, lookup-insert}
use constraints_builder.Primitives.Tx.{B256}
use constraints_builder.ConstraintProofs.Storage.{Storage, ConstraintProof, new}
use constraints_builder.ConstraintProofs.Trie.{
  Bytes, EthTrie, Encoding, Result, TransactionTrieBuilder, build, root,
}
use constraints_builder.ConstraintProofs.Trie.Proved.{TrieLaws}
use constraints_builder.ConstraintProofs.Observer.{
  SubmitBlockRequest, Generated, extract_transactions, extract_block_hash,
  generate_and_log_constraint_proofs,
}
use constraints_builder.ConstraintProofs.Observer.Stored.{
  IsGenerated, generate_and_log_constraint_proofs-IsGenerated,
}

-- A proof is the value itself.
abbrev proof_of : Option Bytes → List Bytes
proof_of none = []
proof_of (some v) = v ∷ []

abbrev shown : List Bytes → Option Bytes
shown [] = none
shown (v ∷ vs) = some v

shown-proof_of : (o : Option Bytes) → shown (proof_of o) ≡ o
shown-proof_of none = refl
shown-proof_of (some v) = refl

abbrev map_trie : EthTrie (Map Bytes Bytes)
map_trie = record {
  empty = [];
  insert = λ k v t. some (insert k v t);
  root_hash = λ t. some (77, t);
  get_proof = λ k t. some (proof_of (lookup k t), t);
  verify_proof = λ u r k p. some (shown p);
}

-- A transaction is its hash.
abbrev plain : Encoding ℕ
plain = record { index = λ i. i ∷ []; tx = λ tx. tx ∷ []; hash = λ tx. tx }

abbrev first_byte : Bytes → ℕ
first_byte [] = 0
first_byte (b ∷ bs) = b

first_byte_eq : (xs ys : Bytes) → xs ≡ ys → first_byte xs ≡ first_byte ys
first_byte_eq xs ys e = rw e refl

map_trie_laws : TrieLaws map_trie plain
map_trie_laws = record {
  content = λ t k. lookup k t;
  root_of = λ t. 77;
  inserts = λ k v t h. (insert k v t, refl, λ j. lookup-insert k j v t);
  roots = λ t. (t, refl, λ j. refl, refl);
  proves = λ k t.
      (proof_of (lookup k t), t, refl, λ j. refl, refl, λ u. rw (shown-proof_of (lookup k t)) refl);
  index_injective = λ i j e. first_byte_eq (i ∷ []) (j ∷ []) e;
  tx_nonempty = λ tx. refl;
}

abbrev decode : Bytes → Option ℕ
decode [] = none
decode (tx ∷ bytes) = some tx

abbrev sample_request : SubmitBlockRequest
sample_request =
    SubmitBlockRequest.fulu (record { transactions = (7 ∷ []) ∷ (8 ∷ []) ∷ []; block_hash = 90 })

decoded : extract_transactions decode sample_request ≡ some (7 ∷ 8 ∷ [])
unfolding extract_transactions
decoded = refl

-- Transaction 8 is in the block, 9 is not.
generate_and_log_constraint_proofs_test :
    generate_and_log_constraint_proofs map_trie plain decode
      (λ p. true)
      sample_request
      (8 ∷ 9 ∷ [])
      100
      5
      new
    ≡ some (record {
      storage =
          (
            5,
            (
              90,
              record {
                block_hash = 90;
                block_number = 100;
                proofs =
                    record {
                      tx_hash = 8;
                      tx_index = 1;
                      proof = (8 ∷ []) ∷ [];
                      transactions_root = 77;
                      block_number = 100;
                      slot = 5;
                    }
                    ∷ [];
              },
            )
                ∷ [],
          )
          ∷ [];
      success_count = 1;
      failure_count = 1;
    })
unfolding generate_and_log_constraint_proofs constraints_builder.ConstraintProofs.Storage.cleanup
    constraints_builder.ConstraintProofs.Storage.note_proof insert lookup
generate_and_log_constraint_proofs_test = refl

generate_and_log_constraint_proofs-IsGenerated_example :
    (g : Generated) × (r : B256) × (b : TransactionTrieBuilder (Map Bytes Bytes))
    × (b' : TransactionTrieBuilder (Map Bytes Bytes)) × (build map_trie plain (7 ∷ 8 ∷ [])
        ≡ Result.ok b)
    × (root map_trie plain b ≡ Result.ok (r, b'))
    × (generate_and_log_constraint_proofs map_trie plain decode
          (λ p. true)
          sample_request
          (8 ∷ 9 ∷ [])
          100
          5
          new
        ≡ some g)
    × IsGenerated map_trie plain map_trie_laws
        (7 ∷ 8 ∷ [])
        r
        100
        5
        decode
        (λ p. true)
        (extract_block_hash sample_request)
        (8 ∷ 9 ∷ [])
        (record { storage = new; success_count = 0; failure_count = 0 })
        g
generate_and_log_constraint_proofs-IsGenerated_example =
    generate_and_log_constraint_proofs-IsGenerated map_trie plain map_trie_laws decode (λ p. true)
      sample_request (7 ∷ 8 ∷ []) decoded (8 ∷ 9 ∷ []) 100 5 new
