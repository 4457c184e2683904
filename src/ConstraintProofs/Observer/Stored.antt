-- ===== src/ConstraintProofs/Observer/Stored.antt =====
-- What the observer stores are proofs that verify, one for each constraint transaction of the block.
use mathlib.Core.Path.{subst}
use constraints_builder.Shared.{
  ℕ, suc, ◌+◌, ◌≡◌, ◌⊎◌, ◌∙◌, inl, inr, refl, ap, arith, Bool, true, false, Option, some, List, [],
  ◌∷◌, map, length, filter, count_if, contains, nat_eq, All, Bool-cases, Option-cases,
}
use constraints_builder.Primitives.Tx.{B256}
use constraints_builder.ConstraintProofs.Storage.{Storage, ConstraintProof, add_proof}
use constraints_builder.ConstraintProofs.Trie.{
  Bytes, EthTrie, Encoding, ConstraintProofError, Result, TransactionTrieBuilder, position,
  find_tx_index, build, root,
}
use constraints_builder.ConstraintProofs.Trie.Proved.{
  TrieLaws, IsBuilt, IsProof, build-IsBuilt, root-IsBuilt, get_proof-IsProof, position-none,
  position-some,
}
use constraints_builder.ConstraintProofs.Observer.{
  SubmitBlockRequest, Generated, generate_single_proof, generate_all, extract_transactions,
  extract_block_hash, generate_and_log_constraint_proofs,
}

abbrev pub add_all : ℕ → B256 → ℕ → List ConstraintProof → Storage → Storage
add_all slot block_hash block_number [] storage = storage
add_all slot block_hash block_number (p ∷ proofs) storage =
    add_all slot block_hash block_number proofs (add_proof slot block_hash block_number p storage)

abbrev pub hashes_of : List ConstraintProof → List B256
hashes_of [] = []
hashes_of (p ∷ proofs) = p.tx_hash ∷ hashes_of proofs

module _ {Trie Tx : Type 0} (ops : EthTrie Trie) (rlp : Encoding Tx) (laws : TrieLaws ops rlp)
    (txs : List Tx) (r : B256) (block_number slot : ℕ) where
  -- A proof of the block for the transaction that it names.
  abbrev pub IsStoredProof : ConstraintProof → Type 0
  IsStoredProof p =
      (p.transactions_root ≡ r)
      × (p.block_number ≡ block_number)
      × (p.slot ≡ slot)
      × IsProof ops rlp laws txs r p.tx_hash p.tx_index p.proof

  abbrev IsSingle : B256 → TransactionTrieBuilder Trie → Type 0
  IsSingle h b =
      ((contains (map rlp.hash txs) h ≡ false)
        × (generate_single_proof ops rlp h r block_number slot b
            ≡ Result.err (ConstraintProofError.tx_hash_not_found h)))
      ⊎ ((contains (map rlp.hash txs) h ≡ true)
          × ((p : ConstraintProof) × (b' : TransactionTrieBuilder Trie) × (generate_single_proof ops
                  rlp h r block_number slot b
                ≡ Result.ok (p, b'))
              × (p.tx_hash ≡ h)
              × IsStoredProof p
              × IsBuilt ops rlp laws txs b'
              × (laws.root_of b'.trie ≡ r)))

  single :
      (h : B256) (b : TransactionTrieBuilder Trie)
      → IsBuilt ops rlp laws txs b
      → laws.root_of b.trie ≡ r
      → IsSingle h b
  unfolding generate_single_proof find_tx_index
  single h b built same = elim (Option-cases (position h b.transactions)) [
    | inl e ↦ inl (
      subst (λ hs. contains hs h ≡ false) built.0 (position-none h b.transactions e),
      rw (e, generate_single_proof, find_tx_index) refl,
    )
    | inr (i, e) ↦
        let (proof, b', f, built', kept, shown) =
          get_proof-IsProof ops rlp laws txs b h i built e in
        let (there, below, known) = position-some h b.transactions i e in
        inr (
          subst (λ hs. contains hs h ≡ true) built.0 known,
          (
            record {
              tx_hash = h;
              tx_index = i;
              proof = proof;
              transactions_root = r;
              block_number = block_number;
              slot = slot;
            },
            b',
            rw (e, f, generate_single_proof, find_tx_index) refl,
            refl,
            (refl, refl, refl, subst (λ q. IsProof ops rlp laws txs q h i proof) same shown),
            built',
            kept ∙ same,
          ),
        )
  ]

  module _ (decode_2718 : Bytes → Option Tx) (to_string_ok : ConstraintProof → Bool)
      (block_hash : B256) where
    -- The proofs of the constraint transactions that are in the block are stored, in their order.
    abbrev pub IsGenerated : List B256 → Generated → Generated → Type 0
    IsGenerated hashes g next =
        (proofs : List ConstraintProof) × (next.storage
          ≡ add_all slot block_hash block_number proofs g.storage)
        × All IsStoredProof proofs
        × (hashes_of proofs ≡ filter (λ h. contains (map rlp.hash txs) h) hashes)
        × (next.success_count ≡ g.success_count + count_if to_string_ok proofs)
        × (next.success_count + next.failure_count
            ≡ g.success_count + g.failure_count + length hashes)

    pub generate_all-IsGenerated :
        (hashes : List B256) (b : TransactionTrieBuilder Trie) (g : Generated)
        → IsBuilt ops rlp laws txs b
        → laws.root_of b.trie ≡ r
        → IsGenerated hashes g (
            generate_all ops rlp decode_2718 to_string_ok hashes r block_number slot block_hash b g)
    unfolding generate_all
    generate_all-IsGenerated [] b g built same = ([], refl, tt, refl, omega arith, omega arith)
    generate_all-IsGenerated (h ∷ hashes) b g built same = elim (single h b built same) [
      | inl (out, e) ↦
          let (proofs, s, a, n, c, t) =
            generate_all-IsGenerated hashes b (record g { failure_count = suc g.failure_count })
              built same in
          rw (e, generate_all, out) (proofs, s, a, n, c, omega (arith, t))
      | inr (known, (p, b', e, named, stored, built', same')) ↦
          let kept = add_proof slot block_hash block_number p g.storage in
          elim (Bool-cases (to_string_ok p)) [
            | inl w ↦
                let next : Generated = record g {
                  storage = kept;
                  success_count = suc g.success_count;
                } in
                let (proofs, s, a, n, c, t) =
                  generate_all-IsGenerated hashes b' next built' same' in
                rw (e, generate_all, known, w)
                  (
                    p ∷ proofs,
                    s,
                    (stored, a),
                    ap (λ x. x ∷ hashes_of proofs) named ∙ ap (λ xs. h ∷ xs) n,
                    ground (arith, w, c),
                    omega (arith, t),
                  )
            | inr w ↦
                let next : Generated = record g {
                  storage = kept;
                  failure_count = suc g.failure_count;
                } in
                let (proofs, s, a, n, c, t) =
                  generate_all-IsGenerated hashes b' next built' same' in
                rw (e, generate_all, known, w)
                  (
                    p ∷ proofs,
                    s,
                    (stored, a),
                    ap (λ x. x ∷ hashes_of proofs) named ∙ ap (λ xs. h ∷ xs) n,
                    ground (arith, w, c),
                    omega (arith, t),
                  )
          ]
    ]

module _ {Trie Tx : Type 0} (ops : EthTrie Trie) (rlp : Encoding Tx) (laws : TrieLaws ops rlp)
    (decode_2718 : Bytes → Option Tx) (to_string_ok : ConstraintProof → Bool) where
  -- On a trie that keeps the laws, when the payload decodes to transactions, the task succeeds. With
  -- the root of the trie that has these transactions, it stores one proof for each constraint
  -- transaction whose hash is that of a transaction of the block, in their order, and nothing else.
  -- Each names the hash, the root, the block and the slot, and the index of a transaction with this
  -- hash, and `verify_proof` of it against the root gives that transaction, encoded. The successes
  -- are the stored proofs that are written as JSON, and all other constraint transactions failures.
  pub generate_and_log_constraint_proofs-IsGenerated :
      (request : SubmitBlockRequest) (txs : List Tx)
      → extract_transactions decode_2718 request ≡ some txs
      → (hashes : List B256) (block_number slot : ℕ) (storage : Storage)
      → (g : Generated) × (r : B256) × (b : TransactionTrieBuilder Trie)
        × (b' : TransactionTrieBuilder Trie) × (build ops rlp txs ≡ Result.ok b)
        × (root ops rlp b ≡ Result.ok (r, b'))
        × (generate_and_log_constraint_proofs ops rlp decode_2718 to_string_ok request hashes
              block_number slot storage
            ≡ some g)
        × IsGenerated ops rlp laws txs r block_number slot decode_2718 to_string_ok
            (extract_block_hash request)
            hashes
            (record { storage = storage; success_count = 0; failure_count = 0 })
            g
  unfolding generate_and_log_constraint_proofs
  generate_and_log_constraint_proofs-IsGenerated request txs decoded hashes block_number slot
        storage =
      let (b, made, built) = build-IsBuilt ops rlp laws txs in
      let (b', rooted, built', same) = root-IsBuilt ops rlp laws txs b built in
      let r = laws.root_of b.trie in
      let start : Generated = record { storage = storage; success_count = 0; failure_count = 0 } in
      (
        generate_all ops rlp decode_2718 to_string_ok hashes r block_number slot
            (extract_block_hash request) b' start,
        r,
        b,
        b',
        made,
        rooted,
        rw (decoded, made, rooted, generate_and_log_constraint_proofs) refl,
        generate_all-IsGenerated ops rlp laws txs r block_number slot decode_2718 to_string_ok
            (extract_block_hash request) hashes b' start built' same,
      )
