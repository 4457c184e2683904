-- ===== src/ConstraintProofs/Trie/Proved.antt =====
-- Proofs of the transactions of a block verify against its root.
use mathlib.Core.Path.{subst}
use constraints_builder.Shared.{
  list_beq, list_beq_iff, ◌<◌, length-append, ℕ, zero, suc, ◌≡◌, ◌⊎◌, ◌∙◌, inl, inr, refl, sym, ap,
  arith, true, false, Option, none, some, List, [], ◌∷◌, ◌++◌, map, length, get_elem?, leb, nat_beq,
  contains, is_empty, list_eq, nat_eq, ◌==◌, append_assoc, append-nil, map-append, if◌then◌else◌,
  Bool-cases, Option-cases,
}
use constraints_builder.Primitives.Tx.{B256}
use constraints_builder.ConstraintProofs.Trie.{
  Bytes, EthTrie, Encoding, Result, TransactionTrieBuilder, position, insert_all, build, root,
  get_proof, verify_proof,
}

-- What is relied on of the trie: it holds what was inserted, and a proof of a key shows, against the
-- root, what the trie holds there. Of the encodings: indices are told apart, and a transaction is not
-- encoded by no bytes, which would remove the key.
pub record TrieLaws {Trie Tx : Type 0} (ops : EthTrie Trie) (rlp : Encoding Tx) : Type 0 where
  pub content : Trie → Bytes → Option Bytes
  pub root_of : Trie → B256
  pub inserts :
      (k v : Bytes) (t : Trie)
      → is_empty v ≡ false
      → (t' : Trie) × (ops.insert k v t ≡ some t')
        × ((j : Bytes) → content t' j ≡ (if k == j then some v else content t j))
  pub roots :
      (t : Trie)
      → (t' : Trie) × (ops.root_hash t ≡ some (root_of t, t'))
        × ((j : Bytes) → content t' j ≡ content t j)
        × (root_of t' ≡ root_of t)
  pub proves :
      (k : Bytes) (t : Trie)
      → (p : List Bytes) × (t' : Trie) × (ops.get_proof k t ≡ some (p, t'))
        × ((j : Bytes) → content t' j ≡ content t j)
        × (root_of t' ≡ root_of t)
        × ((u : Trie) → ops.verify_proof u (root_of t) k p ≡ some (content t k))
  pub index_injective : (i j : ℕ) → rlp.index i ≡ rlp.index j → i ≡ j
  pub tx_nonempty : (tx : Tx) → is_empty (rlp.tx tx) ≡ false

pub position-none :
    (h : B256) (hashes : List B256) → position h hashes ≡ none → contains hashes h ≡ false
unfolding position
position-none h [] e = refl
position-none h (x ∷ hashes) e = ground (arith, position-none h hashes)

abbrev pub IsFound : B256 → List B256 → ℕ → Type 0
IsFound h hashes i =
    (get_elem? hashes i ≡ some h) × (leb (length hashes) i ≡ false) × (contains hashes h ≡ true)

pub position-some :
    (h : B256) (hashes : List B256) (i : ℕ) → position h hashes ≡ some i → IsFound h hashes i
unfolding position
position-some h [] i e = absurd (cc)
position-some h (x ∷ hashes) i e = elim (Bool-cases (nat_beq x h)) [
  | inl c ↦
      let here : 0 ≡ i = ground (arith, c, e) in
      subst (IsFound h (x ∷ hashes)) here (ground (arith, c), ground arith, ground (arith, c))
  | inr c ↦ elim (Option-cases (position h hashes)) [
    | inl d ↦ absurd (ground (arith, c, d, e))
    | inr (j, d) ↦
        let (there, below, k) = position-some h hashes j d in
        let next : suc j ≡ i = ground (arith, c, d, e) in
        subst (IsFound h (x ∷ hashes)) next (there, ground (arith, below), ground (arith, k))
  ]
]

pub get_elem?-map :
    {A : Type 0} (f : A → B256) (xs : List A) (i : ℕ) (y : B256)
    → get_elem? (map f xs) i ≡ some y
    → (x : A) × (get_elem? xs i ≡ some x) × (f x ≡ y)
get_elem?-map f [] i y e = absurd (cc)
get_elem?-map f (x ∷ xs) zero y e = (x, refl, ground (arith, e))
get_elem?-map f (x ∷ xs) (suc i) y e = get_elem?-map f xs i y e

get_elem?-append_one :
    {A : Type 0} (xs : List A) (a x : A) (i : ℕ)
    → get_elem? (xs ++ a ∷ []) i ≡ some x
    → ((i ≡ length xs) × (a ≡ x)) ⊎ (get_elem? xs i ≡ some x)
get_elem?-append_one [] a x zero e = inl (refl, ground (arith, e))
get_elem?-append_one [] a x (suc i) e = absurd (cc)
get_elem?-append_one (y ∷ xs) a x zero e = inr e
get_elem?-append_one (y ∷ xs) a x (suc i) e = ground (arith, get_elem?-append_one xs a x i e)

length-one : {A : Type 0} (xs : List A) (x : A) → length (xs ++ x ∷ []) ≡ suc (length xs)
length-one xs x = omega (arith, length-append xs (x ∷ []))

below_length : {A : Type 0} (xs : List A) (i : ℕ) (x : A) → get_elem? xs i ≡ some x → i < length xs
below_length [] i x e = absurd (cc)
below_length (y ∷ xs) zero x e = omega arith
below_length (y ∷ xs) (suc i) x e = omega (arith, below_length xs i x e)

module _ {Trie Tx : Type 0} (ops : EthTrie Trie) (rlp : Encoding Tx) (laws : TrieLaws ops rlp) where
  -- The trie holds the transactions under their indices.
  abbrev pub IsBuilt : List Tx → TransactionTrieBuilder Trie → Type 0
  IsBuilt txs b =
      (b.transactions ≡ map rlp.hash txs)
      × ((i : ℕ) (tx : Tx)
          → get_elem? txs i ≡ some tx
          → laws.content b.trie (rlp.index i) ≡ some (rlp.tx tx))

  insert_all-IsBuilt :
      (done txs : List Tx) (b : TransactionTrieBuilder Trie)
      → IsBuilt done b
      → (b' : TransactionTrieBuilder Trie) × (insert_all ops rlp (length done) txs b ≡ Result.ok b')
        × IsBuilt (done ++ txs) b'
  unfolding insert_all
  insert_all-IsBuilt done [] b h = (b, refl, rw (append-nil done) h)
  insert_all-IsBuilt done (tx ∷ txs) b h =
      let (t, e, holds) =
        laws.inserts (rlp.index (length done)) (rlp.tx tx) b.trie (laws.tx_nonempty tx) in
      let next : TransactionTrieBuilder Trie = record {
        trie = t;
        transactions = b.transactions ++ rlp.hash tx ∷ [];
      } in
      let more : IsBuilt (done ++ tx ∷ []) next = (
        ap (λ hs. hs ++ rlp.hash tx ∷ []) h.0 ∙ sym (map-append rlp.hash done (tx ∷ [])),
        λ i x there. holds (rlp.index i) ∙ elim (get_elem?-append_one done tx x i there) [
          | inl (at_end, same) ↦
              rw
                ((list_beq_iff (rlp.index (length done)) (rlp.index i)).1
                  (ap rlp.index (sym at_end)))
                (ap (λ y. some (rlp.tx y)) same)
          | inr before ↦ elim (Bool-cases (list_beq (rlp.index (length done)) (rlp.index i))) [
            | inl c ↦
                let same =
                  laws.index_injective (length done) i
                    ((list_beq_iff (rlp.index (length done)) (rlp.index i)).0 c) in
                absurd (omega (arith, same, below_length done i x before))
            | inr c ↦ rw c (h.1 i x before)
          ]
        ],
      ) in
      let (b', f, k) = insert_all-IsBuilt (done ++ tx ∷ []) txs next more in
      (
        b',
        rw (e, insert_all)
            (subst (λ n. insert_all ops rlp n txs next ≡ Result.ok b') (length-one done tx) f),
        subst (λ xs. IsBuilt xs b') (append_assoc done (tx ∷ []) txs) k,
      )

  -- A proof for a transaction of the block with this hash: it verifies against the root, in any trie,
  -- and what it shows is the encoded transaction.
  abbrev pub IsProof : List Tx → B256 → B256 → ℕ → List Bytes → Type 0
  IsProof txs transactions_root tx_hash tx_index proof =
      (tx : Tx) × (get_elem? txs tx_index ≡ some tx)
      × (rlp.hash tx ≡ tx_hash)
      × ((u : TransactionTrieBuilder Trie)
          → verify_proof ops rlp tx_index proof transactions_root u ≡ Result.ok (rlp.tx tx))

  pub build-IsBuilt :
      (txs : List Tx)
      → (b : TransactionTrieBuilder Trie) × (build ops rlp txs ≡ Result.ok b) × IsBuilt txs b
  unfolding build
  build-IsBuilt txs =
      insert_all-IsBuilt [] txs (record { trie = ops.empty; transactions = [] })
        (refl, λ i tx e. absurd (cc))

  pub root-IsBuilt :
      (txs : List Tx) (b : TransactionTrieBuilder Trie)
      → IsBuilt txs b
      → (b' : TransactionTrieBuilder Trie) × (root ops rlp b ≡ Result.ok (laws.root_of b.trie, b'))
        × IsBuilt txs b'
        × (laws.root_of b'.trie ≡ laws.root_of b.trie)
  unfolding root
  root-IsBuilt txs b h =
      let (t, e, same, r) = laws.roots b.trie in
      (
        record b { trie = t },
        rw (e, root) refl,
        (h.0, λ i tx there. same (rlp.index i) ∙ h.1 i tx there),
        r,
      )

  pub get_proof-IsProof :
      (txs : List Tx) (b : TransactionTrieBuilder Trie) (h : B256) (i : ℕ)
      → IsBuilt txs b
      → position h b.transactions ≡ some i
      → (proof : List Bytes) × (b' : TransactionTrieBuilder Trie) × (get_proof ops rlp i b
          ≡ Result.ok (proof, b'))
        × IsBuilt txs b'
        × (laws.root_of b'.trie ≡ laws.root_of b.trie)
        × IsProof txs (laws.root_of b.trie) h i proof
  unfolding get_proof verify_proof
  get_proof-IsProof txs b h i built found =
      let (p, t, e, same, r, verifies) = laws.proves (rlp.index i) b.trie in
      let (there, below, k) = position-some h b.transactions i found in
      let (tx, at, hashed) =
        get_elem?-map rlp.hash txs i h (subst (λ hs. get_elem? hs i ≡ some h) built.0 there) in
      (
        p,
        record b { trie = t },
        rw (below, e, get_proof) refl,
        (built.0, λ j x m. same (rlp.index j) ∙ built.1 j x m),
        r,
        (tx, at, hashed, λ u. rw (verifies u.trie, built.1 i tx at, verify_proof) refl),
      )
