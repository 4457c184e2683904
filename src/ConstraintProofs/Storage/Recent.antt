-- ===== src/ConstraintProofs/Storage/Recent.antt =====
-- Which slots constraint_proof_storage.rs keeps.
use constraints_builder.Shared.{
  ◌⊎◌, ℕ, suc, ◌≡◌, ◌≤◌, ◌<◌, refl, true, false, Bool-cases, Option-cases, none, some, inl, inr,
  List, [], ◌∷◌, length, length-filter-le, not, contains, ltb, nat_eq, ◌==◌, arith,
}
use constraints_builder.Shared.Map
use constraints_builder.Shared.Map.{contains_key, contains_key-eq, Map, lookup, keys, lookup-remove}
use constraints_builder.Primitives.Tx.{B256}
use constraints_builder.ConstraintProofs.Storage.{
  Storage, ConstraintProof, min_of, cleanup, note_proof, add_proof, max_slots_to_keep,
}

min_of-none : (ks : List ℕ) (k : ℕ) → min_of ks ≡ none → contains ks k ≡ false
unfolding min_of
min_of-none [] k e = refl
min_of-none (j ∷ js) k e = ground arith

some_key : (storage : Storage) → min_of (keys storage) ≡ none → length storage ≡ 0
unfolding min_of
some_key [] e = refl
some_key ((k, b) ∷ storage) e = ground arith

min_of-least :
    (ks : List ℕ) (m : ℕ)
    → min_of ks ≡ some m
    → (contains ks m ≡ true) × ((k : ℕ) → contains ks k ≡ true → m ≤ k)
unfolding min_of
min_of-least [] m e = ground arith
min_of-least (j ∷ js) m e = elim (Option-cases (min_of js)) [
  | inl d ↦ (ground (arith, d, e), λ k h. ground (arith, d, e, h, min_of-none js k d))
  | inr (w, d) ↦
      let (here, least) = min_of-least js w d in
      (ground (arith, d, e, here), λ k h. ground (arith, d, e, h, least k))
]

length-insert_le :
    {V : Type 0} (k : ℕ) (v : V) (m : Map ℕ V) → length (Map.insert k v m) ≤ suc (length m)
unfolding Map.insert
length-insert_le k v [] = omega arith
length-insert_le k v ((j, w) ∷ m) = ground (arith, length-insert_le k v m)

length-remove-lt :
    {V : Type 0} (k : ℕ) (m : Map ℕ V)
    → contains (keys m) k ≡ true
    → length (Map.remove k m) < length m
unfolding Map.remove
length-remove-lt k [] h = ground arith
length-remove-lt k ((j, w) ∷ m) h =
    ground (arith, length-remove-lt k m, length-filter-le (λ kv. not (kv.0 == k)) m)

-- The slot k is in the storage, and no slot in it is older.
abbrev pub IsOldest : ℕ → Storage → Type 0
IsOldest k storage = (j : ℕ) → contains_key j storage ≡ true → k ≤ j

cleanup_lem :
    (storage : Storage)
    → length storage ≤ 11
    → (length (cleanup storage) ≤ 10)
      × ((k : ℕ)
          → (lookup k (cleanup storage) ≡ lookup k storage)
            ⊎ ((lookup k (cleanup storage) ≡ none) × (10 < length storage) × IsOldest k storage))
unfolding cleanup
cleanup_lem storage h = elim (Bool-cases (ltb max_slots_to_keep (length storage))) [
  | inr e ↦ rw e (ground (arith, e), λ k. inl refl)
  | inl e ↦ elim (Option-cases (min_of (keys storage))) [
    | inl d ↦ rw (e, d) (ground (arith, h, e, some_key storage d), λ k. inl refl)
    | inr (m, d) ↦
        let (here, least) = min_of-least (keys storage) m d in
        rw (e, d)
          (
            ground (arith, h, length-remove-lt m storage here),
            λ k. elim (Bool-cases (m == k)) [
              | inl c ↦ inr (
                ground (arith, c, lookup-remove m k storage),
                ground (arith, e),
                λ j g.
                    ground (arith, c, g, nat_eq.same_iff m k, least j, contains_key-eq j storage),
              )
              | inr c ↦ inl (ground (arith, c, lookup-remove m k storage))
            ],
          )
  ]
]

note_proof-length_le :
    (slot : ℕ) (block_hash : B256) (block_number : ℕ) (proof : ConstraintProof) (storage : Storage)
    → length (note_proof slot block_hash block_number proof storage) ≤ suc (length storage)
unfolding note_proof
note_proof-length_le slot block_hash block_number proof storage = length-insert_le slot _ storage

-- If at most ten slots are kept, so it is after one more proof. A slot is then as it is when the
-- proof is noted, unless that makes more than ten slots and it is the oldest of them: then it is
-- gone.
pub add_proof_lem :
    (slot : ℕ) (block_hash : B256) (block_number : ℕ) (proof : ConstraintProof) (storage : Storage)
    → length storage ≤ 10
    → (length (add_proof slot block_hash block_number proof storage) ≤ 10)
      × ((k : ℕ)
          → (lookup k (add_proof slot block_hash block_number proof storage)
              ≡ lookup k (note_proof slot block_hash block_number proof storage))
            ⊎ ((lookup k (add_proof slot block_hash block_number proof storage) ≡ none)
                × (10 < length (note_proof slot block_hash block_number proof storage))
                × IsOldest k (note_proof slot block_hash block_number proof storage)))
unfolding add_proof
add_proof_lem slot block_hash block_number proof storage h =
    cleanup_lem (note_proof slot block_hash block_number proof storage)
      (ground (arith, h, note_proof-length_le slot block_hash block_number proof storage))
