-- ===== src/ConstraintProofs/Examples.antt =====
-- The theorems on constraint_proof_storage.rs at concrete inputs.
use constraints_builder.Shared.{
  refl, contains, ℕ, ◌≡◌, ◌≤◌, ◌<◌, ◌⊎◌, none, [], ◌∷◌, length, nat_eq, arith,
}
use constraints_builder.Shared.Map.{lookup, contains_key}
use constraints_builder.ConstraintProofs.Storage.{
  ConstraintProof, Storage, add_proof, note_proof, get_recent_proofs,
}
use constraints_builder.ConstraintProofs.Storage.Recent.{add_proof_lem, IsOldest}
use constraints_builder.ConstraintProofs.Storage.Order.{
  IsFalling, slots, get_recent_proofs-IsFalling,
}

abbrev sample_proof : ConstraintProof
sample_proof = record {
  tx_hash = 7;
  tx_index = 0;
  proof = [];
  transactions_root = 12;
  block_number = 100;
  slot = 5;
}

-- Slots 20 to 29: a proof for slot 5 is dropped at once.
abbrev ten_slots : Storage
ten_slots =
    (20, [])
    ∷ (21, [])
    ∷ (22, [])
    ∷ (23, [])
    ∷ (24, [])
    ∷ (25, [])
    ∷ (26, [])
    ∷ (27, [])
    ∷ (28, [])
    ∷ (29, [])
    ∷ []

add_proof_lem_example :
    (length (add_proof 5 1 100 sample_proof ten_slots) ≤ 10)
    × ((k : ℕ)
        → (lookup k (add_proof 5 1 100 sample_proof ten_slots)
            ≡ lookup k (note_proof 5 1 100 sample_proof ten_slots))
          ⊎ ((lookup k (add_proof 5 1 100 sample_proof ten_slots) ≡ none)
              × (10 < length (note_proof 5 1 100 sample_proof ten_slots))
              × IsOldest k (note_proof 5 1 100 sample_proof ten_slots)))
add_proof_lem_example = add_proof_lem 5 1 100 sample_proof ten_slots (omega arith)

-- Slots 21, 30 and 24.
abbrev three_slots : Storage
three_slots = (21, []) ∷ (30, []) ∷ (24, []) ∷ []

get_recent_proofs-IsFalling_example :
    IsFalling (slots (get_recent_proofs three_slots))
    × ((k : ℕ) → contains (slots (get_recent_proofs three_slots)) k ≡ contains_key k three_slots)
get_recent_proofs-IsFalling_example =
    get_recent_proofs-IsFalling three_slots (refl, (refl, (refl, tt)))
