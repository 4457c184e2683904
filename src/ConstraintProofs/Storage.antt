-- ===== src/ConstraintProofs/Storage.antt =====
-- crates/rbuilder/src/live_builder/block_output/constraint_proof_storage.rs: the proofs of the last
-- ten slots. The lock makes each call one step.
pub mod Recent
pub mod Order
use constraints_builder.Shared.{
  ℕ, Bool, Option, none, some, List, [], ◌∷◌, ◌++◌, length, leb, ltb, nat_eq, if◌then◌else◌,
}
use constraints_builder.Shared.Map
use constraints_builder.Shared.Map.{Map, lookup, keys, values, or_default}
use constraints_builder.Primitives.Tx.{B256}

-- `ConstraintProof` (crates/rbuilder/src/building/constraint_proofs.rs); a byte is a number.
pub record ConstraintProof : Type 0 where
  pub tx_hash : B256
  pub tx_index : ℕ
  pub proof : List (List ℕ)
  pub transactions_root : B256
  pub block_number : ℕ
  pub slot : ℕ

abbrev pub max_slots_to_keep : ℕ
max_slots_to_keep = 10

pub record BlockProofs : Type 0 where
  pub block_hash : B256
  pub block_number : ℕ
  pub proofs : List ConstraintProof

pub record SlotProofs : Type 0 where
  pub slot : ℕ
  pub blocks : List BlockProofs

abbrev pub Storage : Type 0
Storage = Map ℕ (Map B256 BlockProofs)

abbrev pub new : Storage
new = []

-- `iter().min()`
unfoldable pub min_of : List ℕ → Option ℕ
min_of [] = none
min_of (k ∷ ks) = elim (min_of ks) [ none ↦ some k | some m ↦ some (if leb k m then k else m) ]

unfoldable pub note_proof : ℕ → B256 → ℕ → ConstraintProof → Storage → Storage
note_proof slot block_hash block_number proof storage =
    let slot_entry = or_default [] (lookup slot storage) in
    let block_entry : BlockProofs =
      or_default (record { block_hash = block_hash; block_number = block_number; proofs = [] })
        (lookup block_hash slot_entry) in
    Map.insert slot
      (Map.insert block_hash (record block_entry { proofs = block_entry.proofs ++ proof ∷ [] })
        slot_entry)
      storage

-- The oldest slot goes when there are more than ten.
unfoldable pub cleanup : Storage → Storage
cleanup storage =
    if ltb max_slots_to_keep (length storage)
    then elim (min_of (keys storage)) [
      | none ↦ storage
      | some min_slot ↦ Map.remove min_slot storage
    ]
    else storage

unfoldable pub add_proof : ℕ → B256 → ℕ → ConstraintProof → Storage → Storage
add_proof slot block_hash block_number proof storage =
    cleanup (note_proof slot block_hash block_number proof storage)

-- `sort_unstable` and `reverse`, as the standard library specifies their result: the most recent
-- slot first.
unfoldable pub insert_recent : ℕ → List ℕ → List ℕ
insert_recent k [] = k ∷ []
insert_recent k (j ∷ js) = if leb j k then k ∷ j ∷ js else j ∷ insert_recent k js

unfoldable pub recent_first : List ℕ → List ℕ
recent_first [] = []
recent_first (k ∷ ks) = insert_recent k (recent_first ks)

unfoldable pub collect : Storage → List ℕ → List SlotProofs
collect storage [] = []
collect storage (k ∷ ks) = elim (lookup k storage) [
  | none ↦ collect storage ks
  | some blocks ↦ (record { slot = k; blocks = values blocks }) ∷ collect storage ks
]

unfoldable pub get_recent_proofs : Storage → List SlotProofs
get_recent_proofs storage = collect storage (recent_first (keys storage))
