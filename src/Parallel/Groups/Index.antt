-- ===== src/Parallel/Groups/Index.antt =====
-- The index of groups.rs: which groups hold a key.
use constraints_builder.Shared.{
  ℕ, Bool, ◌||◌, not, List, [], ◌∷◌, ◌++◌, contains, if◌then◌else◌, KeyEq, nat_eq, nat_beq,
}
use constraints_builder.Shared.Map.{Map, lookup, insert, or_default}
use constraints_builder.Primitives.Tx.{Address, B256}
use constraints_builder.Primitives.SimValue.{SlotKey}

-- The last element in front, for `swap_remove`.
unfoldable pub bring_last : List ℕ → List ℕ
bring_last [] = []
bring_last (x ∷ xs) = elim (bring_last xs) [ [] ↦ x ∷ [] | l ∷ rest ↦ l ∷ x ∷ rest ]

-- `position` of the group and `swap_remove`.
unfoldable pub swap_remove : ℕ → List ℕ → List ℕ
unfolding bring_last
swap_remove group_id [] = []
swap_remove group_id (x ∷ xs) =
    let rest = swap_remove group_id xs in if nat_beq x group_id then bring_last xs else x ∷ rest

module _ {ℓ} {K : Type ℓ} ⦃e : KeyEq K⦄ where
  unfoldable pub add_group_key_to_map : ℕ → Bool → K → Map K (List ℕ) → Map K (List ℕ)
  unfolding lookup insert
  add_group_key_to_map group_id is_new_id key m =
      let groups = or_default [] (lookup key m) in
      insert key
        (if is_new_id || not (contains groups group_id) then groups ++ group_id ∷ [] else groups) m

  unfoldable pub add_group_to_map : ℕ → Bool → List K → Map K (List ℕ) → Map K (List ℕ)
  unfolding add_group_key_to_map
  add_group_to_map group_id is_new_id [] m = m
  add_group_to_map group_id is_new_id (key ∷ keys) m =
      add_group_to_map group_id is_new_id keys (add_group_key_to_map group_id is_new_id key m)

  unfoldable pub remove_group_key_from_map : ℕ → K → Map K (List ℕ) → Map K (List ℕ)
  unfolding lookup insert swap_remove
  remove_group_key_from_map group_id key m =
      insert key (swap_remove group_id (or_default [] (lookup key m))) m

  unfoldable pub remove_group_from_map : ℕ → List K → Map K (List ℕ) → Map K (List ℕ)
  unfolding remove_group_key_from_map
  remove_group_from_map group_id [] m = m
  remove_group_from_map group_id (key ∷ keys) m =
      remove_group_from_map group_id keys (remove_group_key_from_map group_id key m)

-- The index of slots: by address, then by key.
abbrev pub SlotIndex : Type 0
SlotIndex = Map Address (Map B256 (List ℕ))

-- The loop over the reads or writes of `add_group_to_index`.
unfoldable pub add_slots : ℕ → Bool → List SlotKey → SlotIndex → SlotIndex
unfolding add_group_key_to_map
add_slots group_id is_new_id [] m = m
add_slots group_id is_new_id (slot ∷ slots) m =
    let address_slots = or_default [] (lookup slot.address m) in
    add_slots group_id is_new_id slots
      (insert slot.address (add_group_key_to_map group_id is_new_id slot.key address_slots) m)

-- That of `remove_group_from_index`.
unfoldable pub remove_slots : ℕ → List SlotKey → SlotIndex → SlotIndex
unfolding remove_group_key_from_map
remove_slots group_id [] m = m
remove_slots group_id (slot ∷ slots) m =
    let address_slots = or_default [] (lookup slot.address m) in
    remove_slots group_id slots
      (insert slot.address (remove_group_key_from_map group_id slot.key address_slots) m)
