-- ===== src/Parallel/Groups/Restored.antt =====
-- The index of a `ConflictFinder` after a group is added and removed.
use constraints_builder.Shared.{ℕ, ◌+◌, ◌≡◌, true, if◌then◌else◌, nat_eq, nat_beq}
use constraints_builder.Primitives.Tx.{Address}
use constraints_builder.Primitives.SimValue.{SlotKey}
use constraints_builder.Parallel.Groups.{GroupData, slot_eq}
use constraints_builder.Parallel.Groups.Index.{SlotIndex}
use constraints_builder.Parallel.Groups.Counts.{
  listed, listed_slot, count_of, remove_slots-add_slots, remove_group_from_map-add_group_to_map,
}
use constraints_builder.Parallel.Groups.Finder.{
  ConflictFinder, AddressIndex, add_group_to_index, remove_group_from_index,
}

-- How often each list of an index names a group, for the first index as for the second.
abbrev pub IsSameSlots : SlotIndex → SlotIndex → Type 0
IsSameSlots m n = (slot : SlotKey) (i : ℕ) → listed_slot slot i m ≡ listed_slot slot i n

abbrev pub IsSameAddresses : AddressIndex → AddressIndex → Type 0
IsSameAddresses m n = (a : Address) (i : ℕ) → listed a i m ≡ listed a i n

abbrev pub IsSameIndex : ConflictFinder → ConflictFinder → Type 0
IsSameIndex f g =
    IsSameSlots f.group_reads g.group_reads
    × IsSameSlots f.group_writes g.group_writes
    × IsSameAddresses f.group_balance_reads g.group_balance_reads
    × IsSameAddresses f.group_balance_writes g.group_balance_writes
    × IsSameAddresses f.group_code_writes g.group_code_writes

-- The index names a group, under each key, as often as `before`, and once more for each time that
-- the new group holds the key.
abbrev pub IsAdded : ℕ → GroupData → ConflictFinder → ConflictFinder → Type 0
IsAdded g d before f =
    ((slot : SlotKey) (i : ℕ)
      → listed_slot slot i f.group_reads
        ≡ listed_slot slot i before.group_reads
          + (if nat_beq g i then count_of slot d.reads else 0))
    × ((slot : SlotKey) (i : ℕ)
        → listed_slot slot i f.group_writes
          ≡ listed_slot slot i before.group_writes
            + (if nat_beq g i then count_of slot d.writes else 0))
    × ((a : Address) (i : ℕ)
        → listed a i f.group_balance_reads
          ≡ listed a i before.group_balance_reads
            + (if nat_beq g i then count_of a d.balance_reads else 0))
    × ((a : Address) (i : ℕ)
        → listed a i f.group_balance_writes
          ≡ listed a i before.group_balance_writes
            + (if nat_beq g i then count_of a d.balance_writes else 0))
    × ((a : Address) (i : ℕ)
        → listed a i f.group_code_writes
          ≡ listed a i before.group_code_writes
            + (if nat_beq g i then count_of a d.code_writes else 0))

-- Adding a group under a new id lists it, in each of the five indices, under exactly the keys that it
-- holds, as often as it holds them, and no other group more or less often. Removing it with the same
-- keys takes it from exactly these lists: then each list names each group as often as before.
pub remove_group_from_index-add_group_to_index :
    (g : ℕ) (d : GroupData) (f : ConflictFinder)
    → IsAdded g d f (add_group_to_index g true d f)
      × IsSameIndex (remove_group_from_index g d (add_group_to_index g true d f)) f
unfolding remove_group_from_index add_group_to_index
remove_group_from_index-add_group_to_index g d f = (
  (
    λ slot i. (remove_slots-add_slots g d.reads slot i f.group_reads).0,
    λ slot i. (remove_slots-add_slots g d.writes slot i f.group_writes).0,
    λ a i. (remove_group_from_map-add_group_to_map g d.balance_reads a i f.group_balance_reads).0,
    λ a i. (remove_group_from_map-add_group_to_map g d.balance_writes a i f.group_balance_writes).0,
    λ a i. (remove_group_from_map-add_group_to_map g d.code_writes a i f.group_code_writes).0,
  ),
  (
    λ slot i. (remove_slots-add_slots g d.reads slot i f.group_reads).1,
    λ slot i. (remove_slots-add_slots g d.writes slot i f.group_writes).1,
    λ a i. (remove_group_from_map-add_group_to_map g d.balance_reads a i f.group_balance_reads).1,
    λ a i. (remove_group_from_map-add_group_to_map g d.balance_writes a i f.group_balance_writes).1,
    λ a i. (remove_group_from_map-add_group_to_map g d.code_writes a i f.group_code_writes).1,
  ),
)
