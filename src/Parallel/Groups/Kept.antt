-- ===== src/Parallel/Groups/Kept.antt =====
-- The index lists the groups of the finder after a group is added, or removed.
use constraints_builder.Shared.{ℕ, ◌≡◌, refl, true, false, none, some, [], contains, nat_eq}
use constraints_builder.Shared.Map.{Map, lookup, insert, remove}
use constraints_builder.Primitives.SimValue.{SlotKey}
use constraints_builder.Parallel.Groups.{GroupData, slot_eq}
use constraints_builder.Parallel.Groups.Counts.{
  listed, listed_slot, listed_slot-remove_slots, listed-remove_group_from_map,
  listed_slot-add_slots, listed-add_group_to_map,
}
use constraints_builder.Parallel.Groups.Held.{IsHeld-open, IsHeld-remove, IsHeld-again}
use constraints_builder.Parallel.Groups.Again.{listed-add_again, listed_slot-add_again}
use constraints_builder.Parallel.Groups.Sorted.{IsOnce}
use constraints_builder.Parallel.Groups.Apart.{IsIndexed}
use constraints_builder.Parallel.Groups.Finder.{
  ConflictFinder, no_groups, add_group_to_index, remove_group_from_index, open_group,
}

pub no_groups-IsIndexed : IsIndexed no_groups []
unfolding lookup
no_groups-IsIndexed = (λ k i. refl, λ k i. refl, λ k i. refl, λ k i. refl, λ k i. refl)

-- Each key of a group once.
abbrev pub IsOnceGroup : GroupData → Type 0
IsOnceGroup d =
    IsOnce d.reads
    × IsOnce d.writes
    × IsOnce d.balance_reads
    × IsOnce d.balance_writes
    × IsOnce d.code_writes

-- The second group has the keys of the first.
abbrev pub IsMore : GroupData → GroupData → Type 0
IsMore a b =
    ((k : SlotKey) → contains a.reads k ≡ true → contains b.reads k ≡ true)
    × ((k : SlotKey) → contains a.writes k ≡ true → contains b.writes k ≡ true)
    × ((k : ℕ) → contains a.balance_reads k ≡ true → contains b.balance_reads k ≡ true)
    × ((k : ℕ) → contains a.balance_writes k ≡ true → contains b.balance_writes k ≡ true)
    × ((k : ℕ) → contains a.code_writes k ≡ true → contains b.code_writes k ≡ true)

module _ (f : ConflictFinder) (groups : Map ℕ GroupData) (indexed : IsIndexed f groups) where
  pub open_group-IsIndexed :
      (d : GroupData)
      → lookup f.group_counter groups ≡ none
      → IsIndexed (open_group d f) (insert f.group_counter d groups)
  unfolding open_group add_group_to_index
  open_group-IsIndexed d fresh =
      let g = f.group_counter in
      let next = open_group d f in
      (
        IsHeld-open (λ d. d.reads) (λ k i. listed_slot k i f.group_reads)
            (λ k i. listed_slot k i next.group_reads) groups g d indexed.0 fresh
            (λ k i. listed_slot-add_slots g i d.reads k f.group_reads),
        IsHeld-open (λ d. d.writes) (λ k i. listed_slot k i f.group_writes)
            (λ k i. listed_slot k i next.group_writes) groups g d indexed.1 fresh
            (λ k i. listed_slot-add_slots g i d.writes k f.group_writes),
        IsHeld-open (λ d. d.balance_reads) (λ k i. listed k i f.group_balance_reads)
            (λ k i. listed k i next.group_balance_reads) groups g d indexed.2 fresh
            (λ k i. listed-add_group_to_map g i d.balance_reads k f.group_balance_reads),
        IsHeld-open (λ d. d.balance_writes) (λ k i. listed k i f.group_balance_writes)
            (λ k i. listed k i next.group_balance_writes) groups g d indexed.3 fresh
            (λ k i. listed-add_group_to_map g i d.balance_writes k f.group_balance_writes),
        IsHeld-open (λ d. d.code_writes) (λ k i. listed k i f.group_code_writes)
            (λ k i. listed k i next.group_code_writes) groups g d indexed.4 fresh
            (λ k i. listed-add_group_to_map g i d.code_writes k f.group_code_writes),
      )

  pub remove_group_from_index-IsIndexed :
      (g : ℕ) (d : GroupData)
      → lookup g groups ≡ some d
      → IsIndexed (remove_group_from_index g d f) (remove g groups)
  unfolding remove_group_from_index
  remove_group_from_index-IsIndexed g d there =
      let next = remove_group_from_index g d f in
      (
        IsHeld-remove (λ d. d.reads) (λ k i. listed_slot k i f.group_reads)
            (λ k i. listed_slot k i next.group_reads) groups g d indexed.0 there
            (λ k i. listed_slot-remove_slots g i d.reads k f.group_reads),
        IsHeld-remove (λ d. d.writes) (λ k i. listed_slot k i f.group_writes)
            (λ k i. listed_slot k i next.group_writes) groups g d indexed.1 there
            (λ k i. listed_slot-remove_slots g i d.writes k f.group_writes),
        IsHeld-remove (λ d. d.balance_reads) (λ k i. listed k i f.group_balance_reads)
            (λ k i. listed k i next.group_balance_reads) groups g d indexed.2 there
            (λ k i. listed-remove_group_from_map g i d.balance_reads k f.group_balance_reads),
        IsHeld-remove (λ d. d.balance_writes) (λ k i. listed k i f.group_balance_writes)
            (λ k i. listed k i next.group_balance_writes) groups g d indexed.3 there
            (λ k i. listed-remove_group_from_map g i d.balance_writes k f.group_balance_writes),
        IsHeld-remove (λ d. d.code_writes) (λ k i. listed k i f.group_code_writes)
            (λ k i. listed k i next.group_code_writes) groups g d indexed.4 there
            (λ k i. listed-remove_group_from_map g i d.code_writes k f.group_code_writes),
      )

  -- A group is added again under its id, with keys of its own and more.
  pub add_group_to_index-IsIndexed :
      (g : ℕ) (old d : GroupData)
      → lookup g groups ≡ some old
      → IsOnceGroup old
      → IsOnceGroup d
      → IsMore old d
      → IsIndexed (add_group_to_index g false d f) (insert g d (remove g groups))
  unfolding add_group_to_index
  add_group_to_index-IsIndexed g old d there once once' more =
      let next = add_group_to_index g false d f in
      (
        IsHeld-again (λ d. d.reads) (λ k i. listed_slot k i f.group_reads)
            (λ k i. listed_slot k i next.group_reads) groups g d indexed.0 old there once.0 once'.0
            more.0 (λ k i. listed_slot-add_again g i d.reads k f.group_reads),
        IsHeld-again (λ d. d.writes) (λ k i. listed_slot k i f.group_writes)
            (λ k i. listed_slot k i next.group_writes) groups g d indexed.1 old there once.1 once'.1
            more.1 (λ k i. listed_slot-add_again g i d.writes k f.group_writes),
        IsHeld-again (λ d. d.balance_reads) (λ k i. listed k i f.group_balance_reads)
            (λ k i. listed k i next.group_balance_reads) groups g d indexed.2 old there once.2
            once'.2 more.2 (λ k i. listed-add_again g i d.balance_reads k f.group_balance_reads),
        IsHeld-again (λ d. d.balance_writes) (λ k i. listed k i f.group_balance_writes)
            (λ k i. listed k i next.group_balance_writes) groups g d indexed.3 old there once.3
            once'.3 more.3 (λ k i. listed-add_again g i d.balance_writes k f.group_balance_writes),
        IsHeld-again (λ d. d.code_writes) (λ k i. listed k i f.group_code_writes)
            (λ k i. listed k i next.group_code_writes) groups g d indexed.4 old there once.4 once'.4
            more.4 (λ k i. listed-add_again g i d.code_writes k f.group_code_writes),
      )
