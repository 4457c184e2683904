-- ===== src/Parallel/Groups/Placed.antt =====
-- An order is placed among the groups, whatever it conflicts with.
use constraints_builder.Shared.{
  ℕ, ◌≡◌, ap, refl, arith, none, some, List, [], ◌∷◌, ◌++◌, map, nat_eq,
}
use constraints_builder.Shared.Map.{Map, lookup, remove, lookup-remove}
use constraints_builder.Parallel.Groups.{GroupData, combine_groups}
use constraints_builder.Parallel.Groups.Apart.{IsIndexed}
use constraints_builder.Parallel.Groups.Kept.{
  IsOnceGroup, open_group-IsIndexed, remove_group_from_index-IsIndexed,
}
use constraints_builder.Parallel.Groups.Joined.{place-one}
use constraints_builder.Parallel.Groups.Finder.{
  ConflictFinder, place, open_group, take_groups, remove_groups_from_index, remove_group_from_index,
}

-- Each id is that of a group, when those before it are taken.
abbrev pub IsStored : List ℕ → Map ℕ GroupData → Type 0
IsStored [] groups = Unit
IsStored (i ∷ ids) groups =
    ((d : GroupData) × (lookup i groups ≡ some d)) × IsStored ids (remove i groups)

-- The groups without those that are taken, each of which was there.
abbrev pub without : List (ℕ × GroupData) → Map ℕ GroupData → Map ℕ GroupData
without [] groups = groups
without ((i, d) ∷ taken) groups = without taken (remove i groups)

abbrev pub IsTaken : List (ℕ × GroupData) → Map ℕ GroupData → Type 0
IsTaken [] groups = Unit
IsTaken ((i, d) ∷ taken) groups = (lookup i groups ≡ some d) × IsTaken taken (remove i groups)

pub take_groups-IsTaken :
    (ids : List ℕ) (f : ConflictFinder)
    → IsStored ids f.groups
    → (taken : List (ℕ × GroupData)) × (take_groups ids f
        ≡ some (taken, record f { groups = without taken f.groups }))
      × IsTaken taken f.groups
      × (map (λ t. t.0) taken ≡ ids)
unfolding take_groups
take_groups-IsTaken [] f h = ([], refl, tt, refl)
take_groups-IsTaken (i ∷ ids) f h =
    let (d, there) = h.0 in
    let next : ConflictFinder = record f { groups = remove i f.groups } in
    let (taken, e, found, same) = take_groups-IsTaken ids next h.1 in
    ((i, d) ∷ taken, rw (there, e) refl, (there, found), ap (λ xs. i ∷ xs) same)

lookup-without-none :
    (taken : List (ℕ × GroupData)) (groups : Map ℕ GroupData) (j : ℕ)
    → lookup j groups ≡ none
    → lookup j (without taken groups) ≡ none
lookup-without-none [] groups j h = h
lookup-without-none ((i, d) ∷ taken) groups j h =
    lookup-without-none taken (remove i groups) j (ground (arith, lookup-remove i j groups, h))

pub remove_groups_from_index-IsIndexed :
    (taken : List (ℕ × GroupData)) (f : ConflictFinder) (groups : Map ℕ GroupData)
    → IsIndexed f groups
    → IsTaken taken groups
    → IsIndexed (remove_groups_from_index taken f) (without taken groups)
      × ((remove_groups_from_index taken f).group_counter ≡ f.group_counter)
      × ((remove_groups_from_index taken f).groups ≡ f.groups)
unfolding remove_groups_from_index remove_group_from_index
remove_groups_from_index-IsIndexed [] f groups h found = (h, refl, refl)
remove_groups_from_index-IsIndexed ((i, d) ∷ taken) f groups h found =
    remove_groups_from_index-IsIndexed taken (remove_group_from_index i d f) (remove i groups)
      (remove_group_from_index-IsIndexed f groups h i d found.0) found.1

-- A group is opened in a finder whose map is `groups`.
pub open_group-IsIndexed_groups :
    (d : GroupData) (f : ConflictFinder) (groups : Map ℕ GroupData)
    → IsIndexed f groups
    → f.groups ≡ groups
    → lookup f.group_counter groups ≡ none
    → IsIndexed (open_group d f) (open_group d f).groups
unfolding open_group
open_group-IsIndexed_groups d f groups h e fresh = rw e (open_group-IsIndexed f groups h d fresh)

-- When the indices list the groups, whose keys are all different, the next id is that of no group,
-- and the conflicts are stored groups, none twice: the order is placed without a panic, in a group of
-- its own, in the one it conflicts with or in one made of all it conflicts with, and the indices list
-- the groups as before.
pub place-IsIndexed :
    (new : GroupData) (ids : List ℕ) (f : ConflictFinder)
    → IsIndexed f f.groups
    → ((i : ℕ) (d : GroupData) → lookup i f.groups ≡ some d → IsOnceGroup d)
    → lookup f.group_counter f.groups ≡ none
    → IsStored ids f.groups
    → (next : ConflictFinder) × (place new ids f ≡ some next) × IsIndexed next next.groups
unfolding place
place-IsIndexed new [] f indexed once fresh stored =
    (open_group new f, refl, open_group-IsIndexed_groups new f f.groups indexed refl fresh)
place-IsIndexed new (i ∷ []) f indexed once fresh stored =
    let (d, there) = stored.0 in
    let (next, e, kept, same) = place-one new d i f indexed there (once i d there) in
    (next, e, kept)
place-IsIndexed new (i ∷ j ∷ ids) f indexed once fresh stored =
    let (taken, e, found, ids_of) = take_groups-IsTaken (i ∷ j ∷ ids) f stored in
    let left = without taken f.groups in
    let f' : ConflictFinder = record f { groups = left } in
    let (kept, counter, groups) =
      remove_groups_from_index-IsIndexed taken f' f.groups indexed found in
    let combined = combine_groups (map (λ t. t.1) taken ++ new ∷ []) (map (λ t. t.0) taken) in
    (
      open_group combined (remove_groups_from_index taken f'),
      rw (e, place) refl,
      open_group-IsIndexed_groups combined (remove_groups_from_index taken f') left kept groups
          (rw counter (lookup-without-none taken f.groups f.group_counter fresh)),
    )
