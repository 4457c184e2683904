-- ===== src/Parallel/Groups/Sound.antt =====
-- Placing an order keeps the groups apart.
use mathlib.Core.Path.{subst}
use constraints_builder.Shared.{
  ℕ, ◌<◌, ◌≤◌, ◌≡◌, ◌⊎◌, inl, inr, refl, arith, true, false, none, some, List, [], ◌∷◌, map,
  contains, nat_eq, nat_beq, if◌then◌else◌, All, All-imp, Bool-cases,
}
use constraints_builder.Shared.Map.{Map, lookup, remove, lookup-remove}
use constraints_builder.Parallel.Groups.{GroupData, slot_eq}
use constraints_builder.Parallel.Groups.Apart.{IsApart, IsIndexed}
use constraints_builder.Parallel.Groups.Kept.{IsOnceGroup}
use constraints_builder.Parallel.Groups.Placed.{IsTaken, without}
use constraints_builder.Parallel.Groups.Inner.{IsInner, remove_slots-IsInner}
use constraints_builder.Parallel.Groups.Finder.{
  ConflictFinder, remove_groups_from_index, remove_group_from_index,
}

-- Groups with different ids do not conflict.
abbrev pub IsSeparate : Map ℕ GroupData → Type 0
IsSeparate groups =
    (i j : ℕ) (a b : GroupData)
    → lookup i groups ≡ some a
    → lookup j groups ≡ some b
    → nat_beq i j ≡ false
    → IsApart a b

abbrev pub IsBelow : ℕ → Map ℕ GroupData → Type 0
IsBelow n groups = (i : ℕ) (d : GroupData) → lookup i groups ≡ some d → i < n

abbrev pub IsAllOnce : Map ℕ GroupData → Type 0
IsAllOnce groups = (i : ℕ) (d : GroupData) → lookup i groups ≡ some d → IsOnceGroup d

-- The indices list the groups, whose keys are all different and whose ids are below the counter, and
-- which do not conflict.
abbrev pub IsSound : ConflictFinder → Type 0
IsSound f =
    IsIndexed f f.groups
    × IsInner f.group_reads
    × IsInner f.group_writes
    × IsAllOnce f.groups
    × IsBelow f.group_counter f.groups
    × IsSeparate f.groups

-- The groups with these ids leave, and there is a group under `id`.
abbrev pub IsPlaced : List ℕ → Map ℕ GroupData → ℕ → GroupData → Map ℕ GroupData → Type 0
IsPlaced ids groups id c next =
    (j : ℕ)
    → lookup j next
      ≡ (if nat_beq id j then some c else if contains ids j then none else lookup j groups)

module _ (ids : List ℕ) (groups next : Map ℕ GroupData) (id : ℕ) (c : GroupData)
    (placed : IsPlaced ids groups id c next) where
  placed_cases :
      (j : ℕ) (d : GroupData)
      → lookup j next ≡ some d
      → ((nat_beq id j ≡ true) × (c ≡ d))
        ⊎ ((nat_beq id j ≡ false) × (contains ids j ≡ false) × (lookup j groups ≡ some d))
  placed_cases j d e = elim (Bool-cases (nat_beq id j)) [
    | inl h ↦ inl (h, ground (arith, e, h, placed j))
    | inr h ↦ elim (Bool-cases (contains ids j)) [
      | inl k ↦ absurd (ground (arith, e, h, k, placed j))
      | inr k ↦ inr (h, k, ground (arith, e, h, k, placed j))
    ]
  ]

  pub placed-IsAllOnce : IsAllOnce groups → IsOnceGroup c → IsAllOnce next
  placed-IsAllOnce once h j d e = elim (placed_cases j d e) [
    | inl (k, same) ↦ subst IsOnceGroup same h
    | inr (k, out, there) ↦ once j d there
  ]

  pub placed-IsBelow : (n m : ℕ) → IsBelow n groups → n ≤ m → id < m → IsBelow m next
  placed-IsBelow n m below le lt j d e = elim (placed_cases j d e) [
    | inl (k, same) ↦ ground (arith, k, lt)
    | inr (k, out, there) ↦ omega (arith, below j d there, le)
  ]

  pub placed-IsSeparate :
      IsSeparate groups
      → ((j : ℕ) (b : GroupData)
          → lookup j groups ≡ some b
          → contains ids j ≡ false
          → nat_beq id j ≡ false
          → IsApart c b)
      → IsSeparate next
  placed-IsSeparate separate apart i j a b e e' differ = elim (placed_cases i a e) [
    | inl (h, same) ↦ elim (placed_cases j b e') [
      | inl (h', same') ↦ absurd (ground (arith, h, h', differ))
      | inr (h', out, there) ↦ subst (λ x. IsApart x b) same (apart j b there out h')
    ]
    | inr (h, out, there) ↦ elim (placed_cases j b e') [
      | inl (h', same') ↦
          let (x, y) = subst (λ z. IsApart z a) same' (apart i a there out h) in (y, x)
      | inr (h', out', there') ↦ separate i j a b there there' differ
    ]
  ]

pub lookup-without :
    (taken : List (ℕ × GroupData)) (groups : Map ℕ GroupData) (j : ℕ)
    → lookup j (without taken groups)
      ≡ (if contains (map (λ t. t.0) taken) j then none else lookup j groups)
lookup-without [] groups j = refl
lookup-without ((i, d) ∷ taken) groups j =
    ground (arith, lookup-without taken (remove i groups) j, lookup-remove i j groups)

-- The taken groups were stored under their ids.
pub IsTaken-All :
    (taken : List (ℕ × GroupData)) (groups : Map ℕ GroupData)
    → IsTaken taken groups
    → All (λ t. (lookup t.0 groups ≡ some t.1) × (contains (map (λ u. u.0) taken) t.0 ≡ true)) taken
IsTaken-All [] groups h = tt
IsTaken-All ((i, d) ∷ taken) groups h = (
  (h.0, ground arith),
  All-imp (λ t k. (ground (arith, k.0, lookup-remove i t.0 groups), ground (arith, k.1))) taken
      (IsTaken-All taken (remove i groups) h.1),
)

pub All-parts :
    (P : GroupData → Type 0) (taken : List (ℕ × GroupData))
    → All (λ t. P t.1) taken
    → All P (map (λ t. t.1) taken)
All-parts P [] h = tt
All-parts P (t ∷ taken) h = (h.0, All-parts P taken h.1)

pub remove_groups_from_index-IsInner :
    (taken : List (ℕ × GroupData)) (f : ConflictFinder)
    → IsInner f.group_reads
    → IsInner f.group_writes
    → IsInner (remove_groups_from_index taken f).group_reads
      × IsInner (remove_groups_from_index taken f).group_writes
unfolding remove_groups_from_index remove_group_from_index
remove_groups_from_index-IsInner [] f h k = (h, k)
remove_groups_from_index-IsInner ((i, d) ∷ taken) f h k =
    remove_groups_from_index-IsInner taken (remove_group_from_index i d f)
      (remove_slots-IsInner i d.reads f.group_reads h)
      (remove_slots-IsInner i d.writes f.group_writes k)
