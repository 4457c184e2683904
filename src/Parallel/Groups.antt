-- ===== src/Parallel/Groups.antt =====
-- groups.rs: orders that conflict are kept in one group.
pub mod Index
pub mod Finder
pub mod Counts
pub mod Sorted
pub mod Combined
pub mod Restored
pub mod Again
pub mod Held
pub mod Apart
pub mod Conflicts
pub mod Kept
pub mod Joined
pub mod Placed
pub mod Inner
pub mod Known
pub mod Separate
pub mod Sound
pub mod Placing
pub mod Added
pub mod Lossless
pub mod Complete
pub mod Examples
use constraints_builder.Shared.{
  ℕ, Bool, true, false, ◌&&◌, ◌||◌, ◌≡◌, ◌↔◌, refl, arith, List, [], ◌∷◌, ◌++◌, leb, ltb, nat_beq,
  if◌then◌else◌, KeyEq, ◌==◌, nat_eq, set_insert,
}
use constraints_builder.Primitives.Tx.{Address}
use constraints_builder.Primitives.SimValue.{SlotKey, SimulatedOrder}

pub record GroupData : Type 0 where
  pub orders : List SimulatedOrder
  pub reads : List SlotKey
  pub writes : List SlotKey
  pub balance_reads : List Address
  pub balance_writes : List Address
  pub code_writes : List Address
  pub conflicting_group_ids : List ℕ

abbrev pub slot_beq : SlotKey → SlotKey → Bool
slot_beq a b = nat_beq a.address b.address && nat_beq a.key b.key

pub slot_beq_iff : (a b : SlotKey) → (slot_beq a b ≡ true) ↔ (a ≡ b)
slot_beq_iff a b = ground arith

instance abbrev pub slot_eq : KeyEq SlotKey
slot_eq = record { same = slot_beq; same_iff = slot_beq_iff }

-- The derived order: by address, then by key.
unfoldable pub slot_le : SlotKey → SlotKey → Bool
slot_le a b = ltb a.address b.address || nat_beq a.address b.address && leb a.key b.key

-- `sort` and `sort_unstable`: equal keys cannot be told apart.
unfoldable pub insert_sorted {ℓ} : {A : Type ℓ} → (A → A → Bool) → A → List A → List A
insert_sorted le x [] = x ∷ []
insert_sorted le x (y ∷ ys) =
    let rest = insert_sorted le x ys in if le x y then x ∷ y ∷ ys else y ∷ rest

unfoldable pub sort {ℓ} : {A : Type ℓ} → (A → A → Bool) → List A → List A
unfolding insert_sorted
sort le [] = []
sort le (x ∷ xs) = insert_sorted le x (sort le xs)

-- `dedup`: of equal neighbours the first stays.
unfoldable pub dedup {ℓ} : {A : Type ℓ} ⦃e : KeyEq A⦄ → List A → List A
dedup [] = []
dedup (x ∷ []) = x ∷ []
dedup (x ∷ y ∷ ys) = let rest = dedup (y ∷ ys) in if x == y then rest else x ∷ rest

abbrev pub no_group : List ℕ → GroupData
no_group removed_group_ids = record {
  orders = [];
  reads = [];
  writes = [];
  balance_reads = [];
  balance_writes = [];
  code_writes = [];
  conflicting_group_ids = removed_group_ids;
}

-- `HashSet::extend`
unfoldable pub extend_ids : List ℕ → List ℕ → List ℕ
extend_ids ids [] = ids
extend_ids ids (i ∷ more) = extend_ids (set_insert i ids) more

-- The loop over the groups.
unfoldable pub extend_groups : GroupData → List GroupData → GroupData
unfolding extend_ids
extend_groups all [] = all
extend_groups all (group ∷ groups) =
    extend_groups
      (record {
        orders = all.orders ++ group.orders;
        reads = all.reads ++ group.reads;
        writes = all.writes ++ group.writes;
        balance_reads = all.balance_reads ++ group.balance_reads;
        balance_writes = all.balance_writes ++ group.balance_writes;
        code_writes = all.code_writes ++ group.code_writes;
        conflicting_group_ids = extend_ids all.conflicting_group_ids group.conflicting_group_ids;
      })
      groups

unfoldable pub combine_groups : List GroupData → List ℕ → GroupData
unfolding extend_groups extend_ids sort dedup slot_le
combine_groups groups removed_group_ids =
    let all = extend_groups (no_group (extend_ids [] removed_group_ids)) groups in
    record all {
      reads = dedup (sort slot_le all.reads);
      writes = dedup (sort slot_le all.writes);
      balance_reads = dedup (sort leb all.balance_reads);
      balance_writes = dedup (sort leb all.balance_writes);
      code_writes = dedup (sort leb all.code_writes);
    }
