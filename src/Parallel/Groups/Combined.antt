-- ===== src/Parallel/Groups/Combined.antt =====
-- What `combine_groups` keeps of the groups.
use constraints_builder.Shared.{
  sym, ◌∙◌, ℕ, ◌≡◌, List, [], ◌∷◌, ◌++◌, contains, KeyEq, nat_eq, append_assoc, append-nil,
}
use constraints_builder.Parallel.Groups.{
  GroupData, combine_groups, extend_groups, extend_ids, no_group, slot_eq,
}
use constraints_builder.Parallel.Groups.Sorted.{IsOnce, nat_order, slot_order, dedup-sort-IsOnce}

-- The vectors of the groups, one after the other.
abbrev pub gather {ℓ} : {A : Type ℓ} → (GroupData → List A) → List GroupData → List A
gather field [] = []
gather field (g ∷ groups) = field g ++ gather field groups

module _ {ℓ} {A : Type ℓ} (field : GroupData → List A) (a : GroupData) where
  abbrev IsAppended : GroupData → List GroupData → Type ℓ
  IsAppended next groups = field next ≡ field a ++ gather field groups

extend_groups-IsAppended :
    (a : GroupData) (groups : List GroupData)
    → IsAppended (λ g. g.orders) a (extend_groups a groups) groups
      × IsAppended (λ g. g.reads) a (extend_groups a groups) groups
      × IsAppended (λ g. g.writes) a (extend_groups a groups) groups
      × IsAppended (λ g. g.balance_reads) a (extend_groups a groups) groups
      × IsAppended (λ g. g.balance_writes) a (extend_groups a groups) groups
      × IsAppended (λ g. g.code_writes) a (extend_groups a groups) groups
unfolding extend_groups
extend_groups-IsAppended a [] = (
  sym (append-nil a.orders),
  sym (append-nil a.reads),
  sym (append-nil a.writes),
  sym (append-nil a.balance_reads),
  sym (append-nil a.balance_writes),
  sym (append-nil a.code_writes),
)
extend_groups-IsAppended a (g ∷ groups) =
    let next : GroupData = record {
      orders = a.orders ++ g.orders;
      reads = a.reads ++ g.reads;
      writes = a.writes ++ g.writes;
      balance_reads = a.balance_reads ++ g.balance_reads;
      balance_writes = a.balance_writes ++ g.balance_writes;
      code_writes = a.code_writes ++ g.code_writes;
      conflicting_group_ids = extend_ids a.conflicting_group_ids g.conflicting_group_ids;
    } in
    let (o, r, w, br, bw, c) = extend_groups-IsAppended next groups in
    (
      o ∙ append_assoc a.orders g.orders (gather (λ g. g.orders) groups),
      r ∙ append_assoc a.reads g.reads (gather (λ g. g.reads) groups),
      w ∙ append_assoc a.writes g.writes (gather (λ g. g.writes) groups),
      br ∙ append_assoc a.balance_reads g.balance_reads (gather (λ g. g.balance_reads) groups),
      bw ∙ append_assoc a.balance_writes g.balance_writes (gather (λ g. g.balance_writes) groups),
      c ∙ append_assoc a.code_writes g.code_writes (gather (λ g. g.code_writes) groups),
    )

-- The keys of a combined group: those of the groups, each once.
abbrev pub IsUnion {ℓ} : {A : Type ℓ} ⦃e : KeyEq A⦄ → List A → List A → Type ℓ
IsUnion {A} keys all = IsOnce keys × ((k : A) → contains keys k ≡ contains all k)

-- A combined group holds the orders of the groups, one group after the other, and of the slots and
-- addresses of each kind those that one of the groups holds, each once.
pub combine_groups_lem :
    (groups : List GroupData) (removed : List ℕ)
    → ((combine_groups groups removed).orders ≡ gather (λ g. g.orders) groups)
      × IsUnion (combine_groups groups removed).reads (gather (λ g. g.reads) groups)
      × IsUnion (combine_groups groups removed).writes (gather (λ g. g.writes) groups)
      × IsUnion (combine_groups groups removed).balance_reads (gather (λ g. g.balance_reads) groups)
      × IsUnion
          (combine_groups groups removed).balance_writes
          (gather (λ g. g.balance_writes) groups)
      × IsUnion (combine_groups groups removed).code_writes (gather (λ g. g.code_writes) groups)
unfolding combine_groups
combine_groups_lem groups removed =
    let (o, r, w, br, bw, c) = extend_groups-IsAppended (no_group (extend_ids [] removed)) groups in
    (
      o,
      rw r (dedup-sort-IsOnce slot_order (gather (λ g. g.reads) groups)),
      rw w (dedup-sort-IsOnce slot_order (gather (λ g. g.writes) groups)),
      rw br (dedup-sort-IsOnce nat_order (gather (λ g. g.balance_reads) groups)),
      rw bw (dedup-sort-IsOnce nat_order (gather (λ g. g.balance_writes) groups)),
      rw c (dedup-sort-IsOnce nat_order (gather (λ g. g.code_writes) groups)),
    )
