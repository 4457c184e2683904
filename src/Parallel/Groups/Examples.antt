-- ===== src/Parallel/Groups/Examples.antt =====
-- Runs of the conflict finder, and witnesses.
use constraints_builder.Shared.{
  ℕ, ◌≡◌, refl, true, Option, some, List, [], ◌∷◌, map, ◌>>=◌, nat_eq, arith, All,
}
use constraints_builder.Primitives.Orders.{id}
use constraints_builder.Primitives.SimValue.{SlotKey, SimulatedOrder, UsedStateTrace, sim_id}
use constraints_builder.Parallel.Groups.{GroupData, combine_groups, slot_eq}
use constraints_builder.Parallel.Groups.Combined.{gather, IsUnion, combine_groups_lem}
use constraints_builder.Parallel.Groups.Apart.{IsIndexed}
use constraints_builder.Parallel.Groups.Sound.{IsSeparate}
use constraints_builder.Parallel.Groups.Complete.{HasTrace, IsPresent, add_orders-IsPresent}
use constraints_builder.Parallel.Groups.Added.{IsTrace, add_orders-IsSound}
use constraints_builder.Parallel.Groups.Restored.{
  IsAdded, IsSameIndex, remove_group_from_index-add_group_to_index,
}
use constraints_builder.Parallel.Groups.Finder.{
  ConflictFinder, no_groups, add_orders, get_order_groups, add_group_to_index,
  remove_group_from_index, new_order_group, open_group,
}
use constraints_builder.BlockOrders.Priority.Examples.{simulated}

abbrev slot : ℕ → ℕ → SlotKey
slot a k = record { address = a; key = k }

-- An order that reads and writes these slots, and creates these contracts.
abbrev trace : List SlotKey → List SlotKey → List ℕ → UsedStateTrace
trace reads writes created = record {
  read_slot_values = reads;
  written_slot_values = writes;
  read_balances = [];
  received_amount = [];
  sent_amount = [];
  created_contracts = created;
  destructed_contracts = [];
}

abbrev traced : ℕ → UsedStateTrace → SimulatedOrder
traced i t = record (simulated i 30) { used_state_trace = some t }

-- The first two do not conflict; the third reads what both write.
abbrev three : List SimulatedOrder
three =
    traced 1 (trace [] (slot 1 1 ∷ []) [])
    ∷ traced 2 (trace [] (slot 1 2 ∷ []) [])
    ∷ traced 3 (trace (slot 1 1 ∷ slot 1 2 ∷ []) [] [])
    ∷ []

abbrev ids : ConflictFinder → List (ℕ × List ℕ)
ids f = map (λ g. (g.id, g.conflicting_group_ids)) (get_order_groups f)

abbrev group_ids : List SimulatedOrder → Option (List (ℕ × List ℕ))
group_ids orders = do f ← add_orders orders no_groups; some (ids f)

apart_test :
    group_ids (traced 1 (trace [] (slot 1 1 ∷ []) []) ∷ traced 2 (trace [] (slot 1 2 ∷ []) []) ∷ [])
    ≡ some ((0, []) ∷ (1, []) ∷ [])
unfolding add_orders get_order_groups id
apart_test = refl

merged_test : group_ids three ≡ some ((2, 0 ∷ 1 ∷ []) ∷ [])
unfolding add_orders get_order_groups id
merged_test = refl

abbrev a_group : GroupData
a_group = record {
  orders = simulated 1 30 ∷ [];
  reads = slot 1 1 ∷ slot 1 2 ∷ [];
  writes = slot 2 1 ∷ [];
  balance_reads = 5 ∷ [];
  balance_writes = 6 ∷ 5 ∷ [];
  code_writes = [];
  conflicting_group_ids = [];
}

combine_groups_lem_example :
    ((combine_groups (a_group ∷ a_group ∷ []) []).orders
      ≡ gather (λ g. g.orders) (a_group ∷ a_group ∷ []))
    × IsUnion
        (combine_groups (a_group ∷ a_group ∷ []) []).reads
        (gather (λ g. g.reads) (a_group ∷ a_group ∷ []))
    × IsUnion
        (combine_groups (a_group ∷ a_group ∷ []) []).writes
        (gather (λ g. g.writes) (a_group ∷ a_group ∷ []))
    × IsUnion
        (combine_groups (a_group ∷ a_group ∷ []) []).balance_reads
        (gather (λ g. g.balance_reads) (a_group ∷ a_group ∷ []))
    × IsUnion
        (combine_groups (a_group ∷ a_group ∷ []) []).balance_writes
        (gather (λ g. g.balance_writes) (a_group ∷ a_group ∷ []))
    × IsUnion
        (combine_groups (a_group ∷ a_group ∷ []) []).code_writes
        (gather (λ g. g.code_writes) (a_group ∷ a_group ∷ []))
combine_groups_lem_example = combine_groups_lem (a_group ∷ a_group ∷ []) []

remove_group_from_index-add_group_to_index_example :
    IsAdded 0 a_group no_groups (add_group_to_index 0 true a_group no_groups)
    × IsSameIndex
        (remove_group_from_index 0 a_group (add_group_to_index 0 true a_group no_groups))
        no_groups
remove_group_from_index-add_group_to_index_example =
    remove_group_from_index-add_group_to_index 0 a_group no_groups

abbrev first_trace : UsedStateTrace
first_trace = trace [] (slot 1 1 ∷ []) []

abbrev first_group : GroupData
first_group = new_order_group (traced 1 first_trace) first_trace

abbrev opened : ConflictFinder
opened = open_group first_group no_groups

-- Another order, which reads another slot.
abbrev second_trace : UsedStateTrace
second_trace = trace (slot 1 2 ∷ []) [] []

abbrev second_group : GroupData
second_group = new_order_group (traced 2 second_trace) second_trace

-- Both groups, which the third order joins.
abbrev both : ConflictFinder
both = open_group second_group opened

three_traces : All (λ o. IsTrace o.used_state_trace) three
three_traces = (
  (λ k. ground arith, λ k. ground arith, λ k. ground arith),
  (
    (λ k. ground arith, λ k. ground arith, λ k. ground arith),
    (
      (
        λ k. ground (arith, slot_eq.same_iff (slot 1 1) k, slot_eq.same_iff (slot 1 2) k),
        λ k. ground arith,
        λ k. ground arith,
      ),
      tt,
    ),
  ),
)

add_orders-IsSound_example :
    (f : ConflictFinder) × (add_orders three no_groups ≡ some f)
    × IsSeparate f.groups
    × IsIndexed f f.groups
add_orders-IsSound_example = add_orders-IsSound three three_traces (omega arith)

three_traced : All HasTrace three
three_traced = (
  (trace [] (slot 1 1 ∷ []) [], refl),
  ((trace [] (slot 1 2 ∷ []) [], refl), ((trace (slot 1 1 ∷ slot 1 2 ∷ []) [] [], refl), tt)),
)

add_orders-IsPresent_example :
    (f : ConflictFinder) × (add_orders three no_groups ≡ some f)
    × All (λ o. IsPresent (sim_id o) f) three
add_orders-IsPresent_example = add_orders-IsPresent three three_traces three_traced (omega arith)
