-- ===== src/Parallel/TaskGenerator/Examples.antt =====
-- A run of the task generator, and a witness.
use constraints_builder.Shared.{
  ℕ, ◌≡◌, refl, Bool, true, false, Option, some, List, [], ◌∷◌, map, length, ◌==◌, inl, All,
}
use constraints_builder.Shared.Map.{keys}
use constraints_builder.Primitives.Orders
use constraints_builder.Primitives.Orders.{order_id_eq}
use constraints_builder.Primitives.SimValue
use constraints_builder.Primitives.SimValue.{SimulatedOrder, sim_id}
use constraints_builder.BlockOrders.Priority.Examples.{simulated}
use constraints_builder.Parallel.Results.{ConflictGroup}
use constraints_builder.Parallel.Task.{ConflictTask, TaskPriority, Algorithm}
use constraints_builder.Parallel.TaskGenerator.{ConflictTaskGenerator, process_groups}
use constraints_builder.Parallel.TaskGenerator.Queue.{IsCurrent, process_groups-IsCurrent}

abbrev same_id : SimulatedOrder → SimulatedOrder → Bool
same_id a b = sim_id a == sim_id b

abbrev pair_group : ConflictGroup
pair_group = record {
  id = 1;
  orders = simulated 1 30 ∷ simulated 2 70 ∷ [];
  conflicting_group_ids = [];
}

abbrev merged_group : ConflictGroup
merged_group = record {
  id = 2;
  orders = simulated 1 30 ∷ simulated 2 70 ∷ simulated 3 50 ∷ simulated 4 10 ∷ [];
  conflicting_group_ids = 1 ∷ [];
}

abbrev single_group : ConflictGroup
single_group = record { id = 3; orders = simulated 5 20 ∷ []; conflicting_group_ids = [] }

abbrev no_tasks : ConflictTaskGenerator
no_tasks = record {
  existing_groups = [];
  task_queue = [];
  group_result_sender = [];
  safe_sorting_only = false;
}

abbrev pair_task : ConflictTask
pair_task = record {
  group_idx = 1;
  algorithm = Algorithm.greedy;
  priority = TaskPriority.high;
  group = pair_group;
  created_at = 0;
}

abbrev pair_known : ConflictTaskGenerator
pair_known = record no_tasks { existing_groups = (1, pair_group) ∷ []; task_queue = pair_task ∷ [] }

-- The merged group replaces the pair, whose task is cancelled; the single order is sent at once.
process_groups_test :
    process_groups same_id 9 (single_group ∷ merged_group ∷ []) pair_known
    ≡ some (record no_tasks {
      existing_groups = (2, merged_group) ∷ (3, single_group) ∷ [];
      task_queue =
          record {
            group_idx = 2;
            algorithm = Algorithm.greedy;
            priority = TaskPriority.high;
            group = merged_group;
            created_at = 9;
          }
          ∷ record {
            group_idx = 2;
            algorithm = Algorithm.random 2 50;
            priority = TaskPriority.low;
            group = merged_group;
            created_at = 9;
          }
          ∷ record {
            group_idx = 2;
            algorithm = Algorithm.length;
            priority = TaskPriority.low;
            group = merged_group;
            created_at = 9;
          }
          ∷ record {
            group_idx = 2;
            algorithm = Algorithm.reverse_greedy;
            priority = TaskPriority.low;
            group = merged_group;
            created_at = 9;
          }
          ∷ [];
      group_result_sender =
          (3, record { total_profit = 20; sequence_of_orders = (0, 20) ∷ [] }, single_group) ∷ [];
    })
unfolding process_groups SimValue.sim_value Orders.id
process_groups_test = refl

pair_known-IsCurrent : IsCurrent pair_known
unfolding constraints_builder.Shared.Map.lookup
pair_known-IsCurrent = ((pair_group, refl, inl refl), tt)

process_groups-IsCurrent_example :
    (next : ConflictTaskGenerator) × (process_groups same_id 9
        (single_group ∷ merged_group ∷ [])
        pair_known
      ≡ some next)
    × IsCurrent next
process_groups-IsCurrent_example =
    process_groups-IsCurrent same_id 9 (single_group ∷ merged_group ∷ []) pair_known
      pair_known-IsCurrent
