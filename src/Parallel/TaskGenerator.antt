-- ===== src/Parallel/TaskGenerator.antt =====
-- conflict_task_generator.rs: the tasks of the groups. The equality of orders that the source derives
-- and the time of a call are parameters; what is sent to the aggregator is a list.
pub mod Queue
pub mod Examples
use constraints_builder.Shared.{
  ◌>>=◌, ℕ, zero, suc, ◌+◌, ◌-◌, ◌*◌, ◌/◌, ◌%◌, ◌^◌, Bool, true, false, ◌&&◌, ◌||◌, not, Option,
  none, some, List, [], ◌∷◌, ◌++◌, map, filter, length, leb, ltb, nat_beq, nat_eq, contains,
  set_insert, is_empty, take, if◌then◌else◌,
}
use constraints_builder.Shared.Map.{Map, lookup, insert, remove, keys, contains_key}
use constraints_builder.Primitives.SimValue.{SimulatedOrder}
use constraints_builder.Parallel.Results.{ResolutionResult, ConflictGroup}
use constraints_builder.Parallel.Groups.{sort}
use constraints_builder.Parallel.Task.{ConflictTask, TaskPriority, Algorithm}

abbrev u256_mod : ℕ
u256_mod = 2 ^ 256

abbrev pub threshold_for_significant_change : ℕ
threshold_for_significant_change = 20

abbrev pub number_of_top_orders : ℕ
number_of_top_orders = 10

abbrev pub max_length_for_all_permutations : ℕ
max_length_for_all_permutations = 3

abbrev pub number_of_random_tasks : ℕ
number_of_random_tasks = 50

pub record ConflictTaskGenerator : Type 0 where
  pub existing_groups : Map ℕ ConflictGroup
  pub task_queue : List ConflictTask
  pub group_result_sender : List (ℕ × ResolutionResult × ConflictGroup)
  pub safe_sorting_only : Bool

abbrev new_task : ConflictGroup → Algorithm → TaskPriority → ℕ → ConflictTask
new_task group algorithm priority created_at = record {
  group_idx = group.id;
  algorithm = algorithm;
  priority = priority;
  group = group;
  created_at = created_at;
}

unfoldable pub get_tasks_for_group : ConflictGroup → TaskPriority → Bool → ℕ → List ConflictTask
get_tasks_for_group group priority safe_sorting_only created_at =
    let greedy = new_task group Algorithm.greedy priority created_at in
    let by_length = new_task group Algorithm.length TaskPriority.low created_at in
    if leb (length group.orders) max_length_for_all_permutations && not safe_sorting_only
    then greedy ∷ new_task group Algorithm.all_permutations priority created_at ∷ []
    else if safe_sorting_only
    then greedy ∷ by_length ∷ []
    else greedy
      ∷ new_task group (Algorithm.random group.id number_of_random_tasks) TaskPriority.low
          created_at
      ∷ by_length
      ∷ new_task group Algorithm.reverse_greedy TaskPriority.low created_at
      ∷ []

unfoldable pub coinbase_profits : List SimulatedOrder → List ℕ
coinbase_profits [] = []
coinbase_profits (o ∷ orders) =
    o.sim_value.full_profit_info.coinbase_profit ∷ coinbase_profits orders

unfoldable pub sum : List ℕ → ℕ
sum [] = 0
sum (x ∷ xs) = (x + sum xs) % u256_mod

unfoldable pub sum_top_n_profits : List SimulatedOrder → ℕ → ℕ
unfolding coinbase_profits sum sort
sum_top_n_profits orders n = sum (take n (sort (λ a b. leb b a) (coinbase_profits orders)))

-- Products of U256 values wrap.
unfoldable pub has_significant_changes : ConflictGroup → ConflictGroup → Bool
unfolding sum_top_n_profits
has_significant_changes new_group existing_group =
    let new_top_profit = sum_top_n_profits new_group.orders number_of_top_orders in
    let existing_top_profit = sum_top_n_profits existing_group.orders number_of_top_orders in
    let threshold = existing_top_profit * threshold_for_significant_change % u256_mod / 100 in
    ltb existing_top_profit new_top_profit && ltb threshold (new_top_profit - existing_top_profit)

-- The tasks of other groups pass through a second queue and come back in their order.
unfoldable pub cancel_tasks_for_group : ℕ → ConflictTaskGenerator → ConflictTaskGenerator
cancel_tasks_for_group group_id g = record g {
  task_queue = filter (λ t. not (nat_beq t.group_idx group_id)) g.task_queue;
}

unfoldable pub remove_groups : List ℕ → ConflictTaskGenerator → ConflictTaskGenerator
unfolding remove cancel_tasks_for_group
remove_groups [] g = g
remove_groups (id ∷ ids) g =
    remove_groups ids
      (cancel_tasks_for_group id (record g { existing_groups = remove id g.existing_groups }))

-- The known groups that the group was made of.
unfoldable pub subset_ids : ConflictGroup → ConflictTaskGenerator → List ℕ
subset_ids group g = filter (λ id. contains group.conflicting_group_ids id) (keys g.existing_groups)

unfoldable pub remove_conflicting_subset_groups :
    ConflictGroup → ConflictTaskGenerator → ConflictTaskGenerator
unfolding remove_groups subset_ids
remove_conflicting_subset_groups superset_group g = remove_groups (subset_ids superset_group g) g

unfoldable pub insert_ids : List ℕ → List ℕ → List ℕ
insert_ids [] processed_groups = processed_groups
insert_ids (id ∷ ids) processed_groups = insert_ids ids (set_insert id processed_groups)

unfoldable pub add_processed_groups : ConflictGroup → ConflictTaskGenerator → List ℕ → List ℕ
unfolding subset_ids insert_ids
add_processed_groups new_group g processed_groups =
    set_insert new_group.id (insert_ids (subset_ids new_group g) processed_groups)

-- Stable, by falling number of orders.
unfoldable pub larger_first : ConflictGroup → ConflictGroup → Bool
larger_first a b = leb (length b.orders) (length a.orders)

-- The result of a group of one order; `none` is the panic on a group without orders.
unfoldable pub process_single_order_group :
    ℕ → ConflictGroup → ConflictTaskGenerator → Option ConflictTaskGenerator
process_single_order_group group_id group g = elim group.orders [
  | [] ↦ none
  | o ∷ orders ↦
      let profit = o.sim_value.full_profit_info.coinbase_profit in
      let result : ResolutionResult = record {
        total_profit = profit;
        sequence_of_orders = (0, profit) ∷ [];
      } in
      some
        (record g { group_result_sender = g.group_result_sender ++ (group_id, result, group) ∷ [] })
]

module _ (order_eq : SimulatedOrder → SimulatedOrder → Bool) (now : ℕ) where
  unfoldable pub orders_differ : List SimulatedOrder → List SimulatedOrder → Bool
  orders_differ [] ys = false
  orders_differ (x ∷ xs) [] = false
  orders_differ (x ∷ xs) (y ∷ ys) = not (order_eq x y) || orders_differ xs ys

  unfoldable pub group_has_changed : ConflictGroup → ConflictGroup → Bool
  unfolding orders_differ
  group_has_changed new_group existing_group =
      not (nat_beq (length new_group.orders) (length existing_group.orders))
      || orders_differ new_group.orders existing_group.orders

  unfoldable pub create_new_tasks :
      ConflictGroup → TaskPriority → ConflictTaskGenerator → ConflictTaskGenerator
  unfolding get_tasks_for_group
  create_new_tasks new_group priority g = record g {
    task_queue = g.task_queue ++ get_tasks_for_group new_group priority g.safe_sorting_only now;
  }

  unfoldable pub update_tasks :
      ℕ → ConflictGroup → TaskPriority → ConflictTaskGenerator → ConflictTaskGenerator
  unfolding cancel_tasks_for_group create_new_tasks
  update_tasks group_id new_group priority g =
      create_new_tasks new_group priority (cancel_tasks_for_group group_id g)

  unfoldable pub process_multi_order_group :
      ℕ → ConflictGroup → ConflictTaskGenerator → ConflictTaskGenerator
  unfolding lookup has_significant_changes update_tasks create_new_tasks
  process_multi_order_group group_id new_group g = elim (lookup group_id g.existing_groups) [
    | none ↦ create_new_tasks new_group TaskPriority.high g
    | some existing_group ↦
        update_tasks group_id new_group
          (if has_significant_changes new_group existing_group
            then TaskPriority.high
            else TaskPriority.medium)
          g
  ]

  unfoldable pub should_process : ConflictGroup → ConflictTaskGenerator → Bool
  unfolding lookup group_has_changed
  should_process new_group g = elim (lookup new_group.id g.existing_groups) [
    | none ↦ true
    | some existing_group ↦ group_has_changed new_group existing_group
  ]

  unfoldable pub process_single_group :
      ConflictGroup → ConflictTaskGenerator → Option ConflictTaskGenerator
  unfolding should_process process_single_order_group process_multi_order_group insert
  process_single_group new_group g =
      if should_process new_group g
      then (if nat_beq (length new_group.orders) 1
          then process_single_order_group new_group.id new_group g
          else some (process_multi_order_group new_group.id new_group g))
        >>= (λ next.
            some (record next {
              existing_groups = insert new_group.id new_group next.existing_groups;
            }))
      else some g

  -- The loop over the sorted groups.
  unfoldable pub process_sorted :
      List ConflictGroup → List ℕ → ConflictTaskGenerator → Option ConflictTaskGenerator
  unfolding process_single_group add_processed_groups remove_conflicting_subset_groups
  process_sorted [] processed_groups g = some g
  process_sorted (new_group ∷ groups) processed_groups g =
      if contains processed_groups new_group.id
      then process_sorted groups processed_groups g
      else (do
        next ← process_single_group new_group g
        process_sorted groups (add_processed_groups new_group next processed_groups) (
            if is_empty new_group.conflicting_group_ids
            then next
            else remove_conflicting_subset_groups new_group next))

  unfoldable pub process_groups :
      List ConflictGroup → ConflictTaskGenerator → Option ConflictTaskGenerator
  unfolding process_sorted larger_first sort
  process_groups new_groups g = process_sorted (sort larger_first new_groups) [] g
