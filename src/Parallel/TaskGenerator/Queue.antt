-- ===== src/Parallel/TaskGenerator/Queue.antt =====
-- The queued tasks are those of the known groups.
use constraints_builder.Shared.{
  ℕ, ◌≡◌, ◌⊎◌, inl, inr, refl, ◌∙◌, ap, arith, Bool, true, false, ◌&&◌, not, none, some, List, [],
  ◌∷◌, ◌++◌, filter, length, leb, nat_beq, nat_eq, contains, is_empty, if◌then◌else◌, All,
  All-append, All-imp, Bool-cases, Option-cases,
}
use constraints_builder.Shared.Map.{Map, lookup, insert, remove, lookup-insert, lookup-remove}
use constraints_builder.Primitives.SimValue.{SimulatedOrder}
use constraints_builder.Parallel.Results.{ResolutionResult, ConflictGroup}
use constraints_builder.Parallel.Groups.{sort}
use constraints_builder.Parallel.Task.{ConflictTask, TaskPriority}
use constraints_builder.Parallel.TaskGenerator.{
  ConflictTaskGenerator, get_tasks_for_group, max_length_for_all_permutations,
  cancel_tasks_for_group, remove_groups, subset_ids, remove_conflicting_subset_groups,
  add_processed_groups, process_single_order_group, process_multi_order_group,
  has_significant_changes, should_process, process_single_group, process_sorted, process_groups,
  larger_first, create_new_tasks, update_tasks,
}

-- The group of the task is known, and it is that of the task unless the known one has become a group
-- of one order.
abbrev pub IsCurrentTask : Map ℕ ConflictGroup → ConflictTask → Type 0
IsCurrentTask groups t =
    (d : ConflictGroup) × (lookup t.group_idx groups ≡ some d)
    × ((t.group ≡ d) ⊎ (length d.orders ≡ 1))

abbrev pub IsCurrent : ConflictTaskGenerator → Type 0
IsCurrent g = All (IsCurrentTask g.existing_groups) g.task_queue

All-filter-true :
    {A : Type 0} (P : A → Type 0) (p : A → Bool) (xs : List A)
    → All P xs
    → All (λ x. P x × (p x ≡ true)) (filter p xs)
All-filter-true P p [] h = tt
All-filter-true P p (x ∷ xs) h = ground (arith, All-filter-true P p xs h.1)

IsCurrentTask-insert :
    (id : ℕ) (group : ConflictGroup) (groups : Map ℕ ConflictGroup) (t : ConflictTask)
    → IsCurrentTask groups t
    → (nat_beq id t.group_idx ≡ false) ⊎ (length group.orders ≡ 1)
    → IsCurrentTask (insert id group groups) t
IsCurrentTask-insert id group groups t (d, e, h) k = elim (Bool-cases (nat_beq id t.group_idx)) [
  | inl c ↦
      (group, lookup-insert id t.group_idx group groups ∙ rw c refl, inr (ground (arith, c, k)))
  | inr c ↦ (d, lookup-insert id t.group_idx group groups ∙ rw c e, h)
]

-- The tasks of the other groups are current when a group is known anew or forgotten.
others-insert :
    (id : ℕ) (group : ConflictGroup) (groups : Map ℕ ConflictGroup) (queue : List ConflictTask)
    → All (IsCurrentTask groups) queue
    → All
        (IsCurrentTask (insert id group groups))
        (filter (λ t. not (nat_beq t.group_idx id)) queue)
others-insert id group groups queue h =
    All-imp (λ t k. IsCurrentTask-insert id group groups t k.0 (inl (ground (arith, k.1))))
      (filter (λ t. not (nat_beq t.group_idx id)) queue)
      (All-filter-true (IsCurrentTask groups) (λ t. not (nat_beq t.group_idx id)) queue h)

IsCurrentTask-remove :
    (id : ℕ) (groups : Map ℕ ConflictGroup) (t : ConflictTask)
    → IsCurrentTask groups t
    → not (nat_beq t.group_idx id) ≡ true
    → IsCurrentTask (remove id groups) t
IsCurrentTask-remove id groups t (d, e, h) k =
    (d, lookup-remove id t.group_idx groups ∙ (ground (arith, k, e)), h)

remove_groups-IsCurrent :
    (ids : List ℕ) (g : ConflictTaskGenerator) → IsCurrent g → IsCurrent (remove_groups ids g)
unfolding remove_groups cancel_tasks_for_group
remove_groups-IsCurrent [] g h = h
remove_groups-IsCurrent (id ∷ ids) g h =
    remove_groups-IsCurrent ids
      (cancel_tasks_for_group id (record g { existing_groups = remove id g.existing_groups }))
      (All-imp (λ t k. IsCurrentTask-remove id g.existing_groups t k.0 k.1)
        (filter (λ t. not (nat_beq t.group_idx id)) g.task_queue)
        (All-filter-true (IsCurrentTask g.existing_groups) (λ t. not (nat_beq t.group_idx id))
          g.task_queue h))

-- A task of a group that is known is current.
get_tasks_for_group-IsCurrent :
    (group : ConflictGroup) (priority : TaskPriority) (safe : Bool) (now : ℕ)
    (groups : Map ℕ ConflictGroup)
    → All
        (IsCurrentTask (insert group.id group groups))
        (get_tasks_for_group group priority safe now)
unfolding get_tasks_for_group
get_tasks_for_group-IsCurrent group priority safe now groups =
    let there : lookup group.id (insert group.id group groups) ≡ some group =
      ground (arith, lookup-insert group.id group.id group groups) in
    let now_known : (d : ConflictGroup) × (lookup group.id (insert group.id group groups) ≡ some d)
        × ((group ≡ d) ⊎ (length d.orders ≡ 1)) =
      (group, there, inl refl) in
    elim (Bool-cases (leb (length group.orders) max_length_for_all_permutations && not safe)) [
      | inl e ↦ rw (e, get_tasks_for_group) (now_known, (now_known, tt))
      | inr e ↦ elim (Bool-cases safe) [
        | inl f ↦ rw (e, f, get_tasks_for_group) (now_known, (now_known, tt))
        | inr f ↦
            rw (e, f, get_tasks_for_group) (now_known, (now_known, (now_known, (now_known, tt))))
      ]
    ]

single_result :
    (group : ConflictGroup) (o : SimulatedOrder) (orders : List SimulatedOrder)
    (g : ConflictTaskGenerator)
    → group.orders ≡ o ∷ orders
    → process_single_order_group group.id group g
      ≡ some (record g {
        group_result_sender =
            g.group_result_sender
            ++ (
              group.id,
              record {
                total_profit = o.sim_value.full_profit_info.coinbase_profit;
                sequence_of_orders = (0, o.sim_value.full_profit_info.coinbase_profit) ∷ [];
              },
              group,
            )
              ∷ [];
      })
unfolding process_single_order_group
single_result group o orders g c = simp (c, process_single_order_group)

module _ (order_eq : SimulatedOrder → SimulatedOrder → Bool) (now : ℕ) where
  process_multi_order_group-IsCurrent :
      (group : ConflictGroup) (g : ConflictTaskGenerator)
      → IsCurrent g
      → ((process_multi_order_group order_eq now group.id group g).existing_groups
          ≡ g.existing_groups)
        × All
            (IsCurrentTask (insert group.id group g.existing_groups))
            (process_multi_order_group order_eq now group.id group g).task_queue
  unfolding process_multi_order_group create_new_tasks update_tasks cancel_tasks_for_group
  process_multi_order_group-IsCurrent group g h =
      elim (Option-cases (lookup group.id g.existing_groups)) [
        | inl e ↦
            rw (e, process_multi_order_group)
              (
                refl,
                All-append (IsCurrentTask (insert group.id group g.existing_groups)) g.task_queue
                    (get_tasks_for_group group TaskPriority.high g.safe_sorting_only now)
                    (All-imp
                      (λ t k.
                        IsCurrentTask-insert group.id group g.existing_groups t k
                          (inl (absent e t k)))
                      g.task_queue h)
                    (get_tasks_for_group-IsCurrent group TaskPriority.high g.safe_sorting_only now
                      g.existing_groups),
              )
        | inr (old, e) ↦
            let priority =
              if has_significant_changes group old
              then TaskPriority.high
              else TaskPriority.medium in
            rw (e, process_multi_order_group)
              (
                refl,
                All-append (IsCurrentTask (insert group.id group g.existing_groups))
                    (filter (λ t. not (nat_beq t.group_idx group.id)) g.task_queue)
                    (get_tasks_for_group group priority g.safe_sorting_only now)
                    (others-insert group.id group g.existing_groups g.task_queue h)
                    (get_tasks_for_group-IsCurrent group priority g.safe_sorting_only now
                      g.existing_groups),
              )
      ]
    where
      absent :
          lookup group.id g.existing_groups ≡ none
          → (t : ConflictTask) → IsCurrentTask g.existing_groups t
          → nat_beq group.id t.group_idx ≡ false
      absent e t (d, there, k) = elim (Bool-cases (nat_beq group.id t.group_idx)) [
        | inl c ↦ absurd (ground (arith, c, e, there))
        | inr c ↦ c
      ]

  process_single_group-IsCurrent :
      (group : ConflictGroup) (g : ConflictTaskGenerator)
      → IsCurrent g
      → (next : ConflictTaskGenerator) × (process_single_group order_eq now group g ≡ some next)
        × IsCurrent next
  unfolding process_single_group
  process_single_group-IsCurrent group g h =
      elim (Bool-cases (should_process order_eq now group g)) [
        | inr e ↦ (g, rw (e, process_single_group) refl, h)
        | inl e ↦ elim (Bool-cases (nat_beq (length group.orders) 1)) [
          | inr f ↦
              let (same, k) = process_multi_order_group-IsCurrent group g h in
              let next : ConflictTaskGenerator =
                process_multi_order_group order_eq now group.id group g in
              (
                record next { existing_groups = insert group.id group next.existing_groups },
                rw (e, f, process_single_group) refl,
                rw same k,
              )
          | inl f ↦ single (group.orders) refl (ground (arith, f)) e f
        ]
      ]
    where
      single :
          (orders : List SimulatedOrder)
          → group.orders ≡ orders
          → length group.orders ≡ 1
          → should_process order_eq now group g ≡ true
          → nat_beq (length group.orders) 1 ≡ true
          → (next : ConflictTaskGenerator) × (process_single_group order_eq now group g ≡ some next)
            × IsCurrent next
      single [] c l e f = absurd (omega (arith, ap length c, l))
      single (o ∷ orders) c l e f =
          let profit = o.sim_value.full_profit_info.coinbase_profit in
          let result : ResolutionResult = record {
            total_profit = profit;
            sequence_of_orders = (0, profit) ∷ [];
          } in
          (
            record g {
              group_result_sender = g.group_result_sender ++ (group.id, result, group) ∷ [];
              existing_groups = insert group.id group g.existing_groups;
            },
            rw (e, f, single_result group o orders g c, process_single_group) refl,
            All-imp (λ t k. IsCurrentTask-insert group.id group g.existing_groups t k (inr l))
                g.task_queue h,
          )

  process_sorted-IsCurrent :
      (groups : List ConflictGroup) (processed : List ℕ) (g : ConflictTaskGenerator)
      → IsCurrent g
      → (next : ConflictTaskGenerator) × (process_sorted order_eq now groups processed g
          ≡ some next)
        × IsCurrent next
  unfolding process_sorted remove_conflicting_subset_groups
  process_sorted-IsCurrent [] processed g h = (g, refl, h)
  process_sorted-IsCurrent (group ∷ groups) processed g h =
      elim (Bool-cases (contains processed group.id)) [
        | inl e ↦
            let (next, f, k) = process_sorted-IsCurrent groups processed g h in
            (next, rw (e, process_sorted) f, k)
        | inr e ↦
            let (one, f, k) = process_single_group-IsCurrent group g h in
            let more = add_processed_groups group one processed in
            elim (Bool-cases (is_empty group.conflicting_group_ids)) [
              | inl c ↦
                  let (next, f', k') = process_sorted-IsCurrent groups more one k in
                  (next, rw (e, f, c, process_sorted) f', k')
              | inr c ↦
                  let (next, f', k') =
                    process_sorted-IsCurrent groups more (remove_groups (subset_ids group one) one)
                      (remove_groups-IsCurrent (subset_ids group one) one k) in
                  (next, rw (e, f, c, process_sorted) f', k')
            ]
      ]

  -- `process_groups` does not panic on any groups, and it keeps the queue current: every queued task
  -- is of a group that is known under the task's id, so none is left for a group that was merged into
  -- another, and the known group is the one that the task resolves, unless the known one has become a
  -- group of one order.
  pub process_groups-IsCurrent :
      (groups : List ConflictGroup) (g : ConflictTaskGenerator)
      → IsCurrent g
      → (next : ConflictTaskGenerator) × (process_groups order_eq now groups g ≡ some next)
        × IsCurrent next
  unfolding process_groups
  process_groups-IsCurrent groups g h = process_sorted-IsCurrent (sort larger_first groups) [] g h
