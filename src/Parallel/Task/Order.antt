-- ===== src/Parallel/Task/Order.antt =====
-- The order of the tasks, against their equality.
use Prim.Native.Nat.{Ordering}
use constraints_builder.Shared.{◌≡◌, ◌≢◌, ◌↔◌, ◌<◌, ◌⊎◌, true, arith}
use constraints_builder.BlockOrders.Priority.{then_with}
use constraints_builder.Parallel.Task.{ConflictTask, discriminant, task_eq, task_cmp}

-- `cmp` puts a task first exactly when its priority is higher, or the priorities are one and it is
-- older; it is `Equal` exactly for tasks that agree in both. `eq` asks for the priorities alone: two
-- tasks are equal by it and not by `cmp` exactly when they differ in age and not in priority.
pub task_cmp-IsLexicographic :
    (a b : ConflictTask)
    → ((task_cmp a b ≡ Ordering.lt) ↔ (
        (discriminant b.priority < discriminant a.priority)
        ⊎ ((discriminant a.priority ≡ discriminant b.priority) × (a.created_at < b.created_at))))
      × ((task_cmp a b ≡ Ordering.eq)
          ↔ ((discriminant a.priority ≡ discriminant b.priority) × (a.created_at ≡ b.created_at)))
      × (((task_eq a b ≡ true) × (task_cmp a b ≢ Ordering.eq))
          ↔ ((discriminant a.priority ≡ discriminant b.priority) × (a.created_at ≢ b.created_at)))
unfolding task_cmp task_eq then_with
task_cmp-IsLexicographic a b = (ground arith, ground arith, ground arith)
