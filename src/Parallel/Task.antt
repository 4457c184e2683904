-- ===== src/Parallel/Task.antt =====
-- task.rs: tasks by priority and age.
pub mod Order
use Prim.Native.Nat.{compare, Ordering}
use constraints_builder.Shared.{ℕ, Bool, nat_beq}
use constraints_builder.BlockOrders.Priority.{then_with}
use constraints_builder.Parallel.Results.{ConflictGroup}

pub data TaskPriority : Type 0 where
  low : TaskPriority
  medium : TaskPriority
  high : TaskPriority

pub data Algorithm : Type 0 where
  greedy : Algorithm
  reverse_greedy : Algorithm
  length : Algorithm
  all_permutations : Algorithm
  random : ℕ → ℕ → Algorithm

pub record ConflictTask : Type 0 where
  pub group_idx : ℕ
  pub algorithm : Algorithm
  pub priority : TaskPriority
  pub group : ConflictGroup
  pub created_at : ℕ

-- The discriminant, which the derived order compares.
unfoldable pub discriminant : TaskPriority → ℕ
discriminant TaskPriority.low = 0
discriminant TaskPriority.medium = 1
discriminant TaskPriority.high = 2

unfoldable pub task_eq : ConflictTask → ConflictTask → Bool
task_eq a b = nat_beq (discriminant a.priority) (discriminant b.priority)

unfoldable pub task_cmp : ConflictTask → ConflictTask → Ordering
unfolding then_with
task_cmp a b =
    then_with (compare (discriminant b.priority) (discriminant a.priority))
      (compare a.created_at b.created_at)
