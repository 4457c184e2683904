-- ===== src/Parallel/Intake.antt =====
-- `run_order_intake` (builders/parallel_builder/mod.rs): the orders of the intake store go to the
-- conflict finder, and its groups to the task generator.
pub mod Examples
use constraints_builder.Shared.{ℕ, Bool, true, false, Option, none, some, List, [], ◌∷◌, ◌>>=◌}
use constraints_builder.Primitives.SimValue.{SimulatedOrder}
use constraints_builder.BlockOrders.Intake.{
  Received, OrderIntakeStore, consume_next_batch, try_drain_new_orders_if_no_cancellations,
}
use constraints_builder.Parallel.Groups.Finder.{ConflictFinder, add_orders, get_order_groups}
use constraints_builder.Parallel.TaskGenerator.{ConflictTaskGenerator, process_groups}

pub record ParallelIntake : Type 0 where
  pub order_intake_consumer : OrderIntakeStore
  pub conflict_finder : ConflictFinder
  pub conflict_task_generator : ConflictTaskGenerator

-- What a round of the loop finds: whether it is cancelled, the answers of the channel and the time.
pub record Round : Type 0 where
  pub is_cancelled : Bool
  pub first : Received
  pub answers : List Received
  pub now : ℕ

module _ (order_eq : SimulatedOrder → SimulatedOrder → Bool) where
  -- The drained orders; when there is no answer, nothing happens. `none` is a panic.
  unfoldable pub take_new_orders :
      ℕ → Option (List SimulatedOrder) → ParallelIntake → Option ParallelIntake
  unfolding add_orders process_groups get_order_groups
  take_new_orders now none p = some p
  take_new_orders now (some []) p = some p
  take_new_orders now (some (o ∷ orders)) p = do
    finder ← add_orders (o ∷ orders) p.conflict_finder
    generator ← process_groups order_eq now (get_order_groups finder) p.conflict_task_generator
    some (record p { conflict_finder = finder; conflict_task_generator = generator })

  unfoldable pub run_order_intake : List Round → ParallelIntake → Option ParallelIntake
  unfolding consume_next_batch try_drain_new_orders_if_no_cancellations take_new_orders
  run_order_intake [] p = some p
  run_order_intake (r ∷ rounds) p = elim r.is_cancelled [
    | true ↦ some p
    | false ↦
        let (ok, consumed) = consume_next_batch r.first r.answers p.order_intake_consumer in
        elim ok [
          | false ↦ some p
          | true ↦
              let (new_orders, drained) = try_drain_new_orders_if_no_cancellations consumed in
              take_new_orders r.now new_orders (record p { order_intake_consumer = drained })
              >>= (λ next. run_order_intake rounds next)
        ]
  ]
