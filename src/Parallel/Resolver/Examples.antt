-- ===== src/Parallel/Resolver/Examples.antt =====
-- Runs of the conflict resolver, and witnesses.
use constraints_builder.Shared.{
  ℕ, suc, ◌≡◌, ◌<◌, refl, arith, Bool, true, false, ◌&&◌, some, List, [], ◌∷◌, length, nat_beq,
  contains, nat_eq, drop, inl, inr, Bool-cases, if◌then◌else◌,
}
use constraints_builder.Primitives.SimValue
use constraints_builder.Parallel.SimulationCache.{
  store_cached_state, no_simulations, get_cached_state,
}
use constraints_builder.Primitives.SimValue.{sim_id, SimulatedOrder}
use constraints_builder.Primitives.Orders.{OrderId}
use constraints_builder.BlockOrders.Priority.Examples.{simulated}
use constraints_builder.Parallel.Task.{ConflictTask, TaskPriority, Algorithm}
use constraints_builder.Parallel.Resolver.Errors.{
  ExecutionError, OrderErr, TransactionErr, InvalidTransaction,
}
use constraints_builder.Parallel.Resolver.Loop.{Commit, Outcome}
use constraints_builder.Parallel.Resolver.Run.{
  process_sequence_of_orders, initialize_full_order_ids_vec,
}
use constraints_builder.Parallel.Resolver.Sequences.{
  run_conflict_task, generate_greedy_sequence, coinbase_profit_of,
}
use constraints_builder.Parallel.Resolver.Ordered.{IsGreedy, generate_greedy_sequence-IsGreedy}
use constraints_builder.Parallel.Resolver.Sequence.{
  IsResolved, process_sequence_of_orders-IsResolved,
}
use constraints_builder.Parallel.Resolver.Solved.{IsSolved, run_conflict_task-IsSolved}

-- The second order waits for the nonce that the first uses. The state counts the commits.
abbrev waits : SimulatedOrder → ℕ → Bool
waits order s = nat_beq s 0 && nat_beq (coinbase_profit_of order) 70

abbrev too_high : ExecutionError
too_high = ExecutionError.order_error (
    OrderErr.transaction_err
      (TransactionErr.invalid_transaction (InvalidTransaction.nonce_too_high 4 3)))

abbrev commit_sample : SimulatedOrder → ℕ → Commit × ℕ
commit_sample order s = if waits order s then (Commit.rejected too_high, s) else (
  Commit.committed
      (record { coinbase_profit = coinbase_profit_of order; nonces_updated = (9, 4) ∷ [] }),
  suc s,
)

commit_sample-rolls_back :
    (o : SimulatedOrder) (s : ℕ) (error : ExecutionError)
    → (commit_sample o s).0 ≡ Commit.rejected error
    → (commit_sample o s).1 ≡ s
commit_sample-rolls_back o s error h = elim (Bool-cases (waits o s)) [
  | inl e ↦ rw e refl
  | inr e ↦ absurd (ground (arith, e, h))
]

abbrev sample_orders : List SimulatedOrder
sample_orders = simulated 1 30 ∷ simulated 2 70 ∷ []

abbrev sample_task : ConflictTask
sample_task = record {
  group_idx = 5;
  algorithm = Algorithm.greedy;
  priority = TaskPriority.high;
  group = record { id = 5; orders = sample_orders; conflicting_group_ids = [] };
  created_at = 0;
}

abbrev never : ℕ → Bool
never n = false

abbrev keep : List ℕ → ℕ → List ℕ × ℕ
keep xs rng = (xs, rng)

abbrev only_itself : List ℕ → ℕ → List (List ℕ)
only_itself xs n = xs ∷ []

-- The second order is tried first, waits, and is committed after the first.
process_sequence_of_orders_test :
    (process_sequence_of_orders commit_sample
      (λ s. s)
      (some 0)
      never
      (1 ∷ 0 ∷ [])
      sample_orders
      (no_simulations ℕ)).0
    ≡ Outcome.ok (record { total_profit = 100; sequence_of_orders = (0, 30) ∷ (1, 70) ∷ [] }, 2)
unfolding process_sequence_of_orders coinbase_profit_of SimValue.sim_value
process_sequence_of_orders_test = refl

-- The first order is taken from the cache, and the second does not find it in the state.
cached_prefix_test :
    (process_sequence_of_orders commit_sample
      (λ s. s)
      (some 0)
      never
      (0 ∷ 1 ∷ [])
      sample_orders
      (store_cached_state
        (sim_id (simulated 1 30) ∷ [])
        (record {
          bundle_state = 1;
          total_profit = 30;
          per_order_profits = (sim_id (simulated 1 30), 30) ∷ [];
        })
        (no_simulations ℕ))).0
    ≡ Outcome.ok (record { total_profit = 30; sequence_of_orders = (0, 30) ∷ [] }, 0)
unfolding process_sequence_of_orders store_cached_state coinbase_profit_of SimValue.sim_value
    constraints_builder.Primitives.Orders.id
cached_prefix_test = refl

sample_in_range : (i : ℕ) → contains (1 ∷ 0 ∷ []) i ≡ true → i < length sample_orders
sample_in_range i h = ground arith

process_sequence_of_orders-IsResolved_example :
    (ids : List OrderId) × (initialize_full_order_ids_vec (1 ∷ 0 ∷ []) sample_orders ≡ some ids)
    × IsResolved commit_sample never sample_orders 0
        (drop (get_cached_state ids (no_simulations ℕ)).2 (1 ∷ 0 ∷ []))
        (get_cached_state ids (no_simulations ℕ)).1
        (process_sequence_of_orders commit_sample
          (λ s. s)
          (some 0)
          never
          (1 ∷ 0 ∷ [])
          sample_orders
          (no_simulations ℕ)).0
process_sequence_of_orders-IsResolved_example =
    process_sequence_of_orders-IsResolved commit_sample never sample_orders (λ s. s) 0 (1 ∷ 0 ∷ [])
      sample_in_range commit_sample-rolls_back (no_simulations ℕ)

run_conflict_task-IsSolved_example :
    IsSolved
      (λ seed. seed)
      keep
      only_itself
      commit_sample
      (λ s. s)
      0
      (λ n. never)
      sample_task
      (run_conflict_task
        (λ seed. seed)
        keep
        only_itself
        commit_sample
        (λ s. s)
        (some 0)
        (λ n. never)
        sample_task
        (no_simulations ℕ)).0
run_conflict_task-IsSolved_example =
    run_conflict_task-IsSolved (λ seed. seed) keep only_itself commit_sample (λ s. s) 0 (λ n. never)
      sample_task (λ xs rng i. refl) (λ xs. (λ i. refl, tt)) commit_sample-rolls_back
      (no_simulations ℕ)

generate_greedy_sequence-IsGreedy_example :
    IsGreedy true sample_orders (generate_greedy_sequence sample_orders true)
generate_greedy_sequence-IsGreedy_example = generate_greedy_sequence-IsGreedy sample_orders true
