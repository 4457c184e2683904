-- ===== src/Parallel/Resolver/Sequences.antt =====
-- The sequences of orders to try. `permutations` of itertools, and `shuffle` and `seed_from_u64` of
-- rand, are parameters.
use constraints_builder.Shared.{
  ℕ, zero, suc, Bool, true, false, Option, List, [], ◌∷◌, ◌||◌, ◌&&◌, map, length, leb, ltb,
  nat_beq, if◌then◌else◌,
}
use constraints_builder.Primitives.Orders.{list_txs}
use constraints_builder.Primitives.SimValue.{SimulatedOrder}
use constraints_builder.Parallel.Groups.{sort}
use constraints_builder.Parallel.Task.{ConflictTask, Algorithm}
use constraints_builder.Parallel.SimulationCache.{SharedSimulationCache}
use constraints_builder.Parallel.Results.{ResolutionResult}
use constraints_builder.Parallel.Resolver.Loop.{Commit, Outcome}
use constraints_builder.Parallel.Resolver.Run.{try_sequences}

-- `enumerate` and `map` of the orders to their index and a value.
unfoldable pub with_index {ℓ} :
    {A : Type ℓ} → (SimulatedOrder → A) → ℕ → List SimulatedOrder → List (ℕ × A)
with_index value_extractor i [] = []
with_index value_extractor i (order ∷ orders) =
    (i, value_extractor order) ∷ with_index value_extractor (suc i) orders

-- The order of `sort_by`, which is stable: the first may stand before the second.
unfoldable pub greedy_le : Bool → ℕ × ℕ → ℕ × ℕ → Bool
greedy_le reverse a b = if reverse then leb a.1 b.1 else leb b.1 a.1

unfoldable pub create_sequence : Bool → (SimulatedOrder → ℕ) → List SimulatedOrder → List ℕ
unfolding greedy_le with_index sort
create_sequence reverse value_extractor orders =
    map (λ x. x.0) (sort (greedy_le reverse) (with_index value_extractor 0 orders))

unfoldable pub coinbase_profit_of : SimulatedOrder → ℕ
coinbase_profit_of order = order.sim_value.full_profit_info.coinbase_profit

unfoldable pub mev_gas_price_of : SimulatedOrder → ℕ
mev_gas_price_of order = order.sim_value.full_profit_info.mev_gas_price

unfoldable pub generate_greedy_sequence : List SimulatedOrder → Bool → List (List ℕ)
unfolding create_sequence coinbase_profit_of mev_gas_price_of
generate_greedy_sequence orders reverse =
    create_sequence reverse coinbase_profit_of orders
    ∷ create_sequence reverse mev_gas_price_of orders
    ∷ []

-- By length, and by profit among those of one length; both descending.
unfoldable pub length_le : ℕ × (ℕ × ℕ) → ℕ × (ℕ × ℕ) → Bool
length_le a b = ltb b.1.0 a.1.0 || nat_beq b.1.0 a.1.0 && leb b.1.1 a.1.1

unfoldable pub length_and_profit : SimulatedOrder → ℕ × ℕ
unfolding list_txs coinbase_profit_of
length_and_profit order = (length (list_txs order.order), coinbase_profit_of order)

unfoldable pub generate_length_based_sequence : List SimulatedOrder → List (List ℕ)
unfolding length_le length_and_profit with_index sort
generate_length_based_sequence orders =
    map (λ x. x.0) (sort length_le (with_index length_and_profit 0 orders)) ∷ []

-- `(from..from + n)`
unfoldable pub range : ℕ → ℕ → List ℕ
range from zero = []
range from (suc n) = from ∷ range (suc from) n

module _ {Rng : Type 0} (seed_from_u64 : ℕ → Rng) (shuffle : List ℕ → Rng → List ℕ × Rng)
    (permutations : List ℕ → ℕ → List (List ℕ)) where
  unfoldable pub shuffled : ℕ → List ℕ → Rng → List (List ℕ)
  shuffled zero indexes rng = []
  shuffled (suc count) indexes rng =
      let (next, rng') = shuffle indexes rng in next ∷ shuffled count next rng'

  unfoldable pub generate_random_permutations : List SimulatedOrder → ℕ → ℕ → List (List ℕ)
  unfolding shuffled range
  generate_random_permutations orders seed count =
      shuffled count (range 0 (length orders)) (seed_from_u64 seed)

  unfoldable pub generate_all_permutations : List SimulatedOrder → List (List ℕ)
  unfolding range
  generate_all_permutations orders = permutations (range 0 (length orders)) (length orders)

  unfoldable pub generate_sequences_of_orders_to_try :
      Algorithm → List SimulatedOrder → List (List ℕ)
  unfolding generate_greedy_sequence generate_length_based_sequence generate_all_permutations
      generate_random_permutations
  generate_sequences_of_orders_to_try Algorithm.greedy orders =
      generate_greedy_sequence orders false
  generate_sequences_of_orders_to_try Algorithm.reverse_greedy orders =
      generate_greedy_sequence orders true
  generate_sequences_of_orders_to_try Algorithm.length orders =
      generate_length_based_sequence orders
  generate_sequences_of_orders_to_try Algorithm.all_permutations orders =
      generate_all_permutations orders
  generate_sequences_of_orders_to_try (Algorithm.random seed count) orders =
      generate_random_permutations orders seed count

module _ {Rng : Type 0} (seed_from_u64 : ℕ → Rng) (shuffle : List ℕ → Rng → List ℕ × Rng)
    (permutations : List ℕ → ℕ → List (List ℕ)) {State BundleState : Type 0}
    (commit_order : SimulatedOrder → State → Commit × State) (bundle_state : State → BundleState)
    (initial : Option State) where
  unfoldable pub run_conflict_task :
      (ℕ → ℕ → Bool)
      → ConflictTask
      → SharedSimulationCache BundleState
      → Outcome ResolutionResult × SharedSimulationCache BundleState
  unfolding generate_sequences_of_orders_to_try try_sequences
  run_conflict_task is_cancelled task cache =
      try_sequences commit_order bundle_state initial is_cancelled 0
        (generate_sequences_of_orders_to_try seed_from_u64 shuffle permutations task.algorithm
          task.group.orders)
        task.group.orders (record { total_profit = 0; sequence_of_orders = [] }) cache
