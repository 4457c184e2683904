-- ===== src/Parallel/Resolver/Run.antt =====
-- `process_sequence_of_orders` with its cache, and `run_conflict_task`. The state after
-- `pre_block_call` is a parameter.
use constraints_builder.Shared.{
  ℕ, suc, Bool, Option, none, some, List, [], ◌∷◌, length, get_elem?, drop, ltb, if◌then◌else◌,
  nat_eq, pair_eq, ◌>>=◌,
}
use constraints_builder.Shared.Map.{Map, lookup, insert}
use constraints_builder.Primitives.Orders.{OrderId, order_id_eq}
use constraints_builder.Primitives.SimValue.{SimulatedOrder, sim_id}
use constraints_builder.Parallel.Results.{ResolutionResult}
use constraints_builder.Parallel.SimulationCache.{
  CachedSimulationState, SharedSimulationCache, get_cached_state, store_cached_state,
}
use constraints_builder.Parallel.Resolver.Loop.{Commit, Failure, Outcome, Progress, process_loop}

unfoldable pub initialize_order_id_to_index_map :
    ℕ → List SimulatedOrder → Map OrderId ℕ → Map OrderId ℕ
unfolding insert
initialize_order_id_to_index_map i [] m = m
initialize_order_id_to_index_map i (order ∷ orders) m =
    initialize_order_id_to_index_map (suc i) orders (insert (sim_id order) i m)

-- `none` is the panic of an index out of bounds.
unfoldable pub initialize_full_order_ids_vec : List ℕ → List SimulatedOrder → Option (List OrderId)
initialize_full_order_ids_vec [] orders = some []
initialize_full_order_ids_vec (i ∷ sequence) orders = do
  order ← get_elem? orders i
  ids ← initialize_full_order_ids_vec sequence orders
  some (sim_id order ∷ ids)

unfoldable pub indexed_profits : Map OrderId ℕ → List (OrderId × ℕ) → List (ℕ × ℕ)
unfolding lookup
indexed_profits indices [] = []
indexed_profits indices ((id, profit) ∷ profits) =
    let rest = indexed_profits indices profits in
    elim (lookup id indices) [ none ↦ rest | some i ↦ (i, profit) ∷ rest ]

unfoldable pub update_best_resolution : ResolutionResult → ResolutionResult → ResolutionResult
update_best_resolution new best = if ltb best.total_profit new.total_profit then new else best

abbrev pub resolution : {State : Type 0} → Progress State → ResolutionResult
resolution p = record {
  total_profit = p.total_profit;
  sequence_of_orders = p.sequenced_order_result;
}

module _ {State BundleState : Type 0} where
  -- The progress before the loop: the cached profits, and a state without the cached orders.
  unfoldable pub resumed :
      Option (CachedSimulationState BundleState) → List SimulatedOrder → State → Progress State
  unfolding initialize_order_id_to_index_map indexed_profits
  resumed none orders state = record {
    state = state;
    pending_orders = [];
    sequenced_order_result = [];
    total_profit = 0;
    per_order_profits = [];
  }
  resumed (some cached) orders state = record {
    state = state;
    pending_orders = [];
    sequenced_order_result =
        indexed_profits (initialize_order_id_to_index_map 0 orders []) cached.per_order_profits;
    total_profit = cached.total_profit;
    per_order_profits = cached.per_order_profits;
  }

module _ {State BundleState : Type 0} (commit_order : SimulatedOrder → State → Commit × State) where
  -- `none` is the failure of `pre_block_call`.
  unfoldable pub run_loop :
      (ℕ → Bool)
      → List ℕ
      → List SimulatedOrder
      → Option (CachedSimulationState BundleState)
      → ℕ
      → Option State
      → Outcome (Progress State)
  unfolding resumed process_loop
  run_loop is_cancelled sequence orders cached from none = Outcome.err Failure.pre_block_call
  run_loop is_cancelled sequence orders cached from (some state) =
      let remaining = drop from sequence in
      process_loop commit_order is_cancelled orders (length remaining) 0 remaining
        (resumed cached orders state)

module _ {State BundleState : Type 0} (bundle_state : State → BundleState) where
  unfoldable pub store_simulation_state :
      List OrderId
      → Progress State
      → SharedSimulationCache BundleState
      → SharedSimulationCache BundleState
  unfolding store_cached_state
  store_simulation_state ids p cache =
      store_cached_state ids
        (record {
          bundle_state = bundle_state p.state;
          total_profit = p.total_profit;
          per_order_profits = p.per_order_profits;
        })
        cache

module _ {State BundleState : Type 0} (commit_order : SimulatedOrder → State → Commit × State)
    (bundle_state : State → BundleState) (initial : Option State) where
  unfoldable pub process_sequence_of_orders :
      (ℕ → Bool)
      → List ℕ
      → List SimulatedOrder
      → SharedSimulationCache BundleState
      → Outcome (ResolutionResult × State) × SharedSimulationCache BundleState
  unfolding initialize_full_order_ids_vec get_cached_state run_loop store_simulation_state
  process_sequence_of_orders is_cancelled sequence orders cache =
      elim (initialize_full_order_ids_vec sequence orders) [
        | none ↦ (Outcome.err Failure.out_of_bounds, cache)
        | some ids ↦
            let (asked, cached, from) = get_cached_state ids cache in
            elim (run_loop commit_order is_cancelled sequence orders cached from initial) [
              | Outcome.err failure ↦ (Outcome.err failure, asked)
              | Outcome.ok p ↦ (
                Outcome.ok (resolution p, p.state),
                store_simulation_state bundle_state ids p asked,
              )
            ]
      ]

  -- The loop over the sequences; the first argument of the token is the number of the sequence.
  unfoldable pub try_sequences :
      (ℕ → ℕ → Bool)
      → ℕ
      → List (List ℕ)
      → List SimulatedOrder
      → ResolutionResult
      → SharedSimulationCache BundleState
      → Outcome ResolutionResult × SharedSimulationCache BundleState
  unfolding process_sequence_of_orders update_best_resolution
  try_sequences is_cancelled n [] orders best cache = (Outcome.ok best, cache)
  try_sequences is_cancelled n (sequence ∷ sequences) orders best cache =
      let (result, next) = process_sequence_of_orders (is_cancelled n) sequence orders cache in
      elim result [
        | Outcome.err failure ↦ (Outcome.err failure, next)
        | Outcome.ok done ↦
            try_sequences is_cancelled (suc n) sequences orders (update_best_resolution done.0 best)
              next
      ]
