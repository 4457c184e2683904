-- ===== src/Parallel/Examples.antt =====
-- Runs of the parts of the parallel builder, and witnesses.
use Prim.Native.Nat.{Ordering}
use constraints_builder.Shared.{ℕ, ◌≡◌, ◌≢◌, ◌↔◌, ◌<◌, ◌⊎◌, refl, true, false, List, [], ◌∷◌, All}
use constraints_builder.Primitives.Orders.{OrderId}
use constraints_builder.Parallel.Results.{
  ResolutionResult, ConflictGroup, BestResults, no_results, update_best_result, run,
}
use constraints_builder.Parallel.Results.Replaced.{
  IsBlocked, IsBeaten, IsReplaced, update_best_result_lem,
}
use constraints_builder.Parallel.Results.Best.{HasProfit, run-HasProfit}
use constraints_builder.Parallel.SimulationCache.{
  CachedSimulationState, SharedSimulationCache, no_simulations, get_cached_state,
  store_cached_state,
}
use constraints_builder.Parallel.SimulationCache.Prefix.{IsFound, get_cached_state-IsFound}
use constraints_builder.Parallel.Task.{
  ConflictTask, TaskPriority, Algorithm, discriminant, task_eq, task_cmp,
}
use constraints_builder.Parallel.Task.Order.{task_cmp-IsLexicographic}

abbrev result : ℕ → ResolutionResult
result profit = record { total_profit = profit; sequence_of_orders = [] }

abbrev group : ℕ → List ℕ → ConflictGroup
group i conflicting = record { id = i; orders = []; conflicting_group_ids = conflicting }

-- Groups 1 and 2 are merged as 3, whose result is better than theirs.
abbrev updates : List (ℕ × ResolutionResult × ConflictGroup)
updates =
    (1, result 10, group 1 [])
    ∷ (2, result 5, group 2 [])
    ∷ (3, result 12, group 3 (1 ∷ 2 ∷ []))
    ∷ (3, result 11, group 3 (1 ∷ 2 ∷ []))
    ∷ []

abbrev two_groups : BestResults
two_groups = record {
  results = (1, (result 10, group 1 [])) ∷ (2, (result 5, group 2 [])) ∷ [];
  version = 2;
}

run_test :
    run updates no_results
    ≡ record { results = (3, (result 12, group 3 (1 ∷ 2 ∷ []))) ∷ []; version = 3 }
unfolding run
run_test = refl

update_best_result_lem_example :
    (IsBlocked 7 (1 ∷ 2 ∷ []) two_groups.results
      × (update_best_result 3 (result 7) (group 3 (1 ∷ 2 ∷ [])) two_groups
          ≡ (two_groups, false, 0)))
    ⊎ (IsBeaten 7 (1 ∷ 2 ∷ []) two_groups.results
        × IsReplaced 3
            (result 7)
            (group 3 (1 ∷ 2 ∷ []))
            two_groups
            (update_best_result 3 (result 7) (group 3 (1 ∷ 2 ∷ [])) two_groups).0)
update_best_result_lem_example =
    update_best_result_lem 3 (result 7) (group 3 (1 ∷ 2 ∷ [])) two_groups

run-HasProfit_example :
    All (λ update. HasProfit (run updates no_results) update.1.total_profit) updates
    × ((profit : ℕ) → HasProfit no_results profit → HasProfit (run updates no_results) profit)
run-HasProfit_example = run-HasProfit updates no_results (refl, (refl, (refl, (refl, tt))))

abbrev state : CachedSimulationState ℕ
state = record { bundle_state = 7; total_profit = 3; per_order_profits = [] }

abbrev ordering : List OrderId
ordering = OrderId.tx 1 ∷ OrderId.tx 2 ∷ OrderId.tx 3 ∷ []

abbrev cached : SharedSimulationCache ℕ
cached = store_cached_state (OrderId.tx 1 ∷ OrderId.tx 2 ∷ []) state (no_simulations ℕ)

cached_test : (get_cached_state ordering cached).2 ≡ 2
unfolding get_cached_state store_cached_state
cached_test = refl

get_cached_state-IsFound_example :
    IsFound ordering cached.inner_cache
      (get_cached_state ordering cached).1
      (get_cached_state ordering cached).2
get_cached_state-IsFound_example = get_cached_state-IsFound ordering cached

abbrev task : TaskPriority → ℕ → ConflictTask
task p at = record {
  group_idx = 1;
  algorithm = Algorithm.greedy;
  priority = p;
  group = group 1 [];
  created_at = at;
}

task_cmp-IsLexicographic_example :
    ((task_cmp (task TaskPriority.low 1) (task TaskPriority.low 2) ≡ Ordering.lt) ↔ (
      (discriminant TaskPriority.low < discriminant TaskPriority.low)
      ⊎ ((discriminant TaskPriority.low ≡ discriminant TaskPriority.low) × (1 < 2))))
    × ((task_cmp (task TaskPriority.low 1) (task TaskPriority.low 2) ≡ Ordering.eq) ↔ (
        (discriminant TaskPriority.low ≡ discriminant TaskPriority.low)
        × ((task TaskPriority.low 1).created_at ≡ (task TaskPriority.low 2).created_at)))
    × (((task_eq (task TaskPriority.low 1) (task TaskPriority.low 2) ≡ true)
          × (task_cmp (task TaskPriority.low 1) (task TaskPriority.low 2) ≢ Ordering.eq))
        ↔ ((discriminant TaskPriority.low ≡ discriminant TaskPriority.low)
            × ((task TaskPriority.low 1).created_at ≢ (task TaskPriority.low 2).created_at)))
task_cmp-IsLexicographic_example =
    task_cmp-IsLexicographic (task TaskPriority.low 1) (task TaskPriority.low 2)
