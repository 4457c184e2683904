-- ===== src/Parallel/Results.antt =====
-- results_aggregator.rs: the best result of each group, and `ResolutionResult` and `ConflictGroup` of
-- groups.rs.
pub mod Replaced
pub mod Best
use constraints_builder.Shared.{
  ℕ, ◌+◌, ◌%◌, ◌^◌, Bool, true, false, ◌||◌, not, Option, none, some, List, [], ◌∷◌, map, ltb,
  length, is_empty, if◌then◌else◌, nat_eq,
}
use constraints_builder.Shared.Map
use constraints_builder.Shared.Map.{Map, lookup, insert, remove, values}
use constraints_builder.Primitives.SimValue.{SimulatedOrder}

abbrev u64_mod : ℕ
u64_mod = 2 ^ 64

pub record ResolutionResult : Type 0 where
  pub total_profit : ℕ
  pub sequence_of_orders : List (ℕ × ℕ)

pub record ConflictGroup : Type 0 where
  pub id : ℕ
  pub orders : List SimulatedOrder
  pub conflicting_group_ids : List ℕ

pub record BestResults : Type 0 where
  pub results : Map ℕ (ResolutionResult × ConflictGroup)
  pub version : ℕ

-- `BestResults::new`
abbrev pub no_results : BestResults
no_results = record { results = []; version = 0 }

unfoldable pub increment_version : BestResults → BestResults
increment_version best = record best { version = (best.version + 1) % u64_mod }

unfoldable pub get_results_and_version : BestResults → List (ResolutionResult × ConflictGroup) × ℕ
get_results_and_version best = (values best.results, best.version)

unfoldable pub number_of_orders : List (ResolutionResult × ConflictGroup) → ℕ
number_of_orders [] = 0
number_of_orders ((r, g) ∷ results) = length g.orders + number_of_orders results

-- The loop over the conflicting groups: those to remove, or `none` when one of them is as profitable.
unfoldable pub groups_to_remove :
    ℕ → Map ℕ (ResolutionResult × ConflictGroup) → List ℕ → Option (List ℕ)
unfolding lookup
groups_to_remove profit results [] = some []
groups_to_remove profit results (i ∷ conflicting) =
    let rest = groups_to_remove profit results conflicting in
    elim (lookup i results) [
      | none ↦ rest
      | some existing ↦
          if ltb existing.0.total_profit profit
          then elim rest [ none ↦ none | some ids ↦ some (i ∷ ids) ]
          else none
    ]

unfoldable pub remove_groups :
    List ℕ → Map ℕ (ResolutionResult × ConflictGroup) → Map ℕ (ResolutionResult × ConflictGroup)
unfolding remove
remove_groups [] results = results
remove_groups (i ∷ ids) results = remove_groups ids (remove i results)

-- The entry of the group: the results, whether they were updated, and the profit before.
unfoldable pub update_entry :
    ℕ
    → ResolutionResult
    → ConflictGroup
    → Map ℕ (ResolutionResult × ConflictGroup)
    → Map ℕ (ResolutionResult × ConflictGroup) × Bool × ℕ
unfolding lookup insert
update_entry group_id result group results = elim (lookup group_id results) [
  | none ↦ (insert group_id (result, group) results, true, 0)
  | some entry ↦
      if ltb entry.0.total_profit result.total_profit
      then (insert group_id (result, group) results, true, entry.0.total_profit)
      else (results, false, 0)
]

-- The results after the groups to remove are known, with what is returned.
unfoldable pub apply_update :
    ℕ → ResolutionResult → ConflictGroup → List ℕ → BestResults → BestResults × Bool × ℕ
unfolding update_entry remove_groups increment_version
apply_update group_id result group to_remove best =
    let entry = update_entry group_id result group best.results in
    let next : BestResults = record best { results = remove_groups to_remove entry.0 } in
    (if entry.1 || not (is_empty to_remove) then increment_version next else next, entry.1, entry.2)

unfoldable pub update_best_result :
    ℕ → ResolutionResult → ConflictGroup → BestResults → BestResults × Bool × ℕ
unfolding groups_to_remove apply_update
update_best_result group_id result group best =
    elim (groups_to_remove result.total_profit best.results group.conflicting_group_ids) [
      | none ↦ (best, false, 0)
      | some to_remove ↦ apply_update group_id result group to_remove best
    ]

-- `ResultsAggregator::run` on the results that the channel gives before it is closed or the loop
-- cancelled; `process_update` adds logs.
unfoldable pub run : List (ℕ × ResolutionResult × ConflictGroup) → BestResults → BestResults
unfolding update_best_result
run [] best = best
run ((group_id, result, group) ∷ updates) best =
    run updates (update_best_result group_id result group best).0
