-- ===== src/Parallel/Results/Best.antt =====
-- No profit is lost by the updates of the results.
use constraints_builder.Shared.{
  ℕ, ◌≡◌, ◌≤◌, inl, inr, false, Option, none, some, List, [], ◌∷◌, arith, contains, All, nat_eq,
  ◌==◌, Bool-cases,
}
use constraints_builder.Shared.Map.{lookup, contains_key}
use constraints_builder.Parallel.Results.{
  ResolutionResult, ConflictGroup, BestResults, update_best_result, run,
}
use constraints_builder.Parallel.Results.Replaced.{better, update_best_result_lem}

-- A stored result with at least this profit.
abbrev pub HasProfit : BestResults → ℕ → Type 0
HasProfit best profit =
    (i : ℕ) × (entry : ResolutionResult × ConflictGroup) × (lookup i best.results ≡ some entry)
    × (profit ≤ entry.0.total_profit)

better-le :
    (result : ResolutionResult) (group : ConflictGroup)
    (old : Option (ResolutionResult × ConflictGroup))
    → result.total_profit ≤ (better result group old).0.total_profit
better-le result group none = omega arith
better-le result group (some entry) = ground arith

better-old-le :
    (result : ResolutionResult) (group : ConflictGroup) (entry : ResolutionResult × ConflictGroup)
    → entry.0.total_profit ≤ (better result group (some entry)).0.total_profit
better-old-le result group entry = ground arith

module _ (i : ℕ) (result : ResolutionResult) (group : ConflictGroup)
    (own : contains group.conflicting_group_ids i ≡ false) where
  update_best_result-HasProfit :
      (best : BestResults)
      → HasProfit (update_best_result i result group best).0 result.total_profit
  update_best_result-HasProfit best = elim (update_best_result_lem i result group best) [
    | inl ((j, entry, m, found, le), e) ↦ rw e (j, entry, found, le)
    | inr (beaten, replaced) ↦ (
      i,
      better result group (lookup i best.results),
      ground (arith, replaced i, own, nat_eq.same_iff i i),
      better-le result group (lookup i best.results),
    )
  ]

  update_best_result-kept :
      (best : BestResults) (profit : ℕ)
      → HasProfit best profit
      → HasProfit (update_best_result i result group best).0 profit
  unfolding contains_key
  update_best_result-kept best profit (j, entry, found, le) =
      elim (update_best_result_lem i result group best) [
        | inl (blocked, e) ↦ rw e (j, entry, found, le)
        | inr (beaten, replaced) ↦ elim (Bool-cases (contains group.conflicting_group_ids j)) [
          | inl c ↦ (
            i,
            better result group (lookup i best.results),
            ground (arith, replaced i, own, nat_eq.same_iff i i),
            omega
                (arith, le, beaten j entry c found, better-le result group (lookup i best.results)),
          )
          | inr c ↦ elim (Bool-cases (i == j)) [
            | inl same ↦ (
              j,
              better result group (some entry),
              ground (arith, replaced j, c, same, nat_eq.same_iff i j, found),
              omega (arith, le, better-old-le result group entry),
            )
            | inr other ↦ (j, entry, ground (arith, replaced j, c, other, found), le)
          ]
        ]
      ]

-- A group does not conflict with itself.
abbrev pub IsProper : ℕ × ResolutionResult × ConflictGroup → Type 0
IsProper (i, result, group) = contains group.conflicting_group_ids i ≡ false

run-kept :
    (updates : List (ℕ × ResolutionResult × ConflictGroup)) (best : BestResults) (profit : ℕ)
    → All IsProper updates
    → HasProfit best profit
    → HasProfit (run updates best) profit
unfolding run
run-kept [] best profit proper h = h
run-kept ((i, result, group) ∷ updates) best profit proper h =
    run-kept updates (update_best_result i result group best).0 profit proper.1
      (update_best_result-kept i result group proper.0 best profit h)

-- Of updates none of whose groups conflicts with itself, whatever they are and in whatever order, no
-- profit is lost: for each update that the aggregator received, and each result stored before, it
-- holds a result in the end that is at least as profitable.
pub run-HasProfit :
    (updates : List (ℕ × ResolutionResult × ConflictGroup)) (best : BestResults)
    → All IsProper updates
    → All (λ update. HasProfit (run updates best) update.1.total_profit) updates
      × ((profit : ℕ) → HasProfit best profit → HasProfit (run updates best) profit)
unfolding run
run-HasProfit [] best proper = (tt, λ profit h. h)
run-HasProfit ((i, result, group) ∷ updates) best proper =
    let next = (update_best_result i result group best).0 in
    (
      (
        run-kept updates next result.total_profit proper.1
            (update_best_result-HasProfit i result group proper.0 best),
        (run-HasProfit updates next proper.1).0,
      ),
      λ profit h. run-kept ((i, result, group) ∷ updates) best profit proper h,
    )
