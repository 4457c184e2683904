-- ===== src/Parallel/Results/Replaced.antt =====
-- What one update does to the results.
use constraints_builder.Shared.{
  ℕ, ◌≡◌, ◌≤◌, ◌<◌, ◌⊎◌, refl, inl, inr, true, false, ◌&&◌, ◌||◌, not, Option, none, some, List, [],
  ◌∷◌, arith, contains, is_empty, ltb, if◌then◌else◌, nat_eq, ◌==◌, Bool-cases, Option-cases,
}
use constraints_builder.Shared.Map.{Map, lookup, remove, contains_key, lookup-insert, lookup-remove}
use constraints_builder.Parallel.Results.{
  ResolutionResult, ConflictGroup, BestResults, groups_to_remove, remove_groups, update_entry,
  apply_update, update_best_result, increment_version,
}

abbrev Results : Type 0
Results = Map ℕ (ResolutionResult × ConflictGroup)

-- A stored group of the list that is as profitable.
abbrev pub IsBlocked : ℕ → List ℕ → Results → Type 0
IsBlocked profit ids results =
    (i : ℕ) × (entry : ResolutionResult × ConflictGroup) × (contains ids i ≡ true)
    × (lookup i results ≡ some entry)
    × (profit ≤ entry.0.total_profit)

-- Each stored group of the list is less profitable.
abbrev pub IsBeaten : ℕ → List ℕ → Results → Type 0
IsBeaten profit ids results =
    (i : ℕ) (entry : ResolutionResult × ConflictGroup)
    → contains ids i ≡ true
    → lookup i results ≡ some entry
    → entry.0.total_profit < profit

pub groups_to_remove-none :
    (profit : ℕ) (results : Results) (ids : List ℕ)
    → groups_to_remove profit results ids ≡ none
    → IsBlocked profit ids results
unfolding groups_to_remove
groups_to_remove-none profit results [] h = absurd (cc)
groups_to_remove-none profit results (i ∷ ids) h =
    elim (Option-cases (groups_to_remove profit results ids)) [
      | inl e ↦
          let (j, entry, m, found, less) = groups_to_remove-none profit results ids e in
          (j, entry, ground (arith, m), found, less)
      | inr (rest, e) ↦ elim (Option-cases (lookup i results)) [
        | inl l ↦ absurd (ground (arith, h, e, l))
        | inr (entry, l) ↦
            (i, entry, ground (arith, nat_eq.same_iff i i), l, ground (arith, h, e, l))
      ]
    ]

pub groups_to_remove-some :
    (profit : ℕ) (results : Results) (ids removed : List ℕ)
    → groups_to_remove profit results ids ≡ some removed
    → IsBeaten profit ids results
      × ((j : ℕ) → contains removed j ≡ (contains ids j && contains_key j results))
unfolding groups_to_remove contains_key
groups_to_remove-some profit results [] removed h =
    (λ i entry m l. absurd (cc), λ j. ground (arith, h))
groups_to_remove-some profit results (i ∷ ids) removed h =
    elim (Option-cases (groups_to_remove profit results ids)) [
      | inl e ↦ absurd (ground (arith, h, e))
      | inr (rest, e) ↦
          let (beaten, same) = groups_to_remove-some profit results ids rest e in
          (
            λ j entry m l. ground (arith, h, e, m, l, nat_eq.same_iff i j, beaten j entry),
            λ j. ground (arith, h, e, nat_eq.same_iff i j, same j),
          )
    ]

pub lookup-remove_groups :
    (ids : List ℕ) (results : Results) (j : ℕ)
    → lookup j (remove_groups ids results) ≡ (if contains ids j then none else lookup j results)
unfolding remove_groups
lookup-remove_groups [] results j = refl
lookup-remove_groups (i ∷ ids) results j =
    ground (arith, lookup-remove_groups ids (remove i results) j, lookup-remove i j results)

-- The more profitable of the new result and that of the group, if any.
abbrev pub better :
    ResolutionResult
    → ConflictGroup
    → Option (ResolutionResult × ConflictGroup)
    → ResolutionResult × ConflictGroup
better result group none = (result, group)
better result group (some entry) =
    if ltb entry.0.total_profit result.total_profit then (result, group) else entry

pub lookup-update_entry :
    (i : ℕ) (result : ResolutionResult) (group : ConflictGroup) (results : Results) (j : ℕ)
    → lookup j (update_entry i result group results).0
      ≡ (if i == j then some (better result group (lookup i results)) else lookup j results)
unfolding update_entry
lookup-update_entry i result group results j = elim (Option-cases (lookup i results)) [
  | inl e ↦ rw (e, update_entry) (lookup-insert i j (result, group) results)
  | inr (entry, e) ↦
      ground (arith, e, nat_eq.same_iff i j, lookup-insert i j (result, group) results)
]

-- What the results are after an update that is not blocked.
abbrev pub IsReplaced : ℕ → ResolutionResult → ConflictGroup → BestResults → BestResults → Type 0
IsReplaced i result group best next =
    (j : ℕ)
    → lookup j next.results ≡ (
        if contains group.conflicting_group_ids j && contains_key j best.results
        then none
        else if i == j
        then some (better result group (lookup i best.results))
        else lookup j best.results)

apply_update-results :
    (i : ℕ) (result : ResolutionResult) (group : ConflictGroup) (removed : List ℕ)
    (best : BestResults)
    → (apply_update i result group removed best).0.results
      ≡ remove_groups removed (update_entry i result group best.results).0
unfolding apply_update increment_version
apply_update-results i result group removed best =
    elim (Bool-cases ((update_entry i result group best.results).1 || not (is_empty removed))) [
      | inl e ↦ rw e refl
      | inr e ↦ rw e refl
    ]

apply_update-IsReplaced :
    (i : ℕ) (result : ResolutionResult) (group : ConflictGroup) (removed : List ℕ)
    (best : BestResults)
    → ((j : ℕ)
        → contains removed j
          ≡ (contains group.conflicting_group_ids j && contains_key j best.results))
    → IsReplaced i result group best (apply_update i result group removed best).0
apply_update-IsReplaced i result group removed best same j =
    rw
      (
        apply_update-results i result group removed best,
        lookup-remove_groups removed (update_entry i result group best.results).0 j,
        same j,
        lookup-update_entry i result group best.results j,
      )
      refl

-- Either a stored group of those that the result's group conflicts with is as profitable, and then
-- `update_best_result` changes nothing and returns (false, 0). Or each such group is less profitable:
-- then these are removed, of the rest the group keeps the more profitable of its results (the old one
-- on a tie), and no other group's result changes.
pub update_best_result_lem :
    (i : ℕ) (result : ResolutionResult) (group : ConflictGroup) (best : BestResults)
    → (IsBlocked result.total_profit group.conflicting_group_ids best.results
        × (update_best_result i result group best ≡ (best, false, 0)))
      ⊎ (IsBeaten result.total_profit group.conflicting_group_ids best.results
          × IsReplaced i result group best (update_best_result i result group best).0)
unfolding update_best_result
update_best_result_lem i result group best =
    let profit = result.total_profit in
    let ids = group.conflicting_group_ids in
    elim (Option-cases (groups_to_remove profit best.results ids)) [
      | inl e ↦
          inl (groups_to_remove-none profit best.results ids e, rw (e, update_best_result) refl)
      | inr (removed, e) ↦
          let (beaten, same) = groups_to_remove-some profit best.results ids removed e in
          inr (
            beaten,
            rw (e, update_best_result) (apply_update-IsReplaced i result group removed best same),
          )
    ]
