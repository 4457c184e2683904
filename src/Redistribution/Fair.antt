-- ===== src/Redistribution/Fair.antt =====
-- What `calculate_redistribution` promises of its result.
use constraints_builder.Shared.{
  ℕ, ◌^◌, ◌≡◌, ◌≤◌, ◌<◌, refl, true, some, List, [], ◌∷◌, map, arith, Pairwise, All, all,
}
use constraints_builder.Redistribution.{
  RedistributionIdentityData, RedistributionCalculator, min, RedistributionResult, sum_from,
  vector_subset_data,
}
use constraints_builder.Redistribution.Calculate.{
  adjust_pairs, pair_kept, limited, realized_of, marginal_of, entity_results,
  flat_tax_redistribution, calculate_redistribution, checked_result, limited_subsets,
}
use constraints_builder.Redistribution.Split.{
  Below, total, Below-total, sum-total, split_value-Below, split_value-total,
}
use constraints_builder.Redistribution.Pairs.{
  IsKept, IsKept-Below, adjust_pair-IsKept, at-total, Below-refl, Below-trans,
}
use constraints_builder.Redistribution.Paid.{
  realized_total, IsPaid, payments_of, realized_of-total, entity_results-IsPaid,
  entity_results-payments,
}

adjust_pairs-IsKept :
    (pairs : List ((ℕ × ℕ) × ℕ)) (payments : List ℕ)
    → total payments < 2 ^ 128
    → (next : List ℕ) × (adjust_pairs pairs payments ≡ some next)
      × Below next payments
      × All (IsKept next) pairs
unfolding adjust_pairs
adjust_pairs-IsKept [] payments small = (payments, refl, Below-refl payments, tt)
adjust_pairs-IsKept (pair ∷ pairs) payments small =
    let (once, e, lower, kept) = adjust_pair-IsKept pair payments small in
    let (next, f, lower', kept') =
      adjust_pairs-IsKept pairs once (omega (arith, Below-total once payments lower)) in
    (
      next,
      rw (e, f) refl,
      Below-trans next once payments lower' lower,
      (IsKept-Below pair next once lower' kept, kept'),
    )

all-pair_kept :
    (payments : List ℕ) (pairs : List ((ℕ × ℕ) × ℕ))
    → total payments < 2 ^ 128
    → All (IsKept payments) pairs
    → all (pair_kept payments) pairs ≡ true
unfolding pair_kept
all-pair_kept payments [] small h = refl
all-pair_kept payments (((i, j), limit) ∷ pairs) small h =
    ground
      (arith, at-total payments i, at-total payments j, all-pair_kept payments pairs small h.1, h.0)

marginal-total :
    (identities : List RedistributionIdentityData)
    → total (map realized_total identities) < 2 ^ 128
    → total (map marginal_of identities) ≤ total (map realized_total identities)
unfolding marginal_of
marginal-total [] small = omega arith
marginal-total (i ∷ identities) small =
    ground (arith, realized_of-total i (omega arith), marginal-total identities (omega arith))

limited-IsKept :
    (realized payments : List ℕ) (subsets : List ((ℕ × ℕ) × ℕ))
    → All (IsKept payments) (map (limited realized) subsets)
    → All (IsKept payments) subsets
unfolding limited
limited-IsKept realized payments [] h = tt
limited-IsKept realized payments (((i, j), delta) ∷ subsets) h =
    (ground (arith, h.0), limited-IsKept realized payments subsets h.1)

flat_tax_redistribution-Below :
    (c : RedistributionCalculator)
    → total (map realized_total c.identity_data) < 2 ^ 128
    → Below (flat_tax_redistribution c) (map marginal_of c.identity_data)
      × (total (flat_tax_redistribution c) ≤ c.landed_block_profit)
unfolding flat_tax_redistribution
flat_tax_redistribution-Below c small =
    let marginal = map marginal_of c.identity_data in
    let bound = marginal-total c.identity_data small in
    let exact = sum-total marginal (omega arith) in
    let value = min c.landed_block_profit (sum_from 0 marginal) in
    let within : value ≤ total marginal = ground (arith, exact) in
    let profit : value ≤ c.landed_block_profit = ground arith in
    (
      split_value-Below value marginal within (omega arith),
      omega (arith, profit, split_value-total value marginal within (omega arith)),
    )

-- What is paid in all, to the identities and to the pairs of them.
abbrev pub IsRedistributed : RedistributionCalculator → RedistributionResult → Type 0
IsRedistributed c result =
    (result.total_value_redistributed ≤ c.landed_block_profit)
    × (total (payments_of result.value_by_identity) ≡ result.total_value_redistributed)
    × Pairwise IsPaid c.identity_data result.value_by_identity
    × All (IsKept (payments_of result.value_by_identity))
        (vector_subset_data c.identity_data c.joint_block_value_delta)

-- When the orders of all identities realized less than 2^128 in sum, `calculate_redistribution`
-- returns a result: no conversion or assertion fails. What it redistributes is the sum of the
-- payments and at most the profit of the landed block. Each identity is paid at most what its orders
-- realized and at most its block value delta; its payment is split over its orders, none of which
-- gets more than it realized; and no pair of identities with a joint delta is paid more than that.
pub calculate_redistribution-IsRedistributed :
    (c : RedistributionCalculator)
    → total (map realized_total c.identity_data) < 2 ^ 128
    → (result : RedistributionResult) × (calculate_redistribution c ≡ some result)
      × IsRedistributed c result
unfolding calculate_redistribution checked_result limited_subsets
calculate_redistribution-IsRedistributed c small =
    let ids = c.identity_data in
    let flat = flat_tax_redistribution c in
    let (below, profit) = flat_tax_redistribution-Below c small in
    let realized = map realized_of ids in
    let subsets = vector_subset_data ids c.joint_block_value_delta in
    let bound = marginal-total ids small in
    let flat_bound = Below-total flat (map marginal_of ids) below in
    let (paid, e, lower, kept) =
      adjust_pairs-IsKept (map (limited realized) subsets) flat (omega arith) in
    let paid_bound = Below-total paid flat lower in
    let caps = Below-trans paid flat (map marginal_of ids) lower below in
    let same = entity_results-payments ids paid caps in
    let exact = sum-total paid (omega arith) in
    (
      record {
        total_value_redistributed = sum_from 0 paid;
        value_by_identity = entity_results ids paid;
      },
      rw (e, all-pair_kept paid (map (limited realized) subsets) (omega arith) kept) refl,
      (
        omega (arith, exact),
        rw (same, exact) refl,
        entity_results-IsPaid ids paid small caps,
        rw same (limited-IsKept realized paid subsets kept),
      ),
    )
