-- ===== src/Redistribution/Calculate.antt =====
-- `calculate_redistribution` of redistribution_algo.rs.
use constraints_builder.Shared.{
  ℕ, ◌+◌, ◌-◌, ◌%◌, Bool, Option, none, some, List, [], ◌∷◌, map, ◌>>=◌, leb, ltb, if◌then◌else◌,
  all,
}
use constraints_builder.Primitives.Orders.{OrderId}
use constraints_builder.Redistribution.Signed.{of_u256, to_u256}
use constraints_builder.Redistribution.{
  u256_mod, RedistributionIdentityData, RedistributionCalculator, RedistributionEntityResult,
  RedistributionResult, sum_from, min, split_value, vector_subset_data, at, set,
  adjust_contributions,
}

-- b_i(T)
unfoldable pub realized_of : RedistributionIdentityData → ℕ
unfolding sum_from
realized_of identity = sum_from 0 (map (λ o. o.realized_value) identity.included_orders)

-- mu_i(T)
unfoldable pub marginal_of : RedistributionIdentityData → ℕ
unfolding realized_of
marginal_of identity = min (realized_of identity) identity.block_value_delta

-- A pair of identities with what it may be paid, mu_I.
unfoldable pub limited : List ℕ → (ℕ × ℕ) × ℕ → (ℕ × ℕ) × ℕ
limited realized ((i, j), delta) = ((i, j), min ((at realized i + at realized j) % u256_mod) delta)

-- The new payments of a pair that is paid `delta` too much; `none` is a failed conversion.
unfoldable pub adjusted : ℕ × ℕ → ℕ → List ℕ → Option (List ℕ)
unfolding adjust_contributions set
adjusted (i, j) delta payments = do
  a ← of_u256 (at payments i)
  b ← of_u256 (at payments j)
  d ← of_u256 delta
  (new_a, new_b) ← adjust_contributions a b d
  x ← to_u256 new_a
  y ← to_u256 new_b
  some (set (set payments i x) j y)

-- One round of the loop over the pairs.
unfoldable pub adjust_pair : (ℕ × ℕ) × ℕ → List ℕ → Option (List ℕ)
unfolding adjusted
adjust_pair ((i, j), limit) payments =
    let subset_payment = (at payments i + at payments j) % u256_mod in
    if ltb limit subset_payment
    then adjusted (i, j) (subset_payment - limit) payments
    else some payments

unfoldable pub adjust_pairs : List ((ℕ × ℕ) × ℕ) → List ℕ → Option (List ℕ)
unfolding adjust_pair
adjust_pairs [] payments = some payments
adjust_pairs (pair ∷ pairs) payments = do next ← adjust_pair pair payments; adjust_pairs pairs next

-- The condition of the last assertion.
unfoldable pub pair_kept : List ℕ → (ℕ × ℕ) × ℕ → Bool
pair_kept payments ((i, j), limit) = leb ((at payments i + at payments j) % u256_mod) limit

unfoldable pub zip : List OrderId → List ℕ → List (OrderId × ℕ)
zip [] values = []
zip (id ∷ ids) [] = []
zip (id ∷ ids) (value ∷ values) = (id, value) ∷ zip ids values

unfoldable pub entity_result : RedistributionIdentityData → ℕ → RedistributionEntityResult
unfolding zip split_value
entity_result identity redistribution_value = record {
  address = identity.address;
  redistribution_value = redistribution_value;
  order_redistribution_value =
      zip (map (λ o. o.id) identity.included_orders)
        (split_value redistribution_value (map (λ o. o.realized_value) identity.included_orders));
}

-- There is a payment for each identity.
unfoldable pub entity_results :
    List RedistributionIdentityData → List ℕ → List RedistributionEntityResult
unfolding entity_result
entity_results [] payments = []
entity_results (identity ∷ identities) [] = []
entity_results (identity ∷ identities) (payment ∷ payments) =
    entity_result identity payment ∷ entity_results identities payments

unfoldable pub checked_result :
    List RedistributionIdentityData → List ((ℕ × ℕ) × ℕ) → List ℕ → Option RedistributionResult
unfolding entity_results pair_kept sum_from
checked_result identity subsets payments =
    if all (pair_kept payments) subsets
    then some (record {
      total_value_redistributed = sum_from 0 payments;
      value_by_identity = entity_results identity payments;
    })
    else none

-- The pairs with their limits.
unfoldable pub limited_subsets : RedistributionCalculator → List ((ℕ × ℕ) × ℕ)
unfolding limited realized_of vector_subset_data
limited_subsets calculator =
    map (limited (map realized_of calculator.identity_data))
      (vector_subset_data calculator.identity_data calculator.joint_block_value_delta)

-- phi_i
unfoldable pub flat_tax_redistribution : RedistributionCalculator → List ℕ
unfolding marginal_of split_value sum_from
flat_tax_redistribution calculator =
    let marginal_contribution = map marginal_of calculator.identity_data in
    split_value (min calculator.landed_block_profit (sum_from 0 marginal_contribution))
      marginal_contribution

unfoldable pub calculate_redistribution : RedistributionCalculator → Option RedistributionResult
unfolding adjust_pairs checked_result flat_tax_redistribution limited_subsets
calculate_redistribution calculator = do
  identity_payments ← adjust_pairs (limited_subsets calculator) (flat_tax_redistribution calculator)
  checked_result calculator.identity_data (limited_subsets calculator) identity_payments
