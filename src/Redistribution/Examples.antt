-- ===== src/Redistribution/Examples.antt =====
-- Runs of the redistribution on the data of the tests in redistribution_algo.rs, and witnesses.
use constraints_builder.Shared.{ℕ, ◌≡◌, refl, some, [], ◌∷◌, List, map, arith}
use constraints_builder.Primitives.Orders.{OrderId}
use constraints_builder.Redistribution.{
  RedistributionIdentityData, RedistributionCalculator, RedistributionResult, IncludedOrderData,
  sum_from, split_value, adjust_contributions,
}
use constraints_builder.Redistribution.Signed.{ℤ, leb_ℤ, ◌+ℤ◌, ◌-ℤ◌, half, min_ℤ, max_ℤ}
use constraints_builder.Redistribution.Calculate.{calculate_redistribution}
use constraints_builder.Redistribution.Adjust.{IsAdjusted, adjust_contributions-IsAdjusted}
use constraints_builder.Redistribution.Fair.{
  IsRedistributed, calculate_redistribution-IsRedistributed,
}

abbrev order : ℕ → ℕ → IncludedOrderData
order i v = record { id = OrderId.tx i; realized_value = v }

abbrev identity : ℕ → ℕ → List IncludedOrderData → RedistributionIdentityData
identity a delta orders = record {
  address = a;
  block_value_delta = delta;
  included_orders = orders;
}

-- Two identities whose joint delta, 60, is less than the 80 that they are paid apart.
abbrev joint : RedistributionCalculator
joint = record {
  landed_block_profit = 10000;
  identity_data =
      identity 1 100 (order 1 10 ∷ order 2 20 ∷ []) ∷ identity 2 200 (order 3 50 ∷ []) ∷ [];
  joint_block_value_delta = ((1, 2), 60) ∷ [];
}

split_test : split_value 100 (10 ∷ 20 ∷ []) ≡ 33 ∷ 66 ∷ []
unfolding split_value sum_from
split_test = refl

adjust_test : adjust_contributions (ℤ.pos 100) (ℤ.pos 75) (ℤ.pos 90) ≡ some (ℤ.pos 42, ℤ.pos 43)
unfolding adjust_contributions leb_ℤ ◌+ℤ◌ ◌-ℤ◌ half min_ℤ max_ℤ
adjust_test = refl

adjust_test' : adjust_contributions (ℤ.pos 75) (ℤ.pos 100) (ℤ.pos 5) ≡ some (ℤ.pos 75, ℤ.pos 95)
unfolding adjust_contributions leb_ℤ ◌+ℤ◌ ◌-ℤ◌ half min_ℤ max_ℤ
adjust_test' = refl

paid : RedistributionResult → List ℕ
paid r = map (λ e. e.redistribution_value) r.value_by_identity

joint_test :
    (r : RedistributionResult) × (calculate_redistribution joint ≡ some r) × (paid r ≡ 30 ∷ 30 ∷ [])
unfolding calculate_redistribution paid leb_ℤ ◌+ℤ◌ ◌-ℤ◌ half min_ℤ max_ℤ
joint_test = (_, refl, refl)

adjust_contributions-IsAdjusted_example :
    (x y : ℕ) × (adjust_contributions (ℤ.pos 100) (ℤ.pos 75) (ℤ.pos 90) ≡ some (ℤ.pos x, ℤ.pos y))
    × IsAdjusted 100 75 90 x y
adjust_contributions-IsAdjusted_example = adjust_contributions-IsAdjusted 100 75 90 (omega arith)

calculate_redistribution-IsRedistributed_example :
    (result : RedistributionResult) × (calculate_redistribution joint ≡ some result)
    × IsRedistributed joint result
calculate_redistribution-IsRedistributed_example =
    calculate_redistribution-IsRedistributed joint (omega arith)
