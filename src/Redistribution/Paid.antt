-- ===== src/Redistribution/Paid.antt =====
-- What an identity is paid by `calculate_redistribution`, and how that is split over its orders.
use constraints_builder.Shared.{
  ℕ, ◌^◌, ◌≡◌, ◌≤◌, ◌<◌, refl, List, [], ◌∷◌, map, arith, Pairwise, ap,
}
use constraints_builder.Redistribution.{
  RedistributionIdentityData, RedistributionEntityResult, IncludedOrderData, split_value,
}
use constraints_builder.Redistribution.Calculate.{
  realized_of, marginal_of, entity_result, entity_results, zip,
}
use constraints_builder.Redistribution.Split.{
  Below, total, sum-total, split_value-Below, split_value-total,
}

-- The exact sum of the values that the orders of an identity realized.
abbrev pub realized_total : RedistributionIdentityData → ℕ
realized_total identity = total (map (λ o. o.realized_value) identity.included_orders)

-- What an identity is paid: at most what its orders realized and at most what the block gained by
-- them; and this is split to its orders, in sum, and to none more than it realized.
abbrev pub IsPaid : RedistributionIdentityData → RedistributionEntityResult → Type 0
IsPaid identity result =
    (result.address ≡ identity.address)
    × (result.redistribution_value ≤ realized_total identity)
    × (result.redistribution_value ≤ identity.block_value_delta)
    × (total (map (λ paid. paid.1) result.order_redistribution_value) ≤ result.redistribution_value)
    × Pairwise (λ o paid. (paid.0 ≡ o.id) × (paid.1 ≤ o.realized_value)) identity.included_orders
        result.order_redistribution_value

paid_orders :
    (orders : List IncludedOrderData) (values : List ℕ)
    → Below values (map (λ o. o.realized_value) orders)
    → Pairwise
        (λ o paid. (paid.0 ≡ o.id) × (paid.1 ≤ o.realized_value))
        orders
        (zip (map (λ o. o.id) orders) values)
unfolding zip
paid_orders [] [] b = tt
paid_orders (o ∷ orders) (v ∷ values) b = ((refl, b.0), paid_orders orders values b.1)
paid_orders (o ∷ orders) [] b = elim b [ ]
paid_orders [] (v ∷ values) b = elim b [ ]

total-zip :
    (orders : List IncludedOrderData) (values : List ℕ)
    → total (map (λ paid. paid.1) (zip (map (λ o. o.id) orders) values)) ≤ total values
unfolding zip
total-zip [] values = omega arith
total-zip (o ∷ orders) [] = omega arith
total-zip (o ∷ orders) (v ∷ values) = omega (arith, total-zip orders values)

pub realized_of-total :
    (identity : RedistributionIdentityData)
    → realized_total identity < 2 ^ 128
    → realized_of identity ≡ realized_total identity
unfolding realized_of
realized_of-total identity small =
    sum-total (map (λ o. o.realized_value) identity.included_orders) (omega arith)

entity_result-IsPaid :
    (identity : RedistributionIdentityData) (value : ℕ)
    → realized_total identity < 2 ^ 128
    → value ≤ marginal_of identity
    → IsPaid identity (entity_result identity value)
unfolding entity_result marginal_of
entity_result-IsPaid identity value small h =
    let orders = identity.included_orders in
    let realized = map (λ o. o.realized_value) orders in
    let within : value ≤ realized_total identity =
      ground (arith, h, realized_of-total identity small) in
    (
      refl,
      within,
      ground (arith, h),
      omega (
        arith,
        total-zip orders (split_value value realized),
        split_value-total value realized within small,
      ),
      paid_orders orders (split_value value realized)
          (split_value-Below value realized within small),
    )

pub entity_results-IsPaid :
    (identities : List RedistributionIdentityData) (payments : List ℕ)
    → total (map realized_total identities) < 2 ^ 128
    → Below payments (map marginal_of identities)
    → Pairwise IsPaid identities (entity_results identities payments)
unfolding entity_results
entity_results-IsPaid [] [] small b = tt
entity_results-IsPaid (i ∷ identities) (p ∷ payments) small b = (
  entity_result-IsPaid i p (omega arith) b.0,
  entity_results-IsPaid identities payments (omega arith) b.1,
)
entity_results-IsPaid [] (p ∷ payments) small b = elim b [ ]
entity_results-IsPaid (i ∷ identities) [] small b = elim b [ ]

-- The payments of a result.
abbrev pub payments_of : List RedistributionEntityResult → List ℕ
payments_of results = map (λ r. r.redistribution_value) results

pub entity_results-payments :
    (identities : List RedistributionIdentityData) (payments : List ℕ)
    → Below payments (map marginal_of identities)
    → payments_of (entity_results identities payments) ≡ payments
unfolding entity_results entity_result
entity_results-payments [] [] b = refl
entity_results-payments (i ∷ identities) (p ∷ payments) b =
    ap (λ ps. p ∷ ps) (entity_results-payments identities payments b.1)
entity_results-payments [] (p ∷ payments) b = elim b [ ]
entity_results-payments (i ∷ identities) [] b = elim b [ ]
