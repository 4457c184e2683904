-- ===== src/Parallel/Resolver/Ordered.antt =====
-- The sequences to try of the greedy algorithms are ordered.
use mathlib.Core.Path.{subst}
use constraints_builder.Shared.{
  ℕ, zero, suc, ◌+◌, ◌≡◌, ◌≤◌, ◌<◌, ◌⊎◌, ◌∙◌, refl, ap, sym, arith, Bool, true, false, ◌&&◌, ◌||◌,
  some, List, [], ◌∷◌, map, nat_eq, nat_beq, leb, ltb, All, length, get_elem?, if◌then◌else◌,
  some_inner,
}
use constraints_builder.Primitives.SimValue.{SimulatedOrder}
use constraints_builder.Parallel.Groups.{sort, insert_sorted}
use constraints_builder.Parallel.Groups.Counts.{count_of}
use constraints_builder.Parallel.Resolver.Sorted.{
  IsOrdered, sort-IsOrdered, insert_sorted-agree, All-sort,
}
use constraints_builder.Parallel.Resolver.Each.{sorted-IsEach}
use constraints_builder.Parallel.Resolver.Sequences.{
  with_index, greedy_le, generate_greedy_sequence, coinbase_profit_of, create_sequence,
  mev_gas_price_of, range,
}

module _ (value : SimulatedOrder → ℕ) where
  later :
      (i n : ℕ) (orders : List SimulatedOrder)
      → i < n
      → All (λ y. i < y.0) (with_index value n orders)
  unfolding with_index
  later i n [] h = tt
  later i n (o ∷ orders) h = (h, later i (suc n) orders (omega arith))

  sort-agree :
      (le le' : ℕ × ℕ → ℕ × ℕ → Bool)
      → ((x y : ℕ × ℕ) → x.0 < y.0 → le x y ≡ le' x y)
      → (n : ℕ) (orders : List SimulatedOrder)
      → sort le (with_index value n orders) ≡ sort le' (with_index value n orders)
  unfolding with_index sort
  sort-agree le le' agree n [] = refl
  sort-agree le le' agree n (o ∷ orders) =
      ap (insert_sorted le (n, value o)) (sort-agree le le' agree (suc n) orders)
      ∙ insert_sorted-agree le le' agree (n, value o) (sort le' (with_index value (suc n) orders))
          (All-sort (λ y. n < y.0) le' (with_index value (suc n) orders)
            (later n (suc n) orders (omega arith)))

  module _ (orders : List SimulatedOrder) where
    -- The value of the order with the index.
    abbrev IsValue : ℕ × ℕ → Type 0
    IsValue x = (a : SimulatedOrder) → get_elem? orders x.0 ≡ some a → value a ≡ x.1

    with_index-IsValue :
        (n : ℕ) (rest : List SimulatedOrder)
        → ((k : ℕ) → get_elem? orders (n + k) ≡ get_elem? rest k)
        → All IsValue (with_index value n rest)
    unfolding with_index
    with_index-IsValue n [] h = tt
    with_index-IsValue n (o ∷ rest) h = (
      λ a e. ap value (some_inner (sym e ∙ ap (get_elem? orders) (omega arith) ∙ h 0)),
      with_index-IsValue (suc n) rest
          (λ k. ap (get_elem? orders) {x = suc n + k} {y = n + suc k} (omega arith) ∙ h (suc k)),
    )

-- The first of the two goes first: the higher value, or the lower one when reversed, and of equal
-- values the one that comes first among the orders.
abbrev pub IsFirst : Bool → ℕ × ℕ → ℕ × ℕ → Type 0
IsFirst false a b = (b.1 < a.1) ⊎ ((a.1 ≡ b.1) × (a.0 ≤ b.0))
IsFirst true a b = (a.1 < b.1) ⊎ ((a.1 ≡ b.1) × (a.0 ≤ b.0))

module _ (reverse : Bool) (value : SimulatedOrder → ℕ) (orders : List SimulatedOrder) where
  abbrev pub IsBefore : ℕ → ℕ → Type 0
  IsBefore i j =
      (a b : SimulatedOrder)
      → get_elem? orders i ≡ some a
      → get_elem? orders j ≡ some b
      → IsFirst reverse (i, value a) (j, value b)

  abbrev pub IsFalling : List ℕ → Type 0
  IsFalling [] = Unit
  IsFalling (i ∷ is) = All (IsBefore i) is × IsFalling is

  -- The index of each order once, no other index, and each before those that follow it.
  abbrev pub IsRanked : List ℕ → Type 0
  IsRanked sequence =
      ((i : ℕ) → count_of i sequence ≡ (if ltb i (length orders) then 1 else 0))
      × IsFalling sequence

abbrev pub IsGreedy : Bool → List SimulatedOrder → List (List ℕ) → Type 0
IsGreedy reverse orders [] = ⊥
IsGreedy reverse orders (a ∷ []) = ⊥
IsGreedy reverse orders (a ∷ b ∷ []) =
    IsRanked reverse (λ o. o.sim_value.full_profit_info.coinbase_profit) orders a
    × IsRanked reverse (λ o. o.sim_value.full_profit_info.mev_gas_price) orders b
IsGreedy reverse orders (a ∷ b ∷ c ∷ more) = ⊥

-- `greedy_le`, with the index for equal values.
abbrev stable_le : Bool → ℕ × ℕ → ℕ × ℕ → Bool
stable_le false a b = ltb b.1 a.1 || nat_beq a.1 b.1 && leb a.0 b.0
stable_le true a b = ltb a.1 b.1 || nat_beq a.1 b.1 && leb a.0 b.0

stable_total :
    (reverse : Bool) (x y : ℕ × ℕ) → stable_le reverse x y ≡ false → stable_le reverse y x ≡ true
stable_total false x y h = ground arith
stable_total true x y h = ground arith

stable_trans :
    (reverse : Bool) (x y z : ℕ × ℕ)
    → stable_le reverse x y ≡ true
    → stable_le reverse y z ≡ true
    → stable_le reverse x z ≡ true
stable_trans false x y z h k = ground arith
stable_trans true x y z h k = ground arith

stable_agree :
    (reverse : Bool) (x y : ℕ × ℕ) → x.0 < y.0 → greedy_le reverse x y ≡ stable_le reverse x y
unfolding greedy_le
stable_agree false x y h = ground arith
stable_agree true x y h = ground arith

stable_le-IsFirst :
    (reverse : Bool) (x y : ℕ × ℕ) → stable_le reverse x y ≡ true → IsFirst reverse x y
stable_le-IsFirst false x y h = ground arith
stable_le-IsFirst true x y h = ground arith

pub count_of-range_from :
    (i n m : ℕ) → count_of i (range n m) ≡ (if leb n i && ltb i (n + m) then 1 else 0)
unfolding range
count_of-range_from i n zero = ground arith
count_of-range_from i n (suc m) = ground (arith, count_of-range_from i (suc n) m)

module _ (reverse : Bool) (value : SimulatedOrder → ℕ) (orders : List SimulatedOrder) where
  All-IsBefore :
      (x : ℕ × ℕ) (pairs : List (ℕ × ℕ))
      → IsValue value orders x
      → All (IsValue value orders) pairs
      → All (λ y. stable_le reverse x y ≡ true) pairs
      → All (IsBefore reverse value orders x.0) (map (λ y. y.0) pairs)
  All-IsBefore x [] v vs h = tt
  All-IsBefore x (y ∷ pairs) v vs h = (
    λ a b e f. rw (v a e, vs.0 b f) (stable_le-IsFirst reverse x y h.0),
    All-IsBefore x pairs v vs.1 h.1,
  )

  falling :
      (pairs : List (ℕ × ℕ))
      → All (IsValue value orders) pairs
      → IsOrdered (stable_le reverse) pairs
      → IsFalling reverse value orders (map (λ y. y.0) pairs)
  falling [] vs h = tt
  falling (x ∷ pairs) vs h = (All-IsBefore x pairs vs.0 vs.1 h.0, falling pairs vs.1 h.1)

  create_sequence-IsRanked : IsRanked reverse value orders (create_sequence reverse value orders)
  unfolding create_sequence
  create_sequence-IsRanked =
      let pairs = with_index value 0 orders in
      let values =
        with_index-IsValue value orders 0 orders (λ k. ap (get_elem? orders) (omega arith)) in
      (
        λ i. ground (
          arith,
          sorted-IsEach (greedy_le reverse) value orders i,
          count_of-range_from i 0 (length orders),
        ),
        subst (λ xs. IsFalling reverse value orders (map (λ y. y.0) xs))
            (sym (
              sort-agree value (greedy_le reverse) (stable_le reverse) (stable_agree reverse) 0
                orders))
            (falling (sort (stable_le reverse) pairs)
              (All-sort (IsValue value orders) (stable_le reverse) pairs values)
              (sort-IsOrdered (stable_le reverse) (stable_total reverse) (stable_trans reverse)
                pairs)),
      )

-- The greedy algorithm tries two sequences, one by the coinbase profit of the orders and one by their
-- gas price. Each has the index of each order once and no other index, with the highest value first,
-- or the lowest first when it is reversed, and orders of one value as they stand in the group.
pub generate_greedy_sequence-IsGreedy :
    (orders : List SimulatedOrder) (reverse : Bool)
    → IsGreedy reverse orders (generate_greedy_sequence orders reverse)
unfolding generate_greedy_sequence coinbase_profit_of mev_gas_price_of
generate_greedy_sequence-IsGreedy orders reverse = (
  create_sequence-IsRanked reverse coinbase_profit_of orders,
  create_sequence-IsRanked reverse mev_gas_price_of orders,
)
