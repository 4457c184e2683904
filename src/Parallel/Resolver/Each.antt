-- ===== src/Parallel/Resolver/Each.antt =====
-- The sequences to try have each order once.
use constraints_builder.Shared.{
  ℕ, suc, ◌≡◌, refl, arith, Bool, true, false, List, [], ◌∷◌, map, length, nat_eq, All, inl, inr,
  Bool-cases, ap, pair_eq, zero, ◌∙◌,
}
use mathlib.Core.Path.{subst}
use constraints_builder.Parallel.Task.{Algorithm}
use constraints_builder.Primitives.SimValue.{SimulatedOrder}
use constraints_builder.Parallel.Groups.{sort, insert_sorted}
use constraints_builder.Parallel.Groups.Counts.{count_of}
use constraints_builder.Parallel.Resolver.Sequences.{
  with_index, range, shuffled, generate_sequences_of_orders_to_try, generate_greedy_sequence,
  create_sequence, generate_length_based_sequence, generate_all_permutations,
  generate_random_permutations, greedy_le, coinbase_profit_of, mev_gas_price_of, length_le,
  length_and_profit,
}

module _ {A : Type 0} (le : ℕ × A → ℕ × A → Bool) (i : ℕ) where
  count_of-insert_sorted :
      (x : ℕ × A) (xs : List (ℕ × A))
      → count_of i (map (λ y. y.0) (insert_sorted le x xs)) ≡ count_of i (x.0 ∷ map (λ y. y.0) xs)
  unfolding insert_sorted
  count_of-insert_sorted x [] = refl
  count_of-insert_sorted x (y ∷ ys) = elim (Bool-cases (le x y)) [
    | inl c ↦ rw c refl
    | inr c ↦ rw c (omega (arith, count_of-insert_sorted x ys))
  ]

  count_of-sort :
      (xs : List (ℕ × A))
      → count_of i (map (λ y. y.0) (sort le xs)) ≡ count_of i (map (λ y. y.0) xs)
  unfolding sort
  count_of-sort [] = refl
  count_of-sort (x ∷ xs) = omega (arith, count_of-insert_sorted x (sort le xs), count_of-sort xs)

map-with_index :
    {A : Type 0} (f : SimulatedOrder → A) (i : ℕ) (orders : List SimulatedOrder)
    → map (λ y. y.0) (with_index f i orders) ≡ range i (length orders)
unfolding with_index range
map-with_index f i [] = refl
map-with_index f i (order ∷ orders) = rw (map-with_index f (suc i) orders) refl

-- Each index below `n` once, and no other.
abbrev pub IsEach : ℕ → List ℕ → Type 0
IsEach n sequence = (i : ℕ) → count_of i sequence ≡ count_of i (range 0 n)

pub sorted-IsEach :
    {A : Type 0} (le : ℕ × A → ℕ × A → Bool) (f : SimulatedOrder → A) (orders : List SimulatedOrder)
    → IsEach (length orders) (map (λ x. x.0) (sort le (with_index f 0 orders)))
sorted-IsEach le f orders i =
    count_of-sort le i (with_index f 0 orders) ∙ ap (count_of i) (map-with_index f 0 orders)

module _ {Rng : Type 0} (seed_from_u64 : ℕ → Rng) (shuffle : List ℕ → Rng → List ℕ × Rng)
    (permutations : List ℕ → ℕ → List (List ℕ))
    (shuffles : (xs : List ℕ) (rng : Rng) (i : ℕ) → count_of i (shuffle xs rng).0 ≡ count_of i xs)
    (permutes : (xs : List ℕ)
      → All (λ ys. (i : ℕ) → count_of i ys ≡ count_of i xs) (permutations xs (length xs))) where
  shuffled-IsEach :
      (n count : ℕ) (xs : List ℕ) (rng : Rng)
      → IsEach n xs
      → All (IsEach n) (shuffled seed_from_u64 shuffle permutations count xs rng)
  unfolding shuffled
  shuffled-IsEach n zero xs rng h = tt
  shuffled-IsEach n (suc count) xs rng h =
      let each : IsEach n (shuffle xs rng).0 = λ i. shuffles xs rng i ∙ h i in
      (each, shuffled-IsEach n count (shuffle xs rng).0 (shuffle xs rng).1 each)

  length-range : (from n : ℕ) → length (range from n) ≡ n
  unfolding range
  length-range from zero = refl
  length-range from (suc n) = omega (arith, length-range (suc from) n)

  -- When `shuffle` permutes its list and `permutations` gives permutations of its list, every
  -- sequence to try, of each algorithm, has the index of each order once and no other index.
  pub generate_sequences_of_orders_to_try-IsEach :
      (algorithm : Algorithm) (orders : List SimulatedOrder)
      → All
          (IsEach (length orders))
          (generate_sequences_of_orders_to_try seed_from_u64 shuffle permutations algorithm orders)
  unfolding generate_sequences_of_orders_to_try generate_greedy_sequence create_sequence
      generate_length_based_sequence generate_all_permutations generate_random_permutations
  generate_sequences_of_orders_to_try-IsEach Algorithm.greedy orders = (
    sorted-IsEach (greedy_le false) coinbase_profit_of orders,
    (sorted-IsEach (greedy_le false) mev_gas_price_of orders, tt),
  )
  generate_sequences_of_orders_to_try-IsEach Algorithm.reverse_greedy orders = (
    sorted-IsEach (greedy_le true) coinbase_profit_of orders,
    (sorted-IsEach (greedy_le true) mev_gas_price_of orders, tt),
  )
  generate_sequences_of_orders_to_try-IsEach Algorithm.length orders =
      (sorted-IsEach length_le length_and_profit orders, tt)
  generate_sequences_of_orders_to_try-IsEach Algorithm.all_permutations orders =
      subst (λ n. All (IsEach (length orders)) (permutations (range 0 (length orders)) n))
        (length-range 0 (length orders)) (permutes (range 0 (length orders)))
  generate_sequences_of_orders_to_try-IsEach (Algorithm.random seed count) orders =
      shuffled-IsEach (length orders) count (range 0 (length orders)) (seed_from_u64 seed)
        (λ i. refl)
