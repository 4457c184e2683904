-- ===== src/Parallel/Resolver/Planned.antt =====
-- Which sequences each algorithm tries.
use constraints_builder.Shared.{
  ℕ, zero, suc, ◌≡◌, refl, ap, arith, false, true, List, All, All-imp, length, ltb, ◌∙◌,
  if◌then◌else◌, nat_eq,
}
use constraints_builder.Primitives.SimValue.{SimulatedOrder}
use constraints_builder.Parallel.Task.{Algorithm}
use constraints_builder.Parallel.Groups.Counts.{count_of}
use constraints_builder.Parallel.Resolver.Sequences.{
  range, shuffled, generate_sequences_of_orders_to_try, generate_length_based_sequence,
  generate_all_permutations, generate_random_permutations,
}
use constraints_builder.Parallel.Resolver.Each.{IsEach, generate_sequences_of_orders_to_try-IsEach}
use constraints_builder.Parallel.Resolver.Ordered.{
  IsGreedy, generate_greedy_sequence-IsGreedy, count_of-range_from,
}

-- Each index of an order once, and no other.
abbrev pub HasEach : List SimulatedOrder → List ℕ → Type 0
HasEach orders sequence = (i : ℕ) → count_of i sequence ≡ (if ltb i (length orders) then 1 else 0)

module _ (permutations : List ℕ → ℕ → List (List ℕ)) (orders : List SimulatedOrder) where
  -- Two sequences by value; one by length; all permutations of a sequence; as many as asked for.
  abbrev pub IsPlanned : Algorithm → List (List ℕ) → Type 0
  IsPlanned Algorithm.greedy sequences = IsGreedy false orders sequences
  IsPlanned Algorithm.reverse_greedy sequences = IsGreedy true orders sequences
  IsPlanned Algorithm.length sequences = (length sequences ≡ 1) × All (HasEach orders) sequences
  IsPlanned Algorithm.all_permutations sequences =
      (xs : List ℕ) × HasEach orders xs × (sequences ≡ permutations xs (length orders))
  IsPlanned (Algorithm.random seed count) sequences =
      (length sequences ≡ count) × All (HasEach orders) sequences

range-HasEach : (orders : List SimulatedOrder) → HasEach orders (range 0 (length orders))
range-HasEach orders i = ground (arith, count_of-range_from i 0 (length orders))

All-HasEach :
    (orders : List SimulatedOrder) (sequences : List (List ℕ))
    → All (IsEach (length orders)) sequences
    → All (HasEach orders) sequences
All-HasEach orders sequences h = All-imp (λ xs each i. each i ∙ range-HasEach orders i) sequences h

module _ {Rng : Type 0} (seed_from_u64 : ℕ → Rng) (shuffle : List ℕ → Rng → List ℕ × Rng)
    (permutations : List ℕ → ℕ → List (List ℕ)) where
  length-shuffled :
      (count : ℕ) (xs : List ℕ) (rng : Rng)
      → length (shuffled seed_from_u64 shuffle permutations count xs rng) ≡ count
  unfolding shuffled
  length-shuffled zero xs rng = refl
  length-shuffled (suc count) xs rng =
      ap suc (length-shuffled count (shuffle xs rng).0 (shuffle xs rng).1)

  module _
      (shuffles : (xs : List ℕ) (rng : Rng) (i : ℕ) → count_of i (shuffle xs rng).0 ≡ count_of i xs)
      (permutes : (xs : List ℕ)
        → All (λ ys. (i : ℕ) → count_of i ys ≡ count_of i xs) (permutations xs (length xs))) where
    pub generate_sequences_of_orders_to_try-IsPlanned :
        (algorithm : Algorithm) (orders : List SimulatedOrder)
        → IsPlanned permutations orders algorithm (
            generate_sequences_of_orders_to_try seed_from_u64 shuffle permutations algorithm orders)
    unfolding generate_sequences_of_orders_to_try generate_length_based_sequence
        generate_all_permutations generate_random_permutations
    generate_sequences_of_orders_to_try-IsPlanned Algorithm.greedy orders =
        generate_greedy_sequence-IsGreedy orders false
    generate_sequences_of_orders_to_try-IsPlanned Algorithm.reverse_greedy orders =
        generate_greedy_sequence-IsGreedy orders true
    generate_sequences_of_orders_to_try-IsPlanned Algorithm.length orders = (
      refl,
      All-HasEach orders
          (generate_sequences_of_orders_to_try seed_from_u64 shuffle permutations Algorithm.length
            orders)
          (generate_sequences_of_orders_to_try-IsEach seed_from_u64 shuffle permutations shuffles
            permutes Algorithm.length orders),
    )
    generate_sequences_of_orders_to_try-IsPlanned Algorithm.all_permutations orders =
        (range 0 (length orders), range-HasEach orders, refl)
    generate_sequences_of_orders_to_try-IsPlanned (Algorithm.random seed count) orders = (
      length-shuffled count (range 0 (length orders)) (seed_from_u64 seed),
      All-HasEach orders
          (generate_sequences_of_orders_to_try seed_from_u64 shuffle permutations
            (Algorithm.random seed count) orders)
          (generate_sequences_of_orders_to_try-IsEach seed_from_u64 shuffle permutations shuffles
            permutes (Algorithm.random seed count) orders),
    )
