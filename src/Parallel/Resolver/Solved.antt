-- ===== src/Parallel/Resolver/Solved.antt =====
-- `run_conflict_task` ends with the best result.
use constraints_builder.Shared.{
  ℕ, suc, ◌≡◌, arith, Bool, true, Option, List, [], ◌∷◌, All, inl, inr, nat_eq, sym, ◌<◌, some,
  contains, drop, ◌+◌, zero, length,
}
use constraints_builder.Parallel.SimulationCache.{
  CachedSimulationState, get_cached_state, SharedSimulationCache,
}
use constraints_builder.Parallel.Groups.Counts.{count_of}
use constraints_builder.Parallel.Groups.Apart.{contains-count_of}
use constraints_builder.Parallel.Resolver.Errors.{ExecutionError}
use constraints_builder.Parallel.Resolver.Sequences.{
  range, run_conflict_task, generate_sequences_of_orders_to_try,
}
use constraints_builder.Parallel.Resolver.Each.{IsEach, generate_sequences_of_orders_to_try-IsEach}
use constraints_builder.Parallel.Resolver.Planned.{
  IsPlanned, generate_sequences_of_orders_to_try-IsPlanned,
}
use constraints_builder.Parallel.Resolver.Sequence.{
  IsResolved, process_sequence_of_orders-IsResolved,
}
use constraints_builder.Parallel.Task.{ConflictTask}
use mathlib.Core.Path.{subst}
use constraints_builder.Primitives.SimValue.{SimulatedOrder}
use constraints_builder.Parallel.Results.{ResolutionResult}
use constraints_builder.Parallel.Resolver.Loop.{Commit, Outcome, Failure}
use constraints_builder.Parallel.Resolver.Tried.{IsOneOf, IsBest, try_sequences-IsBest}

All-one : {A : Type 0} (P : A → Type 0) (a : A) (xs : List A) → All P xs → IsOneOf a xs → P a
All-one P a [] h k = absurd k
All-one P a (x ∷ xs) h (inl e) = subst P (sym e) h.0
All-one P a (x ∷ xs) h (inr k) = All-one P a xs h.1 k

count_of-range : (i from n : ℕ) → 0 < count_of i (range from n) → i < from + n
unfolding range
count_of-range i from zero h = absurd (omega arith)
count_of-range i from (suc n) h = ground (arith, count_of-range i (suc from) n)

module _ {Rng : Type 0} (seed_from_u64 : ℕ → Rng) (shuffle : List ℕ → Rng → List ℕ × Rng)
    (permutations : List ℕ → ℕ → List (List ℕ)) {State BundleState : Type 0}
    (commit_order : SimulatedOrder → State → Commit × State) (bundle_state : State → BundleState)
    (state : State) (is_cancelled : ℕ → ℕ → Bool) (task : ConflictTask) where
  abbrev sequences_of : List (List ℕ)
  sequences_of =
      generate_sequences_of_orders_to_try seed_from_u64 shuffle permutations task.algorithm
        task.group.orders

  -- Why there is an error: the token answers so, or `commit_order` does for some order and state.
  abbrev pub IsCaused : Outcome ResolutionResult → Type 0
  IsCaused (Outcome.ok r) = Unit
  IsCaused (Outcome.err Failure.cancelled) = (n : ℕ) × (round : ℕ) × (is_cancelled n round ≡ true)
  IsCaused (Outcome.err Failure.critical) =
      (o : SimulatedOrder) × (s : State) × ((commit_order o s).0 ≡ Commit.critical)
  IsCaused (Outcome.err Failure.pre_block_call) = ⊥
  IsCaused (Outcome.err Failure.out_of_bounds) = ⊥
  IsCaused (Outcome.err Failure.out_of_budget) = ⊥

  -- The best of the results of the sequences of the algorithm and the empty one, or the error of
  -- one of them, which has its cause.
  abbrev pub IsSolved : Outcome ResolutionResult → Type 0
  IsSolved outcome =
      (sequences : List (List ℕ)) × IsPlanned permutations task.group.orders task.algorithm
        sequences
      × IsBest commit_order bundle_state (some state) is_cancelled task.group.orders
          (record { total_profit = 0; sequence_of_orders = [] }) sequences outcome
      × IsCaused outcome

  module _
      (shuffles : (xs : List ℕ) (rng : Rng) (i : ℕ) → count_of i (shuffle xs rng).0 ≡ count_of i xs)
      (permutes : (xs : List ℕ)
        → All (λ ys. (i : ℕ) → count_of i ys ≡ count_of i xs) (permutations xs (length xs)))
      (rolls_back : (o : SimulatedOrder) (s : State) (error : ExecutionError)
        → (commit_order o s).0 ≡ Commit.rejected error
        → (commit_order o s).1 ≡ s) where
    caused :
        (n : ℕ) (remaining : List ℕ) (cached : Option (CachedSimulationState BundleState))
        (failure : Failure)
        → IsResolved commit_order
            (is_cancelled n)
            task.group.orders
            state
            remaining
            cached
            (Outcome.err failure)
        → IsCaused (Outcome.err failure)
    caused n remaining cached Failure.cancelled h = let (round, e) = h in (n, round, e)
    caused n remaining cached Failure.critical h = h
    caused n remaining cached Failure.pre_block_call h = h
    caused n remaining cached Failure.out_of_bounds h = h
    caused n remaining cached Failure.out_of_budget h = h

    planned : IsPlanned permutations task.group.orders task.algorithm sequences_of
    planned =
        generate_sequences_of_orders_to_try-IsPlanned seed_from_u64 shuffle permutations shuffles
          permutes task.algorithm task.group.orders

    solved :
        (outcome : Outcome ResolutionResult)
        → IsBest commit_order bundle_state
            (some state)
            is_cancelled
            task.group.orders
            (record { total_profit = 0; sequence_of_orders = [] })
            sequences_of
            outcome
        → IsSolved outcome
    solved (Outcome.ok r) h = (sequences_of, planned, h, tt)
    solved (Outcome.err failure) (n, cache, sequence, among, e) =
        let each =
          All-one (IsEach (length task.group.orders)) sequence sequences_of
            (generate_sequences_of_orders_to_try-IsEach seed_from_u64 shuffle permutations shuffles
              permutes task.algorithm task.group.orders)
            among in
        let in_range : (i : ℕ) → contains sequence i ≡ true → i < length task.group.orders = λ i h.
          omega (
            arith,
            count_of-range i 0 (length task.group.orders)
                (ground (arith, each i, contains-count_of i sequence, h)),
          ) in
        let (ids, full, end) =
          process_sequence_of_orders-IsResolved commit_order (is_cancelled n) task.group.orders
            bundle_state state sequence in_range rolls_back cache in
        let (asked, cached, from) = get_cached_state ids cache in
        (
          sequences_of,
          planned,
          (n, cache, sequence, among, e),
          caused n (drop from sequence) cached failure (
              subst
                (IsResolved commit_order (is_cancelled n) task.group.orders state
                  (drop from sequence) cached)
                e end),
        )

    -- When `shuffle` and `permutations` permute, a rejected order leaves the state as it was and
    -- `pre_block_call` succeeds, `run_conflict_task` ends without a panic, whatever the algorithm and
    -- the cache. The sequences of the algorithm are the two greedy ones (reversed or not), one with
    -- each order once (by length), the permutations of such a one, or as many of them as asked for
    -- (random). Either it processes each of these and returns the result of one of them, or the empty
    -- one with no profit, and none of them has a higher profit. Or it returns the error of one of the
    -- sequences: `Cancelled`, and the token answers so in some round, or a critical error, and
    -- `commit_order` fails with one for some order and state.
    pub run_conflict_task-IsSolved :
        (cache : SharedSimulationCache BundleState)
        → IsSolved
            (run_conflict_task seed_from_u64 shuffle permutations commit_order bundle_state
              (some state)
              is_cancelled
              task
              cache).0
    unfolding run_conflict_task
    run_conflict_task-IsSolved cache =
        let empty : ResolutionResult = record { total_profit = 0; sequence_of_orders = [] } in
        solved
          (run_conflict_task seed_from_u64 shuffle permutations commit_order bundle_state
            (some state) is_cancelled task cache).0
          (try_sequences-IsBest commit_order bundle_state (some state) is_cancelled
            task.group.orders 0 sequences_of empty cache)
