-- ===== src/Parallel/Resolver/Sequence.antt =====
-- What `process_sequence_of_orders` returns, with and without a cached state.
use constraints_builder.Shared.{
  ℕ, zero, suc, ◌≡◌, ◌≤◌, ◌<◌, refl, sym, arith, Bool, true, Option, none, some, List, [], ◌∷◌,
  ◌++◌, append-nil, length, drop, nat_eq, pair_eq, contains, inl, inr, ◌⊎◌,
}
use mathlib.Core.Path.{subst}
use constraints_builder.Primitives.Orders.{OrderId}
use constraints_builder.Primitives.SimValue.{SimulatedOrder, sim_id}
use constraints_builder.Parallel.Results.{ResolutionResult}
use constraints_builder.Parallel.SimulationCache.{
  CachedSimulationState, SharedSimulationCache, get_cached_state,
}
use constraints_builder.Parallel.Groups.Counts.{count_of}
use constraints_builder.Parallel.Resolver.Errors.{ExecutionError}
use constraints_builder.Parallel.Resolver.Loop.{Commit, Failure, Outcome, Progress}
use constraints_builder.Parallel.Resolver.Run.{
  resumed, resolution, run_loop, initialize_full_order_ids_vec, process_sequence_of_orders,
}
use constraints_builder.Parallel.Resolver.Kept.{IsReplayed, add_profits, indices}
use constraints_builder.Parallel.Resolver.Resolved.{IsEnded, process_loop-IsEnded, get_elem?-lt}

contains-drop : (n : ℕ) (xs : List ℕ) (i : ℕ) → contains (drop n xs) i ≡ true → contains xs i ≡ true
contains-drop zero xs i h = h
contains-drop (suc n) [] i h = h
contains-drop (suc n) (x ∷ xs) i h = ground (arith, contains-drop n xs i)

-- No index is out of bounds.
full_order_ids :
    (sequence : List ℕ) (orders : List SimulatedOrder)
    → ((i : ℕ) → contains sequence i ≡ true → i < length orders)
    → (ids : List OrderId) × (initialize_full_order_ids_vec sequence orders ≡ some ids)
unfolding initialize_full_order_ids_vec
full_order_ids [] orders h = ([], refl)
full_order_ids (i ∷ sequence) orders h =
    let (order, there) = get_elem?-lt orders i (h i (ground arith)) in
    let (ids, e) = full_order_ids sequence orders (λ j k. h j (ground arith)) in
    (sim_id order ∷ ids, rw (there, e, initialize_full_order_ids_vec) refl)

pub Outcome-cases :
    {A : Type 0} (o : Outcome A)
    → ((a : A) × (o ≡ Outcome.ok a)) ⊎ ((f : Failure) × (o ≡ Outcome.err f))
Outcome-cases (Outcome.ok a) = inl (a, refl)
Outcome-cases (Outcome.err f) = inr (f, refl)

module _ {State BundleState : Type 0} (commit_order : SimulatedOrder → State → Commit × State)
    (is_cancelled : ℕ → Bool) (orders : List SimulatedOrder) where
  -- After the cached profits come those of orders of the sequence, none twice, that replay from the
  -- state without the cached orders.
  abbrev pub IsResolved :
      State
      → List ℕ
      → Option (CachedSimulationState BundleState)
      → Outcome (ResolutionResult × State)
      → Type 0
  IsResolved state remaining cached (Outcome.ok (result, last)) =
      let base = resumed cached orders state in
      (xs : List (ℕ × ℕ)) × (ys : List (OrderId × ℕ)) × (result.sequence_of_orders
        ≡ base.sequenced_order_result ++ xs)
      × (result.total_profit ≡ add_profits base.total_profit xs)
      × IsReplayed commit_order orders state xs ys last
      × ((i : ℕ) → count_of i (indices xs) ≤ count_of i remaining)
  IsResolved state remaining cached (Outcome.err Failure.cancelled) =
      (n : ℕ) × (is_cancelled n ≡ true)
  IsResolved state remaining cached (Outcome.err Failure.critical) =
      (o : SimulatedOrder) × (s : State) × ((commit_order o s).0 ≡ Commit.critical)
  IsResolved state remaining cached (Outcome.err Failure.pre_block_call) = ⊥
  IsResolved state remaining cached (Outcome.err Failure.out_of_bounds) = ⊥
  IsResolved state remaining cached (Outcome.err Failure.out_of_budget) = ⊥

  pending_of :
      (cached : Option (CachedSimulationState BundleState)) (state : State)
      → ((resumed cached orders state).pending_orders ≡ [])
        × ((resumed cached orders state).state ≡ state)
  unfolding resumed
  pending_of none state = (refl, refl)
  pending_of (some c) state = (refl, refl)

  module _ (bundle_state : State → BundleState) (state : State) (sequence : List ℕ)
      (in_range : (i : ℕ) → contains sequence i ≡ true → i < length orders)
      (rolls_back : (o : SimulatedOrder) (s : State) (error : ExecutionError)
        → (commit_order o s).0 ≡ Commit.rejected error
        → (commit_order o s).1 ≡ s) where
    run_loop-IsEnded :
        (cached : Option (CachedSimulationState BundleState)) (from : ℕ)
        → IsEnded commit_order is_cancelled orders
            (resumed cached orders state)
            (drop from sequence)
            (run_loop commit_order is_cancelled sequence orders cached from (some state))
    unfolding run_loop
    run_loop-IsEnded cached from =
        let base : Progress State = resumed cached orders state in
        let remaining = drop from sequence in
        process_loop-IsEnded commit_order is_cancelled orders base remaining
          (λ i h. in_range i (contains-drop from sequence i h)) rolls_back (length remaining) 0
          remaining base
          (
            [],
            [],
            sym (append-nil base.sequenced_order_result),
            sym (append-nil base.per_order_profits),
            refl,
            refl,
            λ i. rw (pending_of cached state).0 (omega arith),
          )
          (rw (pending_of cached state).0 (omega arith))

    failed-IsResolved :
        (cached : Option (CachedSimulationState BundleState)) (remaining : List ℕ)
        (failure : Failure)
        → IsEnded commit_order is_cancelled orders
            (resumed cached orders state)
            remaining
            (Outcome.err failure)
        → IsResolved state remaining cached (Outcome.err failure)
    failed-IsResolved cached remaining Failure.cancelled h = h
    failed-IsResolved cached remaining Failure.critical h = h
    failed-IsResolved cached remaining Failure.pre_block_call h = h
    failed-IsResolved cached remaining Failure.out_of_bounds h = h
    failed-IsResolved cached remaining Failure.out_of_budget h = h

    ok-IsResolved :
        (cached : Option (CachedSimulationState BundleState)) (remaining : List ℕ)
        (p : Progress State)
        → IsEnded commit_order is_cancelled orders
            (resumed cached orders state)
            remaining
            (Outcome.ok p)
        → IsResolved state remaining cached (Outcome.ok (resolution p, p.state))
    ok-IsResolved cached remaining p (xs, ys, a, b, c, d, n) = (
      xs,
      ys,
      a,
      c,
      subst (λ s. IsReplayed commit_order orders s xs ys p.state) (pending_of cached state).1 d,
      λ i. omega (arith, n i),
    )

    -- When every index of the sequence is that of an order, a rejected order leaves the state as it
    -- was and `pre_block_call` succeeds, `process_sequence_of_orders` neither panics nor runs
    -- forever: it ends with a result, because the token is cancelled or because `commit_order` fails
    -- with a critical error. A result is that of the longest cached prefix followed by orders of the
    -- rest of the sequence, none more often than there. Its total is the cached one with the profits
    -- of these orders added. Committing just these orders in the order of the result, from the state
    -- after `pre_block_call`, in which the orders of the cached prefix are not, commits each of them
    -- with the profit that the result names and ends in the state that is returned.
    pub process_sequence_of_orders-IsResolved :
        (cache : SharedSimulationCache BundleState)
        → (ids : List OrderId) × (initialize_full_order_ids_vec sequence orders ≡ some ids)
          × IsResolved state
              (drop (get_cached_state ids cache).2 sequence)
              (get_cached_state ids cache).1
              (process_sequence_of_orders commit_order bundle_state
                (some state)
                is_cancelled
                sequence
                orders
                cache).0
    unfolding process_sequence_of_orders
    process_sequence_of_orders-IsResolved cache =
        let (ids, e) = full_order_ids sequence orders in_range in
        let cached = (get_cached_state ids cache).1 in
        let from = (get_cached_state ids cache).2 in
        let ended = run_loop-IsEnded cached from in
        let base : Progress State = resumed cached orders state in
        let remaining = drop from sequence in
        (
          ids,
          e,
          elim (Outcome-cases
              (run_loop commit_order is_cancelled sequence orders cached from (some state))) [
                | inl (p, f) ↦
                    rw (e, f, process_sequence_of_orders)
                      (ok-IsResolved cached remaining p
                        (subst (IsEnded commit_order is_cancelled orders base remaining) f ended))
                | inr (failure, f) ↦
                    rw (e, f, process_sequence_of_orders)
                      (failed-IsResolved cached remaining failure
                        (subst (IsEnded commit_order is_cancelled orders base remaining) f ended))
              ],
        )
