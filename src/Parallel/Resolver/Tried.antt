-- ===== src/Parallel/Resolver/Tried.antt =====
-- What `run_conflict_task` returns is the best of the sequences.
use constraints_builder.Shared.{
  ℕ, suc, ◌≡◌, ◌≤◌, ◌⊎◌, refl, arith, Bool, true, false, Option, List, [], ◌∷◌, All, Pairwise, ltb,
  inl, inr, Bool-cases, nat_eq, if◌then◌else◌,
}
use constraints_builder.Parallel.SimulationCache.{SharedSimulationCache}
use constraints_builder.Parallel.Resolver.Sequence.{Outcome-cases}
use mathlib.Core.Path.{subst}
use constraints_builder.Primitives.SimValue.{SimulatedOrder}
use constraints_builder.Parallel.Results.{ResolutionResult}
use constraints_builder.Parallel.Resolver.Loop.{Commit, Outcome}
use constraints_builder.Parallel.Resolver.Run.{
  process_sequence_of_orders, try_sequences, update_best_resolution,
}

abbrev pub IsOneOf : {A : Type 0} → A → List A → Type 0
IsOneOf a [] = ⊥
IsOneOf a (x ∷ xs) = (a ≡ x) ⊎ IsOneOf a xs

module _ {State BundleState : Type 0} (commit_order : SimulatedOrder → State → Commit × State)
    (bundle_state : State → BundleState) (initial : Option State) (is_cancelled : ℕ → ℕ → Bool)
    (orders : List SimulatedOrder) where
  -- The result of processing a sequence, under some state of the cache.
  abbrev pub IsProcessed : List ℕ → ResolutionResult → Type 0
  IsProcessed sequence result =
      (n : ℕ) × (cache : SharedSimulationCache BundleState) × (last : State)
      × ((process_sequence_of_orders commit_order bundle_state initial (is_cancelled n) sequence
            orders cache).0
          ≡ Outcome.ok (result, last))

  -- An error is that of a sequence; a result is the best of those of all sequences and of `best`.
  abbrev pub IsBest : ResolutionResult → List (List ℕ) → Outcome ResolutionResult → Type 0
  IsBest best sequences (Outcome.ok r) =
      (results : List ResolutionResult) × Pairwise IsProcessed sequences results
      × (best.total_profit ≤ r.total_profit)
      × All (λ x. x.total_profit ≤ r.total_profit) results
      × IsOneOf r (best ∷ results)
  IsBest best sequences (Outcome.err failure) =
      (n : ℕ) × (cache : SharedSimulationCache BundleState) × (sequence : List ℕ) × IsOneOf sequence
        sequences
      × ((process_sequence_of_orders commit_order bundle_state initial (is_cancelled n) sequence
            orders cache).0
          ≡ Outcome.err failure)

  update_best :
      (new best r : ResolutionResult) (results : List ResolutionResult)
      → (update_best_resolution new best).total_profit ≤ r.total_profit
      → IsOneOf r (update_best_resolution new best ∷ results)
      → (best.total_profit ≤ r.total_profit)
        × (new.total_profit ≤ r.total_profit)
        × IsOneOf r (best ∷ new ∷ results)
  unfolding update_best_resolution
  update_best new best r results h k = elim (Bool-cases (ltb best.total_profit new.total_profit)) [
    | inl e ↦
        let l = subst (λ x. x.total_profit ≤ r.total_profit) (chosen true e) h in
        (ground (arith, e, l), l, inr (subst (λ x. IsOneOf r (x ∷ results)) (chosen true e) k))
    | inr e ↦
        let l = subst (λ x. x.total_profit ≤ r.total_profit) (chosen false e) h in
        (l, ground (arith, e, l), skip (subst (λ x. IsOneOf r (x ∷ results)) (chosen false e) k))
  ]
    where
      chosen :
          (b : Bool)
          → ltb best.total_profit new.total_profit ≡ b
          → update_best_resolution new best ≡ (if b then new else best)
      chosen b e = rw (e, update_best_resolution) refl

      skip : (r ≡ best) ⊎ IsOneOf r results → (r ≡ best) ⊎ ((r ≡ new) ⊎ IsOneOf r results)
      skip (inl x) = inl x
      skip (inr x) = inr (inr x)

  one_more :
      (sequence : List ℕ) (sequences : List (List ℕ)) (best new : ResolutionResult)
      (outcome : Outcome ResolutionResult)
      → IsProcessed sequence new
      → IsBest (update_best_resolution new best) sequences outcome
      → IsBest best (sequence ∷ sequences) outcome
  one_more sequence sequences best new (Outcome.ok r) done (results, a, b, c, d) =
      let (l, m, k) = update_best new best r results b d in (new ∷ results, (done, a), l, (m, c), k)
  one_more sequence sequences best new (Outcome.err failure) done (n, cache, s, among, e) =
      (n, cache, s, inr among, e)

  pub try_sequences-IsBest :
      (n : ℕ) (sequences : List (List ℕ)) (best : ResolutionResult)
      (cache : SharedSimulationCache BundleState)
      → IsBest best sequences
          (try_sequences commit_order bundle_state initial is_cancelled n sequences orders best
            cache).0
  unfolding try_sequences
  try_sequences-IsBest n [] best cache = ([], tt, omega arith, tt, inl refl)
  try_sequences-IsBest n (sequence ∷ sequences) best cache =
      let answer =
        process_sequence_of_orders commit_order bundle_state initial (is_cancelled n) sequence
          orders cache in
      elim (Outcome-cases answer.0) [
        | inl ((result, last), e) ↦
            rw (e, try_sequences)
              (one_more sequence sequences best result
                (try_sequences commit_order bundle_state initial is_cancelled (suc n) sequences
                  orders (update_best_resolution result best) answer.1).0
                (n, cache, last, e)
                (try_sequences-IsBest (suc n) sequences (update_best_resolution result best)
                  answer.1))
        | inr (failure, e) ↦ rw (e, try_sequences) (n, cache, sequence, inl refl, e)
      ]
