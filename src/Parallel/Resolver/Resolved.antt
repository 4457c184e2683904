-- ===== src/Parallel/Resolver/Resolved.antt =====
-- What the processing loop ends with.
use constraints_builder.Shared.{
  ℕ, zero, suc, ◌+◌, ◌≡◌, ◌≤◌, ◌<◌, refl, arith, Bool, true, some, List, [], ◌∷◌, length, get_elem?,
  nat_eq, pair_eq, contains, inl, inr, Option-cases, Bool-cases, ◌⊎◌,
}
use mathlib.Core.Path.{subst}
use constraints_builder.Primitives.SimValue.{SimulatedOrder}
use constraints_builder.Parallel.Groups.Apart.{contains-count_of}
use constraints_builder.Parallel.Resolver.Errors.{ExecutionError, try_get_tx_too_high_error}
use constraints_builder.Parallel.Resolver.Loop.{
  ExecutionResult, Commit, Failure, Outcome, Round, Progress, handle_err, process_order,
  process_loop,
}
use constraints_builder.Parallel.Resolver.Kept.{
  IsKept, release_pending-IsReleased, handle_err-IsKept, handle_successful_commit-IsKept,
  length-insert,
}

pub get_elem?-lt :
    {A : Type 0} (xs : List A) (i : ℕ) → i < length xs → (a : A) × (get_elem? xs i ≡ some a)
get_elem?-lt [] i h = absurd (omega arith)
get_elem?-lt (x ∷ xs) zero h = (x, refl)
get_elem?-lt (x ∷ xs) (suc i) h = get_elem?-lt xs i (omega arith)

module _ {State : Type 0} (commit_order : SimulatedOrder → State → Commit × State)
    (is_cancelled : ℕ → Bool) (orders : List SimulatedOrder) where
  -- The loop ends with a kept progress, when the token cancels it, or on a critical error.
  abbrev pub IsEnded : Progress State → List ℕ → Outcome (Progress State) → Type 0
  IsEnded base sequence (Outcome.ok p) = IsKept commit_order orders base sequence p []
  IsEnded base sequence (Outcome.err Failure.cancelled) = (n : ℕ) × (is_cancelled n ≡ true)
  IsEnded base sequence (Outcome.err Failure.critical) =
      (o : SimulatedOrder) × (s : State) × ((commit_order o s).0 ≡ Commit.critical)
  IsEnded base sequence (Outcome.err Failure.pre_block_call) = ⊥
  IsEnded base sequence (Outcome.err Failure.out_of_bounds) = ⊥
  IsEnded base sequence (Outcome.err Failure.out_of_budget) = ⊥

  module _ (base : Progress State) (sequence : List ℕ)
      (in_range : (i : ℕ) → contains sequence i ≡ true → i < length orders)
      (rolls_back : (o : SimulatedOrder) (s : State) (error : ExecutionError)
        → (commit_order o s).0 ≡ Commit.rejected error
        → (commit_order o s).1 ≡ s) where
    abbrev IsRound : ℕ → Round State → Type 0
    IsRound n (Round.failed failure) = IsEnded base sequence (Outcome.err failure)
    IsRound n (Round.skipped next) = Unit
    IsRound n (Round.done next left) =
        IsKept commit_order orders base sequence next left
        × (suc (length left + length next.pending_orders) ≤ n)

    abbrev IsSkipped : ℕ → List ℕ → Round State → Type 0
    IsSkipped n remaining (Round.failed failure) = Unit
    IsSkipped n remaining (Round.skipped next) =
        IsKept commit_order orders base sequence next remaining
        × (length remaining + length next.pending_orders ≤ n)
    IsSkipped n remaining (Round.done next left) = Unit

    length-handle_err :
        (error : ExecutionError) (order : SimulatedOrder) (i : ℕ) (next : State)
        (p : Progress State)
        → length (handle_err error order i next p).pending_orders ≤ suc (length p.pending_orders)
    unfolding handle_err
    length-handle_err error order i next p =
        elim (Option-cases (try_get_tx_too_high_error error order.order)) [
          | inl e ↦ rw (e, handle_err) (omega arith)
          | inr (nonce, e) ↦ rw (e, handle_err) (length-insert nonce i p.pending_orders)
        ]

    process_order-IsRound :
        (round i : ℕ) (remaining : List ℕ) (p : Progress State)
        → IsKept commit_order orders base sequence p (i ∷ remaining)
        → IsRound
            (length (i ∷ remaining) + length p.pending_orders)
            (process_order commit_order is_cancelled orders round i remaining p)
          × IsSkipped
              (length (i ∷ remaining) + length p.pending_orders)
              remaining
              (process_order commit_order is_cancelled orders round i remaining p)
    unfolding process_order
    process_order-IsRound round i remaining p kept =
        let (xs, ys, a, b, c, d, n) = kept in
        let (order, there) =
          get_elem?-lt orders i (in_range i (ground (arith, n i, contains-count_of i sequence))) in
        let commit = (commit_order order p.state).0 in
        elim (Bool-cases (is_cancelled round)) [
          | inl e ↦ rw (e, process_order) ((round, e), tt)
          | inr e ↦ elim (commit_cases commit) [
            | inl (res, f) ↦
                let (l, r) =
                  release_pending-IsReleased res.nonces_updated p.pending_orders remaining in
                rw (e, there, f, process_order)
                  (
                    (
                      handle_successful_commit-IsKept commit_order orders base sequence p i
                          remaining kept order res there f,
                      omega (arith, l),
                    ),
                    tt,
                  )
            | inr (inl (error, f)) ↦
                rw (e, there, f, process_order)
                  (
                    tt,
                    (
                      handle_err-IsKept commit_order orders base sequence p i remaining kept order
                          error (commit_order order p.state).1 (rolls_back order p.state error f),
                      omega
                          (arith, length-handle_err error order i (commit_order order p.state).1 p),
                    ),
                  )
            | inr (inr f) ↦ rw (e, there, f, process_order) ((order, p.state, f), tt)
          ]
        ]
      where
        commit_cases :
            (c : Commit)
            → ((res : ExecutionResult) × (c ≡ Commit.committed res))
              ⊎ ((error : ExecutionError) × (c ≡ Commit.rejected error))
              ⊎ (c ≡ Commit.critical)
        commit_cases (Commit.committed res) = inl (res, refl)
        commit_cases (Commit.rejected error) = inr (inl (error, refl))
        commit_cases Commit.critical = inr (inr refl)

    Round-cases :
        (r : Round State)
        → ((failure : Failure) × (r ≡ Round.failed failure))
          ⊎ ((next : Progress State) × (r ≡ Round.skipped next))
          ⊎ ((next : Progress State) × (left : List ℕ) × (r ≡ Round.done next left))
    Round-cases (Round.failed failure) = inl (failure, refl)
    Round-cases (Round.skipped next) = inr (inl (next, refl))
    Round-cases (Round.done next left) = inr (inr (next, left, refl))

    pub process_loop-IsEnded :
        (budget round : ℕ) (remaining : List ℕ) (p : Progress State)
        → IsKept commit_order orders base sequence p remaining
        → length remaining + length p.pending_orders ≤ budget
        → IsEnded base sequence
            (process_loop commit_order is_cancelled orders budget round remaining p)
    unfolding process_loop
    process_loop-IsEnded budget round [] p kept enough = kept
    process_loop-IsEnded zero round (i ∷ remaining) p kept enough = absurd (omega arith)
    process_loop-IsEnded (suc budget) round (i ∷ remaining) p kept enough =
        let (h, k) = process_order-IsRound round i remaining p kept in
        let bound : ℕ = length (i ∷ remaining) + length p.pending_orders in
        elim (Round-cases (process_order commit_order is_cancelled orders round i remaining p)) [
          | inl (failure, e) ↦ rw (e, process_loop) (subst (IsRound bound) e h)
          | inr (inl (next, e)) ↦
              let (l, m) = subst (IsSkipped bound remaining) e k in
              rw (e, process_loop)
                (process_loop-IsEnded (suc budget) (suc round) remaining next l
                  (omega (arith, m, enough)))
          | inr (inr (next, left, e)) ↦
              let (l, m) = subst (IsRound bound) e h in
              rw (e, process_loop)
                (process_loop-IsEnded budget (suc round) left next l (omega (arith, m, enough)))
        ]
