-- ===== src/Parallel/Resolver/Loop.antt =====
-- The processing loop of `process_sequence_of_orders`. `commit_order`, which runs the transactions of
-- an order, is a parameter, as are the answers of the cancellation token.
use constraints_builder.Shared.{
  ℕ, zero, suc, ◌+◌, ◌%◌, ◌^◌, Bool, true, false, none, some, List, [], ◌∷◌, ◌++◌, get_elem?,
  nat_eq, pair_eq,
}
use constraints_builder.Shared.Map.{Map, lookup, insert, remove}
use constraints_builder.Primitives.Tx.{Address}
use constraints_builder.Primitives.Orders.{OrderId, order_id_eq}
use constraints_builder.Primitives.SimValue.{SimulatedOrder, sim_id}
use constraints_builder.Parallel.Resolver.Errors.{ExecutionError, try_get_tx_too_high_error}

abbrev pub u256_mod : ℕ
u256_mod = 2 ^ 256

-- Of `ExecutionResult` what is used here.
pub record ExecutionResult : Type 0 where
  pub coinbase_profit : ℕ
  pub nonces_updated : List (Address × ℕ)

-- What `commit_order` returns: `critical` is the outer error.
pub data Commit : Type 0 where
  committed : ExecutionResult → Commit
  rejected : ExecutionError → Commit
  critical : Commit

-- Why no result is returned: the errors, the panic of an index out of bounds and the end of the
-- budget of the loop.
pub data Failure : Type 0 where
  cancelled critical pre_block_call out_of_bounds out_of_budget : Failure

pub data Outcome {ℓ} (A : Type ℓ) : Type ℓ where
  ok : A → Outcome A
  err : Failure → Outcome A

pub record Progress (State : Type 0) : Type 0 where
  pub state : State
  pub pending_orders : Map (Address × ℕ) ℕ
  pub sequenced_order_result : List (ℕ × ℕ)
  pub total_profit : ℕ
  pub per_order_profits : List (OrderId × ℕ)

-- The outcome of a round: an error, a rejected order, or a commit with the orders that remain.
pub data Round (State : Type 0) : Type 0 where
  failed : Failure → Round State
  skipped : Progress State → Round State
  done : Progress State → List ℕ → Round State

-- The loop over the updated nonces. The last of `remaining_orders` is the head of the list here.
unfoldable pub release_pending :
    List (Address × ℕ) → Map (Address × ℕ) ℕ → List ℕ → Map (Address × ℕ) ℕ × List ℕ
unfolding lookup remove
release_pending [] pending remaining = (pending, remaining)
release_pending (nonce ∷ nonces) pending remaining = elim (lookup nonce pending) [
  | none ↦ release_pending nonces pending remaining
  | some order_idx ↦ release_pending nonces (remove nonce pending) (order_idx ∷ remaining)
]

module _ {State : Type 0} where
  unfoldable pub handle_successful_commit :
      ExecutionResult
      → SimulatedOrder
      → ℕ
      → State
      → List ℕ
      → Progress State
      → Progress State × List ℕ
  unfolding release_pending
  handle_successful_commit res sim_order order_idx next remaining p =
      let released = release_pending res.nonces_updated p.pending_orders remaining in
      (
        record {
          state = next;
          pending_orders = released.0;
          sequenced_order_result =
              p.sequenced_order_result ++ (order_idx, res.coinbase_profit) ∷ [];
          total_profit = (p.total_profit + res.coinbase_profit) % u256_mod;
          per_order_profits = p.per_order_profits ++ (sim_id sim_order, res.coinbase_profit) ∷ [];
        },
        released.1,
      )

  unfoldable pub handle_err :
      ExecutionError → SimulatedOrder → ℕ → State → Progress State → Progress State
  unfolding insert try_get_tx_too_high_error
  handle_err error sim_order order_idx next p =
      let noted : Progress State = record p { state = next } in
      elim (try_get_tx_too_high_error error sim_order.order) [
        | none ↦ noted
        | some nonce ↦ record noted { pending_orders = insert nonce order_idx p.pending_orders }
      ]

module _ {State : Type 0} (commit_order : SimulatedOrder → State → Commit × State)
    (is_cancelled : ℕ → Bool) (orders : List SimulatedOrder) where
  -- A round of the processing loop.
  unfoldable pub process_order : ℕ → ℕ → List ℕ → Progress State → Round State
  unfolding handle_successful_commit handle_err
  process_order round order_idx remaining p = elim (is_cancelled round) [
    | true ↦ Round.failed Failure.cancelled
    | false ↦ elim (get_elem? orders order_idx) [
      | none ↦ Round.failed Failure.out_of_bounds
      | some sim_order ↦
          let next = (commit_order sim_order p.state).1 in
          elim (commit_order sim_order p.state).0 [
            | Commit.critical ↦ Round.failed Failure.critical
            | Commit.rejected error ↦ Round.skipped (handle_err error sim_order order_idx next p)
            | Commit.committed res ↦
                let done = handle_successful_commit res sim_order order_idx next remaining p in
                Round.done done.0 done.1
          ]
    ]
  ]

  -- The processing loop: each commit takes one from the budget, and the token is asked each round.
  unfoldable pub process_loop : ℕ → ℕ → List ℕ → Progress State → Outcome (Progress State)
  unfolding process_order
  process_loop budget round [] p = Outcome.ok p
  process_loop zero round (order_idx ∷ remaining) p =
      elim (process_order round order_idx remaining p) [
        | Round.failed failure ↦ Outcome.err failure
        | Round.skipped next ↦ process_loop zero (suc round) remaining next
        | Round.done next left ↦ Outcome.err Failure.out_of_budget
      ]
  process_loop (suc budget) round (order_idx ∷ remaining) p =
      elim (process_order round order_idx remaining p) [
        | Round.failed failure ↦ Outcome.err failure
        | Round.skipped next ↦ process_loop (suc budget) (suc round) remaining next
        | Round.done next left ↦ process_loop budget (suc round) left next
      ]
