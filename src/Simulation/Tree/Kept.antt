-- ===== src/Simulation/Tree/Kept.antt =====
-- The `expect("we never delete sims")` of building/sim.rs.
use constraints_builder.Shared.{
  ℕ, ◌≢◌, refl, Bool-cases, Option, inl, inr, List, [], ◌∷◌, arith, nat_eq, ap,
}
use constraints_builder.Shared.Map
use constraints_builder.Shared.Map.{Map, lookup, contains_key, lookup-insert, lookup-empty}
use constraints_builder.Primitives.Tx.{Address}
use constraints_builder.Primitives.Orders
use constraints_builder.Primitives.Orders.{order_id_eq, Order, OrderId}
use constraints_builder.Primitives.Nonces.{Nonce}
use constraints_builder.Primitives.Nonces
use constraints_builder.Simulation.TreeState.{
  SimTree, SimulatedResult, SimulationId, nonce_key_eq, Ending, Visit, Visited, OrderNonceState,
  visit, and_then, fill_single, pop_simulation_tasks, new,
}
use constraints_builder.Simulation.Tree.{
  visit_all, get_order_nonce_state, push_state, push_order, push_orders, start_ready, push_ready,
  process_simulation_task_result, submit_simulation_tasks_results,
}
use constraints_builder.Simulation.Filled.{
  IsKept, visit-kept, concluded-kept, IsSafe, and_then-IsSafe, insert-IsKept, fill_single-IsSafe,
}

module _ (account_nonce : Address → Option ℕ) (random : ℕ → SimulationId) where
  visit_all-kept :
      (t : SimTree) (ns : List Nonce) (v : Visited)
      → IsKept t
      → visit_all account_nonce random t ns v ≢ OrderNonceState.panic
  unfolding visit_all
  visit_all-kept t [] v h = concluded-kept v.pending_nonces v.parent_orders
  visit_all-kept t (n ∷ ns) v h =
      continue (visit t (account_nonce n.address) n v)
        (visit-kept t (account_nonce n.address) n v h) (λ w. visit_all-kept t ns w h)
    where
      continue :
          (x : Visit)
          → x ≢ Visit.stop OrderNonceState.panic
          → ((w : Visited) → visit_all account_nonce random t ns w ≢ OrderNonceState.panic)
          → (elim x [ Visit.stop r ↦ r | Visit.next w ↦ visit_all account_nonce random t ns w ])
            ≢ OrderNonceState.panic
      continue (Visit.stop r) d f e = d (ap (λ s. Visit.stop s) e)
      continue (Visit.next w) d f e = f w e

  push_state-IsSafe :
      (o : Order) (x : OrderNonceState) (t : SimTree)
      → x ≢ OrderNonceState.panic
      → IsKept t
      → IsSafe (push_state account_nonce random o x t)
  unfolding push_state push_ready
  push_state-IsSafe o OrderNonceState.invalid t d h = (ground arith, h)
  push_state-IsSafe o (OrderNonceState.pending_nonces ks) t d h = (ground arith, h)
  push_state-IsSafe o (OrderNonceState.ready ps) t d h = (ground arith, h)
  push_state-IsSafe o OrderNonceState.provider_error t d h = (ground arith, h)
  push_state-IsSafe o OrderNonceState.panic t d h = ground (arith, d refl)

  get_order_nonce_state-kept :
      (o : Order) (t : SimTree)
      → IsKept t
      → get_order_nonce_state account_nonce random o t ≢ OrderNonceState.panic
  unfolding get_order_nonce_state
  get_order_nonce_state-kept o t h = visit_all-kept t (Nonces.nonces o) _ h

  push_order-IsSafe :
      (o : Order) (t : SimTree) → IsKept t → IsSafe (push_order account_nonce random o t)
  unfolding push_order
  push_order-IsSafe o t h = elim (Bool-cases (contains_key (Orders.id o) t.pending_orders)) [
    | inl e ↦ rw e (ground arith, h)
    | inr e ↦ rw e (
        push_state-IsSafe o (get_order_nonce_state account_nonce random o t) t
          (get_order_nonce_state-kept o t h) h)
  ]

  pub push_orders-IsSafe :
      (os : List Order) (t : SimTree) → IsKept t → IsSafe (push_orders account_nonce random os t)
  unfolding push_orders
  push_orders-IsSafe [] t h = (ground arith, h)
  push_orders-IsSafe (o ∷ os) t h =
      and_then-IsSafe (push_order account_nonce random o t) (push_orders account_nonce random os)
        (push_order-IsSafe o t h) (push_orders-IsSafe os)

  start_ready-IsSafe :
      (os : List Order) (t : SimTree) → IsKept t → IsSafe (start_ready account_nonce random os t)
  unfolding start_ready push_ready
  start_ready-IsSafe [] t h = (ground arith, h)
  start_ready-IsSafe (o ∷ os) t h =
      by_state (get_order_nonce_state account_nonce random o t) (get_order_nonce_state-kept o t h)
        (start_ready-IsSafe os)
    where
      by_state :
          (x : OrderNonceState)
          → x ≢ OrderNonceState.panic
          → ((u : SimTree) → IsKept u → IsSafe (start_ready account_nonce random os u))
          → IsSafe (elim x [
            | OrderNonceState.invalid ↦ start_ready account_nonce random os t
            | OrderNonceState.pending_nonces ks ↦ start_ready account_nonce random os t
            | OrderNonceState.ready ps ↦
                start_ready account_nonce random os (push_ready account_nonce random o ps t)
            | OrderNonceState.provider_error ↦ (Ending.provider_error, t)
            | OrderNonceState.panic ↦ (Ending.panic, t)
          ])
      by_state OrderNonceState.invalid d f = f t h
      by_state (OrderNonceState.pending_nonces ks) d f = f t h
      by_state (OrderNonceState.ready ps) d f = f (push_ready account_nonce random o ps t) h
      by_state OrderNonceState.provider_error d f = (ground arith, h)
      by_state OrderNonceState.panic d f = ground (arith, d refl)

  process_simulation_task_result-IsSafe :
      (r : SimulatedResult) (t : SimTree)
      → IsKept t
      → IsSafe (process_simulation_task_result account_nonce random r t)
  unfolding process_simulation_task_result
  process_simulation_task_result-IsSafe r t h =
      let noted : SimTree = record t { sims = Map.insert r.id r t.sims } in
      let x = fill_single r r.nonces_after noted in
      and_then-IsSafe (x.0, x.2) (start_ready account_nonce random x.1)
        (fill_single-IsSafe r r.nonces_after noted (insert-IsKept r t h)
          (ground (arith, lookup-insert r.id r.id r t.sims, nat_eq.same_iff r.id r.id)))
        (start_ready-IsSafe x.1)

  pub submit_simulation_tasks_results-IsSafe :
      (rs : List SimulatedResult) (t : SimTree)
      → IsKept t
      → IsSafe (submit_simulation_tasks_results account_nonce random rs t)
  unfolding submit_simulation_tasks_results
  submit_simulation_tasks_results-IsSafe [] t h = (ground arith, h)
  submit_simulation_tasks_results-IsSafe (r ∷ rs) t h =
      and_then-IsSafe (process_simulation_task_result account_nonce random r t)
        (submit_simulation_tasks_results account_nonce random rs)
        (process_simulation_task_result-IsSafe r t h) (submit_simulation_tasks_results-IsSafe rs)

  -- The calls of the public methods. After one that fails the tree is used no more.
  pub data Call : Type 0 where
    push : List Order → Call
    pop : ℕ → Call
    submit : List SimulatedResult → Call

  unfoldable pub call : Call → SimTree → Ending × SimTree
  call (push os) t = push_orders account_nonce random os t
  call (pop limit) t = (Ending.ok, (pop_simulation_tasks limit t).1)
  call (submit rs) t = submit_simulation_tasks_results account_nonce random rs t

  unfoldable pub calls : List Call → SimTree → Ending × SimTree
  calls [] t = (Ending.ok, t)
  calls (c ∷ cs) t = and_then (call c t) (calls cs)

  call-IsSafe : (c : Call) (t : SimTree) → IsKept t → IsSafe (call c t)
  unfolding call pop_simulation_tasks
  call-IsSafe (push os) t h = push_orders-IsSafe os t h
  call-IsSafe (pop limit) t h = (ground arith, h)
  call-IsSafe (submit rs) t h = submit_simulation_tasks_results-IsSafe rs t h

  calls-IsSafe : (cs : List Call) (t : SimTree) → IsKept t → IsSafe (calls cs t)
  unfolding calls
  calls-IsSafe [] t h = (ground arith, h)
  calls-IsSafe (c ∷ cs) t h =
      and_then-IsSafe (call c t) (calls cs) (call-IsSafe c t h) (calls-IsSafe cs)

  -- Whatever is called on a new tree, and whatever the simulations report, no `expect` panics, and
  -- each nonce that counts as filled is filled by a simulation that the tree still has.
  pub calls-IsKept : (cs : List Call) → ((calls cs new).0 ≢ Ending.panic) × IsKept (calls cs new).1
  calls-IsKept cs =
      calls-IsSafe cs new (λ key i e. ground (arith, lookup-empty {V = SimulationId} key))
