-- ===== src/Simulation/Job/Drained.antt =====
-- The loop of `send_new_tasks_for_simulation` (simulation_job.rs) ends.
use constraints_builder.Shared.{
  ℕ, zero, suc, ◌≡◌, ◌≤◌, refl, Bool, true, false, Bool-cases, Option, inl, inr, List, [], ◌∷◌,
  arith, length, take, ap, ◌∙◌, drop, is_empty, filter, ◌<◌,
}
use constraints_builder.Primitives.Tx.{Address}
use constraints_builder.Primitives.Orders
use constraints_builder.Simulation.TreeState.{SimulationId, SimulationRequest, pop_simulation_tasks}
use constraints_builder.Simulation.Job.{
  SimulatedOrderCommand, SimulationJob, request, request_all, send_loop,
  send_new_tasks_for_simulation, order_still_valid,
}

module _ {ℓ} {A : Type ℓ} where
  length-drop_le : (n : ℕ) (xs : List A) → length (drop n xs) ≤ length xs
  length-drop_le zero xs = omega arith
  length-drop_le (suc n) [] = omega arith
  length-drop_le (suc n) (x ∷ xs) = ground (arith, length-drop_le n xs)

module _ (account_nonce : Address → Option ℕ) (random : ℕ → SimulationId)
    (open_for : List SimulatedOrderCommand → SimulatedOrderCommand → Bool)
    (try_send : List SimulationRequest → SimulationRequest → Bool) where
  request_all-tree :
      (rs : List SimulationRequest) (j : SimulationJob)
      → (request_all account_nonce random open_for try_send rs j).sim_tree ≡ j.sim_tree
  unfolding request_all request
  request_all-tree [] j = refl
  request_all-tree (r ∷ rs) j =
      let rest = request_all-tree rs (request account_nonce random open_for try_send r j) in
      elim (Bool-cases (try_send j.sim_requests r)) [
        | inl e ↦ ground (arith, rest, e)
        | inr e ↦ ground (arith, rest, e)
      ]

  -- One round of the loop on a tree that has something ready.
  round : SimulationJob → SimulationJob
  round j =
      let (tasks, tree) = pop_simulation_tasks 1024 j.sim_tree in
      let popped : SimulationJob = record j { sim_tree = tree } in
      request_all account_nonce random open_for try_send
        (filter (λ s. order_still_valid (Orders.id s.order) popped) tasks) popped

  round-ready :
      (j : SimulationJob) → (round j).sim_tree.ready_orders ≡ drop 1024 j.sim_tree.ready_orders
  unfolding round pop_simulation_tasks
  round-ready j =
      let (tasks, tree) = pop_simulation_tasks 1024 j.sim_tree in
      let popped : SimulationJob = record j { sim_tree = tree } in
      ap (λ t. t.ready_orders)
        (request_all-tree (filter (λ s. order_still_valid (Orders.id s.order) popped) tasks) popped)

  send_loop-drained :
      (fuel : ℕ) (j : SimulationJob) (rs : List SimulationRequest)
      → j.sim_tree.ready_orders ≡ rs
      → length rs < fuel
      → (send_loop account_nonce random open_for try_send fuel j).sim_tree.ready_orders ≡ []
  unfolding send_loop pop_simulation_tasks round
  send_loop-drained zero j rs h less = ground (arith, less)
  send_loop-drained (suc fuel) j [] h less =
      let e : is_empty (take 1024 j.sim_tree.ready_orders) ≡ true =
        ap (λ rs. is_empty (take 1024 rs)) h in
      rw (e, send_loop) (ap (drop 1024) h)
  send_loop-drained (suc fuel) j (x ∷ xs) h less =
      let next : (round j).sim_tree.ready_orders ≡ drop 1023 xs =
        round-ready j ∙ ap (drop 1024) h in
      let rest =
        send_loop-drained fuel (round j) (drop 1023 xs) next
          (ground (arith, length-drop_le 1023 xs, less)) in
      let e : is_empty (take 1024 j.sim_tree.ready_orders) ≡ false =
        ap (λ rs. is_empty (take 1024 rs)) h in
      rw (e, send_loop) rest

  -- The loop ends with nothing ready: as many rounds as there are ready orders, and one, are enough.
  pub send_new_tasks_for_simulation-drained :
      (j : SimulationJob)
      → (send_new_tasks_for_simulation account_nonce random open_for try_send
          j).sim_tree.ready_orders
        ≡ []
  unfolding send_new_tasks_for_simulation
  send_new_tasks_for_simulation-drained j =
      send_loop-drained (suc (length j.sim_tree.ready_orders)) j j.sim_tree.ready_orders refl
        (omega arith)
