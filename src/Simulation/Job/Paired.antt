-- ===== src/Simulation/Job/Paired.antt =====
-- What `SimulationJob` (simulation_job.rs) sends downstream.
use constraints_builder.Shared.{
  ◌&&◌, length, ℕ, suc, ◌≡◌, refl, Bool, true, false, Bool-cases, inl, inr, Option, List, [], ◌∷◌,
  arith, contains, set_remove, contains-set_remove,
}
use constraints_builder.Primitives.Orders.{OrderId, order_id_eq}
use constraints_builder.Primitives.SimValue.{sim_id}
use constraints_builder.Simulation.Job.{
  SimulatedOrderCommand, SimulationJob, note_simulated, Address, SimulationId, SimulationRequest,
  send, deliver, send_cancel, process_order_cancellation, SimulatedResult, deliver_all,
  process_new_simulations, handle, run, SimTree, Event, send_new_tasks_for_simulation, new,
}
use constraints_builder.Simulation.Job.Steps.{
  stands, IsPaired, IsTracked, IsSound, Same-IsTracked, note_simulated-Same, deliver-IsSound,
  send_loop-Same, process_new_commands-IsSound,
}

module _ (account_nonce : Address → Option ℕ) (random : ℕ → SimulationId)
    (open_for : List SimulatedOrderCommand → SimulatedOrderCommand → Bool)
    (try_send : List SimulationRequest → SimulationRequest → Bool) where
  deliver_all-IsSound :
      (rs : List SimulatedResult) (j : SimulationJob)
      → IsTracked j
      → IsSound (
        (deliver_all account_nonce random open_for try_send rs j).0,
        (deliver_all account_nonce random open_for try_send rs j).2,
      )
  unfolding deliver_all
  deliver_all-IsSound [] j h = (h.0, λ ok. h)
  deliver_all-IsSound (r ∷ rs) j h =
      let noted = note_simulated r.simulated_order.order j in
      let i = sim_id r.simulated_order in
      let h' = Same-IsTracked j noted (note_simulated-Same r.simulated_order.order j) h in
      let left : SimulationJob = record noted {
        in_flight_orders = set_remove i noted.in_flight_orders;
      } in
      by_flight (contains noted.in_flight_orders i) (All noted)
        (After (deliver account_nonce random open_for try_send r left))
        (deliver_all-IsSound rs noted h')
        (go_on (deliver account_nonce random open_for try_send r left)
          (deliver-IsSound account_nonce random open_for try_send r left h')
          (deliver_all-IsSound rs))
    where
      All : SimulationJob → Bool × List SimulatedResult × SimulationJob
      All k = deliver_all account_nonce random open_for try_send rs k

      After : Bool × SimulationJob → Bool × List SimulatedResult × SimulationJob
      After x = elim x.0 [
        | false ↦ (false, [], x.1)
        | true ↦ ((All x.1).0, r ∷ (All x.1).1, (All x.1).2)
      ]

      go_on :
          (x : Bool × SimulationJob)
          → IsSound x
          → ((k : SimulationJob) → IsTracked k → IsSound ((All k).0, (All k).2))
          → IsSound ((After x).0, (After x).2)
      go_on (true, k) s f = f k (s.1 refl)
      go_on (false, k) s f = s

      pick :
          Bool
          → Bool × List SimulatedResult × SimulationJob
          → Bool × List SimulatedResult × SimulationJob
          → Bool × List SimulatedResult × SimulationJob
      pick b x y = elim b [ false ↦ x | true ↦ y ]

      by_flight :
          (b : Bool) (x y : Bool × List SimulatedResult × SimulationJob)
          → IsSound (x.0, x.2)
          → IsSound (y.0, y.2)
          → IsSound ((pick b x y).0, (pick b x y).2)
      by_flight false x y s u = s
      by_flight true x y s u = u

  process_new_simulations-IsSound :
      (rs : List SimulatedResult) (j : SimulationJob)
      → IsTracked j
      → IsSound (process_new_simulations account_nonce random open_for try_send rs j)
  unfolding process_new_simulations
  process_new_simulations-IsSound rs j h =
      let (paired, tracked) = deliver_all-IsSound rs j h in
      elim (Bool-cases (deliver_all account_nonce random open_for try_send rs j).0) [
        | inl e ↦ rw e (paired, λ ok. tracked e)
        | inr e ↦ rw e (paired, λ ok. ground (arith, ok))
      ]

  handle-IsSound :
      (e : Event) (j : SimulationJob)
      → IsTracked j
      → IsSound (handle account_nonce random open_for try_send e j)
  unfolding handle
  handle-IsSound (Event.new_commands []) j h = (h.0, λ ok. h)
  handle-IsSound (Event.new_commands (c ∷ cs)) j h =
      process_new_commands-IsSound account_nonce random open_for try_send (c ∷ cs) j h
  handle-IsSound (Event.new_sim_results []) j h = (h.0, λ ok. h)
  handle-IsSound (Event.new_sim_results (r ∷ rs)) j h = process_new_simulations-IsSound (r ∷ rs) j h
  handle-IsSound Event.block_cancelled j h = (h.0, λ ok. h)

  run-keep :
      (es : List Event) (j : SimulationJob)
      → IsTracked j
      → IsPaired (run account_nonce random open_for try_send es j).slot_sim_results
  unfolding run send_new_tasks_for_simulation
  run-keep [] j h =
      let sent = send_new_tasks_for_simulation account_nonce random open_for try_send j in
      (Same-IsTracked j sent
        (send_loop-Same account_nonce random open_for try_send
          (suc (length j.sim_tree.ready_orders)) j)
        h).0
  run-keep (e ∷ es) j h =
      let sent = send_new_tasks_for_simulation account_nonce random open_for try_send j in
      go_on (handle account_nonce random open_for try_send e sent)
        (handle-IsSound e sent (
          Same-IsTracked j sent
            (send_loop-Same account_nonce random open_for try_send
              (suc (length j.sim_tree.ready_orders)) j)
            h))
        (run-keep es)
    where
      go_on :
          (x : Bool × SimulationJob)
          → IsSound x
          → ((k : SimulationJob)
              → IsTracked k
              → IsPaired (run account_nonce random open_for try_send es k).slot_sim_results)
          → IsPaired
              (elim x.0 as (λ b. SimulationJob) [
                | true ↦ run account_nonce random open_for try_send es x.1
                | false ↦ x.1
              ]).slot_sim_results
      go_on (true, k) s f = f k (s.1 refl)
      go_on (false, k) s f = s.0

  -- Whatever the events, the channels and the nonces, a new job sends no order downstream that
  -- stands there already, and no cancellation of an order that does not.
  pub run-IsPaired :
      (t : SimTree) (es : List Event)
      → IsPaired (run account_nonce random open_for try_send es (new t)).slot_sim_results
  unfolding IsPaired stands
  run-IsPaired t es = run-keep es (new t) (tt, λ i. refl)

  -- A cancellation that does not fail leaves the order not in flight. It stands downstream
  -- afterwards if and only if it stood there and was in flight again.
  pub process_order_cancellation_lem :
      (i : OrderId) (j : SimulationJob)
      → IsTracked j
      → (process_order_cancellation account_nonce random open_for try_send i j).0 ≡ true
      → (contains
            (process_order_cancellation account_nonce random open_for try_send i
              j).1.in_flight_orders
            i
          ≡ false)
        × (stands i
              (process_order_cancellation account_nonce random open_for try_send i
                j).1.slot_sim_results
            ≡ (contains j.in_flight_orders i && stands i j.slot_sim_results))
  unfolding process_order_cancellation send_cancel send stands
  process_order_cancellation_lem i j (paired, agree) ok =
      ground (arith, agree i, contains-set_remove i j.in_flight_orders i, order_id_eq.same_iff i i)
