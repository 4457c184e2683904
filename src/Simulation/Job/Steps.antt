-- ===== src/Simulation/Job/Steps.antt =====
-- The commands and the order of the messages of `SimulationJob` (simulation_job.rs), one handler after
-- the other.
use constraints_builder.Shared.{
  ℕ, ◌∙◌, zero, suc, ◌≡◌, refl, Bool, true, false, Bool-cases, inl, inr, Option, List, [], ◌∷◌,
  arith, if◌then◌else◌, ◌==◌, contains, contains-set_remove, contains-set_insert, is_empty, filter,
}
use constraints_builder.Primitives.Orders
use constraints_builder.Primitives.Orders.{Order, OrderId, order_id_eq}
use constraints_builder.Primitives.SimValue.{sim_id}
use constraints_builder.Simulation.Job.{
  SimulatedOrderCommand, SimulationJob, note_received, note_simulated, Address, SimulationId,
  SimulationRequest, send, deliver, send_cancel, process_order_cancellation, request_all, send_loop,
  process_new_order, process_new_commands, SimulatedResult, request, pop_simulation_tasks,
  OrderPoolCommand, order_still_valid,
}

-- Whether an order stands downstream after the commands, of which the latest is the first.
unfoldable pub stands : OrderId → List SimulatedOrderCommand → Bool
stands i [] = false
stands i (SimulatedOrderCommand.simulation o ∷ log) = if sim_id o == i then true else stands i log
stands i (SimulatedOrderCommand.cancellation j ∷ log) = if j == i then false else stands i log

-- No order is sent that stands, and none cancelled that does not.
unfoldable pub IsPaired : List SimulatedOrderCommand → Type 0
IsPaired [] = Unit
IsPaired (SimulatedOrderCommand.simulation o ∷ log) = (stands (sim_id o) log ≡ false) × IsPaired log
IsPaired (SimulatedOrderCommand.cancellation i ∷ log) = (stands i log ≡ true) × IsPaired log

abbrev pub IsTracked : SimulationJob → Type 0
IsTracked j =
    IsPaired j.slot_sim_results
    × ((i : OrderId)
        → contains j.not_cancelled_sent_simulated_orders i ≡ stands i j.slot_sim_results)

-- A job that goes on knows what stands; one that ends has sent nothing out of place.
abbrev pub IsSound : Bool × SimulationJob → Type 0
IsSound x = IsPaired x.1.slot_sim_results × (x.0 ≡ true → IsTracked x.1)

-- The two fields that matter here stay.
abbrev pub Same : SimulationJob → SimulationJob → Type 0
Same j k =
    (k.slot_sim_results ≡ j.slot_sim_results)
    × (k.not_cancelled_sent_simulated_orders ≡ j.not_cancelled_sent_simulated_orders)

pub Same-IsTracked : (j k : SimulationJob) → Same j k → IsTracked j → IsTracked k
Same-IsTracked j k (sent, known) (paired, agree) = (rw sent paired, rw (sent, known) agree)

pub note_received-Same : (o : Order) (j : SimulationJob) → Same j (note_received o j)
unfolding note_received
note_received-Same o j = ground arith

pub note_simulated-Same : (o : Order) (j : SimulationJob) → Same j (note_simulated o j)
unfolding note_simulated
note_simulated-Same o j = ground arith

module _ (account_nonce : Address → Option ℕ) (random : ℕ → SimulationId)
    (open_for : List SimulatedOrderCommand → SimulatedOrderCommand → Bool)
    (try_send : List SimulationRequest → SimulationRequest → Bool) where
  pub deliver-IsSound :
      (r : SimulatedResult) (j : SimulationJob)
      → IsTracked j
      → IsSound (deliver account_nonce random open_for try_send r j)
  unfolding deliver send IsPaired stands
  deliver-IsSound r j (paired, agree) =
      let i = sim_id r.simulated_order in
      elim (Bool-cases (contains j.not_cancelled_sent_simulated_orders i)) [
        | inl e ↦ rw e (paired, λ ok. (paired, agree))
        | inr e ↦
            elim (Bool-cases
              (open_for j.slot_sim_results (SimulatedOrderCommand.simulation r.simulated_order))) [
                | inl d ↦
                    rw (e, d)
                      (
                        (ground (arith, e, agree i), paired),
                        λ ok. (
                          (ground (arith, e, agree i), paired),
                          λ k. ground (
                            arith,
                            agree k,
                            contains-set_insert i j.not_cancelled_sent_simulated_orders k,
                          ),
                        ),
                      )
                | inr d ↦ rw (e, d) (paired, λ ok. ground (arith, ok))
              ]
      ]

  pub send_cancel-IsSound :
      (i : OrderId) (j : SimulationJob)
      → IsTracked j
      → IsSound (send_cancel account_nonce random open_for try_send i j)
  unfolding send_cancel send IsPaired stands
  send_cancel-IsSound i j (paired, agree) =
      elim (Bool-cases (contains j.not_cancelled_sent_simulated_orders i)) [
        | inl e ↦
            elim (Bool-cases (open_for j.slot_sim_results (SimulatedOrderCommand.cancellation i))) [
              | inl d ↦
                  rw (e, d)
                    (
                      (ground (arith, e, agree i), paired),
                      λ ok. (
                        (ground (arith, e, agree i), paired),
                        λ k. ground (
                          arith,
                          agree k,
                          contains-set_remove i j.not_cancelled_sent_simulated_orders k,
                        ),
                      ),
                    )
              | inr d ↦ rw (e, d) (paired, λ ok. ground (arith, ok))
            ]
        | inr e ↦ rw e (paired, λ ok. (paired, agree))
      ]

  pub process_order_cancellation-IsSound :
      (i : OrderId) (j : SimulationJob)
      → IsTracked j
      → IsSound (process_order_cancellation account_nonce random open_for try_send i j)
  unfolding process_order_cancellation
  process_order_cancellation-IsSound i j h = elim (Bool-cases (contains j.in_flight_orders i)) [
    | inl e ↦ rw e (h.0, λ ok. h)
    | inr e ↦ rw e (send_cancel-IsSound i j h)
  ]

  pub request_all-Same :
      (rs : List SimulationRequest) (j : SimulationJob)
      → Same j (request_all account_nonce random open_for try_send rs j)
  unfolding request_all request
  request_all-Same [] j = (refl, refl)
  request_all-Same (r ∷ rs) j =
      let (a, b) = request_all-Same rs (request account_nonce random open_for try_send r j) in
      elim (Bool-cases (try_send j.sim_requests r)) [
        | inl e ↦ ground (arith, a, b, e)
        | inr e ↦ ground (arith, a, b, e)
      ]

  pub send_loop-Same :
      (fuel : ℕ) (j : SimulationJob)
      → Same j (send_loop account_nonce random open_for try_send fuel j)
  unfolding send_loop
  send_loop-Same zero j = (refl, refl)
  send_loop-Same (suc fuel) j =
      let (tasks, tree) = pop_simulation_tasks 1024 j.sim_tree in
      let popped : SimulationJob = record j { sim_tree = tree } in
      let valid = filter (λ s. order_still_valid (Orders.id s.order) popped) tasks in
      let sent = request_all account_nonce random open_for try_send valid popped in
      let (a, b) = request_all-Same valid popped in
      let (c, d) = send_loop-Same fuel sent in
      elim (Bool-cases (is_empty tasks)) [
        | inl e ↦ rw (e, send_loop) (refl, refl)
        | inr e ↦ rw (e, send_loop) (c ∙ a, d ∙ b)
      ]

  pub process_new_order-Same :
      (o : Order) (j : SimulationJob)
      → Same j (process_new_order account_nonce random open_for try_send o j).1
  unfolding process_new_order
  process_new_order-Same o j = ground (arith, note_received-Same o j)

  pub process_new_commands-IsSound :
      (cs : List OrderPoolCommand) (j : SimulationJob)
      → IsTracked j
      → IsSound (process_new_commands account_nonce random open_for try_send cs j)
  unfolding process_new_commands
  process_new_commands-IsSound [] j h = (h.0, λ ok. h)
  process_new_commands-IsSound (OrderPoolCommand.insert o ∷ cs) j h =
      let done = process_new_order account_nonce random open_for try_send o j in
      process_new_commands-IsSound cs done.1
        (Same-IsTracked j done.1 (process_new_order-Same o j) h)
  process_new_commands-IsSound (OrderPoolCommand.remove i ∷ cs) j h =
      go_on (process_order_cancellation account_nonce random open_for try_send i j)
        (process_order_cancellation-IsSound i j h) (process_new_commands-IsSound cs)
    where
      go_on :
          (x : Bool × SimulationJob)
          → IsSound x
          → ((k : SimulationJob)
              → IsTracked k
              → IsSound (process_new_commands account_nonce random open_for try_send cs k))
          → IsSound (elim x.0 [
            | true ↦ process_new_commands account_nonce random open_for try_send cs x.1
            | false ↦ (false, x.1)
          ])
      go_on (true, k) s f = f k (s.1 refl)
      go_on (false, k) s f = s
