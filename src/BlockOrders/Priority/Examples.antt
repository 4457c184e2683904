-- ===== src/BlockOrders/Priority/Examples.antt =====
-- The theorem on order_priority.rs at concrete inputs.
use Prim.Native.Nat.{Ordering}
use constraints_builder.Shared.{ℕ, ◌≡◌, ◌≢◌, ◌↔◌, true, List, none, []}
use constraints_builder.Primitives.Examples.{sample_tx}
use constraints_builder.Primitives.Orders.{Order}
use constraints_builder.Primitives.SimValue
use constraints_builder.Primitives.SimValue.{SimulatedOrder, sim_id}
use constraints_builder.BlockOrders.Priority.{
  NamedPriority, ProfitInfoGetter, comparisons, priority_cmp, priority_eq, Cmp,
}
use constraints_builder.BlockOrders.Priority.Total.{priority_cmp-IsTotal, flip}

abbrev pub simulated : ℕ → ℕ → SimulatedOrder
simulated hash profit = record {
  order = Order.tx (sample_tx hash 9 4);
  sim_value =
      SimValue.sim_value profit profit (record { gas = 21000; rlp_length = 110; blob_gas = 0 }) [];
  used_state_trace = none;
}

abbrev cs : List Cmp
cs = comparisons NamedPriority.order_type ProfitInfoGetter.full_profit

priority_cmp-IsTotal_example :
    ((priority_eq cs (simulated 1 30) (simulated 2 30) ≡ true)
      ↔ (priority_cmp cs (simulated 1 30) (simulated 2 30) ≡ Ordering.eq))
    × (priority_cmp cs (simulated 1 30) (simulated 2 30) ≡ Ordering.eq
        → sim_id (simulated 1 30) ≡ sim_id (simulated 2 30))
    × (priority_cmp cs (simulated 2 30) (simulated 1 30)
        ≡ flip (priority_cmp cs (simulated 1 30) (simulated 2 30)))
    × (priority_cmp cs (simulated 1 30) (simulated 2 30) ≢ Ordering.gt
        → priority_cmp cs (simulated 2 30) (simulated 3 70) ≢ Ordering.gt
        → priority_cmp cs (simulated 1 30) (simulated 3 70) ≢ Ordering.gt)
priority_cmp-IsTotal_example =
    priority_cmp-IsTotal cs (simulated 1 30) (simulated 2 30) (simulated 3 70)
