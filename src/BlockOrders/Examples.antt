-- ===== src/BlockOrders/Examples.antt =====
-- The block order store on concrete data, with a table for its queue.
use constraints_builder.Shared.{
  ℕ, Bool-cases, Option-cases, inl, inr, true, Option, none, some, [], ◌∷◌, ◌==◌, ◌≡◌, refl, arith,
  leb, if◌then◌else◌, Bool-cases, Option-cases, nat_beq,
}
use constraints_builder.Shared.Map
use constraints_builder.Shared.Map.{
  Map, lookup, lookup-insert, lookup-empty, lookup-remove, contains_key,
}
use constraints_builder.Primitives.Orders.{OrderId, order_id_eq, Order}
use constraints_builder.Primitives.SimValue
use constraints_builder.Primitives.Nonces
use constraints_builder.Primitives.Orders
use constraints_builder.Primitives.Examples.{sample_tx}
use constraints_builder.Primitives.SimValue.{SimulatedOrder, sim_id}
use constraints_builder.BlockOrders.Queue.{OrderPriority, PriorityQueue}
use constraints_builder.BlockOrders.Store.{
  new, Store, insert_order, remove_order, file, pending_nonces, set_onchain, revalidate_all,
  invalidate, add_all, release_pending,
}
use constraints_builder.BlockOrders.Store.Ready.{
  IsReady, insert_order-IsReady, remove_order-IsReady, pop_order_lem, remove_order_lem, Leaves,
  Pops,
}
use constraints_builder.Primitives.Tx.{Address}
use constraints_builder.Simulation.Job.{SimulatedOrderCommand}
use constraints_builder.BlockOrders.Intake.{Received}
use constraints_builder.BlockOrders.Intake.Consumer.{
  Outcome, Consumer, blocking_consume_next_batch, new_consumer,
}

-- The priority `by profit`.
abbrev by_profit : OrderPriority
by_profit = record {
  Priority = ℕ;
  new = λ o. o.sim_value.full_profit_info.coinbase_profit;
  le = leb;
}

unfoldable better : OrderId → Option ℕ → Option (OrderId × ℕ) → Option (OrderId × ℕ)
better i none other = other
better i (some p) none = some (i, p)
better i (some p) (some (j, r)) = if leb r p then some (i, p) else some (j, r)

unfoldable best : Map OrderId ℕ → Map OrderId ℕ → Option (OrderId × ℕ)
best [] q = none
best ((i, w) ∷ rest) q = better i (lookup i q) (best rest q)

better-get :
    (k : OrderId) (x : Option ℕ) (y : Option (OrderId × ℕ)) (i : OrderId) (p : ℕ)
    (q : Map OrderId ℕ)
    → lookup k q ≡ x
    → ((j : OrderId) (r : ℕ) → y ≡ some (j, r) → lookup j q ≡ some r)
    → better k x y ≡ some (i, p)
    → lookup i q ≡ some p
unfolding better
better-get k none y i p q h f e = f i p e
better-get k (some w) none i p q h f e = ground arith
better-get k (some w) (some (j, r)) i p q h f e = ground (arith, f j r refl)

best-get :
    (m q : Map OrderId ℕ) (i : OrderId) (p : ℕ) → best m q ≡ some (i, p) → lookup i q ≡ some p
unfolding best
best-get [] q i p e = ground arith
best-get ((k, w) ∷ m) q i p e =
    better-get k (lookup k q) (best m q) i p q refl (λ j r. best-get m q j r) e

better-none :
    (k : OrderId) (x : Option ℕ) (y : Option (OrderId × ℕ))
    → better k x y ≡ none
    → (x ≡ none) × (y ≡ none)
unfolding better
better-none k none y e = (refl, e)
better-none k (some w) none e = ground arith
better-none k (some w) (some (j, r)) e = ground arith

best-none :
    (m q : Map OrderId ℕ) (i : OrderId) (r : ℕ)
    → best m q ≡ none
    → lookup i m ≡ some r
    → lookup i q ≡ none
unfolding best lookup
best-none [] q i r e h = ground arith
best-none ((k, w) ∷ m) q i r e h =
    let (here, later) = better-none k (lookup k q) (best m q) e in
    ground (arith, here, best-none m q i r later, order_id_eq.same_iff k i)

better-max :
    (k : OrderId) (x : Option ℕ) (y : Option (OrderId × ℕ)) (i : OrderId) (p : ℕ)
    → better k x y ≡ some (i, p)
    → ((w : ℕ) → x ≡ some w → leb w p ≡ true)
      × ((j : OrderId) (w : ℕ) → y ≡ some (j, w) → leb w p ≡ true)
unfolding better
better-max k none y i p e = (λ w h. ground arith, λ j w h. ground arith)
better-max k (some v) none i p e = (λ w h. ground arith, λ j w h. ground arith)
better-max k (some v) (some (l, u)) i p e = (λ w h. ground arith, λ j w h. ground arith)

best-max :
    (m q : Map OrderId ℕ) (i j : OrderId) (p w r : ℕ)
    → best m q ≡ some (i, p)
    → lookup j m ≡ some w
    → lookup j q ≡ some r
    → leb r p ≡ true
unfolding best lookup
best-max [] q i j p w r e h g = ground arith
best-max ((k, v) ∷ m) q i j p w r e h g =
    let (first, other) = better-max k (lookup k q) (best m q) i p e in
    elim (Bool-cases (k == j)) [
      | inl c ↦ first r (ground (arith, order_id_eq.same_iff k j))
      | inr c ↦ elim (Option-cases (best m q)) [
        | inl d ↦ ground (arith, best-none m q j w d)
        | inr ((l, u), d) ↦ ground (arith, other l u d, best-max m q l j u w r d)
      ]
    ]

pop-none : (q : Map OrderId ℕ) (i : OrderId) → best q q ≡ none → lookup i q ≡ none
pop-none q i e = elim (Option-cases (lookup i q)) [ inl d ↦ d | inr (r, d) ↦ best-none q q i r e d ]

abbrev table : PriorityQueue by_profit
table = record {
  Queue = Map OrderId ℕ;
  new = [];
  get_priority = lookup;
  push = Map.insert;
  remove = Map.remove;
  pop = λ q. best q q;
  get-new = lookup-empty;
  get-push = λ i j p q. lookup-insert i j p q;
  get-remove = λ i j q. lookup-remove i j q;
  get-pop = λ q i p e. best-get q q i p e;
  pop-none = pop-none;
  pop-max = λ q i j p r e g. best-max q q i j p r r e g g;
}

abbrev simulated : ℕ → ℕ → ℕ → ℕ → SimulatedOrder
simulated hash signer nonce profit = record {
  order = Order.tx (sample_tx hash signer nonce);
  sim_value =
      SimValue.sim_value profit profit (record { gas = 21000; rlp_length = 110; blob_gas = 0 }) [];
  used_state_trace = none;
}

-- Signer 9 is at nonce 4: its first transaction is due, its second one waits.
abbrev empty_store : Store by_profit table
empty_store =
    new by_profit table
      ((record { nonce = 4; account = 9 }) ∷ (record { nonce = 0; account = 5 }) ∷ [])

abbrev two_orders : Store by_profit table
two_orders =
    insert_order by_profit table (simulated 2 9 5 70)
      (insert_order by_profit table (simulated 1 9 4 30) empty_store)

empty_store-IsReady : IsReady by_profit table empty_store
unfolding new
empty_store-IsReady i p e = ground (arith, lookup-empty {V = ℕ} i)

two_orders-IsReady : IsReady by_profit table two_orders
two_orders-IsReady =
    insert_order-IsReady by_profit table
      (insert_order by_profit table (simulated 1 9 4 30) empty_store)
      (insert_order-IsReady by_profit table empty_store empty_store-IsReady (simulated 1 9 4 30))
      (simulated 2 9 5 70)

insert_order-IsReady_example :
    IsReady by_profit table (insert_order by_profit table (simulated 3 5 0 90) two_orders)
insert_order-IsReady_example =
    insert_order-IsReady by_profit table two_orders two_orders-IsReady (simulated 3 5 0 90)

remove_order-IsReady_example :
    IsReady by_profit table (remove_order by_profit table (OrderId.tx 1) two_orders).1
    × Leaves by_profit table
        (OrderId.tx 1)
        two_orders
        (remove_order by_profit table (OrderId.tx 1) two_orders).1
remove_order-IsReady_example =
    remove_order-IsReady by_profit table two_orders two_orders-IsReady (OrderId.tx 1)

-- The order is there, and is not given back.
remove_order_lem_example :
    ((remove_order by_profit table (OrderId.tx 1) two_orders).0 ≡ none)
    × (lookup (OrderId.tx 1) (remove_order by_profit table (OrderId.tx 1) two_orders).1.main_queue
        ≡ none)
    × (lookup (OrderId.tx 1) (remove_order by_profit table (OrderId.tx 1) two_orders).1.orders
        ≡ none)
unfolding insert_order new file lookup contains_key pending_nonces Map.insert Nonces.nonces
    set_onchain Orders.id
remove_order_lem_example = remove_order_lem by_profit table (OrderId.tx 1) two_orders

pop_order_lem_example : Pops by_profit table two_orders
pop_order_lem_example = pop_order_lem by_profit table two_orders two_orders-IsReady

-- The chain is at nonce 4 for every signer, and the nonce of signer 5 may not be readable.
abbrev all_readable : Address → Option ℕ
all_readable a = some 4

abbrev one_unreadable : Address → Option ℕ
one_unreadable a = if nat_beq a 5 then none else some 4

abbrev arrival : SimulatedOrder → Received
arrival o = Received.order (SimulatedOrderCommand.simulation o)

-- Two orders that are due, of the signers 9 and 5, and a batch with nothing new.
abbrev batches_after : (Address → Option ℕ) → Outcome × Consumer by_profit table
batches_after nonce =
    blocking_consume_next_batch by_profit table Received.lagged [] all_readable
      (blocking_consume_next_batch by_profit table (arrival (simulated 1 9 4 30))
        (arrival (simulated 2 5 4 70) ∷ []) nonce (new_consumer by_profit table)).1

batches_test :
    lookup (OrderId.tx 1) (batches_after all_readable).1.block_orders.main_queue ≡ some 30
unfolding blocking_consume_next_batch new_consumer insert_order new file lookup contains_key
    pending_nonces Map.insert Nonces.nonces set_onchain Orders.id revalidate_all invalidate add_all
    Map.remove release_pending SimValue.sim_value
batches_test = refl

-- After an error the nonce that was read is not read again, so the order waits for nonce 4 in vain.
failed_batch_test :
    lookup (OrderId.tx 1) (batches_after one_unreadable).1.block_orders.main_queue ≡ none
unfolding blocking_consume_next_batch new_consumer insert_order new file lookup contains_key
    pending_nonces Map.insert Nonces.nonces set_onchain Orders.id revalidate_all invalidate add_all
    Map.remove release_pending SimValue.sim_value
failed_batch_test = refl
