-- ===== src/BlockOrders/Store.antt =====
-- crates/rbuilder/src/building/block_orders/prioritized_order_store.rs, over any priority and any
-- queue. `none` is the panic of an `expect`; traces and metrics are left out. A `HashSet` is a list
-- without repetitions, whose order stands for the table's.
pub mod Ready
use constraints_builder.Shared.{
  ℕ, ◌+◌, Bool, true, false, ◌&&◌, not, Option, none, some, List, [], ◌∷◌, ◌++◌, ltb, nat_beq,
  if◌then◌else◌, ◌==◌, nat_eq, set_insert, filter, KeyEq, ◌↔◌, ◌≡◌, arith, pair_eq,
}
use constraints_builder.Shared.Map
use constraints_builder.Shared.Map.{Map, lookup, or_default, contains_key}
use constraints_builder.Primitives.Tx.{Address}
use constraints_builder.Primitives.Orders.{OrderId, order_id_eq}
use constraints_builder.Primitives.SimValue.{SimulatedOrder, sim_id}
use constraints_builder.Primitives.Nonces
use constraints_builder.Primitives.Nonces.{Nonce, AccountNonce}
use constraints_builder.Primitives.Statistics
use constraints_builder.Primitives.Statistics.{OrderStatistics}
use constraints_builder.BlockOrders.Queue.{OrderPriority, PriorityQueue}

abbrev pub account_nonce_same : AccountNonce → AccountNonce → Bool
account_nonce_same x y = nat_beq x.nonce y.nonce && nat_beq x.account y.account

pub account_nonce_same_iff : (x y : AccountNonce) → (account_nonce_same x y ≡ true) ↔ (x ≡ y)
account_nonce_same_iff x y = ground arith

instance abbrev pub account_nonce_eq : KeyEq AccountNonce
account_nonce_eq = record { same = account_nonce_same; same_iff = account_nonce_same_iff }

abbrev pub sim_nonces : SimulatedOrder → List Nonce
sim_nonces o = Nonces.nonces o.order

pub record PrioritizedOrderStore (Queue : Type 0) : Type 0 where
  pub main_queue : Queue
  pub main_queue_nonces : Map Address (List OrderId)
  pub onchain_nonces : Map Address ℕ
  pub pending_orders : Map AccountNonce (List OrderId)
  pub orders : Map OrderId SimulatedOrder
  pub orders_statistics : OrderStatistics

-- `onchain_nonces.get(&address).cloned().unwrap_or_default()`
abbrev pub onchain : Map Address ℕ → Address → ℕ
onchain nonces a = or_default 0 (lookup a nonces)

-- The loop of `insert_order`: `none` is its early return, else the nonces that are still to come.
unfoldable pub pending_nonces : Map Address ℕ → List Nonce → Option (List AccountNonce)
pending_nonces chain [] = some []
pending_nonces chain (n ∷ ns) =
    let rest = pending_nonces chain ns in
    let here = onchain chain n.address in
    if ltb n.nonce here && not n.optional
    then none
    else if ltb here n.nonce && not n.optional
    then elim rest [
      | none ↦ none
      | some later ↦ some ((record { nonce = n.nonce; account = n.address }) ∷ later)
    ]
    else rest

-- `entry(nonce.address).or_default().push(id)` for each nonce.
unfoldable pub index_add :
    OrderId → List Nonce → Map Address (List OrderId) → Map Address (List OrderId)
index_add i [] index = index
index_add i (n ∷ ns) index =
    index_add i ns (Map.insert n.address (or_default [] (lookup n.address index) ++ i ∷ []) index)

-- `retain(|id| *id != sim_order.id())` in the entry of each nonce, if it is there.
unfoldable pub index_drop :
    OrderId → List Nonce → Map Address (List OrderId) → Map Address (List OrderId)
index_drop i [] index = index
index_drop i (n ∷ ns) index = index_drop i ns (elim (lookup n.address index) [
  | none ↦ index
  | some ids ↦ Map.insert n.address (filter (λ j. not (j == i)) ids) index
])

unfoldable pub pending_add :
    OrderId → List AccountNonce → Map AccountNonce (List OrderId) → Map AccountNonce (List OrderId)
pending_add i [] pending = pending
pending_add i (n ∷ ns) pending =
    pending_add i ns (Map.insert n (set_insert i (or_default [] (lookup n pending))) pending)

-- The loop over the nonces of an invalidated order: whether it stays valid, and how many of its
-- nonces are now due.
unfoldable pub count_valid : Map Address ℕ → List Nonce → ℕ → Bool × ℕ
count_valid chain [] valid_nonces = (true, valid_nonces)
count_valid chain (n ∷ ns) valid_nonces =
    let here = onchain chain n.address in
    let rest =
      count_valid chain ns (if nat_beq here n.nonce then valid_nonces + 1 else valid_nonces) in
    if ltb n.nonce here && not n.optional then (false, valid_nonces) else rest

unfoldable pub set_onchain : List AccountNonce → Map Address ℕ → Map Address ℕ
set_onchain [] m = m
set_onchain (n ∷ ns) m = set_onchain ns (Map.insert n.account n.nonce m)

unfoldable pub add_all : List OrderId → List OrderId → List OrderId
add_all [] set = set
add_all (i ∷ ids) set = add_all ids (set_insert i set)

module _ (O : OrderPriority) (Q : PriorityQueue O) where
  open Q use {Queue}

  abbrev pub Store : Type 0
  Store = PrioritizedOrderStore Queue

  unfoldable pub new : List AccountNonce → Store
  new initial_onchain_nonces = record {
    main_queue = Q.new;
    main_queue_nonces = [];
    onchain_nonces = set_onchain initial_onchain_nonces [];
    pending_orders = [];
    orders = [];
    orders_statistics = Statistics.default;
  }

  -- The removed order, if it was there, goes out of the statistics.
  unfoldable pub remove_from_orders : OrderId → Store → Option SimulatedOrder × Store
  remove_from_orders i s = elim (lookup i s.orders) [
    | none ↦ (none, s)
    | some o ↦ (
      some o,
      record s {
        orders = Map.remove i s.orders;
        orders_statistics = Statistics.remove s.orders_statistics o.order;
      },
    )
  ]

  unfoldable pub remove_poped_order : OrderId → Store → Option SimulatedOrder × Store
  remove_poped_order i s =
      let (removed, rest) = remove_from_orders i s in
      elim removed [
        | none ↦ (none, rest)
        | some o ↦ (
          some o,
          record rest {
            main_queue_nonces = index_drop (sim_id o) (sim_nonces o) rest.main_queue_nonces;
          },
        )
      ]

  unfoldable pub pop_order : Store → Option (Option SimulatedOrder × Store)
  pop_order s = elim (Q.pop s.main_queue) [
    | none ↦ some (none, s)
    | some (i, p) ↦
        let (removed, rest) =
          remove_poped_order i (record s { main_queue = Q.remove i s.main_queue }) in
        elim removed [ none ↦ none | some o ↦ some (some o, rest) ]
  ]

  -- The two ways in which an order is kept: ready, or waiting.
  unfoldable pub file : SimulatedOrder → List AccountNonce → Store → Store
  file o [] s = record s {
    main_queue = Q.push (sim_id o) (O.new o) s.main_queue;
    main_queue_nonces = index_add (sim_id o) (sim_nonces o) s.main_queue_nonces;
  }
  file o (n ∷ ns) s = record s { pending_orders = pending_add (sim_id o) (n ∷ ns) s.pending_orders }

  unfoldable pub insert_order : SimulatedOrder → Store → Store
  insert_order o s =
      if contains_key (sim_id o) s.orders
      then s
      else elim (pending_nonces s.onchain_nonces (sim_nonces o)) [
        | none ↦ s
        | some pending ↦
            let filed = file o pending s in
            record filed {
              orders_statistics = Statistics.add filed.orders_statistics o.order;
              orders = Map.insert (sim_id o) o filed.orders;
            }
      ]

  -- `if main_queue.remove(&id).is_some() { remove_poped_order(&id) }`
  unfoldable pub unqueue : OrderId → Store → Store
  unqueue i s = elim (Q.get_priority i s.main_queue) [
    | none ↦ s
    | some p ↦ (remove_poped_order i (record s { main_queue = Q.remove i s.main_queue })).1
  ]

  unfoldable pub remove_order : OrderId → Store → Option SimulatedOrder × Store
  remove_order i s = remove_from_orders i (unqueue i s)

  -- The first loop of `update_onchain_nonces`: the new nonces are noted, and the orders that are
  -- ready on one of their accounts are collected.
  unfoldable pub invalidate : List AccountNonce → List OrderId → Store → List OrderId × Store
  invalidate [] invalidated s = (invalidated, s)
  invalidate (n ∷ ns) invalidated s =
      invalidate ns (add_all (or_default [] (lookup n.account s.main_queue_nonces)) invalidated)
        (record s {
          onchain_nonces = Map.insert n.account n.nonce s.onchain_nonces;
          main_queue_nonces = Map.remove n.account s.main_queue_nonces;
        })

  -- The body of the second loop.
  unfoldable pub revalidate : OrderId → Store → Option Store
  revalidate i s =
      let (removed, rest) =
        remove_poped_order i (record s { main_queue = Q.remove i s.main_queue }) in
      elim removed [
        | none ↦ none
        | some o ↦
            let (valid, valid_nonces) = count_valid rest.onchain_nonces (sim_nonces o) 0 in
            some (if valid && ltb 0 valid_nonces then insert_order o rest else rest)
      ]

  unfoldable pub revalidate_all : List OrderId → Store → Option Store
  revalidate_all [] s = some s
  revalidate_all (i ∷ ids) s = elim (revalidate i s) [
    | none ↦ none
    | some s' ↦ revalidate_all ids s'
  ]

  unfoldable pub take_orders : List OrderId → Store → List SimulatedOrder × Store
  take_orders [] s = ([], s)
  take_orders (i ∷ ids) s =
      let (removed, s') = remove_from_orders i s in
      let (taken, s'') = take_orders ids s' in
      (elim removed [ none ↦ taken | some o ↦ o ∷ taken ], s'')

  unfoldable pub insert_all : List SimulatedOrder → Store → Store
  insert_all [] s = s
  insert_all (o ∷ os) s = insert_all os (insert_order o s)

  -- The last loop: the orders that waited for one of the new nonces are inserted again.
  unfoldable pub release_pending : List AccountNonce → Store → Store
  release_pending [] s = s
  release_pending (n ∷ ns) s = release_pending ns (elim (lookup n s.pending_orders) [
    | none ↦ s
    | some ids ↦
        let (taken, s') =
          take_orders ids (record s { pending_orders = Map.remove n s.pending_orders }) in
        insert_all taken s'
  ])

  unfoldable pub update_onchain_nonces : List AccountNonce → Store → Option Store
  update_onchain_nonces new_nonces s =
      let (invalidated, s') = invalidate new_nonces [] s in
      elim (revalidate_all invalidated s') [
        | none ↦ none
        | some s'' ↦ some (release_pending new_nonces s'')
      ]
