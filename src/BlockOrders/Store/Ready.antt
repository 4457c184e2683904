-- ===== src/BlockOrders/Store/Ready.antt =====
-- The main queue of prioritized_order_store.rs.
use constraints_builder.Shared.{
  true, false, none, some, [], ◌∷◌, ◌==◌, if◌then◌else◌, ◌≡◌, ◌⊎◌, refl, arith, ℕ, List,
}
use constraints_builder.Shared.{All, Option-cases, Bool-cases, inl, inr}
use constraints_builder.Shared.Map.{lookup, contains_key, lookup-insert, lookup-remove}
use constraints_builder.Primitives.Orders.{OrderId, order_id_eq}
use constraints_builder.Primitives.SimValue.{SimulatedOrder, sim_id}
use constraints_builder.BlockOrders.Queue.{OrderPriority, PriorityQueue}
use constraints_builder.BlockOrders.Store.{
  Store, onchain, sim_nonces, pending_nonces, pop_order, insert_order, remove_order,
  remove_from_orders, remove_poped_order, file, unqueue, Map, Address, Nonce,
}

-- A nonce is the chain's, or optional.
abbrev pub IsDue : Map Address ℕ → Nonce → Type 0
IsDue chain n = (n.optional ≡ true) ⊎ (onchain chain n.address ≡ n.nonce)

pending_nonces-IsDue :
    (chain : Map Address ℕ) (ns : List Nonce)
    → pending_nonces chain ns ≡ some []
    → All (IsDue chain) ns
unfolding pending_nonces
pending_nonces-IsDue chain [] h = tt
pending_nonces-IsDue chain (n ∷ ns) h =
    let rest = pending_nonces-IsDue chain ns in (ground (arith, h), rest (ground (arith, h)))

module _ (O : OrderPriority) (Q : PriorityQueue O) where
  -- The order `o` stands for the id `i` with the priority `p`, and none of its nonces is ahead of
  -- the chain or, if mandatory, behind it.
  abbrev pub Stands : Store O Q → OrderId → O.Priority → SimulatedOrder → Type 0
  Stands s i p o =
      (lookup i s.orders ≡ some o)
      × (sim_id o ≡ i)
      × (O.new o ≡ p)
      × All (IsDue s.onchain_nonces) (sim_nonces o)

  abbrev pub IsReady : Store O Q → Type 0
  IsReady s =
      (i : OrderId) (p : O.Priority)
      → Q.get_priority i s.main_queue ≡ some p
      → (o : SimulatedOrder) × Stands s i p o

  remove_from_orders_lem :
      (i : OrderId) (s : Store O Q)
      → ((remove_from_orders O Q i s).0 ≡ lookup i s.orders)
        × ((remove_from_orders O Q i s).1.main_queue ≡ s.main_queue)
        × ((remove_from_orders O Q i s).1.onchain_nonces ≡ s.onchain_nonces)
        × ((j : OrderId)
            → lookup j (remove_from_orders O Q i s).1.orders
              ≡ (if i == j then none else lookup j s.orders))
  unfolding remove_from_orders
  remove_from_orders_lem i s = elim (Option-cases (lookup i s.orders)) [
    | inl e ↦
        rw (e, remove_from_orders) (refl, refl, refl, λ j. ground (arith, order_id_eq.same_iff i j))
    | inr (o, e) ↦ rw (e, remove_from_orders) (refl, refl, refl, λ j. lookup-remove i j s.orders)
  ]

  remove_poped_order_lem :
      (i : OrderId) (s : Store O Q)
      → ((remove_poped_order O Q i s).0 ≡ lookup i s.orders)
        × ((remove_poped_order O Q i s).1.main_queue ≡ s.main_queue)
        × ((remove_poped_order O Q i s).1.onchain_nonces ≡ s.onchain_nonces)
        × ((j : OrderId)
            → lookup j (remove_poped_order O Q i s).1.orders
              ≡ (if i == j then none else lookup j s.orders))
  unfolding remove_poped_order
  remove_poped_order_lem i s =
      let (found, queue, chain, orders) = remove_from_orders_lem i s in
      elim (Option-cases (remove_from_orders O Q i s).0) [
        | inl e ↦ rw (e, remove_poped_order) (ground (arith, found, e), queue, chain, orders)
        | inr (o, e) ↦ rw (e, remove_poped_order) (ground (arith, found, e), queue, chain, orders)
      ]

  -- One id leaves the queue and the orders.
  abbrev pub Leaves : OrderId → Store O Q → Store O Q → Type 0
  Leaves k s s' =
      ((j : OrderId)
        → Q.get_priority j s'.main_queue ≡ (if k == j then none else Q.get_priority j s.main_queue))
      × ((j : OrderId) → lookup j s'.orders ≡ (if k == j then none else lookup j s.orders))
      × (s'.onchain_nonces ≡ s.onchain_nonces)

  Leaves-IsReady : (k : OrderId) (s s' : Store O Q) → Leaves k s s' → IsReady s → IsReady s'
  Leaves-IsReady k s s' (queue, orders, chain) h i p q = elim (Bool-cases (k == i)) [
    | inl e ↦ ground (arith, queue i)
    | inr e ↦
        let (o, (kept, named, weighed, due)) = h i p (ground (arith, queue i)) in
        (o, (ground (arith, orders i), named, weighed, rw chain due))
  ]

  unqueue_lem :
      (k : OrderId) (s : Store O Q)
      → ((j : OrderId)
          → Q.get_priority j (unqueue O Q k s).main_queue
            ≡ (if k == j then none else Q.get_priority j s.main_queue))
        × ((j : OrderId) → (k == j) ≡ false → lookup j (unqueue O Q k s).orders ≡ lookup j s.orders)
        × ((unqueue O Q k s).onchain_nonces ≡ s.onchain_nonces)
  unfolding unqueue
  unqueue_lem k s = elim (Option-cases (Q.get_priority k s.main_queue)) [
    | inl e ↦ rw (e, unqueue) (λ j. ground (arith, order_id_eq.same_iff k j), λ j d. refl, refl)
    | inr (p, e) ↦
        let s0 : Store O Q = record s { main_queue = Q.remove k s.main_queue } in
        let (found, queue, chain, orders) = remove_poped_order_lem k s0 in
        rw (e, unqueue)
          (
            λ j. ground (arith, queue, Q.get-remove k j s.main_queue),
            λ j d. ground (arith, orders j),
            chain,
          )
  ]

  remove_order-Leaves : (k : OrderId) (s : Store O Q) → Leaves k s (remove_order O Q k s).1
  unfolding remove_order
  remove_order-Leaves k s =
      let (found, queue, chain, orders) = remove_from_orders_lem k (unqueue O Q k s) in
      let (queue', orders', chain') = unqueue_lem k s in
      (
        λ j. ground (arith, queue, queue' j),
        λ j. ground (arith, orders j, orders' j),
        ground (arith, chain, chain'),
      )

  -- `remove_order` keeps the main queue ready, and afterwards the order is in neither the queue nor
  -- the orders.
  pub remove_order-IsReady :
      (s : Store O Q)
      → IsReady s
      → (k : OrderId) → IsReady (remove_order O Q k s).1 × Leaves k s (remove_order O Q k s).1
  remove_order-IsReady s h k =
      let leaves = remove_order-Leaves k s in
      (Leaves-IsReady k s (remove_order O Q k s).1 leaves h, leaves)

  -- `insert_order` keeps the main queue ready: each queued order is kept under its own id with its
  -- own priority, and none of its mandatory nonces is behind or ahead of the chain.
  pub insert_order-IsReady :
      (s : Store O Q) → IsReady s → (o : SimulatedOrder) → IsReady (insert_order O Q o s)
  unfolding insert_order file contains_key
  insert_order-IsReady s h o = elim (Bool-cases (contains_key (sim_id o) s.orders)) [
    | inl e ↦ rw e h
    | inr e ↦ elim (Option-cases (pending_nonces s.onchain_nonces (sim_nonces o))) [
      | inl d ↦ rw (e, d) h
      | inr ([], d) ↦
          rw (e, d)
            (λ i p q. elim (Bool-cases (sim_id o == i)) [
              | inl c ↦ (
                o,
                (
                  ground (arith, lookup-insert (sim_id o) i o s.orders),
                  ground (arith, order_id_eq.same_iff (sim_id o) i),
                  ground (arith, Q.get-push (sim_id o) i (O.new o) s.main_queue),
                  pending_nonces-IsDue s.onchain_nonces (sim_nonces o) d,
                ),
              )
              | inr c ↦
                  let (x, (kept, named, weighed, due)) =
                    h i p (ground (arith, Q.get-push (sim_id o) i (O.new o) s.main_queue)) in
                  (x, (ground (arith, lookup-insert (sim_id o) i o s.orders), named, weighed, due))
            ])
      | inr (n ∷ ns, d) ↦
          rw (e, d)
            (λ i p q.
              let (x, (kept, named, weighed, due)) = h i p q in
              (
                x,
                (
                  ground (
                    arith,
                    lookup-insert (sim_id o) i o s.orders,
                    order_id_eq.same_iff (sim_id o) i,
                  ),
                  named,
                  weighed,
                  due,
                ),
              ))
    ]
  ]

  -- `remove_order` gives the order back when it waits for a nonce, and answers `None` when it is
  -- queued. In both cases the order is afterwards in neither the queue nor the orders.
  pub remove_order_lem :
      (k : OrderId) (s : Store O Q)
      → ((remove_order O Q k s).0
          ≡ elim (Q.get_priority k s.main_queue) [ none ↦ lookup k s.orders | some p ↦ none ])
        × (Q.get_priority k (remove_order O Q k s).1.main_queue ≡ none)
        × (lookup k (remove_order O Q k s).1.orders ≡ none)
  unfolding remove_order unqueue
  remove_order_lem k s = elim (Option-cases (Q.get_priority k s.main_queue)) [
    | inl e ↦
        let (found, queue, chain, orders) = remove_from_orders_lem k s in
        rw (e, unqueue) (found, rw queue e, ground (arith, orders k, order_id_eq.same_iff k k))
    | inr (p, e) ↦
        let s0 : Store O Q = record s { main_queue = Q.remove k s.main_queue } in
        let s1 : Store O Q = (remove_poped_order O Q k s0).1 in
        let (found, queue', chain', orders') = remove_from_orders_lem k s1 in
        let (taken, queue, chain, orders) = remove_poped_order_lem k s0 in
        let removed : Q.get_priority k (Q.remove k s.main_queue) ≡ none =
          ground (arith, Q.get-remove k k s.main_queue, order_id_eq.same_iff k k) in
        rw (e, unqueue)
          (
            ground (arith, found, orders k, order_id_eq.same_iff k k),
            rw (queue', queue) removed,
            ground (arith, orders' k, order_id_eq.same_iff k k),
          )
  ]

  -- What `pop_order` may do.
  abbrev pub Pops : Store O Q → Type 0
  Pops s =
      ((pop_order O Q s ≡ some (none, s)) × ((i : OrderId) → Q.get_priority i s.main_queue ≡ none))
      ⊎ ((i : OrderId) × (p : O.Priority) × (o : SimulatedOrder) × (s' : Store O Q) × (pop_order O Q
              s
            ≡ some (some o, s'))
          × Stands s i p o
          × Leaves i s s'
          × ((j : OrderId) (r : O.Priority)
              → Q.get_priority j s.main_queue ≡ some r
              → O.le r p ≡ true))

  -- A queue that keeps `IsReady` never makes `pop_order` panic. It gives no order only when nothing
  -- is queued; else it gives an order whose mandatory nonces are due, which no queued order beats,
  -- and which is then in neither the queue nor the orders.
  pub pop_order_lem : (s : Store O Q) → IsReady s → Pops s
  unfolding pop_order
  pop_order_lem s h = elim (Option-cases (Q.pop s.main_queue)) [
    | inl e ↦ inl (rw (e, pop_order) refl, λ i. Q.pop-none s.main_queue i e)
    | inr ((i, p), e) ↦
        let (o, (kept, named, weighed, due)) = h i p (Q.get-pop s.main_queue i p e) in
        let s0 : Store O Q = record s { main_queue = Q.remove i s.main_queue } in
        let (found, queue, chain, orders) = remove_poped_order_lem i s0 in
        let found' : (remove_poped_order O Q i s0).0 ≡ some o = ground (arith, found, kept) in
        inr (
          i,
          p,
          o,
          (remove_poped_order O Q i s0).1,
          rw (e, found', pop_order) refl,
          (kept, named, weighed, due),
          (λ j. ground (arith, queue, Q.get-remove i j s.main_queue), orders, chain),
          λ j r q. Q.pop-max s.main_queue i j p r e q,
        )
  ]
