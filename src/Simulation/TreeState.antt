-- ===== src/Simulation/TreeState.antt =====
-- The state of `SimTree` (crates/rbuilder/src/building/sim.rs) and the steps of its operations that
-- ask neither for nonces nor for random ids. `panic` is that of an `expect`.
use constraints_builder.Shared.{
  ℕ, ◌+◌, ◌-◌, ◌%◌, ◌↔◌, ◌≡◌, Bool, true, ◌&&◌, not, Option, none, some, List, [], ◌∷◌, ◌++◌, take,
  drop, contains, set_insert, nat_beq, nat_eq, ltb, if◌then◌else◌, KeyEq, arith,
}
use constraints_builder.Shared.Map
use constraints_builder.Shared.Map.{Map, lookup, contains_key, or_default}
use constraints_builder.Primitives.Tx.{Address, u64_mod}
use constraints_builder.Primitives.Orders.{Order, OrderId, order_id_eq}
use constraints_builder.Primitives.Nonces.{Nonce}
use constraints_builder.Primitives.SimValue.{SimulatedOrder}

pub record NonceKey : Type 0 where
  pub address : Address
  pub nonce : ℕ

abbrev pub nonce_key_same : NonceKey → NonceKey → Bool
nonce_key_same x y = nat_beq x.nonce y.nonce && nat_beq x.address y.address

pub nonce_key_same_iff : (x y : NonceKey) → (nonce_key_same x y ≡ true) ↔ (x ≡ y)
nonce_key_same_iff x y = ground arith

instance abbrev pub nonce_key_eq : KeyEq NonceKey
nonce_key_eq = record { same = nonce_key_same; same_iff = nonce_key_same_iff }

pub record PendingOrder : Type 0 where
  pub order : Order
  pub unsatisfied_nonces : ℕ

abbrev pub SimulationId : Type 0
SimulationId = ℕ

pub record SimulationRequest : Type 0 where
  pub id : SimulationId
  pub order : Order
  pub parents : List Order

pub record SimulatedResult : Type 0 where
  pub id : SimulationId
  pub simulated_order : SimulatedOrder
  pub previous_orders : List Order
  pub nonces_after : List NonceKey

-- `draws` counts the random ids that were taken.
pub record SimTree : Type 0 where
  pub sims : Map SimulationId SimulatedResult
  pub sims_that_update_one_nonce : Map NonceKey SimulationId
  pub pending_orders : Map OrderId PendingOrder
  pub pending_nonces : Map NonceKey (List OrderId)
  pub ready_orders : List SimulationRequest
  pub draws : ℕ

abbrev pub new : SimTree
new = record {
  sims = [];
  sims_that_update_one_nonce = [];
  pending_orders = [];
  pending_nonces = [];
  ready_orders = [];
  draws = 0;
}

-- What `get_order_nonce_state` returns; `panic` is that of an `expect`.
pub data OrderNonceState : Type 0 where
  invalid : OrderNonceState
  pending_nonces : List NonceKey → OrderNonceState
  ready : List Order → OrderNonceState
  provider_error : OrderNonceState
  panic : OrderNonceState

-- How a call that returns `Result<(), ProviderError>` ends.
pub data Ending : Type 0 where
  ok : Ending
  provider_error : Ending
  panic : Ending

-- The variables of the loop over the nonces.
pub record Visited : Type 0 where
  pub onchain_nonces_incremented : List Address
  pub pending_nonces : List NonceKey
  pub parent_orders : List Order

pub data Visit : Type 0 where
  stop : OrderNonceState → Visit
  next : Visited → Visit

-- `Ordering::Less`, for an account that was not considered yet: the simulation that fills the nonce.
unfoldable pub filled_by : SimTree → NonceKey → Visited → Option SimulationId → Visit
filled_by t key v none = Visit.next (record v { pending_nonces = v.pending_nonces ++ key ∷ [] })
filled_by t key v (some sim_id) = elim (lookup sim_id t.sims) [
  | none ↦ Visit.stop OrderNonceState.panic
  | some sim ↦ Visit.next (record v {
    parent_orders = v.parent_orders ++ (sim.previous_orders ++ sim.simulated_order.order ∷ []);
  })
]

-- The body of the loop.
unfoldable pub visit : SimTree → Option ℕ → Nonce → Visited → Visit
visit t none n v = Visit.stop OrderNonceState.provider_error
visit t (some onchain_nonce) n v =
    let seen : Visited = record v {
      onchain_nonces_incremented = set_insert n.address v.onchain_nonces_incremented;
    } in
    let key : NonceKey = record { address = n.address; nonce = n.nonce } in
    if nat_beq onchain_nonce n.nonce
    then Visit.next seen
    else if ltb n.nonce onchain_nonce
    then if not n.optional then Visit.stop OrderNonceState.invalid else Visit.next v
    else if contains v.onchain_nonces_incremented n.address
    then Visit.next v
    else filled_by t key seen (lookup key t.sims_that_update_one_nonce)

-- After the loop: `is_empty` of the pending nonces.
unfoldable pub concluded : List NonceKey → List Order → OrderNonceState
concluded [] parents = OrderNonceState.ready parents
concluded (k ∷ ks) parents = OrderNonceState.pending_nonces (k ∷ ks)

-- The operator `?` after a call.
unfoldable pub and_then : Ending × SimTree → (SimTree → Ending × SimTree) → Ending × SimTree
and_then (Ending.ok, t) f = f t
and_then (Ending.provider_error, t) f = (Ending.provider_error, t)
and_then (Ending.panic, t) f = (Ending.panic, t)

unfoldable pub add_pending :
    OrderId → List NonceKey → Map NonceKey (List OrderId) → Map NonceKey (List OrderId)
add_pending i [] m = m
add_pending i (k ∷ ks) m = add_pending i ks (Map.insert k (or_default [] (lookup k m) ++ i ∷ []) m)

-- `min(limit, len)` tasks leave the front of the list.
unfoldable pub pop_simulation_tasks : ℕ → SimTree → List SimulationRequest × SimTree
pop_simulation_tasks limit t =
    (take limit t.ready_orders, record t { ready_orders = drop limit t.ready_orders })

-- An order that waits has one nonce less to wait for (a `usize`, which wraps in a release build); at
-- 0 it leaves the waiting ones.
unfoldable pub satisfy : OrderId → List Order × SimTree → List Order × SimTree
satisfy i (orders_ready, t) = elim (lookup i t.pending_orders) [
  | none ↦ (orders_ready, t)
  | some p ↦
      let unsatisfied = (p.unsatisfied_nonces + (u64_mod - 1)) % u64_mod in
      if nat_beq unsatisfied 0
      then (
        orders_ready ++ p.order ∷ [],
        record t { pending_orders = Map.remove i t.pending_orders },
      )
      else (
        orders_ready,
        record t {
          pending_orders =
              Map.insert i (record p { unsatisfied_nonces = unsatisfied }) t.pending_orders;
        },
      )
]

unfoldable pub satisfy_all : List OrderId → List Order × SimTree → List Order × SimTree
satisfy_all [] x = x
satisfy_all (i ∷ ids) x = satisfy_all ids (satisfy i x)

abbrev pub sim_profit : SimulatedResult → ℕ
sim_profit r = r.simulated_order.sim_value.full_profit_info.coinbase_profit

-- The entry of the nonce that a simulation fills, and the orders that become ready.
unfoldable pub fill_nonce :
    SimulatedResult → NonceKey → Option SimulationId → SimTree → Ending × List Order × SimTree
fill_nonce r key (some sim_id) t = elim (lookup sim_id t.sims) [
  | none ↦ (Ending.panic, [], t)
  | some current ↦ (
    Ending.ok,
    [],
    if ltb (sim_profit current) (sim_profit r)
        then record t {
          sims_that_update_one_nonce = Map.insert key r.id t.sims_that_update_one_nonce;
        }
        else t,
  )
]
fill_nonce r key none t =
    let filled : SimTree = record t {
      sims_that_update_one_nonce = Map.insert key r.id t.sims_that_update_one_nonce;
    } in
    elim (lookup key t.pending_nonces) [
      | none ↦ (Ending.ok, [], filled)
      | some pending ↦
          let (orders_ready, released) =
            satisfy_all pending
              ([], record filled { pending_nonces = Map.remove key filled.pending_nonces }) in
          (Ending.ok, orders_ready, released)
    ]

-- A simulation counts for a nonce if it is the only one that it changes.
unfoldable pub fill_single :
    SimulatedResult → List NonceKey → SimTree → Ending × List Order × SimTree
fill_single r (key ∷ []) t = fill_nonce r key (lookup key t.sims_that_update_one_nonce) t
fill_single r [] t = (Ending.ok, [], t)
fill_single r (key ∷ other ∷ keys) t = (Ending.ok, [], t)
