-- ===== src/Simulation/Tree/Invalid.antt =====
-- Which orders `SimTree` (building/sim.rs) drops.
use constraints_builder.Shared.{
  ◌++◌, ℕ, ◌≡◌, ◌≢◌, ◌↔◌, refl, Bool, true, false, ◌&&◌, not, Bool-cases, Option, none, some, inl,
  inr, List, [], ◌∷◌, any, arith, nat_eq, ltb, nat_beq, contains, set_insert,
}
use constraints_builder.Shared.Map.{lookup}
use constraints_builder.Primitives.Tx.{Address}
use constraints_builder.Primitives.Orders.{Order}
use constraints_builder.Primitives.Nonces
use constraints_builder.Primitives.Nonces.{Nonce}
use constraints_builder.Simulation.TreeState.{
  SimTree, SimulatedResult, SimulationId, NonceKey, nonce_key_eq, Visit, Visited, OrderNonceState,
  filled_by, visit, concluded,
}
use constraints_builder.Simulation.Filled.{IsKept}
use constraints_builder.Simulation.Tree.{visit_all, get_order_nonce_state}

-- A mandatory nonce that the chain has passed.
abbrev pub behind : ℕ → Nonce → Bool
behind onchain_nonce n = ltb n.nonce onchain_nonce && not n.optional

filled_by-next :
    (t : SimTree) (key : NonceKey) (v : Visited) (x : Option SimulationId)
    → ((i : SimulationId) → x ≡ some i → (r : SimulatedResult) × (lookup i t.sims ≡ some r))
    → (w : Visited) × (filled_by t key v x ≡ Visit.next w)
unfolding filled_by
filled_by-next t key v none h = (_, refl)
filled_by-next t key v (some i) h =
    let (r, e) = h i refl in
    (
      record v {
        parent_orders = v.parent_orders ++ (r.previous_orders ++ r.simulated_order.order ∷ []);
      },
      rw (e, filled_by) refl,
    )

visit-behind :
    (t : SimTree) (c : ℕ) (n : Nonce) (v : Visited)
    → behind c n ≡ true
    → visit t (some c) n v ≡ Visit.stop OrderNonceState.invalid
unfolding visit
visit-behind t c n v h = ground (arith, h)

visit-next :
    (t : SimTree) (c : ℕ) (n : Nonce) (v : Visited)
    → IsKept t
    → behind c n ≡ false
    → (w : Visited) × (visit t (some c) n v ≡ Visit.next w)
unfolding visit
visit-next t c n v k h =
    let key : NonceKey = record { address = n.address; nonce = n.nonce } in
    let seen : Visited = record v {
      onchain_nonces_incremented = set_insert n.address v.onchain_nonces_incremented;
    } in
    let (w, e) = filled_by-next t key seen (lookup key t.sims_that_update_one_nonce) (k key) in
    elim (Bool-cases (nat_beq c n.nonce)) [
      | inl a ↦ (seen, ground (arith, a))
      | inr a ↦ elim (Bool-cases (ltb n.nonce c)) [
        | inl b ↦ (v, ground (arith, a, b, h))
        | inr b ↦ elim (Bool-cases (contains v.onchain_nonces_incremented n.address)) [
          | inl d ↦ (v, ground (arith, a, b, d))
          | inr d ↦ (w, ground (arith, a, b, d, e))
        ]
      ]
    ]

concluded-valid : (ks : List NonceKey) (ps : List Order) → concluded ks ps ≢ OrderNonceState.invalid
unfolding concluded
concluded-valid [] ps = ground arith
concluded-valid (k ∷ ks) ps = ground arith

module _ (account_nonce : Address → ℕ) (random : ℕ → SimulationId) where
  visit_all-invalid :
      (t : SimTree) (ns : List Nonce) (v : Visited)
      → IsKept t
      → (visit_all (λ a. some (account_nonce a)) random t ns v ≡ OrderNonceState.invalid)
        ↔ (any (λ n. behind (account_nonce n.address) n) ns ≡ true)
  unfolding visit_all
  visit_all-invalid t [] v k = ground (arith, concluded-valid v.pending_nonces v.parent_orders)
  visit_all-invalid t (n ∷ ns) v k = elim (Bool-cases (behind (account_nonce n.address) n)) [
    | inl e ↦ rw (visit-behind t (account_nonce n.address) n v e, visit_all) (ground (arith, e))
    | inr e ↦
        let (w, d) = visit-next t (account_nonce n.address) n v k e in
        rw (d, visit_all) (ground (arith, e, visit_all-invalid t ns w k))
  ]

  -- When every nonce can be read, and each filled nonce has its simulation, an order is dropped if
  -- and only if the chain has passed one of its mandatory nonces, wherever that stands among them.
  pub get_order_nonce_state-invalid :
      (o : Order) (t : SimTree)
      → IsKept t
      → (get_order_nonce_state (λ a. some (account_nonce a)) random o t ≡ OrderNonceState.invalid)
        ↔ (any (λ n. behind (account_nonce n.address) n) (Nonces.nonces o) ≡ true)
  unfolding get_order_nonce_state
  get_order_nonce_state-invalid o t k =
      visit_all-invalid t (Nonces.nonces o)
        (record { onchain_nonces_incremented = []; pending_nonces = []; parent_orders = [] }) k
