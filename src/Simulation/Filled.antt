-- ===== src/Simulation/Filled.antt =====
-- The `expect("we never delete sims")` of building/sim.rs: the steps without nonces.
use constraints_builder.Shared.{
  ℕ, ◌≡◌, ◌≢◌, refl, Bool-cases, Option, Option-cases, none, some, inl, inr, List, [], ◌∷◌, arith,
  nat_eq, ◌==◌, ltb, set_insert, sym, ◌∙◌,
}
use constraints_builder.Shared.Map
use constraints_builder.Shared.Map.{Map, lookup, contains_key, lookup-insert, lookup-empty}
use constraints_builder.Primitives.Orders.{order_id_eq, Order, OrderId}
use constraints_builder.Primitives.Nonces.{Nonce}
use constraints_builder.Simulation.TreeState.{
  SimTree, sim_profit, SimulatedResult, SimulationId, NonceKey, nonce_key_eq, Ending, Visit,
  Visited, OrderNonceState, filled_by, visit, concluded, and_then, fill_single, fill_nonce, satisfy,
  satisfy_all,
}

-- Each nonce that is filled is filled by a simulation that is still there.
abbrev pub IsKept : SimTree → Type 0
IsKept t =
    (key : NonceKey) (i : SimulationId)
    → lookup key t.sims_that_update_one_nonce ≡ some i
    → (r : SimulatedResult) × (lookup i t.sims ≡ some r)

pub filled_by-kept :
    (t : SimTree) (key : NonceKey) (v : Visited) (x : Option SimulationId)
    → ((i : SimulationId) → x ≡ some i → (r : SimulatedResult) × (lookup i t.sims ≡ some r))
    → filled_by t key v x ≢ Visit.stop OrderNonceState.panic
unfolding filled_by
filled_by-kept t key v none h = ground arith
filled_by-kept t key v (some i) h = let (r, e) = h i refl in rw (e, filled_by) (ground arith)

pub visit-kept :
    (t : SimTree) (x : Option ℕ) (n : Nonce) (v : Visited)
    → IsKept t
    → visit t x n v ≢ Visit.stop OrderNonceState.panic
unfolding visit
visit-kept t none n v h = ground arith
visit-kept t (some c) n v h =
    let key : NonceKey = record { address = n.address; nonce = n.nonce } in
    ground (
      arith,
      filled_by-kept t key
          (record v {
            onchain_nonces_incremented = set_insert n.address v.onchain_nonces_incremented;
          })
          (lookup key t.sims_that_update_one_nonce) (h key),
    )

pub concluded-kept :
    (ks : List NonceKey) (ps : List Order) → concluded ks ps ≢ OrderNonceState.panic
unfolding concluded
concluded-kept [] ps = ground arith
concluded-kept (k ∷ ks) ps = ground arith

-- What a call may not do, and what it keeps.
abbrev pub IsSafe : Ending × SimTree → Type 0
IsSafe x = (x.0 ≢ Ending.panic) × IsKept x.1

pub and_then-IsSafe :
    (x : Ending × SimTree) (f : SimTree → Ending × SimTree)
    → IsSafe x
    → ((t : SimTree) → IsKept t → IsSafe (f t))
    → IsSafe (and_then x f)
unfolding and_then
and_then-IsSafe (Ending.ok, t) f (ne, h) g = g t h
and_then-IsSafe (Ending.provider_error, t) f (ne, h) g = (ne, h)
and_then-IsSafe (Ending.panic, t) f (ne, h) g = (ne, h)

pub satisfy-sims :
    (i : OrderId) (x : List Order × SimTree)
    → ((satisfy i x).1.sims ≡ x.1.sims)
      × ((satisfy i x).1.sims_that_update_one_nonce ≡ x.1.sims_that_update_one_nonce)
unfolding satisfy
satisfy-sims i (os, t) = ground arith

pub satisfy_all-sims :
    (ids : List OrderId) (x : List Order × SimTree)
    → ((satisfy_all ids x).1.sims ≡ x.1.sims)
      × ((satisfy_all ids x).1.sims_that_update_one_nonce ≡ x.1.sims_that_update_one_nonce)
unfolding satisfy_all
satisfy_all-sims [] x = (refl, refl)
satisfy_all-sims (i ∷ ids) x =
    let (a, b) = satisfy_all-sims ids (satisfy i x) in
    let (c, d) = satisfy-sims i x in (a ∙ c, b ∙ d)

-- A new simulation is kept, and with it those that were.
pub insert-IsKept :
    (r : SimulatedResult) (t : SimTree)
    → IsKept t
    → IsKept (record t { sims = Map.insert r.id r t.sims })
insert-IsKept r t h key i e = elim (Bool-cases (r.id == i)) [
  | inl c ↦ (r, ground (arith, lookup-insert r.id i r t.sims))
  | inr c ↦ let (s, d) = h key i e in (s, ground (arith, lookup-insert r.id i r t.sims))
]

pub note-IsKept :
    (r : SimulatedResult) (key : NonceKey) (t : SimTree)
    → IsKept t
    → lookup r.id t.sims ≡ some r
    → IsKept
        (record t { sims_that_update_one_nonce = Map.insert key r.id t.sims_that_update_one_nonce })
note-IsKept r key t h here k i e = elim (Bool-cases (key == k)) [
  | inl c ↦ (r, ground (arith, here, lookup-insert key k r.id t.sims_that_update_one_nonce))
  | inr c ↦ h k i (ground (arith, lookup-insert key k r.id t.sims_that_update_one_nonce))
]

pub fill_nonce-IsSafe :
    (r : SimulatedResult) (key : NonceKey) (x : Option SimulationId) (t : SimTree)
    → x ≡ lookup key t.sims_that_update_one_nonce
    → IsKept t
    → lookup r.id t.sims ≡ some r
    → IsSafe ((fill_nonce r key x t).0, (fill_nonce r key x t).2)
unfolding fill_nonce
fill_nonce-IsSafe r key (some i) t q h here =
    let (s, d) = h key i (sym q) in
    rw (d, fill_nonce)
      (
        ground arith,
        elim (Bool-cases (ltb (sim_profit s) (sim_profit r))) [
          | inl c ↦ rw c (note-IsKept r key t h here)
          | inr c ↦ rw c h
        ],
      )
fill_nonce-IsSafe r key none t q h here = elim (Option-cases (lookup key t.pending_nonces)) [
  | inl c ↦ rw (c, fill_nonce) (ground arith, note-IsKept r key t h here)
  | inr (ids, c) ↦
      let filled : SimTree = record t {
        sims_that_update_one_nonce = Map.insert key r.id t.sims_that_update_one_nonce;
        pending_nonces = Map.remove key t.pending_nonces;
      } in
      let (a, b) = satisfy_all-sims ids ([], filled) in
      rw (c, fill_nonce)
        (
          ground arith,
          λ k i e.
              let (s, d) = note-IsKept r key t h here k i (ground (arith, b)) in
              (s, ground (arith, a)),
        )
]

pub fill_single-IsSafe :
    (r : SimulatedResult) (keys : List NonceKey) (t : SimTree)
    → IsKept t
    → lookup r.id t.sims ≡ some r
    → IsSafe ((fill_single r keys t).0, (fill_single r keys t).2)
unfolding fill_single
fill_single-IsSafe r [] t h here = (ground arith, h)
fill_single-IsSafe r (key ∷ []) t h here =
    fill_nonce-IsSafe r key (lookup key t.sims_that_update_one_nonce) t refl h here
fill_single-IsSafe r (key ∷ other ∷ keys) t h here = (ground arith, h)
