-- ===== src/Parallel/Resolver/Kept.antt =====
-- What each round of the processing loop keeps.
use constraints_builder.Shared.{
  ℕ, suc, ◌+◌, ◌%◌, ◌≡◌, ◌∙◌, ◌≤◌, refl, sym, ap, arith, some, List, [], ◌∷◌, ◌++◌, length,
  get_elem?, nat_eq, pair_eq, KeyEq, append_assoc, inl, inr, Option-cases,
}
use constraints_builder.Shared.Map.{Map, lookup, insert, remove, values}
use constraints_builder.Primitives.Tx.{Address}
use constraints_builder.Primitives.Orders.{OrderId}
use constraints_builder.Primitives.SimValue.{SimulatedOrder, sim_id}
use constraints_builder.Parallel.Groups.Counts.{count_of}
use constraints_builder.Parallel.Resolver.Errors.{ExecutionError, try_get_tx_too_high_error}
use constraints_builder.Parallel.Resolver.Loop.{
  ExecutionResult, Commit, Progress, release_pending, handle_err, handle_successful_commit,
  u256_mod,
}

module _ {K : Type 0} ⦃e : KeyEq K⦄ where
  pub length-insert : (k : K) (v : ℕ) (m : Map K ℕ) → length (insert k v m) ≤ suc (length m)
  unfolding insert
  length-insert k v [] = omega arith
  length-insert k v ((j, w) ∷ m) = ground (arith, length-insert k v m)

  length-remove : (k : K) (m : Map K ℕ) → length (remove k m) ≤ length m
  unfolding remove
  length-remove k [] = omega arith
  length-remove k ((j, w) ∷ m) = ground (arith, length-remove k m)

  length-remove_found :
      (k : K) (v : ℕ) (m : Map K ℕ) → lookup k m ≡ some v → suc (length (remove k m)) ≤ length m
  unfolding remove lookup
  length-remove_found k v [] h = absurd (cc)
  length-remove_found k v ((j, w) ∷ m) h =
      ground (arith, length-remove_found k v m, length-remove k m)

  count_of-insert :
      (i : ℕ) (k : K) (v : ℕ) (m : Map K ℕ)
      → count_of i (values (insert k v m)) ≤ count_of i (v ∷ values m)
  unfolding insert
  count_of-insert i k v [] = ground arith
  count_of-insert i k v ((j, w) ∷ m) = ground (arith, count_of-insert i k v m)

  count_of-remove :
      (i : ℕ) (k : K) (m : Map K ℕ) → count_of i (values (remove k m)) ≤ count_of i (values m)
  unfolding remove
  count_of-remove i k [] = omega arith
  count_of-remove i k ((j, w) ∷ m) = ground (arith, count_of-remove i k m)

  count_of-remove_found :
      (i : ℕ) (k : K) (v : ℕ) (m : Map K ℕ)
      → lookup k m ≡ some v
      → count_of i (v ∷ values (remove k m)) ≤ count_of i (values m)
  unfolding remove lookup
  count_of-remove_found i k v [] h = absurd (cc)
  count_of-remove_found i k v ((j, w) ∷ m) h =
      ground (arith, count_of-remove_found i k v m, count_of-remove i k m)

-- Released orders were waiting, so there are not more of them than before.
abbrev IsReleased : Map (Address × ℕ) ℕ → List ℕ → Map (Address × ℕ) ℕ × List ℕ → Type 0
IsReleased pending remaining released =
    (length released.0 + length released.1 ≤ length pending + length remaining)
    × ((i : ℕ)
        → count_of i (values released.0) + count_of i released.1
          ≤ count_of i (values pending) + count_of i remaining)

pub release_pending-IsReleased :
    (nonces : List (Address × ℕ)) (pending : Map (Address × ℕ) ℕ) (remaining : List ℕ)
    → IsReleased pending remaining (release_pending nonces pending remaining)
unfolding release_pending
release_pending-IsReleased [] pending remaining = (omega arith, λ i. omega arith)
release_pending-IsReleased (nonce ∷ nonces) pending remaining =
    elim (Option-cases (lookup nonce pending)) [
      | inl e ↦ rw (e, release_pending) (release_pending-IsReleased nonces pending remaining)
      | inr (j, e) ↦
          let (h, k) = release_pending-IsReleased nonces (remove nonce pending) (j ∷ remaining) in
          rw (e, release_pending)
            (
              omega (arith, h, length-remove_found nonce j pending e),
              λ i. ground (arith, k i, count_of-remove_found i nonce j pending e),
            )
    ]

abbrev pub indices : List (ℕ × ℕ) → List ℕ
indices [] = []
indices ((i, profit) ∷ results) = i ∷ indices results

-- The sum of the profits, which wraps.
abbrev pub add_profits : ℕ → List (ℕ × ℕ) → ℕ
add_profits total [] = total
add_profits total ((i, profit) ∷ results) = add_profits ((total + profit) % u256_mod) results

pub count_of-indices :
    (i j profit : ℕ) (results : List (ℕ × ℕ))
    → count_of i (indices (results ++ (j, profit) ∷ [])) ≡ count_of i (j ∷ indices results)
count_of-indices i j profit [] = refl
count_of-indices i j profit ((k, q) ∷ results) = ground (arith, count_of-indices i j profit results)

pub add_profits-append :
    (total j profit : ℕ) (results : List (ℕ × ℕ))
    → add_profits total (results ++ (j, profit) ∷ [])
      ≡ (add_profits total results + profit) % u256_mod
add_profits-append total j profit [] = refl
add_profits-append total j profit ((k, q) ∷ results) =
    add_profits-append ((total + q) % u256_mod) j profit results

module _ {State : Type 0} (commit_order : SimulatedOrder → State → Commit × State)
    (orders : List SimulatedOrder) where
  -- Committing just these orders, in this order, from the first state, commits each of them with
  -- this profit and ends in the second state.
  abbrev pub IsReplayed : State → List (ℕ × ℕ) → List (OrderId × ℕ) → State → Type 0
  IsReplayed s [] [] s' = s ≡ s'
  IsReplayed s [] (y ∷ ys) s' = ⊥
  IsReplayed s (x ∷ xs) [] s' = ⊥
  IsReplayed s ((i, profit) ∷ xs) ((id, same) ∷ ys) s' =
      (order : SimulatedOrder) × (nonces : List (Address × ℕ)) × (get_elem? orders i ≡ some order)
      × (id ≡ sim_id order)
      × (same ≡ profit)
      × ((commit_order order s).0
          ≡ Commit.committed (record { coinbase_profit = profit; nonces_updated = nonces }))
      × IsReplayed (commit_order order s).1 xs ys s'

  pub IsReplayed-append :
      (s s' : State) (xs : List (ℕ × ℕ)) (ys : List (OrderId × ℕ)) (i : ℕ) (order : SimulatedOrder)
      (res : ExecutionResult)
      → IsReplayed s xs ys s'
      → get_elem? orders i ≡ some order
      → (commit_order order s').0 ≡ Commit.committed res
      → IsReplayed s
          (xs ++ (i, res.coinbase_profit) ∷ [])
          (ys ++ (sim_id order, res.coinbase_profit) ∷ [])
          (commit_order order s').1
  IsReplayed-append s s' [] [] i order res h there done =
      rw h (order, res.nonces_updated, there, refl, refl, done, refl)
  IsReplayed-append s s' [] (y ∷ ys) i order res h there done = absurd h
  IsReplayed-append s s' (x ∷ xs) [] i order res h there done = absurd h
  IsReplayed-append s s' (x ∷ xs) (y ∷ ys) i order res (o, n, a, b, c, d, h) there done =
      (o, n, a, b, c, d, IsReplayed-append (commit_order o s).1 s' xs ys i order res h there done)

  -- The orders that were committed after `base` replay from its state, the total is that of `base`
  -- and their profits, and no order of the sequence is committed, remaining or pending twice.
  abbrev pub IsKept : Progress State → List ℕ → Progress State → List ℕ → Type 0
  IsKept base sequence p remaining =
      (xs : List (ℕ × ℕ)) × (ys : List (OrderId × ℕ)) × (p.sequenced_order_result
        ≡ base.sequenced_order_result ++ xs)
      × (p.per_order_profits ≡ base.per_order_profits ++ ys)
      × (p.total_profit ≡ add_profits base.total_profit xs)
      × IsReplayed base.state xs ys p.state
      × ((i : ℕ)
          → count_of i (indices xs) + count_of i remaining + count_of i (values p.pending_orders)
            ≤ count_of i sequence)

  module _ (base : Progress State) (sequence : List ℕ) (p : Progress State) (i : ℕ)
      (remaining : List ℕ) (kept : IsKept base sequence p (i ∷ remaining))
      (order : SimulatedOrder) where
    pub handle_err-IsKept :
        (error : ExecutionError) (next : State)
        → next ≡ p.state
        → IsKept base sequence (handle_err error order i next p) remaining
    unfolding handle_err
    handle_err-IsKept error next same =
        let (xs, ys, a, b, c, d, n) = kept in
        elim (Option-cases (try_get_tx_too_high_error error order.order)) [
          | inl e ↦ rw (e, handle_err, same) (xs, ys, a, b, c, d, λ j. ground (arith, n j))
          | inr (nonce, e) ↦
              rw (e, handle_err, same)
                (
                  xs,
                  ys,
                  a,
                  b,
                  c,
                  d,
                  λ j. ground (arith, n j, count_of-insert j nonce i p.pending_orders),
                )
        ]

    pub handle_successful_commit-IsKept :
        (res : ExecutionResult)
        → get_elem? orders i ≡ some order
        → (commit_order order p.state).0 ≡ Commit.committed res
        → IsKept base sequence
            (handle_successful_commit res order i (commit_order order p.state).1 remaining p).0
            (handle_successful_commit res order i (commit_order order p.state).1 remaining p).1
    unfolding handle_successful_commit
    handle_successful_commit-IsKept res there done =
        let (xs, ys, a, b, c, d, n) = kept in
        let (l, r) = release_pending-IsReleased res.nonces_updated p.pending_orders remaining in
        (
          xs ++ (i, res.coinbase_profit) ∷ [],
          ys ++ (sim_id order, res.coinbase_profit) ∷ [],
          ap (λ zs. zs ++ (i, res.coinbase_profit) ∷ []) a
              ∙ append_assoc base.sequenced_order_result xs ((i, res.coinbase_profit) ∷ []),
          ap (λ zs. zs ++ (sim_id order, res.coinbase_profit) ∷ []) b
              ∙ append_assoc base.per_order_profits ys ((sim_id order, res.coinbase_profit) ∷ []),
          ap (λ t. (t + res.coinbase_profit) % u256_mod) c
              ∙ sym (add_profits-append base.total_profit i res.coinbase_profit xs),
          IsReplayed-append base.state p.state xs ys i order res d there done,
          λ j. ground (arith, n j, r j, count_of-indices j i res.coinbase_profit xs),
        )
