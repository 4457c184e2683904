-- ===== src/OrderInput/Pool/Size.antt =====
-- `mempool_txs_size` of orderpool.rs.
use constraints_builder.Shared.{
  ℕ, ◌+◌, ◌-◌, ◌%◌, ◌≡◌, refl, Bool, Bool-cases, Option, none, some, inl, inr, List, [], ◌∷◌, ◌++◌,
  arith,
}
use constraints_builder.Primitives.Tx.{Address, u64_mod}
use constraints_builder.Shared.Map.{or_default}
use constraints_builder.Primitives.Orders
use constraints_builder.Primitives.Orders.{Order}
use constraints_builder.OrderInput.PoolState.{
  ReplaceableOrderSink, OrderCache, ReplaceableOrderPoolCommand, measure_tx, retain_txs,
  must_retain_order,
}
use constraints_builder.OrderInput.Pool.{
  Pool, process_command, process_order, store_order, store_bundle, push_bundle, store_command,
  process_remove_sbundle, process_remove_bundle, head_updated, new, add_sink, remove_sink,
  process_commands,
}

unfoldable pub total_size : List (Order × ℕ) → ℕ
total_size [] = 0
total_size ((o, time) ∷ txs) = measure_tx o + total_size txs

total_size-append :
    (xs ys : List (Order × ℕ)) → total_size (xs ++ ys) ≡ total_size xs + total_size ys
unfolding total_size
total_size-append [] ys = omega arith
total_size-append ((o, time) ∷ xs) ys = ground (arith, total_size-append xs ys)

sub_mod :
    (m t rest size : ℕ)
    → size ≡ (m + (t + rest)) % u64_mod
    → (size + (u64_mod - t % u64_mod)) % u64_mod ≡ (m + rest) % u64_mod
sub_mod m t rest size h = omega arith

-- What is left is the size less the sizes of what goes.
retain_txs-size :
    (keep : Order × ℕ → Bool) (txs : List (Order × ℕ)) (size m : ℕ)
    → size ≡ (m + total_size txs) % u64_mod
    → (retain_txs keep txs size).1 ≡ (m + total_size (retain_txs keep txs size).0) % u64_mod
unfolding retain_txs total_size
retain_txs-size keep [] size m h = h
retain_txs-size keep ((o, time) ∷ txs) size m h = elim (Bool-cases (keep (o, time))) [
  | inl e ↦
      rw e (ground (arith, retain_txs-size keep txs size (m + measure_tx o) (ground (arith, h))))
  | inr e ↦ rw e (retain_txs-size keep txs _ m (sub_mod m (measure_tx o) (total_size txs) size h))
]

module _ (C : OrderCache) (S : ReplaceableOrderSink) where
  abbrev pub IsSized : Pool C S → Type 0
  IsSized p = p.mempool_txs_size ≡ total_size p.mempool_txs % u64_mod

  add_mod :
      (size total t : ℕ) → size ≡ total % u64_mod → (size + t) % u64_mod ≡ (total + t) % u64_mod
  add_mod size total t h = omega arith

  store_bundle-IsSized :
      (b : Option ℕ) (o : Order) (p : Pool C S) → IsSized p → IsSized (store_bundle C S b o p)
  unfolding store_bundle push_bundle
  store_bundle-IsSized none o p h = h
  store_bundle-IsSized (some b) o p h = h

  store_order-IsSized :
      (now : ℕ) (o : Order) (p : Pool C S) → IsSized p → IsSized (store_order C S now o p)
  unfolding store_order push_bundle total_size
  store_order-IsSized now (Order.tx t) p h = ground (
    arith,
    total_size-append p.mempool_txs ((Order.tx t, now) ∷ []),
    add_mod p.mempool_txs_size (total_size p.mempool_txs) (measure_tx (Order.tx t)) h,
  )
  store_order-IsSized now (Order.bundle b) p h = store_bundle-IsSized b.block (Order.bundle b) p h
  store_order-IsSized now (Order.share_bundle b) p h = h

  process_order-IsSized :
      (now : ℕ) (o : Order) (p : Pool C S) → IsSized p → IsSized (process_order C S now o p)
  unfolding process_order
  process_order-IsSized now o p h =
      elim (Bool-cases
        (C.contains p.known_orders (Orders.id o, or_default 0 (Orders.target_block o)))) [
          | inl e ↦ rw e h
          | inr e ↦ rw e (store_order-IsSized now o p h)
        ]

  process_command-IsSized :
      (now : ℕ) (command : ReplaceableOrderPoolCommand) (p : Pool C S)
      → IsSized p
      → IsSized (process_command C S now command p)
  unfolding process_command store_command process_remove_sbundle process_remove_bundle
  process_command-IsSized now (ReplaceableOrderPoolCommand.order o) p h =
      process_order-IsSized now o p h
  process_command-IsSized now (ReplaceableOrderPoolCommand.cancel_share_bundle c) p h = h
  process_command-IsSized now (ReplaceableOrderPoolCommand.cancel_bundle d) p h = h

  process_commands-IsSized :
      (commands : List (ReplaceableOrderPoolCommand × ℕ)) (p : Pool C S)
      → IsSized p
      → IsSized (process_commands C S commands p)
  unfolding process_commands
  process_commands-IsSized [] p h = h
  process_commands-IsSized ((command, now) ∷ commands) p h =
      process_commands-IsSized commands (process_command C S now command p)
        (process_command-IsSized now command p h)

  head_updated-IsSized :
      (now block : ℕ) (account_nonce : Address → Option (Option ℕ)) (p : Pool C S)
      → IsSized p
      → IsSized (head_updated C S now block account_nonce p)
  unfolding head_updated
  head_updated-IsSized now block account_nonce p h = ground (
    arith,
    retain_txs-size (λ x. must_retain_order now x.1 x.0 account_nonce p.time_to_keep_mempool_txs)
        p.mempool_txs p.mempool_txs_size 0 (ground (arith, h)),
  )

  -- What may happen to a pool: commands arrive, a block is added to the chain, sinks come and go.
  pub data Step : Type 0 where
    commands : List (ReplaceableOrderPoolCommand × ℕ) → Step
    head : ℕ → ℕ → (Address → Option (Option ℕ)) → Step
    subscribe : ℕ → S.Sink → Step
    unsubscribe : ℕ → Step

  unfoldable pub step : Step → Pool C S → Pool C S
  step (commands cs) p = process_commands C S cs p
  step (head now block account_nonce) p = head_updated C S now block account_nonce p
  step (subscribe block sink) p = (add_sink C S block sink p).1
  step (unsubscribe id) p = (remove_sink C S id p).1

  unfoldable pub steps : List Step → Pool C S → Pool C S
  steps [] p = p
  steps (s ∷ ss) p = steps ss (step s p)

  steps-keep : (ss : List Step) (p : Pool C S) → IsSized p → IsSized (steps ss p)
  unfolding steps step add_sink remove_sink
  steps-keep [] p h = h
  steps-keep (commands cs ∷ ss) p h =
      steps-keep ss (process_commands C S cs p) (process_commands-IsSized cs p h)
  steps-keep (head now block account_nonce ∷ ss) p h =
      steps-keep ss (head_updated C S now block account_nonce p)
        (head_updated-IsSized now block account_nonce p h)
  steps-keep (subscribe block sink ∷ ss) p h = steps-keep ss (add_sink C S block sink p).1 h
  steps-keep (unsubscribe id ∷ ss) p h = steps-keep ss (remove_sink C S id p).1 h

  -- After any calls on a new pool, `mempool_txs_size` is the sum of the sizes of the transactions in
  -- the mempool, modulo 2^64.
  pub steps-IsSized :
      (time_to_keep : ℕ) (ss : List Step) → IsSized (steps ss (new C S time_to_keep))
  unfolding new total_size
  steps-IsSized time_to_keep ss = steps-keep ss (new C S time_to_keep) refl
