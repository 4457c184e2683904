-- ===== src/OrderInput/Pool/Head.antt =====
-- `head_updated` of orderpool.rs.
use constraints_builder.Shared.{
  ℕ, ◌-◌, ◌∙◌, ◌&&◌, not, any, leb, some, false, ◌≡◌, ◌≤◌, ◌<◌, refl, ap, Bool, Bool-cases, Option,
  none, inl, inr, List, [], ◌∷◌, All, filter, arith, if◌then◌else◌, ltb, nat_eq,
}
use constraints_builder.Shared.Map.{Map, lookup, retain}
use constraints_builder.Primitives.Tx.{Address}
use constraints_builder.Primitives.Orders.{Order, ReplacementData}
use constraints_builder.Primitives.Nonces
use constraints_builder.Primitives.Nonces.{Nonce}
use constraints_builder.OrderInput.PoolState.{
  nonces_reachable, ReplaceableOrderSink, OrderCache, retain_txs, must_retain_order, drop_old,
  elapsed, time_to_keep_bundle_cancellations, BundleBlockStore,
}
use constraints_builder.OrderInput.Pool.{Pool, head_updated}

retain_txs-filter :
    (keep : Order × ℕ → Bool) (txs : List (Order × ℕ)) (size : ℕ)
    → (retain_txs keep txs size).0 ≡ filter keep txs
unfolding retain_txs
retain_txs-filter keep [] size = refl
retain_txs-filter keep ((o, time) ∷ txs) size = elim (Bool-cases (keep (o, time))) [
  | inl e ↦ rw e (ap (λ rest. (o, time) ∷ rest) (retain_txs-filter keep txs _))
  | inr e ↦ rw e (retain_txs-filter keep txs _)
]

-- The cancellations arrive in the order of their times.
unfoldable pub IsOrdered : List (ReplacementData × ℕ) → Type 0
IsOrdered [] = Unit
IsOrdered ((d, time) ∷ rest) = All (λ x. time ≤ x.1) rest × IsOrdered rest

unfoldable pub is_young : ℕ → ReplacementData × ℕ → Bool
is_young now (d, time) = ltb (now - time) 60000000000

filter-is_young :
    (now time : ℕ) (rest : List (ReplacementData × ℕ))
    → All (λ x. time ≤ x.1) rest
    → elapsed now time < time_to_keep_bundle_cancellations
    → filter (is_young now) rest ≡ rest
unfolding is_young
filter-is_young now time [] a h = refl
filter-is_young now time ((e, u) ∷ rest) a h = ground (arith, filter-is_young now time rest)

drop_old-filter :
    (now : ℕ) (ds : List (ReplacementData × ℕ))
    → IsOrdered ds
    → drop_old now ds ≡ filter (is_young now) ds
unfolding drop_old IsOrdered is_young
drop_old-filter now [] h = refl
drop_old-filter now ((d, time) ∷ rest) h =
    ground (arith, filter-is_young now time rest h.0, drop_old-filter now rest h.1)

lookup-retain_key :
    (keep : ℕ → Bool) (b : ℕ) (m : Map ℕ BundleBlockStore)
    → lookup b (retain (λ k s. keep k) m) ≡ (if keep b then lookup b m else none)
unfolding lookup
lookup-retain_key keep b [] = ground arith
lookup-retain_key keep b ((k, s) ∷ m) = ground (arith, lookup-retain_key keep b m)

-- The nonce is mandatory and lower than that of its account, which is 0 when it is not known.
abbrev pub is_behind : (Address → Option (Option ℕ)) → Nonce → Bool
is_behind account_nonce n = elim (account_nonce n.address) [
  | none ↦ false
  | some none ↦ false
  | some (some onchain) ↦ not n.optional && ltb n.nonce onchain
]

abbrev pub is_retained : ℕ → ℕ → (Address → Option (Option ℕ)) → Order × ℕ → Bool
is_retained now time_to_keep account_nonce (o, time) =
    leb (now - time) time_to_keep && not (any (is_behind account_nonce) (Nonces.nonces o))

nonces_reachable-is_behind :
    (account_nonce : Address → Option (Option ℕ)) (ns : List Nonce)
    → nonces_reachable account_nonce ns ≡ not (any (is_behind account_nonce) ns)
unfolding nonces_reachable
nonces_reachable-is_behind account_nonce [] = refl
nonces_reachable-is_behind account_nonce (n ∷ ns) =
    ground (arith, nonces_reachable-is_behind account_nonce ns, account_nonce n.address)

must_retain_order-is_retained :
    (now time_to_keep : ℕ) (account_nonce : Address → Option (Option ℕ)) (x : Order × ℕ)
    → must_retain_order now x.1 x.0 account_nonce time_to_keep
      ≡ is_retained now time_to_keep account_nonce x
unfolding must_retain_order
must_retain_order-is_retained now time_to_keep account_nonce (o, time) =
    ground (arith, nonces_reachable-is_behind account_nonce (Nonces.nonces o))

filter-same :
    {A : Type 0} (f g : A → Bool) (xs : List A) → ((x : A) → f x ≡ g x) → filter f xs ≡ filter g xs
filter-same f g [] h = refl
filter-same f g (x ∷ xs) h = ground (arith, h x, filter-same f g xs h)

module _ (C : OrderCache) (S : ReplaceableOrderSink) where
  -- When a block is added to the chain the pool keeps the transactions that are no older than
  -- `time_to_keep_mempool_txs` and have no mandatory nonce below that of its account, the bundles and cancellations for later blocks, no
  -- bundle without a block, and, if the cancellations of bundles came in the order of their times,
  -- those younger than 60 seconds.
  pub head_updated_lem :
      (now block : ℕ) (account_nonce : Address → Option (Option ℕ)) (p : Pool C S)
      → IsOrdered p.bundle_cancellations
      → ((head_updated C S now block account_nonce p).mempool_txs
          ≡ filter (is_retained now p.time_to_keep_mempool_txs account_nonce) p.mempool_txs)
        × ((b : ℕ)
            → lookup b (head_updated C S now block account_nonce p).bundles_by_target_block
              ≡ (if ltb block b then lookup b p.bundles_by_target_block else none))
        × ((head_updated C S now block account_nonce p).bundles_for_current_block ≡ [])
        × ((head_updated C S now block account_nonce p).bundle_cancellations
            ≡ filter (is_young now) p.bundle_cancellations)
  unfolding head_updated
  head_updated_lem now block account_nonce p h = (
    retain_txs-filter (λ x. must_retain_order now x.1 x.0 account_nonce p.time_to_keep_mempool_txs)
          p.mempool_txs p.mempool_txs_size
        ∙ filter-same (λ x. must_retain_order now x.1 x.0 account_nonce p.time_to_keep_mempool_txs)
            (is_retained now p.time_to_keep_mempool_txs account_nonce) p.mempool_txs
            (must_retain_order-is_retained now p.time_to_keep_mempool_txs account_nonce),
    λ b. lookup-retain_key (λ k. ltb block k) b p.bundles_by_target_block,
    refl,
    drop_old-filter now p.bundle_cancellations h,
  )
