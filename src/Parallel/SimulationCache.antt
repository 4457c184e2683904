-- ===== src/Parallel/SimulationCache.antt =====
-- simulation_cache.rs: the states that simulations of orderings ended in. The database state is that
-- of revm; counters are those of `AtomicUsize`, which wrap.
pub mod Prefix
use constraints_builder.Shared.{
  ℕ, zero, suc, ◌+◌, ◌%◌, ◌^◌, Bool, true, false, Option, none, some, List, [], ◌∷◌, length,
  is_empty, nat_beq, if◌then◌else◌, list_eq,
}
use constraints_builder.Shared.Map.{Map, lookup, insert}
use constraints_builder.Primitives.Orders.{OrderId, order_id_eq}

abbrev u64_mod : ℕ
u64_mod = 2 ^ 64

module _ (BundleState : Type 0) where
  pub record CachedSimulationState : Type 0 where
    pub bundle_state : BundleState
    pub total_profit : ℕ
    pub per_order_profits : List (OrderId × ℕ)

  pub record SharedSimulationCache : Type 0 where
    pub inner_cache : Map (List OrderId) CachedSimulationState
    pub cache_requests : ℕ
    pub full_hits : ℕ
    pub partial_hits : ℕ
    pub number_of_order_simulations_saved : ℕ
    pub number_of_order_simulations_requested : ℕ

-- `Vec::pop`
unfoldable pub pop : List OrderId → List OrderId
pop [] = []
pop (x ∷ []) = []
pop (x ∷ y ∷ xs) = x ∷ pop (y ∷ xs)

module _ {BundleState : Type 0} where
  -- The loop over the prefixes; each round takes one order off.
  unfoldable pub longest_prefix :
      ℕ
      → List OrderId
      → Map (List OrderId) (CachedSimulationState BundleState)
      → Option (CachedSimulationState BundleState × ℕ)
  unfolding lookup pop
  longest_prefix zero partial_key cache = none
  longest_prefix (suc fuel) partial_key cache =
      let rest = longest_prefix fuel (pop partial_key) cache in
      if is_empty partial_key then none else elim (lookup partial_key cache) [
        | none ↦ rest
        | some cached_result ↦ some (cached_result, length partial_key)
      ]

  unfoldable pub count_request :
      ℕ → SharedSimulationCache BundleState → SharedSimulationCache BundleState
  count_request total_requested c = record c {
    number_of_order_simulations_requested =
        (c.number_of_order_simulations_requested + total_requested) % u64_mod;
    cache_requests = (c.cache_requests + 1) % u64_mod;
  }

  unfoldable pub count_hit :
      ℕ → ℕ → SharedSimulationCache BundleState → SharedSimulationCache BundleState
  count_hit total_requested last_cached_index c =
      let saved = (c.number_of_order_simulations_saved + last_cached_index) % u64_mod in
      if nat_beq last_cached_index total_requested
      then record c {
        full_hits = (c.full_hits + 1) % u64_mod;
        number_of_order_simulations_saved = saved;
      }
      else record c {
        partial_hits = (c.partial_hits + 1) % u64_mod;
        number_of_order_simulations_saved = saved;
      }

  unfoldable pub get_cached_state :
      List OrderId
      → SharedSimulationCache BundleState
      → SharedSimulationCache BundleState × Option (CachedSimulationState BundleState) × ℕ
  unfolding longest_prefix count_request count_hit
  get_cached_state ordering c =
      let counted = count_request (length ordering) c in
      elim (longest_prefix (suc (length ordering)) ordering c.inner_cache) [
        | none ↦ (counted, none, 0)
        | some hit ↦ (count_hit (length ordering) hit.1 counted, some hit.0, hit.1)
      ]

  unfoldable pub store_cached_state :
      List OrderId
      → CachedSimulationState BundleState
      → SharedSimulationCache BundleState
      → SharedSimulationCache BundleState
  unfolding insert
  store_cached_state ordering cached_state c = record c {
    inner_cache = insert ordering cached_state c.inner_cache;
  }

-- `SharedSimulationCache::new`
abbrev pub no_simulations : (BundleState : Type 0) → SharedSimulationCache BundleState
no_simulations BundleState = record {
  inner_cache = [];
  cache_requests = 0;
  full_hits = 0;
  partial_hits = 0;
  number_of_order_simulations_saved = 0;
  number_of_order_simulations_requested = 0;
}
