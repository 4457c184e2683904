-- ===== src/Parallel/SimulationCache/Prefix.antt =====
-- `get_cached_state` finds the longest prefix that is stored.
use constraints_builder.Shared.{
  ℕ, zero, suc, ◌+◌, ◌-◌, ◌%◌, ◌^◌, ◌≡◌, ◌≤◌, ◌<◌, refl, inl, inr, true, false, Option, none, some,
  List, [], ◌∷◌, arith, length, take, is_empty, list_eq, Option-cases, nat_beq, same_refl,
  Bool-cases,
}
use constraints_builder.Shared.Map.{Map, lookup, insert, lookup-insert}
use constraints_builder.Primitives.Orders.{OrderId, order_id_eq}
use constraints_builder.Parallel.SimulationCache.{
  CachedSimulationState, SharedSimulationCache, pop, longest_prefix, get_cached_state, count_hit,
  count_request, store_cached_state,
}

length-pop : (key : List OrderId) → length (pop key) ≡ length key - 1
unfolding pop
length-pop [] = omega arith
length-pop (x ∷ []) = omega arith
length-pop (x ∷ y ∷ xs) = omega (arith, length-pop (y ∷ xs))

take-pop : (n : ℕ) (key : List OrderId) → n < length key → take n (pop key) ≡ take n key
unfolding pop
take-pop zero [] h = refl
take-pop zero (x ∷ xs) h = refl
take-pop (suc n) [] h = absurd (omega arith)
take-pop (suc n) (x ∷ []) h = absurd (omega arith)
take-pop (suc n) (x ∷ y ∷ xs) h = rw (take-pop n (y ∷ xs) (omega arith)) refl

take-length : (key : List OrderId) → take (length key) key ≡ key
take-length [] = refl
take-length (x ∷ xs) = rw (take-length xs) refl

abbrev Cache : Type 0 → Type 0
Cache BundleState = Map (List OrderId) (CachedSimulationState BundleState)

module _ {BundleState : Type 0} where
  -- No prefix of more than `n` orders is stored.
  abbrev pub IsLongest : ℕ → List OrderId → Cache BundleState → Type 0
  IsLongest n key cache = (m : ℕ) → n < m → m ≤ length key → lookup (take m key) cache ≡ none

  -- The stored state of the longest prefix, or nothing when no prefix but the empty one is stored.
  abbrev pub IsFound :
      List OrderId → Cache BundleState → Option (CachedSimulationState BundleState) → ℕ → Type 0
  IsFound key cache none n = (n ≡ 0) × IsLongest 0 key cache
  IsFound key cache (some state) n =
      (0 < n) × (n ≤ length key) × (lookup (take n key) cache ≡ some state) × IsLongest n key cache

  abbrev state_of :
      Option (CachedSimulationState BundleState × ℕ) → Option (CachedSimulationState BundleState)
  state_of none = none
  state_of (some hit) = some hit.0

  abbrev index_of : Option (CachedSimulationState BundleState × ℕ) → ℕ
  index_of none = 0
  index_of (some hit) = hit.1

  longer :
      (n : ℕ) (key : List OrderId) (cache : Cache BundleState)
      → lookup key cache ≡ none
      → IsLongest n (pop key) cache
      → IsLongest n key cache
  longer n key cache absent rest m less bound = elim (Bool-cases (nat_beq m (length key))) [
    | inl e ↦ ground (arith, e, take-length key, absent)
    | inr e ↦
        ground
          (arith, e, bound, less, take-pop m key (ground (arith, e)), rest m less, length-pop key)
  ]

  IsFound-pop :
      (key : List OrderId) (cache : Cache BundleState)
      (o : Option (CachedSimulationState BundleState × ℕ))
      → lookup key cache ≡ none
      → 0 < length key
      → IsFound (pop key) cache (state_of o) (index_of o)
      → IsFound key cache (state_of o) (index_of o)
  IsFound-pop key cache none absent nonempty h = (refl, longer 0 key cache absent h.1)
  IsFound-pop key cache (some (state, n)) absent nonempty h = (
    h.0,
    omega (arith, h.1, length-pop key),
    rw (← take-pop n key (omega (arith, h.1, length-pop key, nonempty))) h.2,
    longer n key cache absent h.3,
  )

  longest_prefix-IsFound :
      (fuel : ℕ) (key : List OrderId) (cache : Cache BundleState)
      → length key ≤ fuel
      → IsFound key cache
          (state_of (longest_prefix fuel key cache))
          (index_of (longest_prefix fuel key cache))
  unfolding longest_prefix
  longest_prefix-IsFound zero [] cache h = (refl, λ m less bound. absurd (omega arith))
  longest_prefix-IsFound zero (x ∷ xs) cache h = absurd (omega arith)
  longest_prefix-IsFound (suc fuel) [] cache h = (refl, λ m less bound. absurd (omega arith))
  longest_prefix-IsFound (suc fuel) (x ∷ xs) cache h = elim (Option-cases (lookup (x ∷ xs) cache)) [
    | inl e ↦
        rw (e, longest_prefix)
          (IsFound-pop (x ∷ xs) cache (longest_prefix fuel (pop (x ∷ xs)) cache) e (omega arith)
            (longest_prefix-IsFound fuel (pop (x ∷ xs)) cache (omega (arith, length-pop (x ∷ xs)))))
    | inr (state, e) ↦
        rw (e, longest_prefix)
          (omega arith, omega arith, rw (take-length xs) e, λ m less bound. absurd (omega arith))
  ]

  get_cached_state-result :
      (key : List OrderId) (c : SharedSimulationCache BundleState)
      → (get_cached_state key c).1 ≡ state_of (longest_prefix (suc (length key)) key c.inner_cache)
        × ((get_cached_state key c).2
            ≡ index_of (longest_prefix (suc (length key)) key c.inner_cache))
  unfolding get_cached_state
  get_cached_state-result key c =
      elim (Option-cases (longest_prefix (suc (length key)) key c.inner_cache)) [
        | inl e ↦ rw (e, get_cached_state) (refl, refl)
        | inr (hit, e) ↦ rw (e, get_cached_state) (refl, refl)
      ]

  -- `get_cached_state` gives the state that is stored for the longest prefix of the ordering, with
  -- the length of the prefix; it gives no state and 0 if and only if no prefix but the empty one is
  -- stored.
  pub get_cached_state-IsFound :
      (key : List OrderId) (c : SharedSimulationCache BundleState)
      → IsFound key c.inner_cache (get_cached_state key c).1 (get_cached_state key c).2
  get_cached_state-IsFound key c =
      let (e, f) = get_cached_state-result key c in
      rw (e, f) (longest_prefix-IsFound (suc (length key)) key c.inner_cache (omega arith))

  longest_prefix-whole :
      (key : List OrderId) (cache : Cache BundleState) (state : CachedSimulationState BundleState)
      → is_empty key ≡ false
      → lookup key cache ≡ some state
      → longest_prefix (suc (length key)) key cache ≡ some (state, length key)
  unfolding longest_prefix
  longest_prefix-whole key cache state nonempty found = rw (found, nonempty) refl

  -- What is stored for an ordering of at least one order is what the cache then gives for it, whole,
  -- whatever was stored before; this counts as one full hit that saves a simulation of each order.
  pub get_cached_state-store_cached_state :
      (key : List OrderId) (state : CachedSimulationState BundleState)
      (c : SharedSimulationCache BundleState)
      → is_empty key ≡ false
      → ((get_cached_state key (store_cached_state key state c)).1 ≡ some state)
        × ((get_cached_state key (store_cached_state key state c)).2 ≡ length key)
        × ((get_cached_state key (store_cached_state key state c)).0.full_hits
            ≡ (c.full_hits + 1) % 2 ^ 64)
        × ((get_cached_state key
              (store_cached_state key state c)).0.number_of_order_simulations_saved
            ≡ (c.number_of_order_simulations_saved + length key) % 2 ^ 64)
  unfolding get_cached_state store_cached_state count_hit count_request
  get_cached_state-store_cached_state key state c nonempty =
      let stored : lookup key (insert key state c.inner_cache) ≡ some state =
        rw (lookup-insert key key state c.inner_cache, same_refl key) refl in
      let whole = longest_prefix-whole key (insert key state c.inner_cache) state nonempty stored in
      let full : nat_beq (length key) (length key) ≡ true = ground arith in
      rw (whole, get_cached_state, full, count_hit) (refl, refl, refl, refl)
