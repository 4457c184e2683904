-- ===== src/ConstraintInput/Pool/Expiry.antt =====
-- What falls out of the pool (constraintpool.rs) when the block moves on.
use constraints_builder.Shared.{
  ℕ, ◌≡◌, refl, Bool, ◌&&◌, not, Option, none, some, List, [], leb, ltb, nat_eq, if◌then◌else◌,
  arith, pair_eq,
}
use constraints_builder.Shared.Map.{lookup, lookup-retain}
use constraints_builder.ConstraintInput.Lru.{LruCache}
use constraints_builder.ConstraintInput.Sink.{Constraints, ConstraintId, ConstraintSink}
use constraints_builder.ConstraintInput.Pool.{
  SinkSubscription, ConstraintPool, Pool, stored, cleanup_expired_constraints,
  get_constraints_for_block, block_updated,
}
use constraints_builder.ConstraintInput.Pool.Invariant.{IsValid}

stored-cleanup :
    {Transaction Cache Sink : Type 0} (p : ConstraintPool Transaction Cache Sink) (n b : ℕ)
    → IsValid p
    → stored (cleanup_expired_constraints n p) b ≡ (if ltb b n then [] else stored p b)
unfolding cleanup_expired_constraints
stored-cleanup {Transaction} p n b v = ground (
  arith,
  lookup-retain (λ (d : ℕ) (cs : List (Constraints Transaction)). not (ltb d n)) b
      p.constraints_by_block v.blocks_distinct,
)

abbrev pub kept_if : {A : Type 0} → (A → Bool) → Option A → Option A
kept_if p none = none
kept_if p (some a) = if p a then some a else none

-- On a valid pool, over any hash, cache and sinks: `block_updated n` empties the blocks below n and
-- no other, and a subscription stays, with its sink as it was and not notified, exactly if its sink
-- is alive and its block is n or later.
pub block_updated_lem :
    {Transaction : Type 0} (constraint_id : Constraints Transaction → ConstraintId) (L : LruCache)
    (S : ConstraintSink Transaction) (p : Pool constraint_id L S) (n : ℕ)
    → IsValid p
    → ((b : ℕ)
        → stored (block_updated constraint_id L S n p) b ≡ (if ltb b n then [] else stored p b))
      × ((id : ℕ)
          → lookup id (block_updated constraint_id L S n p).sinks
            ≡ kept_if (λ sub. S.is_alive sub.sink && leb n sub.block) (lookup id p.sinks))
unfolding block_updated
block_updated_lem constraint_id L S p n v = (
  (λ b. stored-cleanup p n b v),
  λ id. ground (
    arith,
    lookup-retain
        (λ (i : ℕ) (sub : SinkSubscription S.Sink). S.is_alive sub.sink && leb n sub.block) id
        p.sinks v.sinks_distinct,
  ),
)

-- On a valid pool `get_constraints_for_block b` returns what is stored for b, and the only other
-- thing that it does is to empty the blocks below b.
get_constraints_for_block_lem :
    {Transaction Cache Sink : Type 0} (p : ConstraintPool Transaction Cache Sink) (b : ℕ)
    → IsValid p
    → ((get_constraints_for_block b p).0 ≡ stored p b)
      × ((d : ℕ)
          → stored (get_constraints_for_block b p).1 d ≡ (if ltb d b then [] else stored p d))
      × ((get_constraints_for_block b p).1.sinks ≡ p.sinks)
      × ((get_constraints_for_block b p).1.known_constraints ≡ p.known_constraints)
unfolding get_constraints_for_block cleanup_expired_constraints
get_constraints_for_block_lem p b v =
    (ground (arith, stored-cleanup p b b v), λ d. stored-cleanup p b d v, refl, refl)
