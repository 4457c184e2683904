-- ===== src/ConstraintInput/Pool.antt =====
-- crates/rbuilder/src/live_builder/constraint_input/constraintpool.rs: the repository of the
-- constraints, over any hash of constraints, any cache and any sinks; the lock of
-- `ConstraintPoolSubscriber` (mod.rs) makes each call one step. Ids of subscriptions are `u64`
-- values, of which fewer than 2^64 are given.
pub mod Invariant
pub mod Dedup
pub mod Expiry
pub mod Feed
use constraints_builder.Shared.{
  ℕ, ◌+◌, Bool, ◌&&◌, not, Option, none, some, List, [], ◌∷◌, ◌++◌, leb, ltb, nat_eq, nat_beq,
  if◌then◌else◌,
}
use constraints_builder.Shared.Map
use constraints_builder.Shared.Map.{Map, lookup, retain, or_default}
use constraints_builder.ConstraintInput.Lru.{Key, LruCache}
use constraints_builder.ConstraintInput.Sink.{
  Constraints, ConstraintId, ConstraintPoolCommand, ConstraintSink,
}

pub record SinkSubscription (Sink : Type 0) : Type 0 where
  pub sink : Sink
  pub block : ℕ

pub record ConstraintPool (Transaction Cache Sink : Type 0) : Type 0 where
  pub constraints_by_block : Map ℕ (List (Constraints Transaction))
  pub known_constraints : Cache
  pub sinks : Map ℕ (SinkSubscription Sink)
  pub next_sink_id : ℕ

unfoldable pub command_target_block : {Transaction : Type 0} → ConstraintPoolCommand Transaction → ℕ
command_target_block (ConstraintPoolCommand.insert c) = c.message.block
command_target_block (ConstraintPoolCommand.remove_block b) = b

-- What the map holds for a block, `unwrap_or_default`.
abbrev pub stored :
    {Transaction Cache Sink : Type 0}
    → ConstraintPool Transaction Cache Sink
    → ℕ
    → List (Constraints Transaction)
stored p b = or_default [] (lookup b p.constraints_by_block)

-- Blocks below the current one leave the map.
unfoldable pub cleanup_expired_constraints :
    {Transaction Cache Sink : Type 0}
    → ℕ
    → ConstraintPool Transaction Cache Sink
    → ConstraintPool Transaction Cache Sink
cleanup_expired_constraints current_block p = record p {
  constraints_by_block = retain (λ b cs. not (ltb b current_block)) p.constraints_by_block;
}

unfoldable pub get_constraints_for_block :
    {Transaction Cache Sink : Type 0}
    → ℕ
    → ConstraintPool Transaction Cache Sink
    → List (Constraints Transaction) × ConstraintPool Transaction Cache Sink
unfolding cleanup_expired_constraints
get_constraints_for_block block p =
    let cleaned = cleanup_expired_constraints block p in (stored cleaned block, cleaned)

module _ {Transaction : Type 0} (constraint_id : Constraints Transaction → ConstraintId)
    (L : LruCache) (S : ConstraintSink Transaction) where
  open L use {Cache}
  open S use {Sink, insert_constraint, remove_constraints_for_block, is_alive}

  abbrev pub Pool : Type 0
  Pool = ConstraintPool Transaction Cache Sink

  unfoldable pub new : Pool
  new = record {
    constraints_by_block = [];
    known_constraints = L.new 1000;
    sinks = [];
    next_sink_id = 0;
  }

  unfoldable pub process_constraint : Constraints Transaction → Pool → Pool
  process_constraint c p =
      let block = c.message.block in
      let key : Key = (constraint_id c, block) in
      if L.contains p.known_constraints key then p else record p {
        constraints_by_block = Map.insert block (stored p block ++ c ∷ []) p.constraints_by_block;
        known_constraints = L.put p.known_constraints key;
      }

  unfoldable pub process_remove_block : ℕ → Pool → Pool
  process_remove_block block p = record p {
    constraints_by_block = Map.remove block p.constraints_by_block;
  }

  unfoldable pub mutate : ConstraintPoolCommand Transaction → Pool → Pool
  unfolding process_constraint process_remove_block
  mutate (ConstraintPoolCommand.insert c) p = process_constraint c p
  mutate (ConstraintPoolCommand.remove_block b) p = process_remove_block b p

  unfoldable pub send : ConstraintPoolCommand Transaction → Sink → Sink × Bool
  send (ConstraintPoolCommand.insert c) s = insert_constraint s c
  send (ConstraintPoolCommand.remove_block b) s = remove_constraints_for_block s b

  -- The closure of `sinks.retain`: `none` drops the subscription.
  unfoldable pub forward :
      ConstraintPoolCommand Transaction → SinkSubscription Sink → Option (SinkSubscription Sink)
  unfolding send command_target_block
  forward cmd sub =
      if not (is_alive sub.sink)
      then none
      else if nat_beq sub.block (command_target_block cmd)
      then (let (sink, ok) = send cmd sub.sink in
          if ok then some (record sub { sink = sink }) else none)
      else some sub

  unfoldable pub forward_all :
      ConstraintPoolCommand Transaction
      → Map ℕ (SinkSubscription Sink)
      → Map ℕ (SinkSubscription Sink)
  unfolding forward
  forward_all cmd [] = []
  forward_all cmd ((id, sub) ∷ subs) =
      let rest = forward_all cmd subs in
      elim (forward cmd sub) [ none ↦ rest | some kept ↦ (id, kept) ∷ rest ]

  unfoldable pub process_command : ConstraintPoolCommand Transaction → Pool → Pool
  unfolding mutate forward_all
  process_command cmd p =
      let mutated = mutate cmd p in record mutated { sinks = forward_all cmd mutated.sinks }

  unfoldable pub process_commands : List (ConstraintPoolCommand Transaction) → Pool → Pool
  unfolding process_command
  process_commands [] p = p
  process_commands (cmd ∷ commands) p = process_commands commands (process_command cmd p)

  -- The replay ignores what the sink answers.
  unfoldable pub replay : List (Constraints Transaction) → Sink → Sink
  replay [] sink = sink
  replay (c ∷ cs) sink = replay cs (insert_constraint sink c).0

  unfoldable pub add_sink : ℕ → Sink → Pool → ℕ × Pool
  unfolding replay
  add_sink block sink p =
      let id = p.next_sink_id in
      (
        id,
        record p {
          sinks =
              Map.insert id (record { sink = replay (stored p block) sink; block = block }) p.sinks;
          next_sink_id = id + 1;
        },
      )

  -- `remove_sink`: the sink, if it is there, and the pool without it.
  unfoldable pub remove_sink : ℕ → Pool → Option Sink × Pool
  remove_sink id p = (
    elim (lookup id p.sinks) [ none ↦ none | some sub ↦ some sub.sink ],
    record p { sinks = Map.remove id p.sinks },
  )

  unfoldable pub block_updated : ℕ → Pool → Pool
  unfolding cleanup_expired_constraints
  block_updated current_block p =
      let cleaned = cleanup_expired_constraints current_block p in
      record cleaned {
        sinks = retain (λ id sub. is_alive sub.sink && leb current_block sub.block) cleaned.sinks;
      }
