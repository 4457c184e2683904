-- ===== src/ConstraintInput/Pool/Invariant.antt =====
-- What every call of the pool (constraintpool.rs) keeps.
use constraints_builder.Shared.{
  inl, inr, ℕ, ◌+◌, ◌<◌, ◌≡◌, refl, true, ◌&&◌, not, List, [], ◌∷◌, ◌++◌, leb, ltb, nat_eq, nat_beq,
  arith, All, All-append, IsDistinct, contains, pair_eq, Option-cases, All-filter, Bool-cases,
}
use constraints_builder.Shared.Map
use constraints_builder.Shared.Map.{
  Map, lookup, retain, keys, or_default, lookup-insert, lookup-remove, lookup-retain,
  keys-insert-IsDistinct, keys-retain-IsDistinct, contains-keys-insert, keys-retain-le, All-insert,
  All-lookup,
}
use constraints_builder.ConstraintInput.Lru.{LruCache}
use constraints_builder.ConstraintInput.Sink.{
  Constraints, ConstraintId, ConstraintPoolCommand, ConstraintSink,
}
use constraints_builder.ConstraintInput.Pool.{
  SinkSubscription, ConstraintPool, Pool, stored, cleanup_expired_constraints,
  get_constraints_for_block, new, mutate, forward_all, process_command, process_commands, replay,
  add_sink, remove_sink, block_updated,
}

module _ {Transaction Cache Sink : Type 0} where
  -- One entry for a key in each map, constraints under their own block, and new subscription ids.
  pub record IsValid (p : ConstraintPool Transaction Cache Sink) : Type 0 where
    pub blocks_distinct : IsDistinct (keys p.constraints_by_block)
    pub sinks_distinct : IsDistinct (keys p.sinks)
    pub at_block :
        All
          (λ (e : ℕ × List (Constraints Transaction)).
            All (λ (c : Constraints Transaction). c.message.block ≡ e.0) e.1)
          p.constraints_by_block
    pub fresh : All (λ (e : ℕ × SinkSubscription Sink). e.0 < p.next_sink_id) p.sinks

abbrev pub AtBlock : {Transaction : Type 0} → ℕ → List (Constraints Transaction) → Type 0
AtBlock {Transaction} b cs = All (λ (c : Constraints Transaction). c.message.block ≡ b) cs

pub stored-AtBlock :
    {Transaction Cache Sink : Type 0} (p : ConstraintPool Transaction Cache Sink) (b : ℕ)
    → IsValid p
    → AtBlock b (stored p b)
stored-AtBlock {Transaction} p b v = elim (Option-cases (lookup b p.constraints_by_block)) [
  | inl missing ↦ rw missing tt
  | inr (cs, found) ↦ rw found (
      All-lookup (λ (e : ℕ × List (Constraints Transaction)). AtBlock e.0 e.1) b
        p.constraints_by_block cs v.at_block found)
]

cleanup-IsValid :
    {Transaction Cache Sink : Type 0} (n : ℕ) (p : ConstraintPool Transaction Cache Sink)
    → IsValid p
    → IsValid (cleanup_expired_constraints n p)
unfolding cleanup_expired_constraints
cleanup-IsValid {Transaction} n p v = record {
  blocks_distinct =
      keys-retain-IsDistinct (λ b cs. not (ltb b n)) p.constraints_by_block v.blocks_distinct;
  sinks_distinct = v.sinks_distinct;
  at_block =
      All-filter (λ (e : ℕ × List (Constraints Transaction)). AtBlock e.0 e.1)
        (λ kv. not (ltb kv.0 n)) p.constraints_by_block v.at_block;
  fresh = v.fresh;
}

module _ {Transaction : Type 0} (constraint_id : Constraints Transaction → ConstraintId)
    (L : LruCache) (S : ConstraintSink Transaction) where
  open L use {Cache}
  open S use {Sink}

  keys-forward_all-le :
      (cmd : ConstraintPoolCommand Transaction) (k : ℕ) (m : Map ℕ (SinkSubscription Sink))
      → contains (keys (forward_all constraint_id L S cmd m)) k ≡ true
      → contains (keys m) k ≡ true
  unfolding forward_all
  keys-forward_all-le cmd k [] h = h
  keys-forward_all-le cmd k ((i, sub) ∷ m) h = ground (arith, keys-forward_all-le cmd k m)

  keys-forward_all-IsDistinct :
      (cmd : ConstraintPoolCommand Transaction) (m : Map ℕ (SinkSubscription Sink))
      → IsDistinct (keys m)
      → IsDistinct (keys (forward_all constraint_id L S cmd m))
  unfolding forward_all
  keys-forward_all-IsDistinct cmd [] h = tt
  keys-forward_all-IsDistinct cmd ((i, sub) ∷ m) h =
      ground (arith, keys-forward_all-IsDistinct cmd m h.1, keys-forward_all-le cmd i m)

  forward_all-fresh :
      (cmd : ConstraintPoolCommand Transaction) (n : ℕ) (m : Map ℕ (SinkSubscription Sink))
      → All (λ (e : ℕ × SinkSubscription Sink). e.0 < n) m
      → All (λ (e : ℕ × SinkSubscription Sink). e.0 < n) (forward_all constraint_id L S cmd m)
  unfolding forward_all
  forward_all-fresh cmd n [] h = tt
  forward_all-fresh cmd n ((i, sub) ∷ m) h = ground (arith, forward_all-fresh cmd n m h.1)

  mutate-IsValid :
      (cmd : ConstraintPoolCommand Transaction) (p : Pool constraint_id L S)
      → IsValid p
      → IsValid (mutate constraint_id L S cmd p)
  unfolding mutate Map.remove
  mutate-IsValid (ConstraintPoolCommand.insert c) p v =
      let b = c.message.block in
      let cs = stored p b ++ c ∷ [] in
      elim (Bool-cases (L.contains p.known_constraints (constraint_id c, b))) [
        | inl known ↦ rw known v
        | inr unknown ↦ rw unknown (record {
          blocks_distinct = keys-insert-IsDistinct b cs p.constraints_by_block v.blocks_distinct;
          sinks_distinct = v.sinks_distinct;
          at_block =
              All-insert (λ (e : ℕ × List (Constraints Transaction)). AtBlock e.0 e.1) b cs
                p.constraints_by_block
                (All-append (λ (d : Constraints Transaction). d.message.block ≡ b) (stored p b)
                  (c ∷ []) (stored-AtBlock p b v) (refl, tt))
                v.at_block;
          fresh = v.fresh;
        })
      ]
  mutate-IsValid (ConstraintPoolCommand.remove_block b) p v = record {
    blocks_distinct =
        keys-retain-IsDistinct (λ k cs. not (nat_beq k b)) p.constraints_by_block v.blocks_distinct;
    sinks_distinct = v.sinks_distinct;
    at_block =
        All-filter (λ (e : ℕ × List (Constraints Transaction)). AtBlock e.0 e.1)
          (λ kv. not (nat_beq kv.0 b)) p.constraints_by_block v.at_block;
    fresh = v.fresh;
  }

  pub process_command-IsValid :
      (cmd : ConstraintPoolCommand Transaction) (p : Pool constraint_id L S)
      → IsValid p
      → IsValid (process_command constraint_id L S cmd p)
  unfolding process_command
  process_command-IsValid cmd p v =
      let q = mutate constraint_id L S cmd p in
      let w = mutate-IsValid cmd p v in
      record {
        blocks_distinct = w.blocks_distinct;
        sinks_distinct = keys-forward_all-IsDistinct cmd q.sinks w.sinks_distinct;
        at_block = w.at_block;
        fresh = forward_all-fresh cmd q.next_sink_id q.sinks w.fresh;
      }

  pub add_sink-IsValid :
      (b : ℕ) (sink : Sink) (p : Pool constraint_id L S)
      → IsValid p
      → IsValid (add_sink constraint_id L S b sink p).1
  unfolding add_sink
  add_sink-IsValid b sink p v =
      let sub : SinkSubscription Sink = record {
        sink = replay constraint_id L S (stored p b) sink;
        block = b;
      } in
      record {
        blocks_distinct = v.blocks_distinct;
        sinks_distinct = keys-insert-IsDistinct p.next_sink_id sub p.sinks v.sinks_distinct;
        at_block = v.at_block;
        fresh =
            All-insert (λ (e : ℕ × SinkSubscription Sink). e.0 < p.next_sink_id + 1) p.next_sink_id
              sub p.sinks (omega arith) (later p.next_sink_id p.sinks v.fresh);
      }
    where
      later :
          (n : ℕ) (m : Map ℕ (SinkSubscription Sink))
          → All (λ (e : ℕ × SinkSubscription Sink). e.0 < n) m
          → All (λ (e : ℕ × SinkSubscription Sink). e.0 < n + 1) m
      later n [] h = tt
      later n (e ∷ m) h = (omega arith, later n m h.1)

  remove_sink-IsValid :
      (id : ℕ) (p : Pool constraint_id L S)
      → IsValid p
      → IsValid (remove_sink constraint_id L S id p).1
  unfolding remove_sink Map.remove
  remove_sink-IsValid id p v = record {
    blocks_distinct = v.blocks_distinct;
    sinks_distinct = keys-retain-IsDistinct (λ k sub. not (nat_beq k id)) p.sinks v.sinks_distinct;
    at_block = v.at_block;
    fresh =
        All-filter (λ (e : ℕ × SinkSubscription Sink). e.0 < p.next_sink_id)
          (λ kv. not (nat_beq kv.0 id)) p.sinks v.fresh;
  }

  block_updated-IsValid :
      (n : ℕ) (p : Pool constraint_id L S)
      → IsValid p
      → IsValid (block_updated constraint_id L S n p)
  unfolding block_updated cleanup_expired_constraints
  block_updated-IsValid n p v =
      let w = cleanup-IsValid n p v in
      record {
        blocks_distinct = w.blocks_distinct;
        sinks_distinct =
            keys-retain-IsDistinct (λ id sub. S.is_alive sub.sink && leb n sub.block) p.sinks
              v.sinks_distinct;
        at_block = w.at_block;
        fresh =
            All-filter (λ (e : ℕ × SinkSubscription Sink). e.0 < p.next_sink_id)
              (λ kv. S.is_alive kv.1.sink && leb n kv.1.block) p.sinks v.fresh;
      }

-- The calls of `ConstraintPoolSubscriber` and of the task that reads the commands (mod.rs).
pub data Call (Transaction Sink : Type 0) : Type 0 where
  commands : List (ConstraintPoolCommand Transaction) → Call Transaction Sink
  subscribe : ℕ → Sink → Call Transaction Sink
  unsubscribe : ℕ → Call Transaction Sink
  get : ℕ → Call Transaction Sink
  updated : ℕ → Call Transaction Sink

module _ {Transaction : Type 0} (constraint_id : Constraints Transaction → ConstraintId)
    (L : LruCache) (S : ConstraintSink Transaction) where
  pub call : Call Transaction S.Sink → Pool constraint_id L S → Pool constraint_id L S
  call (Call.commands cmds) p = process_commands constraint_id L S cmds p
  call (Call.subscribe b sink) p = (add_sink constraint_id L S b sink p).1
  call (Call.unsubscribe id) p = (remove_sink constraint_id L S id p).1
  call (Call.get b) p = (get_constraints_for_block b p).1
  call (Call.updated n) p = block_updated constraint_id L S n p

  pub calls : List (Call Transaction S.Sink) → Pool constraint_id L S → Pool constraint_id L S
  unfolding call
  calls [] p = p
  calls (c ∷ cs) p = calls cs (call c p)

  process_commands-IsValid :
      (cmds : List (ConstraintPoolCommand Transaction)) (p : Pool constraint_id L S)
      → IsValid p
      → IsValid (process_commands constraint_id L S cmds p)
  unfolding process_commands
  process_commands-IsValid [] p v = v
  process_commands-IsValid (cmd ∷ cmds) p v =
      process_commands-IsValid cmds (process_command constraint_id L S cmd p)
        (process_command-IsValid constraint_id L S cmd p v)

  call-IsValid :
      (c : Call Transaction S.Sink) (p : Pool constraint_id L S) → IsValid p → IsValid (call c p)
  unfolding call get_constraints_for_block
  call-IsValid (Call.commands cmds) p v = process_commands-IsValid cmds p v
  call-IsValid (Call.subscribe b sink) p v = add_sink-IsValid constraint_id L S b sink p v
  call-IsValid (Call.unsubscribe id) p v = remove_sink-IsValid constraint_id L S id p v
  call-IsValid (Call.get b) p v = cleanup-IsValid b p v
  call-IsValid (Call.updated n) p v = block_updated-IsValid constraint_id L S n p v

  pub calls-IsValid :
      (cs : List (Call Transaction S.Sink)) (p : Pool constraint_id L S)
      → IsValid p
      → IsValid (calls cs p)
  unfolding calls
  calls-IsValid [] p v = v
  calls-IsValid (c ∷ cs) p v = calls-IsValid cs (call c p) (call-IsValid c p v)

  -- Over any hash, cache and sinks: after any list of calls on a new pool both maps have one entry
  -- for a key, every constraint is stored under the block that it names, and every subscription id
  -- is below the next one.
  pub calls-new-IsValid :
      (cs : List (Call Transaction S.Sink)) → IsValid (calls cs (new constraint_id L S))
  unfolding new
  calls-new-IsValid cs =
      calls-IsValid cs (new constraint_id L S)
        (record { blocks_distinct = tt; sinks_distinct = tt; at_block = tt; fresh = tt })
