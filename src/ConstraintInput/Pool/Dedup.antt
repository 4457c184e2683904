-- ===== src/ConstraintInput/Pool/Dedup.antt =====
-- Deduplication in the pool (constraintpool.rs).
use constraints_builder.Shared.{
  inl, inr, Bool-cases, ℕ, suc, ◌+◌, ◌≤◌, ◌<◌, ◌≡◌, refl, ap, true, not, List, [], ◌∷◌, ◌++◌, ltb,
  nat_eq, arith, IsDistinct, contains, length, map, contains-append, IsDistinct-append_one, pair_eq,
  Bool-cases,
}
use constraints_builder.Shared.Map
use constraints_builder.Shared.Map.{
  Map, lookup, retain, keys, or_default, lookup-insert, lookup-remove, lookup-retain-none,
  lookup-retain, keys-insert-IsDistinct, keys-retain-IsDistinct, contains-keys-insert,
  keys-retain-le,
}
use constraints_builder.ConstraintInput.Lru.{Key, LruCache}
use constraints_builder.ConstraintInput.Sink.{
  Constraints, ConstraintId, ConstraintPoolCommand, ConstraintSink,
}
use constraints_builder.ConstraintInput.Pool.{
  Pool, stored, cleanup_expired_constraints, get_constraints_for_block, new, process_constraint,
  process_remove_block, mutate, process_command, process_commands,
}

module _ {Transaction : Type 0} (constraint_id : Constraints Transaction → ConstraintId)
    (L : LruCache) (S : ConstraintSink Transaction) where
  abbrev ids : List (Constraints Transaction) → List ConstraintId
  ids cs = map constraint_id cs

  -- The cache knows all that is stored, and nothing is stored twice under a block.
  record IsDeduped (p : Pool constraint_id L S) : Type 0 where
    known :
        (b : ℕ) (i : ConstraintId)
        → contains (ids (stored p b)) i ≡ true
        → L.contains p.known_constraints (i, b) ≡ true
    once : (b : ℕ) → IsDistinct (ids (stored p b))

  ids-append :
      (xs : List (Constraints Transaction)) (c : Constraints Transaction)
      → ids (xs ++ c ∷ []) ≡ ids xs ++ constraint_id c ∷ []
  ids-append [] c = refl
  ids-append (x ∷ xs) c = ap (λ t. constraint_id x ∷ t) (ids-append xs c)

  insert-IsDeduped :
      (c : Constraints Transaction) (p : Pool constraint_id L S)
      → L.len p.known_constraints < L.cap p.known_constraints
      → IsDeduped p
      → IsDeduped (process_constraint constraint_id L S c p)
  unfolding process_constraint
  insert-IsDeduped c p room h =
      let k : Key = (constraint_id c, c.message.block) in
      let cs = stored p c.message.block ++ c ∷ [] in
      elim (Bool-cases (L.contains p.known_constraints k)) [
        | inl known ↦ rw known h
        | inr unknown ↦ rw unknown (record {
          known = λ b i q. ground (
            arith,
            lookup-insert c.message.block b cs p.constraints_by_block,
            ids-append (stored p c.message.block) c,
            contains-append (ids (stored p c.message.block)) (constraint_id c ∷ []) i,
            h.known b i,
            L.contains-put_self p.known_constraints k,
            L.contains-put_room p.known_constraints k (i, b) room,
          );
          once = λ b. ground (
            arith,
            lookup-insert c.message.block b cs p.constraints_by_block,
            ids-append (stored p c.message.block) c,
            h.known c.message.block (constraint_id c),
            h.once b,
            IsDistinct-append_one (ids (stored p c.message.block)) (constraint_id c)
                (h.once c.message.block),
          );
        })
      ]

  remove-IsDeduped :
      (b : ℕ) (p : Pool constraint_id L S)
      → IsDeduped p
      → IsDeduped (process_remove_block constraint_id L S b p)
  unfolding process_remove_block
  remove-IsDeduped b p h = record {
    known = λ d i q. ground (arith, lookup-remove b d p.constraints_by_block, h.known d i);
    once = λ d. ground (arith, lookup-remove b d p.constraints_by_block, h.once d);
  }

  mutate-IsDeduped :
      (cmd : ConstraintPoolCommand Transaction) (p : Pool constraint_id L S)
      → L.len p.known_constraints < L.cap p.known_constraints
      → IsDeduped p
      → IsDeduped (mutate constraint_id L S cmd p)
  unfolding mutate
  mutate-IsDeduped (ConstraintPoolCommand.insert c) p room h = insert-IsDeduped c p room h
  mutate-IsDeduped (ConstraintPoolCommand.remove_block b) p room h = remove-IsDeduped b p h

  -- A command takes at most one place in the cache.
  len-mutate :
      (cmd : ConstraintPoolCommand Transaction) (p : Pool constraint_id L S)
      → (L.len (mutate constraint_id L S cmd p).known_constraints ≤ suc (L.len p.known_constraints))
        × (L.cap (mutate constraint_id L S cmd p).known_constraints ≡ L.cap p.known_constraints)
  unfolding mutate process_constraint
  len-mutate (ConstraintPoolCommand.insert c) p = ground (
    arith,
    L.len-put_le p.known_constraints (constraint_id c, c.message.block),
    L.cap-put p.known_constraints (constraint_id c, c.message.block),
  )
  len-mutate (ConstraintPoolCommand.remove_block b) p = ground arith

  run-IsDeduped :
      (cmds : List (ConstraintPoolCommand Transaction)) (p : Pool constraint_id L S)
      → L.len p.known_constraints + length cmds ≤ L.cap p.known_constraints
      → IsDeduped p
      → IsDeduped (process_commands constraint_id L S cmds p)
  unfolding process_commands process_command
  run-IsDeduped [] p room h = h
  run-IsDeduped (cmd ∷ cmds) p room h =
      let d = mutate-IsDeduped cmd p (omega arith) h in
      run-IsDeduped cmds (process_command constraint_id L S cmd p) (omega (arith, len-mutate cmd p))
        (record { known = d.known; once = d.once })

  new-IsDeduped : IsDeduped (new constraint_id L S)
  unfolding new lookup
  new-IsDeduped = record { known = λ b i q. ground arith; once = λ b. tt }

  -- Over any hash, any cache that meets the documentation and any sinks: after up to 1000 commands
  -- on a new pool no block has two stored constraints with one id.
  pub process_commands-IsDistinct :
      (cmds : List (ConstraintPoolCommand Transaction))
      → length cmds ≤ 1000
      → (b : ℕ)
      → IsDistinct (
          map constraint_id
            (stored (process_commands constraint_id L S cmds (new constraint_id L S)) b))
  unfolding new
  process_commands-IsDistinct cmds short =
      (run-IsDeduped cmds (new constraint_id L S) (omega (arith, L.len-new 1000, L.cap-new 1000))
        new-IsDeduped).once

  -- Over any hash, cache and sinks: once the cache knows a constraint, removing its block and
  -- inserting the constraint again leaves the block without constraints, and a builder that asks
  -- for them gets none.
  pub reinsert_lost :
      (c : Constraints Transaction) (p : Pool constraint_id L S)
      → L.contains p.known_constraints (constraint_id c, c.message.block) ≡ true
      → (get_constraints_for_block c.message.block (
          process_commands constraint_id L S
            (ConstraintPoolCommand.remove_block c.message.block
              ∷ ConstraintPoolCommand.insert c
              ∷ [])
            p)).0
        ≡ []
  unfolding process_commands process_command mutate process_constraint process_remove_block
      get_constraints_for_block cleanup_expired_constraints
  reinsert_lost c p known =
      let b = c.message.block in
      let emptied = Map.remove b p.constraints_by_block in
      ground (
        arith,
        lookup-remove b b p.constraints_by_block,
        lookup-retain-none (λ (d : ℕ) (cs : List (Constraints Transaction)). not (ltb d b)) b
            emptied,
      )
