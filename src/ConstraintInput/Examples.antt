-- ===== src/ConstraintInput/Examples.antt =====
-- Small runs of constraintpool.rs, over a sink that records its commands, and its theorems at
-- concrete inputs.
use constraints_builder.Shared.{
  ℕ, ◌≡◌, refl, true, List, [], ◌∷◌, ◌++◌, some, arith, map, IsDistinct, nat_eq, ltb, leb,
  if◌then◌else◌, ◌&&◌,
}
use constraints_builder.Shared.Map.{lookup}
use constraints_builder.ConstraintInput.Sink.{
  Constraints, ConstraintId, ConstraintPoolCommand, ConstraintSink,
}
use constraints_builder.ConstraintInput.Lru.Recent.{recent}
use constraints_builder.ConstraintInput.Pool.{
  Pool, new, stored, get_constraints_for_block, process_commands, process_command, mutate,
  process_constraint, add_sink, block_updated,
}
use constraints_builder.ConstraintInput.Pool.Invariant.{Call, calls, IsValid, calls-new-IsValid}
use constraints_builder.ConstraintInput.Pool.Dedup.{process_commands-IsDistinct, reinsert_lost}
use constraints_builder.ConstraintInput.Pool.Expiry.{kept_if, block_updated_lem}
use constraints_builder.ConstraintInput.Pool.Feed.{heard, told, add_sink-heard}

-- Transactions are numbers here, and the id of a constraint is its first transaction.
abbrev first : List ℕ → ℕ
first [] = 0
first (t ∷ ts) = t

abbrev hash : Constraints ℕ → ConstraintId
hash c = first c.message.transactions

abbrev recorder : ConstraintSink ℕ
recorder = record {
  Sink = List (ConstraintPoolCommand ℕ);
  insert_constraint = λ log c. (log ++ ConstraintPoolCommand.insert c ∷ [], true);
  remove_constraints_for_block = λ log b. (log ++ ConstraintPoolCommand.remove_block b ∷ [], true);
  is_alive = λ log. true;
}

abbrev constraint : ℕ → ℕ → Constraints ℕ
constraint block t = record { message = record { block = block; transactions = t ∷ [] } }

abbrev commands : List (ConstraintPoolCommand ℕ)
commands =
    ConstraintPoolCommand.insert (constraint 5 1)
    ∷ ConstraintPoolCommand.insert (constraint 5 1)
    ∷ ConstraintPoolCommand.insert (constraint 6 2)
    ∷ []

abbrev filled : Pool hash recent recorder
filled = process_commands hash recent recorder commands (new hash recent recorder)

calls-new-IsValid_example : IsValid (
    calls hash recent recorder
      (Call.commands commands ∷ Call.subscribe 5 [] ∷ Call.updated 6 ∷ [])
      (new hash recent recorder))
calls-new-IsValid_example =
    calls-new-IsValid hash recent recorder
      (Call.commands commands ∷ Call.subscribe 5 [] ∷ Call.updated 6 ∷ [])

process_commands-IsDistinct_example : IsDistinct (map hash (stored filled 5))
process_commands-IsDistinct_example =
    process_commands-IsDistinct hash recent recorder commands (omega arith) 5

abbrev known_pool : Pool hash recent recorder
known_pool =
    process_command hash recent recorder (ConstraintPoolCommand.insert (constraint 5 1))
      (new hash recent recorder)

reinsert_lost_example :
    (get_constraints_for_block 5 (
      process_commands hash recent recorder
        (ConstraintPoolCommand.remove_block 5 ∷ ConstraintPoolCommand.insert (constraint 5 1) ∷ [])
        known_pool)).0
    ≡ []
unfolding process_command mutate process_constraint new recent
reinsert_lost_example = reinsert_lost hash recent recorder (constraint 5 1) known_pool refl

-- Valid pools for the theorems below.
filled-IsValid :
    IsValid (calls hash recent recorder (Call.commands commands ∷ []) (new hash recent recorder))
filled-IsValid = calls-new-IsValid hash recent recorder (Call.commands commands ∷ [])

abbrev called : Pool hash recent recorder
called = calls hash recent recorder (Call.commands commands ∷ []) (new hash recent recorder)

block_updated_example :
    ((b : ℕ)
      → stored (block_updated hash recent recorder 6 called) b
        ≡ (if ltb b 6 then [] else stored called b))
    × ((id : ℕ)
        → lookup id (block_updated hash recent recorder 6 called).sinks
          ≡ kept_if (λ sub. true && leb 6 sub.block) (lookup id called.sinks))
block_updated_example = block_updated_lem hash recent recorder called 6 filled-IsValid

add_sink-heard_example :
    lookup
      (add_sink hash recent recorder 5 [] called).0
      (process_commands hash recent recorder commands
        (add_sink hash recent recorder 5 [] called).1).sinks
    ≡ heard hash recent recorder 5 commands (told hash recent recorder (stored called 5) [])
add_sink-heard_example = add_sink-heard hash recent recorder 5 [] commands called filled-IsValid

-- The subscriber of block 5 hears the known constraint twice.
heard_twice :
    heard hash recent recorder 5 commands []
    ≡ some (record {
      sink =
          ConstraintPoolCommand.insert (constraint 5 1)
          ∷ ConstraintPoolCommand.insert (constraint 5 1)
          ∷ [];
      block = 5;
    })
unfolding heard
heard_twice = refl
