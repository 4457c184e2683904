-- ===== src/ConstraintInput/Pool/Feed.antt =====
-- What a subscription of the pool (constraintpool.rs) receives.
use constraints_builder.Shared.{
  ℕ, ◌≡◌, refl, ap, ◌∙◌, false, Option, none, some, List, [], ◌∷◌, nat_eq, nat_beq, if◌then◌else◌,
  arith, IsDistinct, contains, pair_eq, Bool,
}
use constraints_builder.Shared.Map.{Map, lookup, keys, lookup-insert, or_default}
use constraints_builder.ConstraintInput.Lru.{LruCache}
use constraints_builder.ConstraintInput.Sink.{
  Constraints, ConstraintId, ConstraintPoolCommand, ConstraintSink,
}
use constraints_builder.ConstraintInput.Pool.{
  SinkSubscription, Pool, stored, command_target_block, mutate, send, forward, forward_all,
  process_command, process_commands, replay, add_sink,
}
use constraints_builder.ConstraintInput.Pool.Invariant.{
  IsValid, process_command-IsValid, add_sink-IsValid,
}

module _ {Transaction : Type 0} (constraint_id : Constraints Transaction → ConstraintId)
    (L : LruCache) (S : ConstraintSink Transaction) where
  open S use {Sink, is_alive, insert_constraint, remove_constraints_for_block}

  -- What a command tells a sink, and the block that it is about.
  abbrev pub answer : ConstraintPoolCommand Transaction → Sink → Sink × Bool
  answer (ConstraintPoolCommand.insert c) s = insert_constraint s c
  answer (ConstraintPoolCommand.remove_block b) s = remove_constraints_for_block s b

  abbrev pub block_of : ConstraintPoolCommand Transaction → ℕ
  block_of (ConstraintPoolCommand.insert c) = c.message.block
  block_of (ConstraintPoolCommand.remove_block b) = b

  -- The specification: a sink for one block that hears the commands, until it is found dead or
  -- refuses one that is for its block.
  unfoldable pub heard :
      ℕ → List (ConstraintPoolCommand Transaction) → Sink → Option (SinkSubscription Sink)
  heard b [] s = some (record { sink = s; block = b })
  heard b (cmd ∷ cmds) s =
      let (s', ok) = answer cmd s in
      let after = heard b cmds s' in
      let same = heard b cmds s in
      if is_alive s
      then (if nat_beq b (block_of cmd) then (if ok then after else none) else same)
      else none

  -- A sink that gets the constraints, the first of the list first, whatever it answers.
  abbrev pub told : List (Constraints Transaction) → Sink → Sink
  told [] s = s
  told (c ∷ cs) s = told cs (insert_constraint s c).0

  replay-told :
      (cs : List (Constraints Transaction)) (s : Sink) → replay constraint_id L S cs s ≡ told cs s
  unfolding replay
  replay-told [] s = refl
  replay-told (c ∷ cs) s = replay-told cs (insert_constraint s c).0

  abbrev then_forward :
      ConstraintPoolCommand Transaction
      → Option (SinkSubscription Sink)
      → Option (SinkSubscription Sink)
  then_forward cmd none = none
  then_forward cmd (some sub) = forward constraint_id L S cmd sub

  forward_all_absent :
      (cmd : ConstraintPoolCommand Transaction) (id : ℕ) (m : Map ℕ (SinkSubscription Sink))
      → contains (keys m) id ≡ false
      → lookup id (forward_all constraint_id L S cmd m) ≡ none
  unfolding forward_all lookup
  forward_all_absent cmd id [] h = refl
  forward_all_absent cmd id ((j, sub) ∷ m) h = ground (arith, forward_all_absent cmd id m)

  lookup-forward_all :
      (cmd : ConstraintPoolCommand Transaction) (id : ℕ) (m : Map ℕ (SinkSubscription Sink))
      → IsDistinct (keys m)
      → lookup id (forward_all constraint_id L S cmd m) ≡ then_forward cmd (lookup id m)
  unfolding forward_all lookup
  lookup-forward_all cmd id [] h = refl
  lookup-forward_all cmd id ((j, sub) ∷ m) h =
      ground (arith, lookup-forward_all cmd id m h.1, forward_all_absent cmd id m)

  sinks-mutate :
      (cmd : ConstraintPoolCommand Transaction) (p : Pool constraint_id L S)
      → (mutate constraint_id L S cmd p).sinks ≡ p.sinks
  unfolding mutate
  sinks-mutate (ConstraintPoolCommand.insert c) p = ground arith
  sinks-mutate (ConstraintPoolCommand.remove_block b) p = refl

  lookup-process_command :
      (cmd : ConstraintPoolCommand Transaction) (id : ℕ) (p : Pool constraint_id L S)
      → IsValid p
      → lookup id (process_command constraint_id L S cmd p).sinks
        ≡ then_forward cmd (lookup id p.sinks)
  unfolding process_command
  lookup-process_command cmd id p v =
      lookup-forward_all cmd id (mutate constraint_id L S cmd p).sinks
        (rw (sinks-mutate cmd p) v.sinks_distinct)
      ∙ ap (λ m. then_forward cmd (lookup id m)) (sinks-mutate cmd p)

  send-answer :
      (cmd : ConstraintPoolCommand Transaction) (s : Sink)
      → send constraint_id L S cmd s ≡ answer cmd s
  unfolding send
  send-answer (ConstraintPoolCommand.insert c) s = refl
  send-answer (ConstraintPoolCommand.remove_block b) s = refl

  target-block_of :
      (cmd : ConstraintPoolCommand Transaction) → command_target_block cmd ≡ block_of cmd
  unfolding command_target_block
  target-block_of (ConstraintPoolCommand.insert c) = refl
  target-block_of (ConstraintPoolCommand.remove_block b) = refl

  gone :
      (cmds : List (ConstraintPoolCommand Transaction)) (id : ℕ) (p : Pool constraint_id L S)
      → IsValid p
      → lookup id p.sinks ≡ none
      → lookup id (process_commands constraint_id L S cmds p).sinks ≡ none
  unfolding process_commands
  gone [] id p v h = h
  gone (cmd ∷ cmds) id p v h =
      gone cmds id (process_command constraint_id L S cmd p)
        (process_command-IsValid constraint_id L S cmd p v)
        (lookup-process_command cmd id p v ∙ ap (then_forward cmd) h)

  followed :
      (cmds : List (ConstraintPoolCommand Transaction)) (id b : ℕ) (s : Sink)
      (p : Pool constraint_id L S)
      → IsValid p
      → lookup id p.sinks ≡ some (record { sink = s; block = b })
      → lookup id (process_commands constraint_id L S cmds p).sinks ≡ heard b cmds s
  unfolding process_commands heard forward
  followed [] id b s p v h = h
  followed (cmd ∷ cmds) id b s p v h =
      let q = process_command constraint_id L S cmd p in
      let w = process_command-IsValid constraint_id L S cmd p v in
      ground (
        arith,
        lookup-process_command cmd id p v,
        gone cmds id q w,
        followed cmds id b s q w,
        followed cmds id b (answer cmd s).0 q w,
        send-answer cmd s,
        target-block_of cmd,
      )

  -- On a valid pool, over any hash, cache and sinks, whatever the other subscriptions do: a sink
  -- that subscribes to a block first gets the constraints stored for the block, in order; then its
  -- subscription hears every later command for its block, in order, also those that the pool drops
  -- as known, and ends when the sink is found dead or refuses a command.
  pub add_sink-heard :
      (b : ℕ) (s : Sink) (cmds : List (ConstraintPoolCommand Transaction))
      (p : Pool constraint_id L S)
      → IsValid p
      → lookup
          (add_sink constraint_id L S b s p).0
          (process_commands constraint_id L S cmds (add_sink constraint_id L S b s p).1).sinks
        ≡ heard b cmds (told (or_default [] (lookup b p.constraints_by_block)) s)
  unfolding add_sink
  add_sink-heard b s cmds p v =
      let s' = told (stored p b) s in
      let sub : SinkSubscription Sink = record { sink = s'; block = b } in
      followed cmds p.next_sink_id b s' (add_sink constraint_id L S b s p).1
        (add_sink-IsValid constraint_id L S b s p v)
        (ground (
          arith,
          lookup-insert p.next_sink_id p.next_sink_id sub p.sinks,
          replay-told (stored p b) s,
        ))
