-- ===== src/ConstraintInput/Sink.antt =====
-- Constraints (crates/rbuilder-primitives/src/constraints.rs) and their receivers
-- (crates/rbuilder/src/live_builder/constraint_input/constraint_sink.rs). The SSZ encoding and
-- keccak256, which make the id of a constraint, and the type of its transactions are of other
-- crates.
use constraints_builder.Shared.{ℕ, Bool, List, pair_eq, nat_eq}

pub record ConstraintsMessage (Transaction : Type 0) : Type 0 where
  pub block : ℕ
  pub transactions : List Transaction

pub record Constraints (Transaction : Type 0) : Type 0 where
  pub message : ConstraintsMessage Transaction

-- A `B256`, the hash of the encoded constraint.
abbrev pub ConstraintId : Type 0
ConstraintId = ℕ

pub data ConstraintPoolCommand (Transaction : Type 0) : Type 0 where
  insert : Constraints Transaction → ConstraintPoolCommand Transaction
  remove_block : ℕ → ConstraintPoolCommand Transaction

-- The trait `ConstraintSink`.
pub record ConstraintSink (Transaction : Type 0) : Type 1 where
  pub Sink : Type 0
  pub insert_constraint : Sink → Constraints Transaction → Sink × Bool
  pub remove_constraints_for_block : Sink → ℕ → Sink × Bool
  pub is_alive : Sink → Bool
