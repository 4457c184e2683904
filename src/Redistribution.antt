-- ===== src/Redistribution.antt =====
-- crates/rbuilder/src/backtest/redistribute/redistribution_algo.rs: how the profit of a landed block
-- is given back to the identities whose orders it includes. `none` is a panic; a sum or product of
-- U256 values wraps.
pub mod Signed
pub mod Adjust
pub mod Calculate
pub mod Split
pub mod Pairs
pub mod Paid
pub mod Fair
pub mod Examples
use constraints_builder.Shared.{
  ℕ, suc, zero, ◌+◌, ◌-◌, ◌*◌, ◌/◌, ◌%◌, ◌^◌, Bool, true, false, ◌&&◌, not, Option, none, some,
  List, [], ◌∷◌, map, leb, ltb, nat_beq, if◌then◌else◌, get_elem?,
}
use constraints_builder.Shared.Map.{or_default}
use constraints_builder.Primitives.Tx.{Address}
use constraints_builder.Primitives.Orders.{OrderId}
use constraints_builder.Redistribution.Signed.{
  ℤ, ◌+ℤ◌, ◌-ℤ◌, half, leb_ℤ, min_ℤ, max_ℤ, of_u256, to_u256,
}

abbrev pub u256_mod : ℕ
u256_mod = 2 ^ 256

pub record IncludedOrderData : Type 0 where
  pub id : OrderId
  pub realized_value : ℕ

pub record RedistributionIdentityData : Type 0 where
  pub address : Address
  pub block_value_delta : ℕ
  pub included_orders : List IncludedOrderData

pub record RedistributionCalculator : Type 0 where
  pub landed_block_profit : ℕ
  pub identity_data : List RedistributionIdentityData
  pub joint_block_value_delta : List ((Address × Address) × ℕ)

pub record RedistributionEntityResult : Type 0 where
  pub address : Address
  pub redistribution_value : ℕ
  pub order_redistribution_value : List (OrderId × ℕ)

pub record RedistributionResult : Type 0 where
  pub total_value_redistributed : ℕ
  pub value_by_identity : List RedistributionEntityResult

-- `iter().sum()`
unfoldable pub sum_from : ℕ → List ℕ → ℕ
sum_from acc [] = acc
sum_from acc (x ∷ xs) = sum_from ((acc + x) % u256_mod) xs

abbrev pub min : ℕ → ℕ → ℕ
min a b = if leb a b then a else b

unfoldable pub split_value : ℕ → List ℕ → List ℕ
split_value value split_vector =
    let total_split = sum_from 0 split_vector in
    if nat_beq total_split 0
    then map (λ split. 0) split_vector
    else map (λ split. (value * split) % u256_mod / total_split) split_vector

-- `position` of the identity with the address.
unfoldable pub position : Address → List RedistributionIdentityData → Option ℕ
position address [] = none
position address (i ∷ identities) =
    let rest = position address identities in
    if nat_beq i.address address then some 0 else elim rest [ none ↦ none | some n ↦ some (suc n) ]

-- The two vectors of `vector_subset_data`, as one of pairs: a pair with an unknown address is left
-- out.
unfoldable pub subset_entry : Option ℕ → Option ℕ → ℕ → Option ((ℕ × ℕ) × ℕ)
subset_entry (some idx1) (some idx2) value = some ((idx1, idx2), value)
subset_entry none y value = none
subset_entry (some idx1) none value = none

unfoldable pub vector_subset_data :
    List RedistributionIdentityData → List ((Address × Address) × ℕ) → List ((ℕ × ℕ) × ℕ)
unfolding subset_entry position
vector_subset_data identity [] = []
vector_subset_data identity (((addr1, addr2), value) ∷ joint) =
    let rest = vector_subset_data identity joint in
    elim (subset_entry (position addr1 identity) (position addr2 identity) value) [
      | none ↦ rest
      | some entry ↦ entry ∷ rest
    ]

-- An index that `position` gave is in range.
abbrev pub at : List ℕ → ℕ → ℕ
at xs i = or_default 0 (get_elem? xs i)

unfoldable pub set : List ℕ → ℕ → ℕ → List ℕ
set [] i v = []
set (x ∷ xs) zero v = v ∷ xs
set (x ∷ xs) (suc i) v = x ∷ set xs i v

-- The part of delta that the smaller contribution gives up.
unfoldable pub a_min : ℤ → ℤ → ℤ → ℤ
a_min a b delta =
    let parabola_min = half (delta -ℤ b +ℤ a) in
    let left_bound = max_ℤ (delta -ℤ b) (ℤ.pos 0) in
    let right_bound = min_ℤ a delta in
    if leb_ℤ parabola_min left_bound
    then left_bound
    else if not (leb_ℤ parabola_min left_bound) && leb_ℤ parabola_min right_bound
    then parabola_min
    else right_bound

-- The two assertions that the new values are not negative, and the one on their sum.
unfoldable pub subtract_checked : ℤ → ℤ → ℤ → ℤ → Option (ℤ × ℤ)
subtract_checked a b delta part =
    let a_new = a -ℤ part in
    let b_new = b -ℤ (delta -ℤ part) in
    if leb_ℤ (ℤ.pos 0) a_new && leb_ℤ (ℤ.pos 0) b_new && leb_ℤ (a_new +ℤ b_new) (a +ℤ b -ℤ delta)
    then some (a_new, b_new)
    else none

-- `adjust_contributions` after its two arguments are in order; `none` is a failed assertion.
unfoldable pub adjust_ordered : ℤ → ℤ → ℤ → Option (ℤ × ℤ)
unfolding a_min subtract_checked
adjust_ordered a b delta =
    if leb_ℤ (a +ℤ b) delta
    then some (ℤ.pos 0, ℤ.pos 0)
    else subtract_checked a b delta (a_min a b delta)

unfoldable pub swap : Option (ℤ × ℤ) → Option (ℤ × ℤ)
swap none = none
swap (some (a, b)) = some (b, a)

unfoldable pub adjust_contributions : ℤ → ℤ → ℤ → Option (ℤ × ℤ)
unfolding adjust_ordered swap
adjust_contributions a b delta =
    if leb_ℤ a b then adjust_ordered a b delta else swap (adjust_ordered b a delta)
