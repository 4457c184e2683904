-- ===== src/Parallel/Groups/Added.antt =====
-- Orders are added without a panic, and groups with different ids never conflict.

use constraints_builder.Shared.{
  ◌+◌, ◌^◌, ◌<◌, ◌≡◌, ◌∙◌, inl, inr, refl, arith, Bool, true, false, Option, none, some, List, [],
  ◌∷◌, ◌++◌, length, contains, nat_eq, if◌then◌else◌, All, Bool-cases, set_insert,
}
use constraints_builder.Shared.Map.{lookup}
use constraints_builder.Primitives.Orders.{order_id_eq}
use constraints_builder.Primitives.SimValue.{SimulatedOrder, UsedStateTrace, sim_id}
use constraints_builder.Parallel.Groups.{slot_eq}
use constraints_builder.Parallel.Groups.Sorted.{IsOnce, nat_order, dedup-sort-IsOnce}
use constraints_builder.Parallel.Groups.Apart.{IsIndexed}
use constraints_builder.Parallel.Groups.Conflicts.{new_order_group-IsApart}
use constraints_builder.Parallel.Groups.Kept.{IsOnceGroup, no_groups-IsIndexed}
use constraints_builder.Parallel.Groups.Placed.{IsStored}
use constraints_builder.Parallel.Groups.Known.{all_groups_in_conflict-IsKnown, IsOnce-IsStored}
use constraints_builder.Parallel.Groups.Sound.{IsSound, IsSeparate}
use constraints_builder.Parallel.Groups.Finder.{
  slot_conflicts, balance_conflicts, code_conflicts, no_groups, new_order_group,
  all_groups_in_conflict, add_order, add_orders, ConflictFinder, place,
}
use constraints_builder.Parallel.Groups.Placing.{IsNext, place-IsNext}

-- A `HashMap` of the trace has each of its keys once.
abbrev pub IsTrace : Option UsedStateTrace → Type 0
IsTrace none = Unit
IsTrace (some u) = IsOnce u.read_slot_values × IsOnce u.written_slot_values × IsOnce u.read_balances

new_order_group-IsOnceGroup :
    (order : SimulatedOrder) (u : UsedStateTrace)
    → IsTrace (some u)
    → IsOnceGroup (new_order_group order u)
unfolding new_order_group
new_order_group-IsOnceGroup order u (r, w, b) = (
  r,
  w,
  b,
  (dedup-sort-IsOnce nat_order (u.sent_amount ++ u.received_amount)).0,
  (dedup-sort-IsOnce nat_order (u.created_contracts ++ u.destructed_contracts)).0,
)

all_groups_in_conflict-IsOnce :
    (f : ConflictFinder) (u : UsedStateTrace) → IsOnce (all_groups_in_conflict f u)
unfolding all_groups_in_conflict
all_groups_in_conflict-IsOnce f u =
    (dedup-sort-IsOnce nat_order (
      slot_conflicts f.group_writes f.group_code_writes u.read_slot_values
      ++ slot_conflicts f.group_reads f.group_code_writes u.written_slot_values
      ++ balance_conflicts f.group_balance_reads (u.received_amount ++ u.sent_amount)
      ++ balance_conflicts f.group_balance_writes u.read_balances
      ++ code_conflicts f (u.destructed_contracts ++ u.created_contracts))).0

pub conflicts-IsStored :
    (f : ConflictFinder) (u : UsedStateTrace)
    → IsSound f
    → IsStored (all_groups_in_conflict f u) f.groups
conflicts-IsStored f u sound =
    IsOnce-IsStored (all_groups_in_conflict f u) f.groups (all_groups_in_conflict-IsOnce f u)
      (λ i. all_groups_in_conflict-IsKnown f f.groups sound.0 i sound.1 sound.2 u)

pub traced-IsNext :
    (order : SimulatedOrder) (u : UsedStateTrace) (f : ConflictFinder)
    → IsSound f
    → IsTrace (some u)
    → f.group_counter + 1 < 2 ^ 64
    → (next : ConflictFinder) × (place (new_order_group order u) (all_groups_in_conflict f u) f
        ≡ some next)
      × IsNext f next
traced-IsNext order u f sound trace small =
    place-IsNext (new_order_group order u) f sound (new_order_group-IsOnceGroup order u trace) small
      (all_groups_in_conflict f u) (conflicts-IsStored f u sound)
      (λ j b there out. new_order_group-IsApart f f.groups u order j b sound.0 there out)

pub if_false : {A : Type 0} (b : Bool) (x y : A) → b ≡ false → (if b then x else y) ≡ y
if_false true x y e = absurd (cc)
if_false false x y e = refl

by_trace :
    (order : SimulatedOrder) (f : ConflictFinder) (t : Option UsedStateTrace)
    → IsSound f
    → IsTrace t
    → f.group_counter + 1 < 2 ^ 64
    → (next : ConflictFinder) × ((elim t [
      | none ↦ some f
      | some u ↦ place (new_order_group order u) (all_groups_in_conflict f u) f
    ])
        ≡ some next)
      × IsNext f next
by_trace order f none sound trace small = (f, refl, (sound, omega arith))
by_trace order f (some u) sound trace small = traced-IsNext order u f sound trace small

pub add_order-IsNext :
    (order : SimulatedOrder) (f : ConflictFinder)
    → IsSound f
    → IsTrace order.used_state_trace
    → f.group_counter + 1 < 2 ^ 64
    → (next : ConflictFinder) × (add_order order f ≡ some next) × IsNext f next
unfolding add_order
add_order-IsNext order f sound trace small = elim (Bool-cases (contains f.known (sim_id order))) [
  | inl e ↦ (f, rw (e, add_order) refl, (sound, omega arith))
  | inr e ↦
      let noted : ConflictFinder = record f { known = set_insert (sim_id order) f.known } in
      let (next, p, h) = by_trace order noted order.used_state_trace sound trace small in
      (
        next,
        if_false (contains f.known (sim_id order)) (some f)
              (elim order.used_state_trace [
                | none ↦ some noted
                | some u ↦ place (new_order_group order u) (all_groups_in_conflict noted u) noted
              ])
              e
            ∙ p,
        h,
      )
]

more :
    (orders : List SimulatedOrder) (f : ConflictFinder)
    → IsSound f
    → All (λ o. IsTrace o.used_state_trace) orders
    → f.group_counter + length orders < 2 ^ 64
    → (next : ConflictFinder) × (add_orders orders f ≡ some next) × IsSound next
unfolding add_orders
more [] f sound traces few = (f, refl, sound)
more (order ∷ orders) f sound traces few =
    let (one, e, (sound', le)) = add_order-IsNext order f sound traces.0 (omega (arith, few)) in
    let (next, e', h) = more orders one sound' traces.1 (omega (arith, few, le)) in
    (next, rw (e, add_orders) e', h)

pub no_groups-IsSound : IsSound no_groups
unfolding lookup
no_groups-IsSound = (
  no_groups-IsIndexed,
  λ a. tt,
  λ a. tt,
  λ i d e. absurd (cc),
  λ i d e. absurd (cc),
  λ i j a b e e' differ. absurd (cc),
)

-- Whatever orders are added to a new finder, fewer than 2^64 of them, where no trace names a slot or a
-- balance twice among those it reads or those it writes: `add_orders` does not panic, and no two
-- groups with different ids conflict, so neither reads a slot or a balance that the other changes, and
-- no slot of one is of a contract that the other creates or destroys. The indices then list exactly
-- the groups, each under its keys.
pub add_orders-IsSound :
    (orders : List SimulatedOrder)
    → All (λ o. IsTrace o.used_state_trace) orders
    → length orders < 2 ^ 64
    → (f : ConflictFinder) × (add_orders orders no_groups ≡ some f)
      × IsSeparate f.groups
      × IsIndexed f f.groups
add_orders-IsSound orders traces few =
    let (f, e, sound) = more orders no_groups no_groups-IsSound traces (omega (arith, few)) in
    (f, e, sound.5, sound.0)
