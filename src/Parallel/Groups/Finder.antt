-- ===== src/Parallel/Groups/Finder.antt =====
-- `ConflictFinder` of groups.rs.
use constraints_builder.Shared.{
  ℕ, ◌+◌, ◌%◌, ◌^◌, Bool, true, false, Option, none, some, List, [], ◌∷◌, ◌++◌, map, leb, contains,
  set_insert, if◌then◌else◌, nat_eq, ◌>>=◌,
}
use constraints_builder.Shared.Map.{Map, lookup, insert, remove, values, or_default}
use constraints_builder.Primitives.Tx.{Address}
use constraints_builder.Primitives.Orders.{OrderId, order_id_eq}
use constraints_builder.Primitives.SimValue.{SlotKey, UsedStateTrace, SimulatedOrder, sim_id}
use constraints_builder.Parallel.Results.{ConflictGroup}
use constraints_builder.Parallel.Groups.{GroupData, sort, dedup, combine_groups}
use constraints_builder.Parallel.Groups.Index.{
  SlotIndex, add_group_to_map, remove_group_from_map, add_slots, remove_slots,
}

abbrev pub AddressIndex : Type 0
AddressIndex = Map Address (List ℕ)

pub record ConflictFinder : Type 0 where
  pub group_counter : ℕ
  pub group_reads : SlotIndex
  pub group_writes : SlotIndex
  pub group_balance_reads : AddressIndex
  pub group_balance_writes : AddressIndex
  pub group_code_writes : AddressIndex
  pub groups : Map ℕ GroupData
  pub known : List OrderId

-- `ConflictFinder::new`
abbrev pub no_groups : ConflictFinder
no_groups = record {
  group_counter = 0;
  group_reads = [];
  group_writes = [];
  group_balance_reads = [];
  group_balance_writes = [];
  group_code_writes = [];
  groups = [];
  known = [];
}

unfoldable pub flatten : List (List ℕ) → List ℕ
flatten [] = []
flatten (xs ∷ xss) = xs ++ flatten xss

-- The groups of a slot, of an address, and of all slots of an address.
unfoldable pub of_slot : SlotIndex → SlotKey → List ℕ
unfolding lookup
of_slot m slot = or_default [] (lookup slot.key (or_default [] (lookup slot.address m)))

unfoldable pub of_address : AddressIndex → Address → List ℕ
unfolding lookup
of_address m address = or_default [] (lookup address m)

unfoldable pub of_contract : SlotIndex → Address → List ℕ
unfolding lookup flatten
of_contract m address = flatten (values (or_default [] (lookup address m)))

-- The loops that gather the conflicts of each kind.
unfoldable pub slot_conflicts : SlotIndex → AddressIndex → List SlotKey → List ℕ
unfolding of_slot of_address
slot_conflicts slots code [] = []
slot_conflicts slots code (k ∷ ks) =
    of_slot slots k ++ of_address code k.address ++ slot_conflicts slots code ks

unfoldable pub balance_conflicts : AddressIndex → List Address → List ℕ
unfolding of_address
balance_conflicts m [] = []
balance_conflicts m (a ∷ addresses) = of_address m a ++ balance_conflicts m addresses

unfoldable pub code_conflicts : ConflictFinder → List Address → List ℕ
unfolding of_address of_contract
code_conflicts f [] = []
code_conflicts f (a ∷ addresses) =
    of_address f.group_code_writes a
    ++ of_contract f.group_reads a
    ++ of_contract f.group_writes a
    ++ code_conflicts f addresses

unfoldable pub all_groups_in_conflict : ConflictFinder → UsedStateTrace → List ℕ
unfolding slot_conflicts balance_conflicts code_conflicts sort dedup
all_groups_in_conflict f used_state = dedup (
    sort leb (
      slot_conflicts f.group_writes f.group_code_writes used_state.read_slot_values
      ++ slot_conflicts f.group_reads f.group_code_writes used_state.written_slot_values
      ++ balance_conflicts f.group_balance_reads
          (used_state.received_amount ++ used_state.sent_amount)
      ++ balance_conflicts f.group_balance_writes used_state.read_balances
      ++ code_conflicts f (used_state.destructed_contracts ++ used_state.created_contracts)))

-- A group with only the new order in it.
unfoldable pub new_order_group : SimulatedOrder → UsedStateTrace → GroupData
unfolding sort dedup
new_order_group order used_state = record {
  orders = order ∷ [];
  reads = used_state.read_slot_values;
  writes = used_state.written_slot_values;
  balance_reads = used_state.read_balances;
  balance_writes = dedup (sort leb (used_state.sent_amount ++ used_state.received_amount));
  code_writes = dedup (sort leb (used_state.created_contracts ++ used_state.destructed_contracts));
  conflicting_group_ids = [];
}

unfoldable pub add_group_to_index : ℕ → Bool → GroupData → ConflictFinder → ConflictFinder
unfolding add_slots add_group_to_map
add_group_to_index i is_new g f = record f {
  group_reads = add_slots i is_new g.reads f.group_reads;
  group_writes = add_slots i is_new g.writes f.group_writes;
  group_balance_reads = add_group_to_map i is_new g.balance_reads f.group_balance_reads;
  group_balance_writes = add_group_to_map i is_new g.balance_writes f.group_balance_writes;
  group_code_writes = add_group_to_map i is_new g.code_writes f.group_code_writes;
}

unfoldable pub remove_group_from_index : ℕ → GroupData → ConflictFinder → ConflictFinder
unfolding remove_slots remove_group_from_map
remove_group_from_index i g f = record f {
  group_reads = remove_slots i g.reads f.group_reads;
  group_writes = remove_slots i g.writes f.group_writes;
  group_balance_reads = remove_group_from_map i g.balance_reads f.group_balance_reads;
  group_balance_writes = remove_group_from_map i g.balance_writes f.group_balance_writes;
  group_code_writes = remove_group_from_map i g.code_writes f.group_code_writes;
}

-- A group under a new id.
unfoldable pub open_group : GroupData → ConflictFinder → ConflictFinder
unfolding add_group_to_index insert
open_group g f =
    let i = f.group_counter in
    let indexed =
      add_group_to_index i true g (record f { group_counter = (f.group_counter + 1) % 2 ^ 64 }) in
    record indexed { groups = insert i g indexed.groups }

-- The groups with these ids, which leave the map; `none` is the panic of `unwrap`.
unfoldable pub take_groups :
    List ℕ → ConflictFinder → Option (List (ℕ × GroupData) × ConflictFinder)
unfolding lookup remove
take_groups [] f = some ([], f)
take_groups (i ∷ ids) f = do
  g ← lookup i f.groups
  (rest, f') ← take_groups ids (record f { groups = remove i f.groups })
  some ((i, g) ∷ rest, f')

unfoldable pub remove_groups_from_index : List (ℕ × GroupData) → ConflictFinder → ConflictFinder
unfolding remove_group_from_index
remove_groups_from_index [] f = f
remove_groups_from_index ((i, g) ∷ groups) f =
    remove_groups_from_index groups (remove_group_from_index i g f)

-- The three arms of the match on the conflicts.
unfoldable pub place : GroupData → List ℕ → ConflictFinder → Option ConflictFinder
unfolding open_group add_group_to_index take_groups remove_groups_from_index combine_groups lookup
    insert remove
place new_group [] f = some (open_group new_group f)
place new_group (i ∷ []) f = do
  other_group ← lookup i f.groups
  let combined = combine_groups (new_group ∷ other_group ∷ []) [] in
      let indexed = add_group_to_index i false combined (record f { groups = remove i f.groups }) in
      some (record indexed { groups = insert i combined indexed.groups })
place new_group (i ∷ j ∷ ids) f = do
  (taken, f') ← take_groups (i ∷ j ∷ ids) f
  some (
      open_group (combine_groups (map (λ t. t.1) taken ++ new_group ∷ []) (map (λ t. t.0) taken))
        (remove_groups_from_index taken f'))

unfoldable pub add_order : SimulatedOrder → ConflictFinder → Option ConflictFinder
unfolding place new_order_group all_groups_in_conflict
add_order order f =
    let noted : ConflictFinder = record f { known = set_insert (sim_id order) f.known } in
    if contains f.known (sim_id order) then some f else elim order.used_state_trace [
      | none ↦ some noted
      | some used_state ↦
          place (new_order_group order used_state) (all_groups_in_conflict noted used_state) noted
    ]

unfoldable pub add_orders : List SimulatedOrder → ConflictFinder → Option ConflictFinder
unfolding add_order
add_orders [] f = some f
add_orders (order ∷ orders) f = do next ← add_order order f; add_orders orders next

-- `sorted_by_key` on the ids, which are distinct.
unfoldable pub insert_group : ConflictGroup → List ConflictGroup → List ConflictGroup
insert_group g [] = g ∷ []
insert_group g (h ∷ hs) =
    let rest = insert_group g hs in if leb g.id h.id then g ∷ h ∷ hs else h ∷ rest

unfoldable pub to_groups : Map ℕ GroupData → List ConflictGroup
unfolding insert_group
to_groups [] = []
to_groups ((i, g) ∷ groups) =
    insert_group
      (record { id = i; orders = g.orders; conflicting_group_ids = g.conflicting_group_ids })
      (to_groups groups)

unfoldable pub get_order_groups : ConflictFinder → List ConflictGroup
unfolding to_groups
get_order_groups f = to_groups f.groups
