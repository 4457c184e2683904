-- ===== src/Parallel/Groups/Counts.antt =====
-- How often the index of groups.rs lists a group under a key.
use constraints_builder.Shared.{
  ℕ, ◌+◌, ◌-◌, ◌≡◌, refl, arith, true, ◌&&◌, List, [], ◌∷◌, ◌++◌, count_if, if◌then◌else◌, KeyEq,
  ◌==◌, nat_eq, nat_beq,
}
use constraints_builder.Shared.Map.{Map, lookup, or_default, lookup-insert, insert}
use constraints_builder.Primitives.SimValue.{SlotKey}
use constraints_builder.Parallel.Groups.{slot_eq}
use constraints_builder.Parallel.Groups.Index.{
  SlotIndex, add_slots, remove_slots, bring_last, swap_remove, add_group_key_to_map,
  add_group_to_map, remove_group_key_from_map, remove_group_from_map,
}

abbrev pub count : ℕ → List ℕ → ℕ
count i xs = count_if (λ x. nat_beq x i) xs

pub count-append : (i : ℕ) (xs ys : List ℕ) → count i (xs ++ ys) ≡ count i xs + count i ys
count-append i [] ys = omega arith
count-append i (x ∷ xs) ys = omega (arith, count-append i xs ys)

count-bring_last : (i : ℕ) (xs : List ℕ) → count i (bring_last xs) ≡ count i xs
unfolding bring_last
count-bring_last i [] = refl
count-bring_last i (x ∷ xs) = ground (arith, count-bring_last i xs)

count-swap_remove :
    (g i : ℕ) (xs : List ℕ)
    → count i (swap_remove g xs) ≡ (if nat_beq g i then count i xs - 1 else count i xs)
unfolding swap_remove
count-swap_remove g i [] = ground arith
count-swap_remove g i (x ∷ xs) = ground (arith, count-swap_remove g i xs, count-bring_last i xs)

module _ {ℓ} {K : Type ℓ} ⦃e : KeyEq K⦄ where
  -- How often the group is listed under the key.
  abbrev pub listed : K → ℕ → Map K (List ℕ) → ℕ
  listed key i m = count i (or_default [] (lookup key m))

  abbrev pub count_of : K → List K → ℕ
  count_of key keys = count_if (λ k. k == key) keys

  listed-add_group_key_to_map :
      (g i : ℕ) (k key : K) (m : Map K (List ℕ))
      → listed key i (add_group_key_to_map g true k m)
        ≡ listed key i m + (if nat_beq g i && k == key then 1 else 0)
  unfolding add_group_key_to_map
  listed-add_group_key_to_map g i k key m = ground (
    arith,
    lookup-insert k key (or_default [] (lookup k m) ++ g ∷ []) m,
    count-append i (or_default [] (lookup k m)) (g ∷ []),
    e.same_iff k key,
  )

  pub listed-add_group_to_map :
      (g i : ℕ) (keys : List K) (key : K) (m : Map K (List ℕ))
      → listed key i (add_group_to_map g true keys m)
        ≡ listed key i m + (if nat_beq g i then count_of key keys else 0)
  unfolding add_group_to_map
  listed-add_group_to_map g i [] key m = ground arith
  listed-add_group_to_map g i (k ∷ keys) key m = ground (
    arith,
    listed-add_group_to_map g i keys key (add_group_key_to_map g true k m),
    listed-add_group_key_to_map g i k key m,
  )

  listed-remove_group_key_from_map :
      (g i : ℕ) (k key : K) (m : Map K (List ℕ))
      → listed key i (remove_group_key_from_map g k m)
        ≡ listed key i m - (if nat_beq g i && k == key then 1 else 0)
  unfolding remove_group_key_from_map
  listed-remove_group_key_from_map g i k key m = ground (
    arith,
    lookup-insert k key (swap_remove g (or_default [] (lookup k m))) m,
    count-swap_remove g i (or_default [] (lookup k m)),
    e.same_iff k key,
  )

  pub listed-remove_group_from_map :
      (g i : ℕ) (keys : List K) (key : K) (m : Map K (List ℕ))
      → listed key i (remove_group_from_map g keys m)
        ≡ listed key i m - (if nat_beq g i then count_of key keys else 0)
  unfolding remove_group_from_map
  listed-remove_group_from_map g i [] key m = ground arith
  listed-remove_group_from_map g i (k ∷ keys) key m = ground (
    arith,
    listed-remove_group_from_map g i keys key (remove_group_key_from_map g k m),
    listed-remove_group_key_from_map g i k key m,
  )

  -- A group that is new to the index is listed as often as it has the key, and removing it with the
  -- same keys leaves every list of groups as it was, but for the order.
  pub remove_group_from_map-add_group_to_map :
      (g : ℕ) (keys : List K) (key : K) (i : ℕ) (m : Map K (List ℕ))
      → (listed key i (add_group_to_map g true keys m)
          ≡ listed key i m + (if nat_beq g i then count_of key keys else 0))
        × (listed key i (remove_group_from_map g keys (add_group_to_map g true keys m))
            ≡ listed key i m)
  remove_group_from_map-add_group_to_map g keys key i m =
      let added = listed-add_group_to_map g i keys key m in
      (
        added,
        ground (
          arith,
          added,
          listed-remove_group_from_map g i keys key (add_group_to_map g true keys m),
        ),
      )

-- The same of the index of slots.
abbrev pub slot_holders : SlotIndex → SlotKey → List ℕ
slot_holders m slot = or_default [] (lookup slot.key (or_default [] (lookup slot.address m)))

abbrev pub listed_slot : SlotKey → ℕ → SlotIndex → ℕ
listed_slot slot i m = count i (slot_holders m slot)

pub listed_slot-add_slots :
    (g i : ℕ) (slots : List SlotKey) (slot : SlotKey) (m : SlotIndex)
    → listed_slot slot i (add_slots g true slots m)
      ≡ listed_slot slot i m + (if nat_beq g i then count_of slot slots else 0)
unfolding add_slots
listed_slot-add_slots g i [] slot m = ground arith
listed_slot-add_slots g i (s ∷ slots) slot m =
    let inner = or_default [] (lookup s.address m) in
    let next = add_group_key_to_map g true s.key inner in
    ground (
      arith,
      listed_slot-add_slots g i slots slot (insert s.address next m),
      lookup-insert s.address slot.address next m,
      listed-add_group_key_to_map g i s.key slot.key inner,
      nat_eq.same_iff s.address slot.address,
    )

pub listed_slot-remove_slots :
    (g i : ℕ) (slots : List SlotKey) (slot : SlotKey) (m : SlotIndex)
    → listed_slot slot i (remove_slots g slots m)
      ≡ listed_slot slot i m - (if nat_beq g i then count_of slot slots else 0)
unfolding remove_slots
listed_slot-remove_slots g i [] slot m = ground arith
listed_slot-remove_slots g i (s ∷ slots) slot m =
    let inner = or_default [] (lookup s.address m) in
    let next = remove_group_key_from_map g s.key inner in
    ground (
      arith,
      listed_slot-remove_slots g i slots slot (insert s.address next m),
      lookup-insert s.address slot.address next m,
      listed-remove_group_key_from_map g i s.key slot.key inner,
      nat_eq.same_iff s.address slot.address,
    )

-- A group that is new to the index of slots is listed as often as it has the slot, and removing it
-- with the same slots leaves every list of groups as it was, but for the order.
pub remove_slots-add_slots :
    (g : ℕ) (slots : List SlotKey) (slot : SlotKey) (i : ℕ) (m : SlotIndex)
    → (listed_slot slot i (add_slots g true slots m)
        ≡ listed_slot slot i m + (if nat_beq g i then count_of slot slots else 0))
      × (listed_slot slot i (remove_slots g slots (add_slots g true slots m))
          ≡ listed_slot slot i m)
remove_slots-add_slots g slots slot i m =
    let added = listed_slot-add_slots g i slots slot m in
    (
      added,
      ground (arith, added, listed_slot-remove_slots g i slots slot (add_slots g true slots m)),
    )
