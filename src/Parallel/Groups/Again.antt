-- ===== src/Parallel/Groups/Again.antt =====
-- The index after a group that it lists already is added again with more keys.
use constraints_builder.Shared.{
  ℕ, ◌≡◌, arith, false, ◌&&◌, not, List, [], ◌∷◌, ◌++◌, contains, ltb, if◌then◌else◌, KeyEq, ◌==◌,
  nat_eq, nat_beq,
}
use constraints_builder.Shared.Map.{Map, lookup, insert, or_default, lookup-insert}
use constraints_builder.Primitives.SimValue.{SlotKey}
use constraints_builder.Parallel.Groups.{slot_eq}
use constraints_builder.Parallel.Groups.Index.{
  SlotIndex, add_slots, add_group_key_to_map, add_group_to_map,
}
use constraints_builder.Parallel.Groups.Counts.{count, count-append, listed, listed_slot}

pub contains-count : (i : ℕ) (xs : List ℕ) → contains xs i ≡ ltb 0 (count i xs)
contains-count i [] = ground arith
contains-count i (x ∷ xs) = ground (arith, contains-count i xs)

module _ {ℓ} {K : Type ℓ} ⦃e : KeyEq K⦄ where
  pub listed-add_key_again :
      (g i : ℕ) (k key : K) (m : Map K (List ℕ))
      → listed key i (add_group_key_to_map g false k m)
        ≡ (if nat_beq g i && k == key && nat_beq (listed key i m) 0 then 1 else listed key i m)
  unfolding add_group_key_to_map
  listed-add_key_again g i k key m =
      let groups = or_default [] (lookup k m) in
      ground (
        arith,
        lookup-insert k key (if not (contains groups g) then groups ++ g ∷ [] else groups) m,
        count-append i groups (g ∷ []),
        contains-count g groups,
        e.same_iff k key,
      )

  pub listed-add_again :
      (g i : ℕ) (keys : List K) (key : K) (m : Map K (List ℕ))
      → listed key i (add_group_to_map g false keys m) ≡ (
          if nat_beq g i && contains keys key && nat_beq (listed key i m) 0
          then 1
          else listed key i m)
  unfolding add_group_to_map
  listed-add_again g i [] key m = ground arith
  listed-add_again g i (k ∷ keys) key m = ground (
    arith,
    listed-add_again g i keys key (add_group_key_to_map g false k m),
    listed-add_key_again g i k key m,
  )

pub listed_slot-add_again :
    (g i : ℕ) (slots : List SlotKey) (slot : SlotKey) (m : SlotIndex)
    → listed_slot slot i (add_slots g false slots m) ≡ (
        if nat_beq g i && contains slots slot && nat_beq (listed_slot slot i m) 0
        then 1
        else listed_slot slot i m)
unfolding add_slots
listed_slot-add_again g i [] slot m = ground arith
listed_slot-add_again g i (s ∷ slots) slot m =
    let inner = or_default [] (lookup s.address m) in
    let next = add_group_key_to_map g false s.key inner in
    ground (
      arith,
      listed_slot-add_again g i slots slot (insert s.address next m),
      lookup-insert s.address slot.address next m,
      listed-add_key_again g i s.key slot.key inner,
      nat_eq.same_iff s.address slot.address,
    )
