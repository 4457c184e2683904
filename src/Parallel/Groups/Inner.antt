-- ===== src/Parallel/Groups/Inner.antt =====
-- The inner maps of the indices of slots have each key once.
use constraints_builder.Shared.{
  ℕ, inl, inr, Bool, ◌||◌, some, List, [], ◌∷◌, ◌++◌, contains, IsDistinct, ◌==◌, nat_eq, nat_beq,
  if◌then◌else◌, Bool-cases, not,
}
use constraints_builder.Shared.Map.{
  lookup, insert, keys, or_default, lookup-insert, keys-insert-IsDistinct,
}
use constraints_builder.Primitives.Tx.{Address}
use constraints_builder.Primitives.SimValue.{SlotKey}
use constraints_builder.Parallel.Groups.{slot_eq}
use constraints_builder.Parallel.Groups.Index.{
  SlotIndex, add_slots, remove_slots, add_group_key_to_map, remove_group_key_from_map, swap_remove,
}

-- The inner maps of an index of slots have an entry for a key.
abbrev pub IsInner : SlotIndex → Type 0
IsInner m = (a : Address) → IsDistinct (keys (or_default [] (lookup a m)))

pub add_slots-IsInner :
    (g : ℕ) (is_new : Bool) (slots : List SlotKey) (m : SlotIndex)
    → IsInner m
    → IsInner (add_slots g is_new slots m)
unfolding add_slots
add_slots-IsInner g is_new [] m h = h
add_slots-IsInner g is_new (s ∷ slots) m h =
    let inner = or_default [] (lookup s.address m) in
    let next = add_group_key_to_map g is_new s.key inner in
    add_slots-IsInner g is_new slots (insert s.address next m)
      (λ a. rw (lookup-insert s.address a next m) (one a))
  where
    one :
        (a : Address)
        → IsDistinct (
            keys (
              or_default [] (
                if s.address == a
                then some (add_group_key_to_map g is_new s.key (or_default [] (lookup s.address m)))
                else lookup a m)))
    one a = elim (Bool-cases (nat_beq s.address a)) [
      | inl e ↦
          rw (e, add_group_key_to_map)
            (keys-insert-IsDistinct s.key
              (if is_new
                  || not (
                      contains (or_default [] (lookup s.key (or_default [] (lookup s.address m))))
                        g)
                then or_default [] (lookup s.key (or_default [] (lookup s.address m))) ++ g ∷ []
                else or_default [] (lookup s.key (or_default [] (lookup s.address m))))
              (or_default [] (lookup s.address m)) (h s.address))
      | inr e ↦ rw e (h a)
    ]

pub remove_slots-IsInner :
    (g : ℕ) (slots : List SlotKey) (m : SlotIndex) → IsInner m → IsInner (remove_slots g slots m)
unfolding remove_slots
remove_slots-IsInner g [] m h = h
remove_slots-IsInner g (s ∷ slots) m h =
    let inner = or_default [] (lookup s.address m) in
    let next = remove_group_key_from_map g s.key inner in
    remove_slots-IsInner g slots (insert s.address next m)
      (λ a. rw (lookup-insert s.address a next m) (one a))
  where
    one :
        (a : Address)
        → IsDistinct (
            keys (
              or_default [] (
                if s.address == a
                then some (remove_group_key_from_map g s.key (or_default [] (lookup s.address m)))
                else lookup a m)))
    one a = elim (Bool-cases (nat_beq s.address a)) [
      | inl e ↦
          rw (e, remove_group_key_from_map)
            (keys-insert-IsDistinct s.key
              (swap_remove g (or_default [] (lookup s.key (or_default [] (lookup s.address m)))))
              (or_default [] (lookup s.address m)) (h s.address))
      | inr e ↦ rw e (h a)
    ]
