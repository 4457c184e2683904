-- ===== src/Parallel/Groups/Joined.antt =====
-- An order that conflicts with one group joins it.
use constraints_builder.Shared.{
  ℕ, ◌≡◌, ◌∙◌, refl, arith, true, false, some, List, [], ◌∷◌, ◌++◌, contains, contains-append,
  if◌then◌else◌, KeyEq, ◌==◌, nat_eq,
}
use constraints_builder.Shared.Map.{lookup, insert, remove, lookup-insert, lookup-remove}
use constraints_builder.Parallel.Groups.{GroupData, slot_eq, combine_groups}
use constraints_builder.Parallel.Groups.Combined.{combine_groups_lem, IsUnion}
use constraints_builder.Parallel.Groups.Apart.{IsIndexed}
use constraints_builder.Parallel.Groups.Kept.{IsOnceGroup, IsMore, add_group_to_index-IsIndexed}
use constraints_builder.Parallel.Groups.Finder.{ConflictFinder, add_group_to_index, place}

pub combine_groups-IsOnceGroup :
    (groups : List GroupData) (removed : List ℕ) → IsOnceGroup (combine_groups groups removed)
combine_groups-IsOnceGroup groups removed =
    let (o, r, w, br, bw, c) = combine_groups_lem groups removed in (r.0, w.0, br.0, bw.0, c.0)

-- A union has the keys of its second part.
union-more :
    {K : Type 0} ⦃e : KeyEq K⦄ (keys xs ys : List K)
    → IsUnion keys (xs ++ (ys ++ []))
    → (k : K) → contains ys k ≡ true
    → contains keys k ≡ true
union-more keys xs ys u k h =
    u.1 k ∙ ground (arith, contains-append xs (ys ++ []) k, contains-append ys [] k, h)

pub combine_groups-IsMore : (new old : GroupData) → IsMore old (combine_groups (new ∷ old ∷ []) [])
combine_groups-IsMore new old =
    let d = combine_groups (new ∷ old ∷ []) [] in
    let (o, r, w, br, bw, c) = combine_groups_lem (new ∷ old ∷ []) [] in
    (
      union-more d.reads new.reads old.reads r,
      union-more d.writes new.writes old.writes w,
      union-more d.balance_reads new.balance_reads old.balance_reads br,
      union-more d.balance_writes new.balance_writes old.balance_writes bw,
      union-more d.code_writes new.code_writes old.code_writes c,
    )

-- When the indices list the groups, an order that conflicts with one group, whose keys are all
-- different, joins it without a panic: the group keeps its id and is combined with that of the
-- order, no other group changes, and the indices list the groups as before.
pub place-one :
    (new old : GroupData) (g : ℕ) (f : ConflictFinder)
    → IsIndexed f f.groups
    → lookup g f.groups ≡ some old
    → IsOnceGroup old
    → (next : ConflictFinder) × (place new (g ∷ []) f ≡ some next)
      × IsIndexed next next.groups
      × ((j : ℕ)
          → lookup j next.groups
            ≡ (if g == j then some (combine_groups (new ∷ old ∷ []) []) else lookup j f.groups))
unfolding place
place-one new old g f indexed there once =
    let combined = combine_groups (new ∷ old ∷ []) [] in
    let removed : ConflictFinder = record f { groups = remove g f.groups } in
    let kept =
      add_group_to_index-IsIndexed f f.groups indexed g old combined there once
        (combine_groups-IsOnceGroup (new ∷ old ∷ []) []) (combine_groups-IsMore new old) in
    (
      record (add_group_to_index g false combined removed) {
        groups = insert g combined (remove g f.groups);
      },
      rw (there, place) refl,
      kept,
      λ j. ground (
        arith,
        lookup-insert g j combined (remove g f.groups),
        lookup-remove g j f.groups,
        nat_eq.same_iff g j,
      ),
    )
