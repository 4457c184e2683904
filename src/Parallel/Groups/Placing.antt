-- ===== src/Parallel/Groups/Placing.antt =====
-- The three arms of placing an order keep the finder sound.
use mathlib.Core.Path.{subst}
use constraints_builder.Shared.{
  ℕ, ◌+◌, ◌%◌, ◌^◌, ◌<◌, ◌≤◌, ◌≡◌, ◌∙◌, inl, inr, refl, ap, arith, Bool, true, false, none, some,
  List, [], ◌∷◌, ◌++◌, map, contains, nat_eq, nat_beq, if◌then◌else◌, All-append, All-imp,
  Bool-cases, Option-cases,
}
use constraints_builder.Shared.Map.{Map, lookup, insert, remove, lookup-insert, lookup-remove}
use constraints_builder.Primitives.Orders.{order_id_eq}
use constraints_builder.Parallel.Groups.{GroupData, slot_eq, combine_groups}
use constraints_builder.Parallel.Groups.Apart.{IsApart, IsIndexed}
use constraints_builder.Parallel.Groups.Kept.{IsOnceGroup, add_group_to_index-IsIndexed}
use constraints_builder.Parallel.Groups.Joined.{combine_groups-IsOnceGroup, combine_groups-IsMore}
use constraints_builder.Parallel.Groups.Placed.{
  IsStored, without, take_groups-IsTaken, remove_groups_from_index-IsIndexed,
  open_group-IsIndexed_groups,
}
use constraints_builder.Parallel.Groups.Inner.{IsInner, add_slots-IsInner}
use constraints_builder.Parallel.Groups.Separate.{combine_groups-IsApart}
use constraints_builder.Parallel.Groups.Sound.{
  IsSound, IsPlaced, placed-IsAllOnce, placed-IsBelow, placed-IsSeparate, lookup-without,
  IsTaken-All, All-parts, remove_groups_from_index-IsInner,
}
use constraints_builder.Parallel.Groups.Finder.{
  ConflictFinder, place, open_group, add_group_to_index, remove_groups_from_index,
}

-- A sound finder with at most one more id.
abbrev pub IsNext : ConflictFinder → ConflictFinder → Type 0
IsNext f next = IsSound next × (next.group_counter ≤ f.group_counter + 1)

-- A group `c` under a new id, in a finder whose indices list the groups without some.
contradiction : {x y : Bool} → x ≡ y → x ≡ true → y ≡ false → ⊥
contradiction {x} {y} e h k = ground (arith, e, h, k)

opened-IsNext :
    (f base : ConflictFinder) (ids : List ℕ) (c : GroupData)
    → IsSound f
    → base.group_counter ≡ f.group_counter
    → IsIndexed base base.groups
    → IsInner base.group_reads
    → IsInner base.group_writes
    → ((j : ℕ) → lookup j base.groups ≡ (if contains ids j then none else lookup j f.groups))
    → IsOnceGroup c
    → ((j : ℕ) (b : GroupData) → lookup j f.groups ≡ some b → contains ids j ≡ false → IsApart c b)
    → f.group_counter + 1 < 2 ^ 64
    → IsNext f (open_group c base)
unfolding open_group add_group_to_index
opened-IsNext f base ids c (indexed, inner, inner', once, below, separate) counter kept reads writes
      rest once_c apart small =
    let id = base.group_counter in
    let fresh_in_f : lookup id f.groups ≡ none =
      fresh id f.groups (λ d e. omega (arith, counter, below id d e)) in
    let placed : IsPlaced ids f.groups id c (insert id c base.groups) =
      λ j. ground (arith, lookup-insert id j c base.groups, rest j) in
    (
      (
        open_group-IsIndexed_groups c base base.groups kept refl
            (ground (arith, rest id, fresh_in_f)),
        add_slots-IsInner id true c.reads base.group_reads reads,
        add_slots-IsInner id true c.writes base.group_writes writes,
        placed-IsAllOnce ids f.groups (insert id c base.groups) id c placed once once_c,
        placed-IsBelow ids f.groups (insert id c base.groups) id c placed f.group_counter
            ((id + 1) % 2 ^ 64) below (ground (arith, counter, small))
            (ground (arith, counter, small)),
        placed-IsSeparate ids f.groups (insert id c base.groups) id c placed separate
            (λ j b e out differ. apart j b e out),
      ),
      ground (arith, counter, small),
    )
  where
    fresh :
        (i : ℕ) (groups : Map ℕ GroupData)
        → ((d : GroupData) → lookup i groups ≡ some d → i < i)
        → lookup i groups ≡ none
    fresh i groups h = elim (Option-cases (lookup i groups)) [
      | inl e ↦ e
      | inr (d, e) ↦ absurd (omega (arith, h d e))
    ]

module _ (new : GroupData) (f : ConflictFinder) (sound : IsSound f) (once_new : IsOnceGroup new)
    (small : f.group_counter + 1 < 2 ^ 64) where
  -- What is needed of the conflicts: no other stored group conflicts with the new one.
  abbrev IsLeftOut : List ℕ → Type 0
  IsLeftOut ids =
      (j : ℕ) (b : GroupData) → lookup j f.groups ≡ some b → contains ids j ≡ false → IsApart new b

  place_one-IsNext :
      (i : ℕ) (old : GroupData)
      → lookup i f.groups ≡ some old
      → IsLeftOut (i ∷ [])
      → (next : ConflictFinder) × (place new (i ∷ []) f ≡ some next) × IsNext f next
  unfolding place add_group_to_index
  place_one-IsNext i old there apart =
      let (indexed, inner, inner', once, below, separate) = sound in
      let c = combine_groups (new ∷ old ∷ []) [] in
      let removed : ConflictFinder = record f { groups = remove i f.groups } in
      let groups = insert i c (remove i f.groups) in
      let next : ConflictFinder = record (add_group_to_index i false c removed) {
        groups = groups;
      } in
      let once_c = combine_groups-IsOnceGroup (new ∷ old ∷ []) [] in
      let placed : IsPlaced (i ∷ []) f.groups i c groups =
        λ j. ground (arith, lookup-insert i j c (remove i f.groups), lookup-remove i j f.groups) in
      (
        next,
        rw (there, place) refl,
        (
          (
            add_group_to_index-IsIndexed f f.groups indexed i old c there (once i old there) once_c
                (combine_groups-IsMore new old),
            add_slots-IsInner i false c.reads f.group_reads inner,
            add_slots-IsInner i false c.writes f.group_writes inner',
            placed-IsAllOnce (i ∷ []) f.groups groups i c placed once once_c,
            placed-IsBelow (i ∷ []) f.groups groups i c placed f.group_counter f.group_counter below
                (omega arith) (below i old there),
            placed-IsSeparate (i ∷ []) f.groups groups i c placed separate (λ j b e out differ.
                combine_groups-IsApart (new ∷ old ∷ []) [] b
                  (apart j b e out, (separate i j old b there e differ, tt))),
          ),
          omega arith,
        ),
      )

  place_many-IsNext :
      (i j : ℕ) (ids : List ℕ)
      → IsStored (i ∷ j ∷ ids) f.groups
      → IsLeftOut (i ∷ j ∷ ids)
      → (next : ConflictFinder) × (place new (i ∷ j ∷ ids) f ≡ some next) × IsNext f next
  unfolding place
  place_many-IsNext i j ids stored apart =
      let (indexed, inner, inner', once, below, separate) = sound in
      let all = i ∷ j ∷ ids in
      let (taken, e, found, ids_of) = take_groups-IsTaken (i ∷ j ∷ ids) f stored in
      let f' : ConflictFinder = record f { groups = without taken f.groups } in
      let base = remove_groups_from_index taken f' in
      let (kept, counter, groups) =
        remove_groups_from_index-IsIndexed taken f' f.groups indexed found in
      let (reads, writes) = remove_groups_from_index-IsInner taken f' inner inner' in
      let parts = map (λ t. t.1) taken ++ new ∷ [] in
      let c = combine_groups parts (map (λ t. t.0) taken) in
      (
        open_group c base,
        rw (e, place) refl,
        opened-IsNext f base all c sound counter (rw groups kept) reads writes
            (λ k.
              ap (lookup k) groups
              ∙ lookup-without taken f.groups k
              ∙ ap (λ xs. if contains xs k then none else lookup k f.groups) ids_of)
            (combine_groups-IsOnceGroup parts (map (λ t. t.0) taken))
            (λ k b there out. combine_groups-IsApart parts (map (λ t. t.0) taken) b (
              All-append (λ p. IsApart p b) (map (λ t. t.1) taken) (new ∷ [])
                (All-parts (λ p. IsApart p b) taken
                  (All-imp
                    (λ t h.
                      separate t.0 k t.1 b h.0 there
                        (other t.0 k (subst (λ xs. contains xs t.0 ≡ true) ids_of h.1) out))
                    taken (IsTaken-All taken f.groups found)))
                (apart k b there out, tt)))
            small,
      )
    where
      other :
          (a b : ℕ)
          → contains (i ∷ j ∷ ids) a ≡ true
          → contains (i ∷ j ∷ ids) b ≡ false
          → nat_beq a b ≡ false
      other a b h k = elim (Bool-cases (nat_beq a b)) [
        | inl e ↦
            absurd (contradiction (ap (contains (i ∷ j ∷ ids)) ((nat_eq.same_iff a b).0 e)) h k)
        | inr e ↦ e
      ]

  pub place-IsNext :
      (ids : List ℕ)
      → IsStored ids f.groups
      → IsLeftOut ids
      → (next : ConflictFinder) × (place new ids f ≡ some next) × IsNext f next
  unfolding place
  place-IsNext [] stored apart = (
    open_group new f,
    refl,
    opened-IsNext f f [] new sound refl sound.0 sound.1 sound.2 (λ j. refl) once_new apart small,
  )
  place-IsNext (i ∷ []) stored apart = place_one-IsNext i stored.0.0 stored.0.1 apart
  place-IsNext (i ∷ j ∷ ids) stored apart = place_many-IsNext i j ids stored apart
