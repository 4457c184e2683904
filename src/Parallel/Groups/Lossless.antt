-- ===== src/Parallel/Groups/Lossless.antt =====
-- No order is lost when groups are combined.
use mathlib.Core.Path.{subst}
use constraints_builder.Shared.{
  ℕ, ◌≡◌, ◌⊎◌, ◌∙◌, inl, inr, sym, ap, arith, false, none, some, List, [], ◌∷◌, ◌++◌, nat_eq,
  nat_beq, Bool-cases, map, refl,
}
use constraints_builder.Shared.Map.{Map, lookup, insert, remove, lookup-insert, lookup-remove}
use constraints_builder.Primitives.SimValue.{SimulatedOrder}
use constraints_builder.Parallel.Groups.{GroupData, combine_groups}
use constraints_builder.Parallel.Groups.Combined.{combine_groups_lem, gather}
use constraints_builder.Parallel.Groups.Placed.{IsStored, IsTaken, without, take_groups-IsTaken}
use constraints_builder.Parallel.Groups.Finder.{
  remove_groups_from_index, remove_group_from_index, place, open_group, ConflictFinder,
  add_group_to_index,
}
use constraints_builder.Parallel.Resolver.Tried.{IsOneOf}

-- A group has the order.
abbrev pub IsInGroup : SimulatedOrder → Map ℕ GroupData → Type 0
IsInGroup o groups = (i : ℕ) × (d : GroupData) × (lookup i groups ≡ some d) × IsOneOf o d.orders

IsOneOf-left : {A : Type 0} (a : A) (xs ys : List A) → IsOneOf a xs → IsOneOf a (xs ++ ys)
IsOneOf-left a [] ys h = absurd h
IsOneOf-left a (x ∷ xs) ys (inl e) = inl e
IsOneOf-left a (x ∷ xs) ys (inr h) = inr (IsOneOf-left a xs ys h)

IsOneOf-right : {A : Type 0} (a : A) (xs ys : List A) → IsOneOf a ys → IsOneOf a (xs ++ ys)
IsOneOf-right a [] ys h = h
IsOneOf-right a (x ∷ xs) ys h = inr (IsOneOf-right a xs ys h)

IsOneOf-gather :
    (o : SimulatedOrder) (d : GroupData) (groups : List GroupData)
    → IsOneOf d groups
    → IsOneOf o d.orders
    → IsOneOf o (gather (λ g. g.orders) groups)
IsOneOf-gather o d [] h k = absurd h
IsOneOf-gather o d (g ∷ groups) (inl e) k =
    IsOneOf-left o g.orders (gather (λ g. g.orders) groups) (subst (λ x. IsOneOf o x.orders) e k)
IsOneOf-gather o d (g ∷ groups) (inr h) k =
    IsOneOf-right o g.orders (gather (λ g. g.orders) groups) (IsOneOf-gather o d groups h k)

-- The orders of a part are in the combined group.
combined-has :
    (o : SimulatedOrder) (d : GroupData) (groups : List GroupData) (removed : List ℕ)
    → IsOneOf d groups
    → IsOneOf o d.orders
    → IsOneOf o (combine_groups groups removed).orders
combined-has o d groups removed h k =
    subst (IsOneOf o) (sym (combine_groups_lem groups removed).0) (IsOneOf-gather o d groups h k)

-- A group under another id stays when one is inserted.
IsInGroup-insert :
    (o : SimulatedOrder) (id : ℕ) (c : GroupData) (groups : Map ℕ GroupData)
    → (lookup id groups ≡ none)
      ⊎ ((i : ℕ) (d : GroupData) → lookup i groups ≡ some d → nat_beq id i ≡ false)
    → IsInGroup o groups
    → IsInGroup o (insert id c groups)
IsInGroup-insert o id c groups (inl fresh) (i, d, e, h) =
    (i, d, ground (arith, lookup-insert id i c groups, fresh, e, nat_eq.same_iff id i), h)
IsInGroup-insert o id c groups (inr other) (i, d, e, h) =
    (i, d, ground (arith, lookup-insert id i c groups, e, other i d e), h)

inserted :
    (o : SimulatedOrder) (id : ℕ) (c : GroupData) (groups : Map ℕ GroupData)
    → IsOneOf o c.orders
    → IsInGroup o (insert id c groups)
inserted o id c groups h =
    (id, c, ground (arith, lookup-insert id id c groups, nat_eq.same_iff id id), h)

-- What removing a group leaves.
removed_cases :
    (o : SimulatedOrder) (i : ℕ) (old : GroupData) (groups : Map ℕ GroupData)
    → lookup i groups ≡ some old
    → IsInGroup o groups
    → IsOneOf o old.orders ⊎ IsInGroup o (remove i groups)
removed_cases o i old groups there (j, d, e, h) = elim (Bool-cases (nat_beq i j)) [
  | inl k ↦
      let same : d ≡ old =
        one_value (sym e ∙ ap (λ x. lookup x groups) (sym ((nat_eq.same_iff i j).0 k)) ∙ there) in
      inl (subst (λ x. IsOneOf o x.orders) same h)
  | inr k ↦ inr (j, d, ground (arith, lookup-remove i j groups, k, e), h)
]
  where
    one_value : {A : Type 0} {x y : A} → some x ≡ some y → x ≡ y
    one_value {A} {x} {y} e = cc

pub some_value : {A : Type 0} {x y : A} → some x ≡ some y → x ≡ y
some_value {A} {x} {y} e = cc

-- Each order is in a taken group or stays.
without-has :
    (o : SimulatedOrder) (taken : List (ℕ × GroupData)) (groups : Map ℕ GroupData)
    → IsTaken taken groups
    → IsInGroup o groups
    → ((d : GroupData) × IsOneOf d (map (λ t. t.1) taken) × IsOneOf o d.orders)
      ⊎ IsInGroup o (without taken groups)
without-has o [] groups found h = inr h
without-has o ((i, old) ∷ taken) groups found h = elim (removed_cases o i old groups found.0 h) [
  | inl k ↦ inl (old, inl refl, k)
  | inr k ↦ elim (without-has o taken (remove i groups) found.1 k) [
    | inl (d, a, b) ↦ inl (d, inr a, b)
    | inr l ↦ inr l
  ]
]

without-none :
    (taken : List (ℕ × GroupData)) (groups : Map ℕ GroupData) (j : ℕ)
    → lookup j groups ≡ none
    → lookup j (without taken groups) ≡ none
without-none [] groups j h = h
without-none ((i, d) ∷ taken) groups j h =
    without-none taken (remove i groups) j (ground (arith, lookup-remove i j groups, h))

remove_groups_from_index-same :
    (taken : List (ℕ × GroupData)) (f : ConflictFinder)
    → ((remove_groups_from_index taken f).groups ≡ f.groups)
      × ((remove_groups_from_index taken f).group_counter ≡ f.group_counter)
      × ((remove_groups_from_index taken f).known ≡ f.known)
unfolding remove_groups_from_index remove_group_from_index
remove_groups_from_index-same [] f = (refl, refl, refl)
remove_groups_from_index-same ((i, d) ∷ taken) f =
    remove_groups_from_index-same taken (remove_group_from_index i d f)

-- Every order of the groups and of the new group is in a group afterwards.
abbrev pub IsLossless : GroupData → Map ℕ GroupData → Map ℕ GroupData → Type 0
IsLossless new groups next =
    (o : SimulatedOrder) → IsOneOf o new.orders ⊎ IsInGroup o groups → IsInGroup o next

module _ (new : GroupData) (f : ConflictFinder) where
  place_one-IsLossless :
      (i : ℕ) (old : GroupData)
      → lookup i f.groups ≡ some old
      → IsLossless new f.groups (insert i (combine_groups (new ∷ old ∷ []) []) (remove i f.groups))
  place_one-IsLossless i old there o (inl h) =
      inserted o i (combine_groups (new ∷ old ∷ []) []) (remove i f.groups)
        (combined-has o new (new ∷ old ∷ []) [] (inl refl) h)
  place_one-IsLossless i old there o (inr h) = elim (removed_cases o i old f.groups there h) [
    | inl k ↦
        inserted o i (combine_groups (new ∷ old ∷ []) []) (remove i f.groups)
          (combined-has o old (new ∷ old ∷ []) [] (inr (inl refl)) k)
    | inr k ↦
        IsInGroup-insert o i (combine_groups (new ∷ old ∷ []) []) (remove i f.groups)
          (inl (ground (arith, lookup-remove i i f.groups, nat_eq.same_iff i i))) k
  ]

  many-IsLossless :
      (taken : List (ℕ × GroupData))
      → lookup f.group_counter f.groups ≡ none
      → IsTaken taken f.groups
      → IsLossless new f.groups
          (open_group
            (combine_groups (map (λ t. t.1) taken ++ new ∷ []) (map (λ t. t.0) taken))
            (remove_groups_from_index taken (record f { groups = without taken f.groups }))).groups
  unfolding open_group add_group_to_index
  many-IsLossless taken fresh found o h =
      let left : ConflictFinder = record f { groups = without taken f.groups } in
      let base = remove_groups_from_index taken left in
      let (same, counter, known) = remove_groups_from_index-same taken left in
      let parts = map (λ t. t.1) taken ++ new ∷ [] in
      let c = combine_groups parts (map (λ t. t.0) taken) in
      let fresh' : lookup base.group_counter base.groups ≡ none =
        ap (λ n. lookup n base.groups) counter
        ∙ ap (lookup f.group_counter) same
        ∙ without-none taken f.groups f.group_counter fresh in
      elim h [
        | inl k ↦ inserted o base.group_counter c base.groups (
            combined-has o new parts (map (λ t. t.0) taken)
              (IsOneOf-right new (map (λ t. t.1) taken) (new ∷ []) (inl refl)) k)
        | inr k ↦ elim (without-has o taken f.groups found k) [
          | inl (d, a, b) ↦ inserted o base.group_counter c base.groups (
              combined-has o d parts (map (λ t. t.0) taken)
                (IsOneOf-left d (map (λ t. t.1) taken) (new ∷ []) a) b)
          | inr l ↦
              IsInGroup-insert o base.group_counter c base.groups (inl fresh')
                (subst (IsInGroup o) (sym same) l)
        ]
      ]

  pub place-IsLossless :
      (ids : List ℕ) (next : ConflictFinder)
      → IsStored ids f.groups
      → lookup f.group_counter f.groups ≡ none
      → place new ids f ≡ some next
      → IsLossless new f.groups next.groups × (next.known ≡ f.known)
  unfolding place open_group add_group_to_index
  place-IsLossless [] next stored fresh e =
      subst (λ n. IsLossless new f.groups n.groups × (n.known ≡ f.known)) (some_value e)
        (opened, refl)
    where
      opened : IsLossless new f.groups (insert f.group_counter new f.groups)
      opened o (inl h) = inserted o f.group_counter new f.groups h
      opened o (inr h) = IsInGroup-insert o f.group_counter new f.groups (inl fresh) h
  place-IsLossless (i ∷ []) next stored fresh e =
      let (old, there) = stored.0 in
      let done : (place new (i ∷ []) f)
          ≡ some
              (record (add_group_to_index i false (combine_groups (new ∷ old ∷ []) [])
                (record f { groups = remove i f.groups })) {
                  groups = insert i (combine_groups (new ∷ old ∷ []) []) (remove i f.groups);
                }) =
        rw (there, place) refl in
      subst (λ n. IsLossless new f.groups n.groups × (n.known ≡ f.known))
        (some_value (sym done ∙ e)) (place_one-IsLossless i old there, refl)
  place-IsLossless (i ∷ j ∷ ids) next stored fresh e =
      let (taken, took, found, ids_of) = take_groups-IsTaken (i ∷ j ∷ ids) f stored in
      let base = remove_groups_from_index taken (record f { groups = without taken f.groups }) in
      let done : (place new (i ∷ j ∷ ids) f
          ≡ some (
              open_group (combine_groups (map (λ t. t.1) taken ++ new ∷ []) (map (λ t. t.0) taken))
                base)) =
        rw (took, place) refl in
      subst (λ n. IsLossless new f.groups n.groups × (n.known ≡ f.known))
        (some_value (sym done ∙ e))
        (
          many-IsLossless taken fresh found,
          (remove_groups_from_index-same taken (record f { groups = without taken f.groups })).2,
        )
