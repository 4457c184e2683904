-- ===== src/Parallel/Groups/Complete.antt =====
-- Every order that is added is in a group.
use mathlib.Core.Path.{subst}
use constraints_builder.Shared.{
  ◌+◌, ◌<◌, ◌^◌, ◌≡◌, ◌∙◌, inl, inr, refl, sym, ap, arith, Bool, true, false, Option, none, some,
  List, [], ◌∷◌, length, contains, contains-set_insert, set_insert, ◌==◌, All, All-imp, Bool-cases,
  Option-cases, if◌then◌else◌, nat_eq,
}
use constraints_builder.Shared.Map.{lookup}
use constraints_builder.Primitives.Orders.{OrderId, order_id_eq}
use constraints_builder.Primitives.SimValue.{SimulatedOrder, UsedStateTrace, sim_id}
use constraints_builder.Parallel.Groups.Sound.{IsSound}
use constraints_builder.Parallel.Groups.Added.{
  IsTrace, if_false, add_order-IsNext, no_groups-IsSound, conflicts-IsStored,
}
use constraints_builder.Parallel.Groups.Lossless.{IsInGroup, place-IsLossless, some_value}
use constraints_builder.Parallel.Groups.Finder.{
  ConflictFinder, no_groups, place, new_order_group, all_groups_in_conflict, add_order, add_orders,
}

-- An order with this id is in a group.
abbrev pub IsPresent : OrderId → ConflictFinder → Type 0
IsPresent id f = (o : SimulatedOrder) × (sim_id o ≡ id) × IsInGroup o f.groups

abbrev IsComplete : ConflictFinder → Type 0
IsComplete f = (id : OrderId) → contains f.known id ≡ true → IsPresent id f

abbrev pub HasTrace : SimulatedOrder → Type 0
HasTrace o = (u : UsedStateTrace) × (o.used_state_trace ≡ some u)

elim_some :
    {A B : Type 0} (t : Option A) (n : B) (g : A → B) (u : A)
    → t ≡ some u
    → (elim t [ none ↦ n | some v ↦ g v ]) ≡ g u
elim_some none n g u e = absurd (cc)
elim_some (some v) n g u e = ap g (some_value e)

fresh_id : (f : ConflictFinder) → IsSound f → lookup f.group_counter f.groups ≡ none
fresh_id f sound = elim (Option-cases (lookup f.group_counter f.groups)) [
  | inl e ↦ e
  | inr (d, e) ↦ absurd (omega (arith, sound.4 f.group_counter d e))
]

module _ (order : SimulatedOrder) (f next : ConflictFinder) (sound : IsSound f)
    (traced : HasTrace order) (added : add_order order f ≡ some next) where
  -- The order is known afterwards, and so are the others.
  IsNoted : Type 0
  IsNoted =
      (contains next.known (sim_id order) ≡ true)
      × ((id : OrderId) → contains f.known id ≡ true → contains next.known id ≡ true)

  add_order-IsComplete : IsComplete f → IsComplete next × IsNoted
  unfolding add_order IsNoted new_order_group
  add_order-IsComplete complete = elim (Bool-cases (contains f.known (sim_id order))) [
    | inl e ↦
        let same : f ≡ next =
          some_value
            (sym (if_true (contains f.known (sim_id order)) (some f) (rest f) e) ∙ added) in
        subst
          (λ n.
            IsComplete n
            × ((contains n.known (sim_id order) ≡ true)
                × ((id : OrderId) → contains f.known id ≡ true → contains n.known id ≡ true)))
          same (complete, (e, λ id h. h))
    | inr e ↦
        let (u, there) = traced in
        let noted : ConflictFinder = record f { known = set_insert (sim_id order) f.known } in
        let placed : place (new_order_group order u) (all_groups_in_conflict noted u) noted
            ≡ some next =
          sym (
            elim_some order.used_state_trace (some noted)
              (λ v. place (new_order_group order v) (all_groups_in_conflict noted v) noted) u there)
          ∙ sym (if_false (contains f.known (sim_id order)) (some f) (rest f) e)
          ∙ added in
        let (lossless, known) =
          place-IsLossless (new_order_group order u) noted (all_groups_in_conflict noted u) next
            (conflicts-IsStored noted u sound) (fresh_id f sound) placed in
        (
          λ id h. elim (Bool-cases (sim_id order == id)) [
            | inl k ↦ (
              order,
              (order_id_eq.same_iff (sim_id order) id).0 k,
              lossless order (inl (inl refl)),
            )
            | inr k ↦
                let (o, named, held) = complete id (
                  ground (
                    arith,
                    k,
                    ap (λ ids. contains ids id) known,
                    h,
                    contains-set_insert (sim_id order) f.known id,
                  )) in
                (o, named, lossless o (inr held))
          ],
          (
            ground (
              arith,
              ap (λ ids. contains ids (sim_id order)) known,
              contains-set_insert (sim_id order) f.known (sim_id order),
              order_id_eq.same_iff (sim_id order) (sim_id order),
            ),
            λ id h. ground (
              arith,
              h,
              ap (λ ids. contains ids id) known,
              contains-set_insert (sim_id order) f.known id,
            ),
          ),
        )
  ]
    where
      if_true : {A : Type 0} (b : Bool) (x y : A) → b ≡ true → (if b then x else y) ≡ x
      if_true true x y e = refl
      if_true false x y e = absurd (cc)

      rest : ConflictFinder → Option ConflictFinder
      rest g = elim order.used_state_trace [
        | none ↦ some (record g { known = set_insert (sim_id order) g.known })
        | some u ↦
            place (new_order_group order u)
              (all_groups_in_conflict (record g { known = set_insert (sim_id order) g.known }) u)
              (record g { known = set_insert (sim_id order) g.known })
      ]

more_orders :
    (orders : List SimulatedOrder) (f : ConflictFinder)
    → IsSound f
    → All (λ o. IsTrace o.used_state_trace) orders
    → All HasTrace orders
    → f.group_counter + length orders < 2 ^ 64
    → IsComplete f
    → (next : ConflictFinder) × (add_orders orders f ≡ some next)
      × IsComplete next
      × ((id : OrderId) → contains f.known id ≡ true → contains next.known id ≡ true)
      × All (λ o. contains next.known (sim_id o) ≡ true) orders
unfolding add_orders IsNoted
more_orders [] f sound traces traced few complete = (f, refl, complete, λ id h. h, tt)
more_orders (order ∷ orders) f sound traces traced few complete =
    let (one, e, (sound', le)) = add_order-IsNext order f sound traces.0 (omega (arith, few)) in
    let (complete', (here, kept)) = add_order-IsComplete order f one sound traced.0 e complete in
    let (next, e', complete'', kept', rest) =
      more_orders orders one sound' traces.1 traced.1 (omega (arith, few, le)) complete' in
    (
      next,
      rw (e, add_orders) e',
      complete'',
      λ id h. kept' id (kept id h),
      (kept' (sim_id order) here, rest),
    )

-- No order is lost: when every order has a trace, which names no slot or balance twice among those it
-- reads or those it writes, and there are fewer than 2^64 of them, `add_orders` on a new finder
-- succeeds, and for every order some group has an order with its id.
pub add_orders-IsPresent :
    (orders : List SimulatedOrder)
    → All (λ o. IsTrace o.used_state_trace) orders
    → All HasTrace orders
    → length orders < 2 ^ 64
    → (f : ConflictFinder) × (add_orders orders no_groups ≡ some f)
      × All (λ o. IsPresent (sim_id o) f) orders
add_orders-IsPresent orders traces traced few =
    let (f, e, complete, kept, known) =
      more_orders orders no_groups no_groups-IsSound traces traced (omega (arith, few))
        (λ id h. absurd (cc)) in
    (f, e, All-imp (λ o h. complete (sim_id o) h) orders known)
