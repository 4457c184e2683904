-- ===== src/BlockOrders/Priority/Total.antt =====
-- The priorities of order_priority.rs are total orders.
use Prim.Native.Nat.{compare, Ordering}
use constraints_builder.Shared.{
  ℕ, ◌≡◌, ◌≢◌, ◌↔◌, refl, true, List, [], ◌∷◌, arith, nat_beq, if◌then◌else◌,
}
use constraints_builder.Primitives.Orders.{OrderId, order_id_eq}
use constraints_builder.Primitives.SimValue.{SimulatedOrder, sim_id}
use constraints_builder.BlockOrders.Priority.{
  then_with, order_id_cmp, fixed_bytes, rank, Cmp, cmp_eq, cmp_cmp, priority_eq, priority_cmp,
  is_tx, is_long, gas_price_of, profit_of,
}

abbrev pub flip : Ordering → Ordering
flip Ordering.lt = Ordering.gt
flip Ordering.eq = Ordering.eq
flip Ordering.gt = Ordering.lt

-- Each comparison is by a number.
key : Cmp → SimulatedOrder → ℕ
key (Cmp.mev_gas_price g) a = gas_price_of g a
key (Cmp.max_profit g) a = profit_of g a
key Cmp.order_type a = if is_tx a.order then 0 else 1
key Cmp.length_three a = if is_long a then 1 else 0

cmp_eq-key : (c : Cmp) (a b : SimulatedOrder) → cmp_eq c a b ≡ nat_beq (key c a) (key c b)
unfolding cmp_eq key
cmp_eq-key (Cmp.mev_gas_price g) a b = refl
cmp_eq-key (Cmp.max_profit g) a b = refl
cmp_eq-key Cmp.order_type a b = ground arith
cmp_eq-key Cmp.length_three a b = ground arith

cmp_cmp-key : (c : Cmp) (a b : SimulatedOrder) → cmp_cmp c a b ≡ compare (key c a) (key c b)
unfolding cmp_cmp key
cmp_cmp-key (Cmp.mev_gas_price g) a b = refl
cmp_cmp-key (Cmp.max_profit g) a b = refl
cmp_cmp-key Cmp.order_type a b = ground arith
cmp_cmp-key Cmp.length_three a b = ground arith

order_id_cmp-eq : (i j : OrderId) → order_id_cmp i j ≡ Ordering.eq → i ≡ j
unfolding order_id_cmp then_with fixed_bytes rank
order_id_cmp-eq (OrderId.tx a) (OrderId.tx b) h = ground arith
order_id_cmp-eq (OrderId.tx a) (OrderId.bundle b) h = ground arith
order_id_cmp-eq (OrderId.tx a) (OrderId.share_bundle b) h = ground arith
order_id_cmp-eq (OrderId.bundle a) (OrderId.tx b) h = ground arith
order_id_cmp-eq (OrderId.bundle a) (OrderId.bundle b) h = ground arith
order_id_cmp-eq (OrderId.bundle a) (OrderId.share_bundle b) h = ground arith
order_id_cmp-eq (OrderId.share_bundle a) (OrderId.tx b) h = ground arith
order_id_cmp-eq (OrderId.share_bundle a) (OrderId.bundle b) h = ground arith
order_id_cmp-eq (OrderId.share_bundle a) (OrderId.share_bundle b) h = ground arith

order_id_cmp-flip : (i j : OrderId) → order_id_cmp j i ≡ flip (order_id_cmp i j)
unfolding order_id_cmp then_with
order_id_cmp-flip i j = ground arith

order_id_cmp_trans :
    (i j k : OrderId)
    → order_id_cmp i j ≢ Ordering.gt
    → order_id_cmp j k ≢ Ordering.gt
    → order_id_cmp i k ≢ Ordering.gt
unfolding order_id_cmp then_with
order_id_cmp_trans i j k p q = ground arith

order_id_cmp_refl : (i : OrderId) → order_id_cmp i i ≡ Ordering.eq
unfolding order_id_cmp then_with
order_id_cmp_refl i = ground arith

priority_eq-cmp :
    (cs : List Cmp) (a b : SimulatedOrder)
    → (priority_eq cs a b ≡ true) ↔ (priority_cmp cs a b ≡ Ordering.eq)
unfolding priority_eq priority_cmp then_with
priority_eq-cmp [] a b = (
  λ h. rw ((order_id_eq.same_iff (sim_id a) (sim_id b)).0 h) (order_id_cmp_refl (sim_id b)),
  λ h. (order_id_eq.same_iff (sim_id a) (sim_id b)).1 (order_id_cmp-eq (sim_id a) (sim_id b) h),
)
priority_eq-cmp (c ∷ cs) a b =
    ground (arith, cmp_eq-key c a b, cmp_cmp-key c a b, priority_eq-cmp cs a b)

priority_cmp-flip :
    (cs : List Cmp) (a b : SimulatedOrder) → priority_cmp cs b a ≡ flip (priority_cmp cs a b)
unfolding priority_cmp then_with
priority_cmp-flip [] a b = order_id_cmp-flip (sim_id a) (sim_id b)
priority_cmp-flip (c ∷ cs) a b =
    ground (arith, cmp_cmp-key c a b, cmp_cmp-key c b a, priority_cmp-flip cs a b)

priority_cmp_trans :
    (cs : List Cmp) (a b d : SimulatedOrder)
    → priority_cmp cs a b ≢ Ordering.gt
    → priority_cmp cs b d ≢ Ordering.gt
    → priority_cmp cs a d ≢ Ordering.gt
unfolding priority_cmp then_with
priority_cmp_trans [] a b d p q = order_id_cmp_trans (sim_id a) (sim_id b) (sim_id d) p q
priority_cmp_trans (c ∷ cs) a b d p q =
    ground
      (arith, cmp_cmp-key c a b, cmp_cmp-key c b d, cmp_cmp-key c a d, priority_cmp_trans cs a b d)

priority_cmp-eq :
    (cs : List Cmp) (a b : SimulatedOrder) → priority_cmp cs a b ≡ Ordering.eq → sim_id a ≡ sim_id b
unfolding priority_cmp then_with
priority_cmp-eq [] a b h = order_id_cmp-eq (sim_id a) (sim_id b) h
priority_cmp-eq (c ∷ cs) a b h = priority_cmp-eq cs a b (ground (arith, h))

-- For every list of comparisons, those of the five priorities among them, `cmp` is a total order of
-- the simulated orders: it is `Equal` exactly when `eq` holds, which it does only for orders with
-- one id; swapping the orders reverses it; and it is transitive.
pub priority_cmp-IsTotal :
    (cs : List Cmp) (a b d : SimulatedOrder)
    → ((priority_eq cs a b ≡ true) ↔ (priority_cmp cs a b ≡ Ordering.eq))
      × (priority_cmp cs a b ≡ Ordering.eq → sim_id a ≡ sim_id b)
      × (priority_cmp cs b a ≡ flip (priority_cmp cs a b))
      × (priority_cmp cs a b ≢ Ordering.gt
          → priority_cmp cs b d ≢ Ordering.gt
          → priority_cmp cs a d ≢ Ordering.gt)
priority_cmp-IsTotal cs a b d = (
  priority_eq-cmp cs a b,
  priority_cmp-eq cs a b,
  priority_cmp-flip cs a b,
  priority_cmp_trans cs a b d,
)
