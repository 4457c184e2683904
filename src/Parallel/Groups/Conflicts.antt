-- ===== src/Parallel/Groups/Conflicts.antt =====
-- The groups that `all_groups_in_conflict` leaves out do not conflict with the order.
use constraints_builder.Shared.{
  ℕ, ◌≡◌, ◌∙◌, ap, sym, arith, Bool, true, false, some, List, ◌++◌, contains, contains-append,
  nat_eq, inl, inr, Bool-cases,
}
use constraints_builder.Shared.Map.{Map, lookup}
use constraints_builder.Primitives.Tx.{Address}
use constraints_builder.Primitives.SimValue.{SlotKey, SimulatedOrder, UsedStateTrace}
use constraints_builder.Parallel.Groups.{GroupData, slot_eq}
use constraints_builder.Parallel.Groups.Held.{held}
use constraints_builder.Parallel.Groups.Sorted.{nat_order, dedup-sort-IsOnce}
use constraints_builder.Parallel.Groups.Finder.{
  ConflictFinder, of_slot, of_address, slot_conflicts, balance_conflicts, code_conflicts,
  all_groups_in_conflict, new_order_group,
}
use constraints_builder.Parallel.Groups.Apart.{
  IsApart, IsIndexed, unlisted, append_false, slot_conflicts-false, balance_conflicts-false,
  code_conflicts-false, of_contract-false,
}

flip_false : {a b : Bool} → (a ≡ true → b ≡ false) → b ≡ true → a ≡ false
flip_false {a} {b} f h = elim (Bool-cases a) [ inl e ↦ absurd (ground (arith, f e, h)) | inr e ↦ e ]

contains_append_comm : (xs ys : List ℕ) (x : ℕ) → contains (ys ++ xs) x ≡ contains (xs ++ ys) x
contains_append_comm xs ys x = ground (arith, contains-append xs ys x, contains-append ys xs x)

-- What leaving a group out says of each kind of conflict.
conflicts-false :
    (f : ConflictFinder) (u : UsedStateTrace) (g : ℕ)
    → contains (all_groups_in_conflict f u) g ≡ false
    → (contains (slot_conflicts f.group_writes f.group_code_writes u.read_slot_values) g ≡ false)
      × (contains (slot_conflicts f.group_reads f.group_code_writes u.written_slot_values) g
          ≡ false)
      × (contains (balance_conflicts f.group_balance_reads (u.received_amount ++ u.sent_amount)) g
          ≡ false)
      × (contains (balance_conflicts f.group_balance_writes u.read_balances) g ≡ false)
      × (contains (code_conflicts f (u.destructed_contracts ++ u.created_contracts)) g ≡ false)
unfolding all_groups_in_conflict
conflicts-false f u g h =
    let a = slot_conflicts f.group_writes f.group_code_writes u.read_slot_values in
    let b = slot_conflicts f.group_reads f.group_code_writes u.written_slot_values in
    let c = balance_conflicts f.group_balance_reads (u.received_amount ++ u.sent_amount) in
    let d = balance_conflicts f.group_balance_writes u.read_balances in
    let e = code_conflicts f (u.destructed_contracts ++ u.created_contracts) in
    let all_false : contains (a ++ b ++ c ++ d ++ e) g ≡ false =
      sym ((dedup-sort-IsOnce nat_order (a ++ b ++ c ++ d ++ e)).1 g) ∙ h in
    let (abcd, he) = append_false (a ++ b ++ c ++ d) e g all_false in
    let (abc, hd) = append_false (a ++ b ++ c) d g abcd in
    let (ab, hc) = append_false (a ++ b) c g abc in
    let (ha, hb) = append_false a b g ab in (ha, hb, hc, hd, he)

module _ (f : ConflictFinder) (groups : Map ℕ GroupData) (u : UsedStateTrace)
    (order : SimulatedOrder) (g : ℕ) (d : GroupData) (indexed : IsIndexed f groups)
    (found : lookup g groups ≡ some d)
    (left_out : contains (all_groups_in_conflict f u) g ≡ false) where
  reads_false :
      (s : SlotKey) → contains (of_slot f.group_reads s) g ≡ false → contains d.reads s ≡ false
  unfolding of_slot
  reads_false s h =
      unlisted s (of_slot f.group_reads s) d.reads g
        (indexed.0 s g ∙ ap (held (λ d. d.reads) s) found) h

  writes_false :
      (s : SlotKey) → contains (of_slot f.group_writes s) g ≡ false → contains d.writes s ≡ false
  unfolding of_slot
  writes_false s h =
      unlisted s (of_slot f.group_writes s) d.writes g
        (indexed.1 s g ∙ ap (held (λ d. d.writes) s) found) h

  balance_reads_false :
      (x : Address)
      → contains (of_address f.group_balance_reads x) g ≡ false
      → contains d.balance_reads x ≡ false
  unfolding of_address
  balance_reads_false x h =
      unlisted x (of_address f.group_balance_reads x) d.balance_reads g
        (indexed.2 x g ∙ ap (held (λ d. d.balance_reads) x) found) h

  balance_writes_false :
      (x : Address)
      → contains (of_address f.group_balance_writes x) g ≡ false
      → contains d.balance_writes x ≡ false
  unfolding of_address
  balance_writes_false x h =
      unlisted x (of_address f.group_balance_writes x) d.balance_writes g
        (indexed.3 x g ∙ ap (held (λ d. d.balance_writes) x) found) h

  code_false :
      (x : Address)
      → contains (of_address f.group_code_writes x) g ≡ false
      → contains d.code_writes x ≡ false
  unfolding of_address
  code_false x h =
      unlisted x (of_address f.group_code_writes x) d.code_writes g
        (indexed.4 x g ∙ ap (held (λ d. d.code_writes) x) found) h

  -- While the five indices list the groups of a map, a group of it that `all_groups_in_conflict`
  -- leaves out does not conflict with the order: neither reads a slot or a balance that the other
  -- changes, no slot of one is of a contract that the other creates or destroys, and no contract is
  -- created or destroyed by both.
  pub new_order_group-IsApart : IsApart (new_order_group order u) d
  unfolding new_order_group
  new_order_group-IsApart =
      let (r, w, br, bw, c) = conflicts-false f u g left_out in
      let sr = slot_conflicts-false f.group_writes f.group_code_writes u.read_slot_values g r in
      let sw = slot_conflicts-false f.group_reads f.group_code_writes u.written_slot_values g w in
      let sbr =
        balance_conflicts-false f.group_balance_reads (u.received_amount ++ u.sent_amount) g br in
      let sbw = balance_conflicts-false f.group_balance_writes u.read_balances g bw in
      let sc = code_conflicts-false f (u.destructed_contracts ++ u.created_contracts) g c in
      let wrote = (dedup-sort-IsOnce nat_order (u.sent_amount ++ u.received_amount)).1 in
      let made = (dedup-sort-IsOnce nat_order (u.created_contracts ++ u.destructed_contracts)).1 in
      let swap_wrote = contains_append_comm u.sent_amount u.received_amount in
      let swap_made = contains_append_comm u.created_contracts u.destructed_contracts in
      (
        (
          λ s k. writes_false s (sr s k).0,
          λ s k. code_false s.address (sr s k).1,
          λ s k. code_false s.address (sw s k).1,
          λ x k. balance_writes_false x (sbw x k),
          λ x k. code_false x (sc x (swap_made x ∙ sym (made x) ∙ k)).0,
        ),
        (
          λ s k. flip_false (λ h. reads_false s (sw s h).0) k,
          λ s k.
              flip_false
                (λ h. reads_false s (
                  of_contract-false f.group_reads s g
                    (sc s.address (swap_made s.address ∙ sym (made s.address) ∙ h)).1))
                k,
          λ s k.
              flip_false
                (λ h. writes_false s (
                  of_contract-false f.group_writes s g
                    (sc s.address (swap_made s.address ∙ sym (made s.address) ∙ h)).2))
                k,
          λ x k.
              flip_false (λ h. balance_reads_false x (sbr x (swap_wrote x ∙ sym (wrote x) ∙ h))) k,
          λ x k. flip_false (λ h. code_false x (sc x (swap_made x ∙ sym (made x) ∙ h)).0) k,
        ),
      )
