-- ===== src/Parallel/Groups/Known.antt =====
-- The groups that an order conflicts with are stored groups, none named twice.
use constraints_builder.Shared.{
  ℕ, ◌≡◌, ◌⊎◌, ◌∙◌, inl, inr, refl, sym, arith, true, false, some, List, [], ◌∷◌, ◌++◌, contains,
  contains-append, IsDistinct, KeyEq, nat_eq, Option-cases,
}
use constraints_builder.Shared.Map.{
  Map, lookup, remove, keys, values, or_default, lookup-remove, contains_key-eq, contains_key,
}
use constraints_builder.Primitives.Tx.{Address, B256}
use constraints_builder.Primitives.SimValue.{SlotKey, UsedStateTrace}
use constraints_builder.Parallel.Groups.{GroupData, slot_eq}
use constraints_builder.Parallel.Groups.Index.{SlotIndex}
use constraints_builder.Parallel.Groups.Counts.{count}
use constraints_builder.Parallel.Groups.Held.{held}
use constraints_builder.Parallel.Groups.Sorted.{IsOnce, nat_order, dedup-sort-IsOnce}
use constraints_builder.Parallel.Groups.Apart.{IsIndexed, contains-count_of}
use constraints_builder.Parallel.Groups.Placed.{IsStored}
use constraints_builder.Parallel.Groups.Finder.{
  ConflictFinder, AddressIndex, flatten, of_slot, of_address, of_contract, slot_conflicts,
  balance_conflicts, code_conflicts, all_groups_in_conflict,
}
use constraints_builder.Parallel.Groups.Inner.{IsInner}

abbrev pub IsKnown : ℕ → Map ℕ GroupData → Type 0
IsKnown g groups = (d : GroupData) × (lookup g groups ≡ some d)

-- A listed group holds the key.
listed-IsKnown :
    {K : Type 0} ⦃e : KeyEq K⦄ (field : GroupData → List K) (groups : Map ℕ GroupData) (k : K)
    (xs : List ℕ) (g : ℕ)
    → count g xs ≡ held field k (lookup g groups)
    → contains xs g ≡ true
    → IsKnown g groups
listed-IsKnown field groups k xs g h c = elim (Option-cases (lookup g groups)) [
  | inl e ↦ absurd (ground (arith, e, h, c, contains-count_of g xs))
  | inr (d, e) ↦ (d, e)
]

append_true :
    (xs ys : List ℕ) (g : ℕ)
    → contains (xs ++ ys) g ≡ true
    → (contains xs g ≡ true) ⊎ (contains ys g ≡ true)
append_true xs ys g h = ground (arith, contains-append xs ys g)

flatten-values-true :
    (m : Map B256 (List ℕ)) (g : ℕ)
    → IsDistinct (keys m)
    → contains (flatten (values m)) g ≡ true
    → (k : B256) × (contains (or_default [] (lookup k m)) g ≡ true)
unfolding flatten lookup contains_key
flatten-values-true [] g d h = absurd (cc)
flatten-values-true ((j, xs) ∷ m) g d h = elim (append_true xs (flatten (values m)) g h) [
  | inl c ↦ (j, ground (arith, c))
  | inr c ↦
      let (k, there) = flatten-values-true m g d.1 c in
      elim (Option-cases (lookup k m)) [
        | inl e ↦ absurd (ground (arith, e, there))
        | inr (ys, e) ↦ (k, ground (arith, there, d.0, nat_eq.same_iff j k, e, has_key k ys e))
      ]
]
  where
    has_key : (k : B256) (ys : List ℕ) → lookup k m ≡ some ys → contains (keys m) k ≡ true
    has_key k ys e = sym (contains_key-eq k m) ∙ rw (e, contains_key) refl

module _ (f : ConflictFinder) (groups : Map ℕ GroupData) (indexed : IsIndexed f groups)
    (g : ℕ) where
  of_reads : (s : SlotKey) → contains (of_slot f.group_reads s) g ≡ true → IsKnown g groups
  unfolding of_slot
  of_reads s = listed-IsKnown (λ d. d.reads) groups s (of_slot f.group_reads s) g (indexed.0 s g)

  of_writes : (s : SlotKey) → contains (of_slot f.group_writes s) g ≡ true → IsKnown g groups
  unfolding of_slot
  of_writes s = listed-IsKnown (λ d. d.writes) groups s (of_slot f.group_writes s) g (indexed.1 s g)

  of_balance_reads :
      (x : Address) → contains (of_address f.group_balance_reads x) g ≡ true → IsKnown g groups
  unfolding of_address
  of_balance_reads x =
      listed-IsKnown (λ d. d.balance_reads) groups x (of_address f.group_balance_reads x) g
        (indexed.2 x g)

  of_balance_writes :
      (x : Address) → contains (of_address f.group_balance_writes x) g ≡ true → IsKnown g groups
  unfolding of_address
  of_balance_writes x =
      listed-IsKnown (λ d. d.balance_writes) groups x (of_address f.group_balance_writes x) g
        (indexed.3 x g)

  of_code_writes :
      (x : Address) → contains (of_address f.group_code_writes x) g ≡ true → IsKnown g groups
  unfolding of_address
  of_code_writes x =
      listed-IsKnown (λ d. d.code_writes) groups x (of_address f.group_code_writes x) g
        (indexed.4 x g)

  slot_conflicts-IsKnown :
      (m : SlotIndex) (c : AddressIndex) (ks : List SlotKey)
      → ((s : SlotKey) → contains (of_slot m s) g ≡ true → IsKnown g groups)
      → ((x : Address) → contains (of_address c x) g ≡ true → IsKnown g groups)
      → contains (slot_conflicts m c ks) g ≡ true
      → IsKnown g groups
  unfolding slot_conflicts
  slot_conflicts-IsKnown m c [] p q h = absurd (cc)
  slot_conflicts-IsKnown m c (k ∷ ks) p q h =
      elim (append_true (of_slot m k ++ of_address c k.address) (slot_conflicts m c ks) g h) [
        | inl front ↦ elim (append_true (of_slot m k) (of_address c k.address) g front) [
          | inl here ↦ p k here
          | inr code ↦ q k.address code
        ]
        | inr rest ↦ slot_conflicts-IsKnown m c ks p q rest
      ]

  balance_conflicts-IsKnown :
      (m : AddressIndex) (addresses : List Address)
      → ((x : Address) → contains (of_address m x) g ≡ true → IsKnown g groups)
      → contains (balance_conflicts m addresses) g ≡ true
      → IsKnown g groups
  unfolding balance_conflicts
  balance_conflicts-IsKnown m [] p h = absurd (cc)
  balance_conflicts-IsKnown m (a ∷ addresses) p h =
      elim (append_true (of_address m a) (balance_conflicts m addresses) g h) [
        | inl here ↦ p a here
        | inr rest ↦ balance_conflicts-IsKnown m addresses p rest
      ]

  of_contract-IsKnown :
      (m : SlotIndex) (a : Address)
      → IsInner m
      → ((s : SlotKey) → contains (of_slot m s) g ≡ true → IsKnown g groups)
      → contains (of_contract m a) g ≡ true
      → IsKnown g groups
  unfolding of_contract of_slot
  of_contract-IsKnown m a inner p h =
      let (k, there) = flatten-values-true (or_default [] (lookup a m)) g (inner a) h in
      p (record { address = a; key = k }) there

  module _ (inner : IsInner f.group_reads) (inner' : IsInner f.group_writes) where
    code_conflicts-IsKnown :
        (addresses : List Address)
        → contains (code_conflicts f addresses) g ≡ true
        → IsKnown g groups
    unfolding code_conflicts
    code_conflicts-IsKnown [] h = absurd (cc)
    code_conflicts-IsKnown (a ∷ addresses) h =
        let c = of_address f.group_code_writes a in
        let r = of_contract f.group_reads a in
        let w = of_contract f.group_writes a in
        elim (append_true (c ++ r ++ w) (code_conflicts f addresses) g h) [
          | inr rest ↦ code_conflicts-IsKnown addresses rest
          | inl front ↦ elim (append_true (c ++ r) w g front) [
            | inr written ↦ of_contract-IsKnown f.group_writes a inner' of_writes written
            | inl before ↦ elim (append_true c r g before) [
              | inl code ↦ of_code_writes a code
              | inr read ↦ of_contract-IsKnown f.group_reads a inner of_reads read
            ]
          ]
        ]

    pub all_groups_in_conflict-IsKnown :
        (u : UsedStateTrace) → contains (all_groups_in_conflict f u) g ≡ true → IsKnown g groups
    unfolding all_groups_in_conflict
    all_groups_in_conflict-IsKnown u h =
        let a = slot_conflicts f.group_writes f.group_code_writes u.read_slot_values in
        let b = slot_conflicts f.group_reads f.group_code_writes u.written_slot_values in
        let c = balance_conflicts f.group_balance_reads (u.received_amount ++ u.sent_amount) in
        let d = balance_conflicts f.group_balance_writes u.read_balances in
        let e = code_conflicts f (u.destructed_contracts ++ u.created_contracts) in
        let there : contains (a ++ b ++ c ++ d ++ e) g ≡ true =
          sym ((dedup-sort-IsOnce nat_order (a ++ b ++ c ++ d ++ e)).1 g) ∙ h in
        elim (append_true (a ++ b ++ c ++ d) e g there) [
          | inr x ↦ code_conflicts-IsKnown (u.destructed_contracts ++ u.created_contracts) x
          | inl abcd ↦ elim (append_true (a ++ b ++ c) d g abcd) [
            | inr x ↦
                balance_conflicts-IsKnown f.group_balance_writes u.read_balances of_balance_writes x
            | inl abc ↦ elim (append_true (a ++ b) c g abc) [
              | inr x ↦
                  balance_conflicts-IsKnown f.group_balance_reads
                    (u.received_amount ++ u.sent_amount) of_balance_reads x
              | inl ab ↦ elim (append_true a b g ab) [
                | inl x ↦
                    slot_conflicts-IsKnown f.group_writes f.group_code_writes u.read_slot_values
                      of_writes of_code_writes x
                | inr x ↦
                    slot_conflicts-IsKnown f.group_reads f.group_code_writes u.written_slot_values
                      of_reads of_code_writes x
              ]
            ]
          ]
        ]

-- Known ids, none of them twice, are stored.
pub IsOnce-IsStored :
    (ids : List ℕ) (groups : Map ℕ GroupData)
    → IsOnce ids
    → ((i : ℕ) → contains ids i ≡ true → IsKnown i groups)
    → IsStored ids groups
IsOnce-IsStored [] groups once known = tt
IsOnce-IsStored (i ∷ ids) groups once known =
    let alone : contains ids i ≡ false =
      ground (arith, once i, contains-count_of i ids, nat_eq.same_iff i i) in
    (
      known i (ground arith),
      IsOnce-IsStored ids (remove i groups)
          (λ k. ground (arith, once k, alone, contains-count_of k ids, nat_eq.same_iff i k))
          (λ j h. kept alone j h (known j (ground (arith, h)))),
    )
  where
    kept :
        contains ids i ≡ false
        → (j : ℕ) → contains ids j ≡ true
        → IsKnown j groups
        → IsKnown j (remove i groups)
    kept alone j h (d, e) =
        (d, ground (arith, lookup-remove i j groups, e, h, alone, nat_eq.same_iff i j))
