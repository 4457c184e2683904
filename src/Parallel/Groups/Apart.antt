-- ===== src/Parallel/Groups/Apart.antt =====
-- Groups that do not conflict, and what the index says of an order that conflicts with none.
use constraints_builder.Shared.{
  ℕ, ◌≡◌, ◌∙◌, ap, inl, inr, Bool-cases, sym, refl, arith, true, false, List, [], ◌∷◌, ◌++◌,
  contains, contains-append, ltb, KeyEq, nat_eq, nat_beq,
}
use constraints_builder.Shared.Map.{Map, lookup, values, or_default}
use constraints_builder.Primitives.Tx.{Address, B256}
use constraints_builder.Primitives.SimValue.{SlotKey}
use constraints_builder.Parallel.Groups.{GroupData, slot_eq, slot_beq, slot_beq_iff}
use constraints_builder.Parallel.Groups.Index.{SlotIndex}
use constraints_builder.Parallel.Groups.Counts.{count, count_of, listed, listed_slot}
use constraints_builder.Parallel.Groups.Again.{contains-count}
use constraints_builder.Parallel.Groups.Held.{IsHeld}
use constraints_builder.Parallel.Groups.Finder.{
  ConflictFinder, AddressIndex, flatten, of_slot, of_address, of_contract, slot_conflicts,
  balance_conflicts, code_conflicts,
}

-- No slot that the first reads is written by the second, no slot that it reads or writes is of a
-- contract that the second creates or destroys, no balance that it reads is changed by the second,
-- and no contract is created or destroyed by both.
abbrev pub IsHalfApart : GroupData → GroupData → Type 0
IsHalfApart a b =
    ((s : SlotKey) → contains a.reads s ≡ true → contains b.writes s ≡ false)
    × ((s : SlotKey) → contains a.reads s ≡ true → contains b.code_writes s.address ≡ false)
    × ((s : SlotKey) → contains a.writes s ≡ true → contains b.code_writes s.address ≡ false)
    × ((x : Address) → contains a.balance_reads x ≡ true → contains b.balance_writes x ≡ false)
    × ((x : Address) → contains a.code_writes x ≡ true → contains b.code_writes x ≡ false)

abbrev pub IsApart : GroupData → GroupData → Type 0
IsApart a b = IsHalfApart a b × IsHalfApart b a

-- The five indices list these groups.
abbrev pub IsIndexed : ConflictFinder → Map ℕ GroupData → Type 0
IsIndexed f groups =
    IsHeld (λ d. d.reads) (λ k i. listed_slot k i f.group_reads) groups
    × IsHeld (λ d. d.writes) (λ k i. listed_slot k i f.group_writes) groups
    × IsHeld (λ d. d.balance_reads) (λ k i. listed k i f.group_balance_reads) groups
    × IsHeld (λ d. d.balance_writes) (λ k i. listed k i f.group_balance_writes) groups
    × IsHeld (λ d. d.code_writes) (λ k i. listed k i f.group_code_writes) groups

pub contains-count_of :
    {K : Type 0} ⦃e : KeyEq K⦄ (k : K) (ks : List K) → contains ks k ≡ ltb 0 (count_of k ks)
contains-count_of k [] = ground arith
contains-count_of k (x ∷ xs) = ground (arith, contains-count_of k xs)

-- A group that is not listed does not hold the key.
pub unlisted :
    {K : Type 0} ⦃e : KeyEq K⦄ (k : K) (xs : List ℕ) (ks : List K) (g : ℕ)
    → count g xs ≡ count_of k ks
    → contains xs g ≡ false
    → contains ks k ≡ false
unlisted k xs ks g h n = ground (arith, contains-count g xs, contains-count_of k ks)

pub append_false :
    (xs ys : List ℕ) (g : ℕ)
    → contains (xs ++ ys) g ≡ false
    → (contains xs g ≡ false) × (contains ys g ≡ false)
append_false xs ys g h = let e = contains-append xs ys g in (ground arith, ground arith)

pub slot_conflicts-false :
    (m : SlotIndex) (c : AddressIndex) (ks : List SlotKey) (g : ℕ)
    → contains (slot_conflicts m c ks) g ≡ false
    → (s : SlotKey) → contains ks s ≡ true
    → (contains (of_slot m s) g ≡ false) × (contains (of_address c s.address) g ≡ false)
unfolding slot_conflicts
slot_conflicts-false m c [] g h s k = absurd (cc)
slot_conflicts-false m c (x ∷ ks) g h s k =
    let (q, r) = append_false (of_slot m x ++ of_address c x.address) (slot_conflicts m c ks) g h in
    let (p, q') = append_false (of_slot m x) (of_address c x.address) g q in
    elim (Bool-cases (slot_beq x s)) [
      | inl e ↦
          let same : x ≡ s = (slot_beq_iff x s).0 e in
          (
            sym (ap (λ y. contains (of_slot m y) g) same) ∙ p,
            sym (ap (λ y. contains (of_address c y.address) g) same) ∙ q',
          )
      | inr e ↦ slot_conflicts-false m c ks g r s (ground (arith, e, k))
    ]

pub balance_conflicts-false :
    (m : AddressIndex) (addresses : List Address) (g : ℕ)
    → contains (balance_conflicts m addresses) g ≡ false
    → (x : Address) → contains addresses x ≡ true
    → contains (of_address m x) g ≡ false
unfolding balance_conflicts
balance_conflicts-false m [] g h x k = absurd (cc)
balance_conflicts-false m (a ∷ addresses) g h x k =
    let (p, q) = append_false (of_address m a) (balance_conflicts m addresses) g h in
    elim (Bool-cases (nat_beq a x)) [
      | inl e ↦
          let same : a ≡ x = (nat_eq.same_iff a x).0 e in
          sym (ap (λ y. contains (of_address m y) g) same) ∙ p
      | inr e ↦ balance_conflicts-false m addresses g q x (ground (arith, e, k))
    ]

pub code_conflicts-false :
    (f : ConflictFinder) (addresses : List Address) (g : ℕ)
    → contains (code_conflicts f addresses) g ≡ false
    → (x : Address) → contains addresses x ≡ true
    → (contains (of_address f.group_code_writes x) g ≡ false)
      × (contains (of_contract f.group_reads x) g ≡ false)
      × (contains (of_contract f.group_writes x) g ≡ false)
unfolding code_conflicts
code_conflicts-false f [] g h x k = absurd (cc)
code_conflicts-false f (a ∷ addresses) g h x k =
    let c = of_address f.group_code_writes a in
    let r = of_contract f.group_reads a in
    let w = of_contract f.group_writes a in
    let rest = code_conflicts f addresses in
    let (q', q'') = append_false (c ++ r ++ w) rest g h in
    let (q, p'') = append_false (c ++ r) w g q' in
    let (p, p') = append_false c r g q in
    elim (Bool-cases (nat_beq a x)) [
      | inl e ↦
          let same : a ≡ x = (nat_eq.same_iff a x).0 e in
          (
            sym (ap (λ y. contains (of_address f.group_code_writes y) g) same) ∙ p,
            sym (ap (λ y. contains (of_contract f.group_reads y) g) same) ∙ p',
            sym (ap (λ y. contains (of_contract f.group_writes y) g) same) ∙ p'',
          )
      | inr e ↦ code_conflicts-false f addresses g q'' x (ground (arith, e, k))
    ]

flatten-values-false :
    (m : Map B256 (List ℕ)) (g : ℕ)
    → contains (flatten (values m)) g ≡ false
    → (k : B256) → contains (or_default [] (lookup k m)) g ≡ false
unfolding flatten lookup
flatten-values-false [] g h k = refl
flatten-values-false ((j, xs) ∷ m) g h k =
    let (p, q) = append_false xs (flatten (values m)) g h in
    elim (Bool-cases (nat_beq j k)) [ inl e ↦ rw e p | inr e ↦ rw e (flatten-values-false m g q k) ]

pub of_contract-false :
    (m : SlotIndex) (s : SlotKey) (g : ℕ)
    → contains (of_contract m s.address) g ≡ false
    → contains (of_slot m s) g ≡ false
unfolding of_contract of_slot
of_contract-false m s g h = flatten-values-false (or_default [] (lookup s.address m)) g h s.key
