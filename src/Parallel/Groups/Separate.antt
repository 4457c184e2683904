-- ===== src/Parallel/Groups/Separate.antt =====
-- A combined group conflicts with no group that its parts do not conflict with.
use constraints_builder.Shared.{
  ℕ, ◌≡◌, ◌∙◌, inl, inr, refl, sym, arith, true, false, List, [], ◌∷◌, contains, contains-append,
  KeyEq, nat_eq, All, All-imp, Bool-cases,
}
use constraints_builder.Parallel.Groups.{GroupData, slot_eq, combine_groups}
use constraints_builder.Parallel.Groups.Combined.{combine_groups_lem, IsUnion, gather}
use constraints_builder.Parallel.Groups.Apart.{IsApart}

module _ {K : Type 0} ⦃e : KeyEq K⦄ (field : GroupData → List K) (k : K) where
  -- What follows from the key in each group follows from the key in all together.
  gather-true :
      (X : Type 0) (groups : List GroupData)
      → All (λ p. contains (field p) k ≡ true → X) groups
      → contains (gather field groups) k ≡ true
      → X
  gather-true X [] h c = absurd (cc)
  gather-true X (p ∷ groups) h c = elim (Bool-cases (contains (field p) k)) [
    | inl here ↦ h.0 here
    | inr out ↦
        gather-true X groups h.1
          (ground (arith, out, c, contains-append (field p) (gather field groups) k))
  ]

  gather-false :
      (groups : List GroupData)
      → All (λ p. contains (field p) k ≡ false) groups
      → contains (gather field groups) k ≡ false
  gather-false [] h = refl
  gather-false (p ∷ groups) h =
      ground
        (arith, h.0, gather-false groups h.1, contains-append (field p) (gather field groups) k)

  union-true :
      (X : Type 0) (keys : List K) (groups : List GroupData)
      → IsUnion keys (gather field groups)
      → All (λ p. contains (field p) k ≡ true → X) groups
      → contains keys k ≡ true
      → X
  union-true X keys groups u h c = gather-true X groups h (sym (u.1 k) ∙ c)

  union-false :
      (keys : List K) (groups : List GroupData)
      → IsUnion keys (gather field groups)
      → All (λ p. contains (field p) k ≡ false) groups
      → contains keys k ≡ false
  union-false keys groups u h = u.1 k ∙ gather-false groups h

pub combine_groups-IsApart :
    (groups : List GroupData) (removed : List ℕ) (b : GroupData)
    → All (λ p. IsApart p b) groups
    → IsApart (combine_groups groups removed) b
combine_groups-IsApart groups removed b h =
    let d = combine_groups groups removed in
    let (o, r, w, br, bw, c) = combine_groups_lem groups removed in
    (
      (
        λ s k.
            union-true (λ p. p.reads) s (contains b.writes s ≡ false) d.reads groups r
              (All-imp (λ p a. a.0.0 s) groups h) k,
        λ s k.
            union-true (λ p. p.reads) s (contains b.code_writes s.address ≡ false) d.reads groups r
              (All-imp (λ p a. a.0.1 s) groups h) k,
        λ s k.
            union-true (λ p. p.writes) s (contains b.code_writes s.address ≡ false) d.writes groups
              w (All-imp (λ p a. a.0.2 s) groups h) k,
        λ x k.
            union-true (λ p. p.balance_reads) x (contains b.balance_writes x ≡ false)
              d.balance_reads groups br (All-imp (λ p a. a.0.3 x) groups h) k,
        λ x k.
            union-true (λ p. p.code_writes) x (contains b.code_writes x ≡ false) d.code_writes
              groups c (All-imp (λ p a. a.0.4 x) groups h) k,
      ),
      (
        λ s k.
            union-false (λ p. p.writes) s d.writes groups w (All-imp (λ p a. a.1.0 s k) groups h),
        λ s k.
            union-false (λ p. p.code_writes) s.address d.code_writes groups c
              (All-imp (λ p a. a.1.1 s k) groups h),
        λ s k.
            union-false (λ p. p.code_writes) s.address d.code_writes groups c
              (All-imp (λ p a. a.1.2 s k) groups h),
        λ x k.
            union-false (λ p. p.balance_writes) x d.balance_writes groups bw
              (All-imp (λ p a. a.1.3 x k) groups h),
        λ x k.
            union-false (λ p. p.code_writes) x d.code_writes groups c
              (All-imp (λ p a. a.1.4 x k) groups h),
      ),
    )
