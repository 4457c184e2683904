-- ===== src/Parallel/Groups/Sorted.antt =====
-- `sort_unstable` and `dedup` of a vector of keys keep each key once.
use constraints_builder.Shared.{
  ℕ, ◌≡◌, refl, arith, Bool, true, false, ◌||◌, List, [], ◌∷◌, contains, All, if◌then◌else◌, KeyEq,
  ◌==◌, leb, nat_eq, inl, inr, Bool-cases,
}
use constraints_builder.Primitives.SimValue.{SlotKey}
use constraints_builder.Parallel.Groups.{insert_sorted, sort, dedup, slot_le, slot_eq}
use constraints_builder.Parallel.Groups.Counts.{count_of}

pub record KeyOrder {ℓ} (A : Type ℓ) : Type ℓ where
  pub le : A → A → Bool
  pub total : (x y : A) → le x y ≡ false → le y x ≡ true
  pub trans : (x y z : A) → le x y ≡ true → le y z ≡ true → le x z ≡ true
  pub antisym : (x y : A) → le x y ≡ true → le y x ≡ true → x ≡ y

-- Each key at most once.
abbrev pub IsOnce {ℓ} : {A : Type ℓ} ⦃e : KeyEq A⦄ → List A → Type ℓ
IsOnce {A} xs = (k : A) → count_of k xs ≡ (if contains xs k then 1 else 0)

module _ {ℓ} {A : Type ℓ} ⦃e : KeyEq A⦄ (o : KeyOrder A) where
  IsAbove : A → List A → Type 0
  IsAbove x xs = All (λ y. o.le x y ≡ true) xs

  IsSorted : List A → Type 0
  IsSorted [] = Unit
  IsSorted (x ∷ xs) = IsAbove x xs × IsSorted xs

  IsAbove-le : (x y : A) (xs : List A) → o.le x y ≡ true → IsAbove y xs → IsAbove x xs
  unfolding IsAbove
  IsAbove-le x y [] h k = tt
  IsAbove-le x y (z ∷ xs) h k = (o.trans x y z h k.0, IsAbove-le x y xs h k.1)

  IsAbove-insert_sorted :
      (z x : A) (xs : List A) → o.le z x ≡ true → IsAbove z xs → IsAbove z (insert_sorted o.le x xs)
  unfolding IsAbove insert_sorted
  IsAbove-insert_sorted z x [] h k = (h, tt)
  IsAbove-insert_sorted z x (y ∷ ys) h k = elim (Bool-cases (o.le x y)) [
    | inl c ↦ rw c (h, k)
    | inr c ↦ rw c (k.0, IsAbove-insert_sorted z x ys h k.1)
  ]

  insert_sorted-IsSorted : (x : A) (xs : List A) → IsSorted xs → IsSorted (insert_sorted o.le x xs)
  unfolding IsSorted insert_sorted IsAbove
  insert_sorted-IsSorted x [] h = (tt, tt)
  insert_sorted-IsSorted x (y ∷ ys) h = elim (Bool-cases (o.le x y)) [
    | inl c ↦ rw c ((c, IsAbove-le x y ys c h.0), h)
    | inr c ↦
        rw c (IsAbove-insert_sorted y x ys (o.total x y c) h.0, insert_sorted-IsSorted x ys h.1)
  ]

  sort-IsSorted : (xs : List A) → IsSorted (sort o.le xs)
  unfolding sort IsSorted
  sort-IsSorted [] = tt
  sort-IsSorted (x ∷ xs) = insert_sorted-IsSorted x (sort o.le xs) (sort-IsSorted xs)

  contains-insert_sorted :
      (x k : A) (xs : List A) → contains (insert_sorted o.le x xs) k ≡ (x == k || contains xs k)
  unfolding insert_sorted
  contains-insert_sorted x k [] = ground arith
  contains-insert_sorted x k (y ∷ ys) = ground (arith, contains-insert_sorted x k ys)

  contains-sort : (k : A) (xs : List A) → contains (sort o.le xs) k ≡ contains xs k
  unfolding sort
  contains-sort k [] = refl
  contains-sort k (x ∷ xs) =
      ground (arith, contains-insert_sorted x k (sort o.le xs), contains-sort k xs)

  contains-dedup : (k : A) (xs : List A) → contains (dedup xs) k ≡ contains xs k
  unfolding dedup
  contains-dedup k [] = refl
  contains-dedup k (x ∷ []) = refl
  contains-dedup k (x ∷ y ∷ ys) =
      ground (arith, contains-dedup k (y ∷ ys), e.same_iff x y, e.same_iff x k, e.same_iff y k)

  absent :
      (x y : A) (ys : List A)
      → o.le x y ≡ true
      → (x == y) ≡ false
      → IsAbove y ys
      → contains ys x ≡ false
  unfolding IsAbove
  absent x y [] h n k = refl
  absent x y (z ∷ ys) h n k = elim (Bool-cases (z == x)) [
    | inl c ↦ ground (arith, c, n, e.same_iff z x, e.same_iff x y, o.antisym x y h, k.0)
    | inr c ↦ rw (c) (absent x y ys h n k.1)
  ]

  dedup-IsOnce : (xs : List A) → IsSorted xs → IsOnce (dedup xs)
  unfolding dedup IsSorted IsAbove
  dedup-IsOnce [] h k = refl
  dedup-IsOnce (x ∷ []) h k = ground arith
  dedup-IsOnce (x ∷ y ∷ ys) h k = elim (Bool-cases (x == y)) [
    | inl c ↦ rw c (dedup-IsOnce (y ∷ ys) h.1 k)
    | inr c ↦
        let not_below : contains ys x ≡ false = absent x y ys h.0.0 c h.1.0 in
        ground (
          arith,
          c,
          not_below,
          dedup-IsOnce (y ∷ ys) h.1 k,
          contains-dedup k (y ∷ ys),
          e.same_iff x k,
          e.same_iff y x,
          e.same_iff x y,
        )
  ]

  -- What `sort_unstable` and `dedup` make of a vector has its keys, each once.
  pub dedup-sort-IsOnce :
      (xs : List A)
      → IsOnce (dedup (sort o.le xs))
        × ((k : A) → contains (dedup (sort o.le xs)) k ≡ contains xs k)
  dedup-sort-IsOnce xs = (
    dedup-IsOnce (sort o.le xs) (sort-IsSorted xs),
    λ k. rw (contains-dedup k (sort o.le xs)) (contains-sort k xs),
  )

pub leb_total : (x y : ℕ) → leb x y ≡ false → leb y x ≡ true
leb_total x y h = ground arith

pub leb_trans : (x y z : ℕ) → leb x y ≡ true → leb y z ≡ true → leb x z ≡ true
leb_trans x y z h k = ground arith

pub leb_antisym : (x y : ℕ) → leb x y ≡ true → leb y x ≡ true → x ≡ y
leb_antisym x y h k = ground arith

abbrev pub nat_order : KeyOrder ℕ
nat_order = record { le = leb; total = leb_total; trans = leb_trans; antisym = leb_antisym }

pub slot_le_total : (x y : SlotKey) → slot_le x y ≡ false → slot_le y x ≡ true
unfolding slot_le
slot_le_total x y h = ground arith

pub slot_le_trans : (x y z : SlotKey) → slot_le x y ≡ true → slot_le y z ≡ true → slot_le x z ≡ true
unfolding slot_le
slot_le_trans x y z h k = ground arith

pub slot_le_antisym : (x y : SlotKey) → slot_le x y ≡ true → slot_le y x ≡ true → x ≡ y
unfolding slot_le
slot_le_antisym x y h k = ground arith

abbrev pub slot_order : KeyOrder SlotKey
slot_order = record {
  le = slot_le;
  total = slot_le_total;
  trans = slot_le_trans;
  antisym = slot_le_antisym;
}
