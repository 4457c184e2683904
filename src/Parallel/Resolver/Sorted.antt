-- ===== src/Parallel/Resolver/Sorted.antt =====
-- Sorting by insertion (`sort`, which stands for `sort_by`): what it keeps and that it orders.
use constraints_builder.Shared.{
  ℕ, ◌≡◌, ◌<◌, refl, ap, Bool, true, false, List, [], ◌∷◌, All, inl, inr, Bool-cases,
}
use constraints_builder.Parallel.Groups.{sort, insert_sorted}

module _ {A : Type 0} (le : A → A → Bool) where
  -- Each may stand before all that follow it.
  abbrev pub IsOrdered : List A → Type 0
  IsOrdered [] = Unit
  IsOrdered (x ∷ xs) = All (λ y. le x y ≡ true) xs × IsOrdered xs

module _ {A : Type 0} (le : A → A → Bool) (total : (x y : A) → le x y ≡ false → le y x ≡ true)
    (trans : (x y z : A) → le x y ≡ true → le y z ≡ true → le x z ≡ true) where
  All-le :
      (x y : A) (xs : List A)
      → le x y ≡ true
      → All (λ z. le y z ≡ true) xs
      → All (λ z. le x z ≡ true) xs
  All-le x y [] h k = tt
  All-le x y (z ∷ xs) h k = (trans x y z h k.0, All-le x y xs h k.1)

  All-insert_sorted :
      (z x : A) (xs : List A)
      → le z x ≡ true
      → All (λ y. le z y ≡ true) xs
      → All (λ y. le z y ≡ true) (insert_sorted le x xs)
  unfolding insert_sorted
  All-insert_sorted z x [] h k = (h, tt)
  All-insert_sorted z x (y ∷ ys) h k = elim (Bool-cases (le x y)) [
    | inl c ↦ rw c (h, k)
    | inr c ↦ rw c (k.0, All-insert_sorted z x ys h k.1)
  ]

  insert_sorted-IsOrdered :
      (x : A) (xs : List A) → IsOrdered le xs → IsOrdered le (insert_sorted le x xs)
  unfolding insert_sorted
  insert_sorted-IsOrdered x [] h = (tt, tt)
  insert_sorted-IsOrdered x (y ∷ ys) h = elim (Bool-cases (le x y)) [
    | inl c ↦ rw c ((c, All-le x y ys c h.0), h)
    | inr c ↦ rw c (All-insert_sorted y x ys (total x y c) h.0, insert_sorted-IsOrdered x ys h.1)
  ]

  pub sort-IsOrdered : (xs : List A) → IsOrdered le (sort le xs)
  unfolding sort
  sort-IsOrdered [] = tt
  sort-IsOrdered (x ∷ xs) = insert_sorted-IsOrdered x (sort le xs) (sort-IsOrdered xs)

module _ (le le' : ℕ × ℕ → ℕ × ℕ → Bool)
    (agree : (x y : ℕ × ℕ) → x.0 < y.0 → le x y ≡ le' x y) where
  pub insert_sorted-agree :
      (x : ℕ × ℕ) (xs : List (ℕ × ℕ))
      → All (λ y. x.0 < y.0) xs
      → insert_sorted le x xs ≡ insert_sorted le' x xs
  unfolding insert_sorted
  insert_sorted-agree x [] h = refl
  insert_sorted-agree x (y ∷ ys) h = elim (Bool-cases (le' x y)) [
    | inl c ↦ rw (agree x y h.0, c) refl
    | inr c ↦ rw (agree x y h.0, c) (ap (λ zs. y ∷ zs) (insert_sorted-agree x ys h.1))
  ]

module _ {A : Type 0} (P : A → Type 0) (le : A → A → Bool) where
  All-insert_one : (x : A) (xs : List A) → P x → All P xs → All P (insert_sorted le x xs)
  unfolding insert_sorted
  All-insert_one x [] h k = (h, tt)
  All-insert_one x (y ∷ ys) h k = elim (Bool-cases (le x y)) [
    | inl c ↦ rw c (h, k)
    | inr c ↦ rw c (k.0, All-insert_one x ys h k.1)
  ]

  pub All-sort : (xs : List A) → All P xs → All P (sort le xs)
  unfolding sort
  All-sort [] h = tt
  All-sort (x ∷ xs) h = All-insert_one x (sort le xs) h.0 (All-sort xs h.1)
