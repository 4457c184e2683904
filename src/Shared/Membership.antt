-- ===== src/Shared/Membership.antt =====
-- `contains` of the standard library's sets and vectors, and lists used as sets of keys.

use mathlib.Core.Path.{◌≡◌, refl}
use mathlib.Core.Bool.{Bool, true, false, ◌||◌, ◌&&◌, not}
use mathlib.Core.Logic.{◌↔◌}
use mathlib.Core.List.{List, [], ◌∷◌, ◌++◌}
use native.Mathlib.Omega.{arith}
use constraints_builder.Shared.Tests.{if◌then◌else◌, KeyEq, ◌==◌}
use constraints_builder.Shared.Lists.{filter}

module _ {ℓ} {A : Type ℓ} ⦃e : KeyEq A⦄ where
  abbrev pub contains : List A → A → Bool
  contains [] a = false
  contains (x ∷ xs) a = x == a || contains xs a

  -- `HashSet::insert`
  abbrev pub set_insert : A → List A → List A
  set_insert a xs = if contains xs a then xs else xs ++ a ∷ []

  -- `HashSet::remove`
  abbrev pub set_remove : A → List A → List A
  set_remove a xs = filter (λ x. not (x == a)) xs

  -- No element twice.
  abbrev pub IsDistinct : List A → Type 0
  IsDistinct [] = Unit
  IsDistinct (x ∷ xs) = (contains xs x ≡ false) × IsDistinct xs

  pub contains-append :
      (xs ys : List A) (a : A) → contains (xs ++ ys) a ≡ (contains xs a || contains ys a)
  contains-append [] ys a = refl
  contains-append (x ∷ xs) ys a = ground (arith, contains-append xs ys a)

  pub contains-filter-le :
      (p : A → Bool) (xs : List A) (a : A) → contains (filter p xs) a ≡ true → contains xs a ≡ true
  contains-filter-le p [] a h = h
  contains-filter-le p (x ∷ xs) a h = ground (arith, contains-filter-le p xs a)

  pub contains-set_remove :
      (a : A) (xs : List A) (b : A)
      → contains (set_remove a xs) b ≡ (if a == b then false else contains xs b)
  contains-set_remove a [] b = ground arith
  contains-set_remove a (x ∷ xs) b =
      ground (arith, contains-set_remove a xs b, e.same_iff x a, e.same_iff x b, e.same_iff a b)

  pub contains-set_insert :
      (a : A) (xs : List A) (b : A)
      → contains (set_insert a xs) b ≡ (if a == b then true else contains xs b)
  contains-set_insert a xs b = ground (arith, contains-append xs (a ∷ []) b, e.same_iff a b)

  pub IsDistinct-filter : (p : A → Bool) (xs : List A) → IsDistinct xs → IsDistinct (filter p xs)
  IsDistinct-filter p [] h = tt
  IsDistinct-filter p (x ∷ xs) h =
      ground (arith, IsDistinct-filter p xs h.1, contains-filter-le p xs x)

  pub IsDistinct-append_one :
      (xs : List A) (a : A) → IsDistinct xs → contains xs a ≡ false → IsDistinct (xs ++ a ∷ [])
  IsDistinct-append_one [] a h n = (refl, tt)
  IsDistinct-append_one (x ∷ xs) a h n = ground (
    arith,
    IsDistinct-append_one xs a h.1,
    contains-append xs (a ∷ []) x,
    e.same_iff x a,
    e.same_iff a x,
  )

module _ {ℓ} {A : Type ℓ} ⦃a : KeyEq A⦄ where
  abbrev pub list_beq : List A → List A → Bool
  list_beq [] [] = true
  list_beq [] (y ∷ ys) = false
  list_beq (x ∷ xs) [] = false
  list_beq (x ∷ xs) (y ∷ ys) = a.same x y && list_beq xs ys

  pub list_beq_iff : (xs ys : List A) → (list_beq xs ys ≡ true) ↔ (xs ≡ ys)
  list_beq_iff [] [] = ground arith
  list_beq_iff [] (y ∷ ys) = ground arith
  list_beq_iff (x ∷ xs) [] = ground arith
  list_beq_iff (x ∷ xs) (y ∷ ys) = ground (arith, a.same_iff x y, list_beq_iff xs ys)

  instance abbrev pub list_eq : KeyEq (List A)
  list_eq = record { same = list_beq; same_iff = list_beq_iff }
