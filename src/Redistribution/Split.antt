-- ===== src/Redistribution/Split.antt =====
-- `split_value` and the sums of redistribution_algo.rs, below the bounds at which U256 wraps.
use Prim.Native.Nat.{◌-◌, ℕ, ◌+◌, ◌*◌, ◌/◌, ◌%◌, ◌^◌, ◌≤◌, ◌<◌}
use native.Mathlib.Nat.{
  mul-add, add-mul, div-mul-le_self, le_of_mul-le-mul_right, mul-le-mul_right, mul-le-mul,
  div-le_of_le-mul, mod-eq_of_lt,
}
use constraints_builder.Shared.{
  ◌≡◌, refl, List, [], ◌∷◌, map, arith, Pairwise, inl, inr, Bool-cases, nat_beq,
}
use constraints_builder.Redistribution.{sum_from, split_value}

-- The exact sum.
abbrev pub total : List ℕ → ℕ
total [] = 0
total (x ∷ xs) = x + total xs

-- The second vector bounds the first.
abbrev pub Below : List ℕ → List ℕ → Type 0
Below xs ys = Pairwise (λ x y. x ≤ y) xs ys

sum_from-total :
    (acc : ℕ) (xs : List ℕ) → acc + total xs < 2 ^ 256 → sum_from acc xs ≡ acc + total xs
unfolding sum_from
sum_from-total acc [] small = omega arith
sum_from-total acc (x ∷ xs) small =
    rw (sum_from-total ((acc + x) % 2 ^ 256) xs (omega (arith, small))) (omega (arith, small))

pub sum-total : (xs : List ℕ) → total xs < 2 ^ 256 → sum_from 0 xs ≡ total xs
sum-total xs small = omega (arith, sum_from-total 0 xs (omega arith))

pub Below-total : (xs ys : List ℕ) → Below xs ys → total xs ≤ total ys
Below-total [] [] b = omega arith
Below-total (x ∷ xs) (y ∷ ys) b = omega (arith, b.0, Below-total xs ys b.1)
Below-total (x ∷ xs) [] b = elim b [ ]
Below-total [] (y ∷ ys) b = elim b [ ]

product-fits : (value x : ℕ) → value < 2 ^ 128 → x < 2 ^ 128 → value * x % 2 ^ 256 ≡ value * x
product-fits value x small small' =
    let bounded : value * x ≤ (2 ^ 128 - 1) * (2 ^ 128 - 1) =
      mul-le-mul {n₁ = value} {m₁ = x} {n₂ = 2 ^ 128 - 1} {m₂ = 2 ^ 128 - 1} (omega arith)
        (omega arith) in
    mod-eq_of_lt (omega arith)

module _ (value sum : ℕ) (within : value ≤ sum) (small : sum < 2 ^ 128) where
  abbrev share : ℕ → ℕ
  share x = value * x % 2 ^ 256 / sum

  share-le : (x : ℕ) → x ≤ sum → share x ≤ x
  share-le x h =
      rw (product-fits value x (omega arith) (omega arith))
        (div-le_of_le-mul sum (mul-le-mul_right x within))

  shares-Below : (xs : List ℕ) → total xs ≤ sum → Below (map share xs) xs
  shares-Below [] h = tt
  shares-Below (x ∷ xs) h = (share-le x (omega arith), shares-Below xs (omega arith))

  shares-total : (xs : List ℕ) → total xs ≤ sum → total (map share xs) * sum ≤ value * total xs
  shares-total [] h = omega arith
  shares-total (x ∷ xs) h =
      rw
        (
          add-mul (share x) (total (map share xs)) sum,
          mul-add value x (total xs),
          product-fits value x (omega arith) (omega arith),
        )
        (omega (arith, div-mul-le_self (value * x) sum, shares-total xs (omega arith)))

zeros-Below : (xs : List ℕ) → Below (map (λ split. 0) xs) xs
zeros-Below [] = tt
zeros-Below (x ∷ xs) = (omega arith, zeros-Below xs)

zeros-total : (xs : List ℕ) → total (map (λ split. 0) xs) ≡ 0
zeros-total [] = refl
zeros-total (x ∷ xs) = omega (arith, zeros-total xs)

pub split_value-Below :
    (value : ℕ) (xs : List ℕ)
    → value ≤ total xs
    → total xs < 2 ^ 128
    → Below (split_value value xs) xs
unfolding split_value
split_value-Below value xs h small =
    rw (sum-total xs (omega arith)) (elim (Bool-cases (nat_beq (total xs) 0)) [
      | inl e ↦ rw e (zeros-Below xs)
      | inr e ↦ rw e (shares-Below value (total xs) h small xs (omega arith))
    ])

pub split_value-total :
    (value : ℕ) (xs : List ℕ)
    → value ≤ total xs
    → total xs < 2 ^ 128
    → total (split_value value xs) ≤ value
unfolding split_value
split_value-total value xs h small =
    rw (sum-total xs (omega arith)) (elim (Bool-cases (nat_beq (total xs) 0)) [
      | inl e ↦ rw (e, zeros-total xs) (omega arith)
      | inr e ↦ rw e (
          le_of_mul-le-mul_right (shares-total value (total xs) h small xs (omega arith))
            (ground (arith, e)))
    ])
