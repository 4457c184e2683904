-- ===== src/Redistribution/Pairs.antt =====
-- The loop over the pairs of `calculate_redistribution`.
use constraints_builder.Shared.{
  ℕ, zero, suc, ◌+◌, ◌-◌, ◌%◌, ◌^◌, ◌≡◌, ◌≤◌, ◌<◌, refl, some, List, [], ◌∷◌, arith, ltb, inl, inr,
  Bool-cases,
}
use constraints_builder.Redistribution.Signed.{ℤ, of_u256}
use constraints_builder.Redistribution.{at, set}
use constraints_builder.Redistribution.Adjust.{adjust_contributions-IsAdjusted}
use constraints_builder.Redistribution.Calculate.{adjusted, adjust_pair}
use constraints_builder.Redistribution.Split.{Below, total}

pub at-total : (xs : List ℕ) (i : ℕ) → at xs i ≤ total xs
at-total [] i = omega arith
at-total (x ∷ xs) zero = omega arith
at-total (x ∷ xs) (suc i) = omega (arith, at-total xs i)

pub Below-at : (xs ys : List ℕ) (i : ℕ) → Below xs ys → at xs i ≤ at ys i
Below-at [] [] i b = omega arith
Below-at (x ∷ xs) (y ∷ ys) zero b = b.0
Below-at (x ∷ xs) (y ∷ ys) (suc i) b = Below-at xs ys i b.1
Below-at (x ∷ xs) [] i b = elim b [ ]
Below-at [] (y ∷ ys) i b = elim b [ ]

pub Below-refl : (xs : List ℕ) → Below xs xs
Below-refl [] = tt
Below-refl (x ∷ xs) = (omega arith, Below-refl xs)

pub Below-trans : (xs ys zs : List ℕ) → Below xs ys → Below ys zs → Below xs zs
Below-trans [] [] [] b c = tt
Below-trans (x ∷ xs) (y ∷ ys) (z ∷ zs) b c = (omega (arith, b.0, c.0), Below-trans xs ys zs b.1 c.1)
Below-trans [] [] (z ∷ zs) b c = elim c [ ]
Below-trans (x ∷ xs) (y ∷ ys) [] b c = elim c [ ]
Below-trans (x ∷ xs) [] zs b c = elim b [ ]
Below-trans [] (y ∷ ys) zs b c = elim b [ ]

set-Below : (xs : List ℕ) (i v : ℕ) → v ≤ at xs i → Below (set xs i v) xs
unfolding set
set-Below [] i v h = tt
set-Below (x ∷ xs) zero v h = (h, Below-refl xs)
set-Below (x ∷ xs) (suc i) v h = (omega arith, set-Below xs i v h)

at-set-same-le : (xs : List ℕ) (i v : ℕ) → at (set xs i v) i ≤ v
unfolding set
at-set-same-le [] i v = omega arith
at-set-same-le (x ∷ xs) zero v = omega arith
at-set-same-le (x ∷ xs) (suc i) v = at-set-same-le xs i v

-- What the second assignment may rely on after the first: the two entries may be one.
at-set-ge :
    (xs : List ℕ) (i j v w : ℕ) → w ≤ at xs j → (at xs i ≡ at xs j → w ≤ v) → w ≤ at (set xs i v) j
unfolding set
at-set-ge [] i j v w h k = h
at-set-ge (x ∷ xs) zero zero v w h k = k refl
at-set-ge (x ∷ xs) zero (suc j) v w h k = h
at-set-ge (x ∷ xs) (suc i) zero v w h k = h
at-set-ge (x ∷ xs) (suc i) (suc j) v w h k = at-set-ge xs i j v w h k

-- A pair of payments within its limit.
abbrev pub IsKept : List ℕ → (ℕ × ℕ) × ℕ → Type 0
IsKept payments ((i, j), limit) = at payments i + at payments j ≤ limit

pair-Below :
    (xs : List ℕ) (i j x y : ℕ)
    → x ≤ at xs i
    → y ≤ at xs j
    → (at xs i ≡ at xs j → y ≤ x)
    → Below (set (set xs i x) j y) xs
pair-Below xs i j x y h k same =
    Below-trans (set (set xs i x) j y) (set xs i x) xs
      (set-Below (set xs i x) j y (at-set-ge xs i j x y k same)) (set-Below xs i x h)

of_u256-small : (n : ℕ) → n < 2 ^ 255 → of_u256 n ≡ some (ℤ.pos n)
of_u256-small n small = ground arith

adjusted-IsKept :
    (i j delta : ℕ) (payments : List ℕ)
    → total payments < 2 ^ 128
    → delta < 2 ^ 255
    → (next : List ℕ) × (adjusted (i, j) delta payments ≡ some next)
      × Below next payments
      × IsKept next ((i, j), at payments i + at payments j - delta)
unfolding adjusted
adjusted-IsKept i j delta payments small small' =
    let a = at payments i in
    let b = at payments j in
    let hi = at-total payments i in
    let hj = at-total payments j in
    let r = adjust_contributions-IsAdjusted a b delta (omega arith) in
    let once = set payments i r.0 in
    let next = set once j r.1 in
    let (first, second, sum, same, best) = r.3 in
    let second_le = at-set-ge payments i j r.0 r.1 second same in
    (
      next,
      rw
          (
            of_u256-small a (omega arith),
            of_u256-small b (omega arith),
            of_u256-small delta small',
            r.2,
          )
          refl,
      Below-trans next once payments (set-Below once j r.1 second_le)
          (set-Below payments i r.0 first),
      omega (
        arith,
        sum,
        at-set-same-le payments i r.0,
        at-set-same-le once j r.1,
        Below-at next once i (set-Below once j r.1 second_le),
      ),
    )

pub adjust_pair-IsKept :
    (pair : (ℕ × ℕ) × ℕ) (payments : List ℕ)
    → total payments < 2 ^ 128
    → (next : List ℕ) × (adjust_pair pair payments ≡ some next)
      × Below next payments
      × IsKept next pair
unfolding adjust_pair
adjust_pair-IsKept ((i, j), limit) payments small =
    let hi = at-total payments i in
    let hj = at-total payments j in
    elim (Bool-cases (ltb limit ((at payments i + at payments j) % 2 ^ 256))) [
      | inl e ↦
          let r =
            adjusted-IsKept i j ((at payments i + at payments j) % 2 ^ 256 - limit) payments small
              (omega arith) in
          (r.0, rw e r.1, r.2, ground (arith, e, r.3, hi, hj))
      | inr e ↦ (payments, rw e refl, Below-refl payments, ground (arith, e, hi, hj))
    ]

-- Later adjustments only lower payments.
pub IsKept-Below :
    (pair : (ℕ × ℕ) × ℕ) (next payments : List ℕ)
    → Below next payments
    → IsKept payments pair
    → IsKept next pair
IsKept-Below ((i, j), limit) next payments b h =
    omega (arith, Below-at next payments i b, Below-at next payments j b, h)
