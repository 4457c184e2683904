-- ===== src/Redistribution/Adjust.antt =====
-- `adjust_contributions` of redistribution_algo.rs.
use constraints_builder.Shared.{
  refl, inl, inr, ℕ, suc, ◌+◌, ◌-◌, ◌/◌, ◌^◌, ◌≡◌, ◌≤◌, ◌<◌, some, arith, Bool-cases,
}
use constraints_builder.Redistribution.Signed.{
  ℤ, ◌+ℤ◌, leb_ℤ, leb_ℤ-pos, sub-pos-ge, sub-pos-lt, add-pos, add-negsuc-ge, add-negsuc-lt,
  half-pos, half-negsuc-le, max_ℤ-pos, max_ℤ-negsuc, min_ℤ-pos, leb_ℤ-pos,
}
use constraints_builder.Redistribution.{
  a_min, subtract_checked, adjust_ordered, leb, adjust_contributions, swap,
}

a_min-large :
    (a b delta : ℕ)
    → b ≤ delta
    → a ≤ b
    → delta < a + b
    → a + b < 2 ^ 255
    → a_min (ℤ.pos a) (ℤ.pos b) (ℤ.pos delta) ≡ ℤ.pos ((delta + a - b) / 2)
unfolding a_min leb_ℤ
a_min-large a b delta h ord less small =
    rw
      (
        sub-pos-ge delta b h (ground arith),
        add-pos (delta - b) a (ground arith),
        half-pos (delta - b + a),
        max_ℤ-pos (delta - b) 0,
        min_ℤ-pos a delta,
      )
      ground (arith)

a_min-middle :
    (a b delta : ℕ)
    → delta < b
    → a ≤ b
    → b ≤ delta + a
    → a + b < 2 ^ 255
    → a_min (ℤ.pos a) (ℤ.pos b) (ℤ.pos delta) ≡ ℤ.pos ((delta + a - b) / 2)
unfolding a_min leb_ℤ
a_min-middle a b delta h ord less small =
    rw
      (
        sub-pos-lt delta b h (ground arith),
        add-negsuc-ge (b - delta - 1) a (ground arith) (ground arith),
        half-pos (a - suc (b - delta - 1)),
        max_ℤ-negsuc (b - delta - 1) 0,
        min_ℤ-pos a delta,
      )
      ground (arith)

a_min-small :
    (a b delta : ℕ)
    → delta + a < b
    → a + b < 2 ^ 255
    → a_min (ℤ.pos a) (ℤ.pos b) (ℤ.pos delta) ≡ ℤ.pos ((delta + a - b) / 2)
unfolding a_min
a_min-small a b delta less small =
    rw
      (
        sub-pos-lt delta b (ground arith) (ground arith),
        add-negsuc-lt (b - delta - 1) a (ground arith) (ground arith),
        max_ℤ-negsuc (b - delta - 1) 0,
        half-negsuc-le (b - delta - 1 - a) 0,
      )
      ground arith

subtract_checked-pos :
    (a b delta part : ℕ)
    → part ≤ a
    → part ≤ delta
    → delta ≤ b + part
    → a + b < 2 ^ 255
    → delta ≤ a + b
    → subtract_checked (ℤ.pos a) (ℤ.pos b) (ℤ.pos delta) (ℤ.pos part)
      ≡ some (ℤ.pos (a - part), ℤ.pos (b + part - delta))
unfolding subtract_checked leb_ℤ
subtract_checked-pos a b delta part ha hd hb small less =
    rw
      (
        sub-pos-ge a part ha (ground arith),
        sub-pos-ge delta part hd (ground arith),
        sub-pos-ge b (delta - part) (ground arith) (ground arith),
        add-pos (a - part) (b - (delta - part)) (ground arith),
        add-pos a b small,
        sub-pos-ge (a + b) delta less small,
      )
      ground arith

a_min-pos :
    (a b delta : ℕ)
    → a ≤ b
    → delta < a + b
    → a + b < 2 ^ 255
    → a_min (ℤ.pos a) (ℤ.pos b) (ℤ.pos delta) ≡ ℤ.pos ((delta + a - b) / 2)
a_min-pos a b delta ord less small = elim (Bool-cases (leb b delta)) [
  | inl e ↦ a_min-large a b delta (ground (arith, e)) ord less small
  | inr e ↦ elim (Bool-cases (leb b (delta + a))) [
    | inl e' ↦ a_min-middle a b delta (ground (arith, e)) ord (ground (arith, e')) small
    | inr e' ↦ a_min-small a b delta (ground (arith, e')) small
  ]
]

-- (x, y) is (a, b) with `delta` less in sum (nothing when that is more than the sum), none of the
-- two larger than before, and the larger of the two the smallest possible. Equal contributions give
-- a second one that is not the larger.
abbrev pub IsAdjusted : ℕ → ℕ → ℕ → ℕ → ℕ → Type 0
IsAdjusted a b delta x y =
    (x ≤ a)
    × (y ≤ b)
    × (x + y ≡ a + b - delta)
    × (a ≡ b → y ≤ x)
    × ((x' y' bound : ℕ)
        → x' ≤ a
        → y' ≤ b
        → x' + y' ≡ a + b - delta
        → x' ≤ bound
        → y' ≤ bound
        → (x ≤ bound) × (y ≤ bound))

leb-sum :
    (a b delta : ℕ) → a + b < 2 ^ 255 → leb_ℤ (ℤ.pos a +ℤ ℤ.pos b) (ℤ.pos delta) ≡ leb (a + b) delta
leb-sum a b delta small = rw (add-pos a b small) (leb_ℤ-pos (a + b) delta)

pub adjust_ordered_lem :
    (a b delta : ℕ)
    → a ≤ b
    → a + b < 2 ^ 255
    → (x y : ℕ) × (adjust_ordered (ℤ.pos a) (ℤ.pos b) (ℤ.pos delta) ≡ some (ℤ.pos x, ℤ.pos y))
      × IsAdjusted a b delta x y
unfolding adjust_ordered
adjust_ordered_lem a b delta ord small = elim (Bool-cases (leb (a + b) delta)) [
  | inl e ↦ (
    0,
    0,
    rw (leb-sum a b delta small, e) refl,
    (
      omega arith,
      omega arith,
      ground (arith, e),
      λ same. omega arith,
      λ x' y' bound h h' sum k k'. (omega arith, omega arith),
    ),
  )
  | inr e ↦
      let less : delta < a + b = ground (arith, e) in
      (
        a - (delta + a - b) / 2,
        b + (delta + a - b) / 2 - delta,
        rw (leb-sum a b delta small, e, a_min-pos a b delta ord less small)
            (subtract_checked-pos a b delta ((delta + a - b) / 2) (omega arith) (omega arith)
              (omega arith) small (omega arith)),
        (
          omega arith,
          omega arith,
          omega arith,
          λ same. omega arith,
          λ x' y' bound h h' sum k k'. (omega arith, omega arith),
        ),
      )
]

swap-IsAdjusted : (a b delta x y : ℕ) → b < a → IsAdjusted b a delta x y → IsAdjusted a b delta y x
swap-IsAdjusted a b delta x y less (hx, hy, sum, same, best) = (
  hy,
  hx,
  omega arith,
  λ e. omega arith,
  λ x' y' bound h h' e k k'.
      let both = best y' x' bound h' h (omega arith) k' k in (both.1, both.0),
)

-- For contributions `a` and `b` with `a + b < 2^255` and any `delta`, none of the assertions and
-- conversions of `adjust_contributions` fails, and it returns two values that are at most `a` and
-- `b`, in that order, whose sum is `a + b - delta` (0 when `delta` is more). Of all such pairs, the
-- returned one has the smallest maximum; for equal contributions the second is at most the first.
pub adjust_contributions-IsAdjusted :
    (a b delta : ℕ)
    → a + b < 2 ^ 255
    → (x y : ℕ) × (adjust_contributions (ℤ.pos a) (ℤ.pos b) (ℤ.pos delta) ≡ some (ℤ.pos x, ℤ.pos y))
      × IsAdjusted a b delta x y
unfolding adjust_contributions swap
adjust_contributions-IsAdjusted a b delta small = elim (Bool-cases (leb a b)) [
  | inl e ↦
      let r = adjust_ordered_lem a b delta (ground (arith, e)) small in
      (r.0, r.1, rw (leb_ℤ-pos a b, e) r.2, r.3)
  | inr e ↦
      let r = adjust_ordered_lem b a delta (ground (arith, e)) (omega arith) in
      (
        r.1,
        r.0,
        rw (leb_ℤ-pos a b, e, r.2) refl,
        swap-IsAdjusted a b delta r.0 r.1 (ground (arith, e)) r.3,
      )
]
