-- ===== src/Redistribution/Signed.antt =====
-- `I256` of alloy, as an integer that wraps.
use constraints_builder.Shared.{
  ℕ, suc, ◌+◌, ◌-◌, ◌/◌, ◌^◌, Bool, Option, none, some, leb, if◌then◌else◌, ◌≤◌, ◌<◌, ◌≡◌, arith,
  true,
}

-- `negsuc n` is -(n + 1).
pub data ℤ : Type 0 where
  pos : ℕ → ℤ
  negsuc : ℕ → ℤ

abbrev pub pos_part : ℤ → ℕ
pos_part (ℤ.pos n) = n
pos_part (ℤ.negsuc n) = 0

abbrev pub neg_part : ℤ → ℕ
neg_part (ℤ.pos n) = 0
neg_part (ℤ.negsuc n) = suc n

abbrev pub sub_ℕ : ℕ → ℕ → ℤ
sub_ℕ a b = if leb b a then ℤ.pos (a - b) else ℤ.negsuc (b - a - 1)

abbrev pub i256_max : ℕ
i256_max = 2 ^ 255 - 1

-- The value modulo 2^256 that an I256 holds, of an integer between -2^256 and 2^256.
abbrev pub wrap : ℤ → ℤ
wrap (ℤ.pos n) = if leb n i256_max then ℤ.pos n else ℤ.negsuc (2 ^ 256 - 1 - n)
wrap (ℤ.negsuc n) = if leb n i256_max then ℤ.negsuc n else ℤ.pos (2 ^ 256 - 1 - n)

infixl 65 ◌+ℤ◌ ◌-ℤ◌
unfoldable pub ◌+ℤ◌ : ℤ → ℤ → ℤ
a +ℤ b = wrap (sub_ℕ (pos_part a + pos_part b) (neg_part a + neg_part b))

unfoldable pub ◌-ℤ◌ : ℤ → ℤ → ℤ
a -ℤ b = wrap (sub_ℕ (pos_part a + neg_part b) (neg_part a + pos_part b))

-- Division by two truncates towards 0.
unfoldable pub half : ℤ → ℤ
half a = sub_ℕ (pos_part a / 2) (neg_part a / 2)

unfoldable pub leb_ℤ : ℤ → ℤ → Bool
leb_ℤ a b = leb (pos_part a + neg_part b) (pos_part b + neg_part a)

unfoldable pub min_ℤ : ℤ → ℤ → ℤ
unfolding leb_ℤ
min_ℤ a b = if leb_ℤ a b then a else b

unfoldable pub max_ℤ : ℤ → ℤ → ℤ
unfolding leb_ℤ
max_ℤ a b = if leb_ℤ a b then b else a

-- `I256::try_from(..).unwrap()` and `U256::try_from(..).unwrap()`
abbrev pub of_u256 : ℕ → Option ℤ
of_u256 n = if leb n i256_max then some (ℤ.pos n) else none

abbrev pub to_u256 : ℤ → Option ℕ
to_u256 (ℤ.pos n) = some n
to_u256 (ℤ.negsuc n) = none

pub sub-pos-ge : (a b : ℕ) → b ≤ a → a < 2 ^ 255 → ℤ.pos a -ℤ ℤ.pos b ≡ ℤ.pos (a - b)
unfolding ◌-ℤ◌
sub-pos-ge a b h small = ground arith

pub sub-pos-lt : (a b : ℕ) → a < b → b < 2 ^ 255 → ℤ.pos a -ℤ ℤ.pos b ≡ ℤ.negsuc (b - a - 1)
unfolding ◌-ℤ◌
sub-pos-lt a b h small = ground arith

pub add-pos : (a b : ℕ) → a + b < 2 ^ 255 → ℤ.pos a +ℤ ℤ.pos b ≡ ℤ.pos (a + b)
unfolding ◌+ℤ◌
add-pos a b small = ground arith

pub add-negsuc-ge : (n a : ℕ) → suc n ≤ a → a < 2 ^ 255 → ℤ.negsuc n +ℤ ℤ.pos a ≡ ℤ.pos (a - suc n)
unfolding ◌+ℤ◌
add-negsuc-ge n a h small = ground arith

pub add-negsuc-lt : (n a : ℕ) → a < suc n → n < 2 ^ 255 → ℤ.negsuc n +ℤ ℤ.pos a ≡ ℤ.negsuc (n - a)
unfolding ◌+ℤ◌
add-negsuc-lt n a h small = ground arith

pub half-pos : (n : ℕ) → half (ℤ.pos n) ≡ ℤ.pos (n / 2)
unfolding half
half-pos n = ground arith

pub half-negsuc-le : (n m : ℕ) → leb_ℤ (half (ℤ.negsuc n)) (ℤ.pos m) ≡ true
unfolding half leb_ℤ
half-negsuc-le n m = ground arith

pub leb_ℤ-pos : (a b : ℕ) → leb_ℤ (ℤ.pos a) (ℤ.pos b) ≡ leb a b
unfolding leb_ℤ
leb_ℤ-pos a b = ground arith

pub max_ℤ-pos : (a b : ℕ) → max_ℤ (ℤ.pos a) (ℤ.pos b) ≡ ℤ.pos (if leb a b then b else a)
unfolding max_ℤ leb_ℤ
max_ℤ-pos a b = ground arith

pub max_ℤ-negsuc : (n b : ℕ) → max_ℤ (ℤ.negsuc n) (ℤ.pos b) ≡ ℤ.pos b
unfolding max_ℤ leb_ℤ
max_ℤ-negsuc n b = ground arith

pub min_ℤ-pos : (a b : ℕ) → min_ℤ (ℤ.pos a) (ℤ.pos b) ≡ ℤ.pos (if leb a b then a else b)
unfolding min_ℤ leb_ℤ
min_ℤ-pos a b = ground arith
