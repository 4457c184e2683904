-- ===== src/ConstraintInput/Lru/Recent.antt =====
-- A cache that meets the interface: the keys, most recently used first.
use constraints_builder.Shared.{
  ℕ, zero, suc, ◌-◌, ◌≤◌, ◌<◌, ◌≡◌, refl, true, not, List, [], ◌∷◌, if◌then◌else◌, ◌==◌, pair_eq,
  nat_eq, contains, set_remove, contains-set_remove, take, length, length-filter-le, arith,
  same_refl,
}
use constraints_builder.ConstraintInput.Lru.{Key, LruCache}

pub record Recent : Type 0 where
  pub items : List Key
  pub cap : ℕ

abbrev pub put : Recent → Key → Recent
put c k = record c { items = k ∷ take (c.cap - 1) (set_remove k c.items) }

contains-take_le :
    (n : ℕ) (xs : List Key) (j : Key) → contains (take n xs) j ≡ true → contains xs j ≡ true
contains-take_le zero xs j h = ground arith
contains-take_le (suc n) [] j h = h
contains-take_le (suc n) (x ∷ xs) j h = ground (arith, contains-take_le n xs j)

length-take_le : (n : ℕ) (xs : List Key) → length (take n xs) ≤ length xs
length-take_le zero xs = omega arith
length-take_le (suc n) [] = omega arith
length-take_le (suc n) (x ∷ xs) = omega (arith, length-take_le n xs)

take_all : (n : ℕ) (xs : List Key) → length xs ≤ n → take n xs ≡ xs
take_all zero [] h = refl
take_all zero (x ∷ xs) h = absurd (omega arith)
take_all (suc n) [] h = refl
take_all (suc n) (x ∷ xs) h = rw (take_all n xs (omega arith))

pub put_le :
    (c : Recent) (k j : Key)
    → contains (put c k).items j ≡ true
    → (if k == j then true else contains c.items j) ≡ true
put_le c k j h =
    ground (
      arith,
      contains-take_le (c.cap - 1) (set_remove k c.items) j,
      contains-set_remove k c.items j,
    )

pub put_room :
    (c : Recent) (k j : Key)
    → length c.items < c.cap
    → contains c.items j ≡ true
    → contains (put c k).items j ≡ true
put_room c k j room h = ground (
  arith,
  take_all (c.cap - 1) (set_remove k c.items)
      (omega (arith, length-filter-le (λ x. not (x == k)) c.items)),
  contains-set_remove k c.items j,
)

pub len_put : (c : Recent) (k : Key) → length (put c k).items ≤ suc (length c.items)
len_put c k = omega (
  arith,
  length-take_le (c.cap - 1) (set_remove k c.items),
  length-filter-le (λ x. not (x == k)) c.items,
)

pub self_put : (c : Recent) (k : Key) → contains (put c k).items k ≡ true
self_put c k = ground (arith, same_refl k)

unfoldable pub recent : LruCache
recent = record {
  Cache = Recent;
  new = λ n. record { items = []; cap = n };
  contains = λ c. contains c.items;
  put = put;
  len = λ c. length c.items;
  cap = λ c. c.cap;
  contains-new = λ n k. refl;
  len-new = λ n. refl;
  cap-new = λ n. refl;
  cap-put = λ c k. refl;
  len-put_le = len_put;
  contains-put_self = self_put;
  contains-put_le = put_le;
  contains-put_room = put_room;
}
