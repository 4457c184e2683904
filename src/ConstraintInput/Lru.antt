-- ===== src/ConstraintInput/Lru.antt =====
-- The `lru` crate's `LruCache<(ConstraintId, u64), ()>`, which constraintpool.rs uses, as an
-- interface with what its documentation says: `contains` leaves the order of use alone; `put` makes
-- its key present, adds no other, and evicts one (the least recently used) only when it is full.
pub mod Recent
use constraints_builder.Shared.{
  ℕ, suc, ◌≤◌, ◌<◌, ◌≡◌, Bool, true, false, if◌then◌else◌, ◌==◌, pair_eq, nat_eq,
}
use constraints_builder.ConstraintInput.Sink.{ConstraintId}

abbrev pub Key : Type 0
Key = ConstraintId × ℕ

pub record LruCache : Type 1 where
  pub Cache : Type 0
  pub new : ℕ → Cache
  pub contains : Cache → Key → Bool
  pub put : Cache → Key → Cache
  pub len : Cache → ℕ
  pub cap : Cache → ℕ
  pub contains-new : (n : ℕ) (k : Key) → contains (new n) k ≡ false
  pub len-new : (n : ℕ) → len (new n) ≡ 0
  pub cap-new : (n : ℕ) → cap (new n) ≡ n
  pub cap-put : (c : Cache) (k : Key) → cap (put c k) ≡ cap c
  pub len-put_le : (c : Cache) (k : Key) → len (put c k) ≤ suc (len c)
  pub contains-put_self : (c : Cache) (k : Key) → contains (put c k) k ≡ true
  pub contains-put_le :
      (c : Cache) (k j : Key)
      → contains (put c k) j ≡ true
      → (if k == j then true else contains c j) ≡ true
  pub contains-put_room :
      (c : Cache) (k j : Key) → len c < cap c → contains c j ≡ true → contains (put c k) j ≡ true
