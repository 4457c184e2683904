-- ===== src/Shared/Map.antt =====
-- `HashMap` of the standard library as an association list. What the program's results may depend
-- on is what `lookup` gives; where the source iterates over a map, the order of the list stands for
-- the unspecified order of the table.
use constraints_builder.Shared.{
  ◌≡◌, refl, Bool, true, false, not, Option, none, some, List, [], ◌∷◌, arith, if◌then◌else◌, KeyEq,
  ◌==◌, filter, contains, IsDistinct, All,
}

abbrev pub Map {ℓ κ} : Type ℓ → Type κ → Type (ℓ ⊔ κ)
Map K V = List (K × V)

-- `HashMap::retain` on keys and values.
abbrev pub retain {ℓ κ} : {K : Type ℓ} {V : Type κ} → (K → V → Bool) → Map K V → Map K V
retain p m = filter (λ kv. p kv.0 kv.1) m

abbrev pub keys {ℓ κ} : {K : Type ℓ} {V : Type κ} → Map K V → List K
keys [] = []
keys ((k, v) ∷ m) = k ∷ keys m

abbrev pub values {ℓ κ} : {K : Type ℓ} {V : Type κ} → Map K V → List V
values [] = []
values ((k, v) ∷ m) = v ∷ values m

-- `get(k).unwrap_or_default()` and the like.
abbrev pub or_default {ℓ} : {A : Type ℓ} → A → Option A → A
or_default d none = d
or_default d (some a) = a

module _ {ℓ κ} {K : Type ℓ} {V : Type κ} ⦃e : KeyEq K⦄ where
  unfoldable pub lookup : K → Map K V → Option V
  lookup key [] = none
  lookup key ((i, value) ∷ rest) = if i == key then some value else lookup key rest

  -- A new key goes to the end, a known one keeps its place.
  unfoldable pub insert : K → V → Map K V → Map K V
  insert key value [] = (key, value) ∷ []
  insert key value ((i, old) ∷ rest) =
      if i == key then (key, value) ∷ rest else (i, old) ∷ insert key value rest

  unfoldable pub remove : K → Map K V → Map K V
  remove k m = filter (λ kv. not (kv.0 == k)) m

  unfoldable pub contains_key : K → Map K V → Bool
  unfolding lookup
  contains_key k m = elim (lookup k m) [ none ↦ false | some v ↦ true ]

  pub lookup-insert :
      (key other : K) (value : V) (entries : Map K V)
      → lookup other (insert key value entries)
        ≡ (if key == other then some value else lookup other entries)
  unfolding insert lookup
  lookup-insert key other value [] = refl
  lookup-insert key other value ((i, old) ∷ rest) = ground (
    arith,
    lookup-insert key other value rest,
    e.same_iff i other,
    e.same_iff key other,
    e.same_iff i key,
  )

  pub lookup-remove :
      (k j : K) (m : Map K V) → lookup j (remove k m) ≡ (if k == j then none else lookup j m)
  unfolding lookup remove
  lookup-remove k j [] = ground arith
  lookup-remove k j ((i, w) ∷ m) =
      ground (arith, e.same_iff k j, e.same_iff i k, e.same_iff i j, lookup-remove k j m)

  pub lookup-empty : (k : K) → lookup k [] ≡ none
  unfolding lookup
  lookup-empty k = refl

  pub contains_key-insert :
      (k j : K) (v : V) (m : Map K V)
      → contains_key j (insert k v m) ≡ (if k == j then true else contains_key j m)
  unfolding contains_key
  contains_key-insert k j v m = ground (arith, lookup-insert k j v m)

  pub contains_key-remove :
      (k j : K) (m : Map K V)
      → contains_key j (remove k m) ≡ (if k == j then false else contains_key j m)
  unfolding contains_key
  contains_key-remove k j m = ground (arith, lookup-remove k j m)

  pub contains_key-eq : (k : K) (m : Map K V) → contains_key k m ≡ contains (keys m) k
  unfolding contains_key lookup
  contains_key-eq k [] = refl
  contains_key-eq k ((j, v) ∷ m) = ground (arith, contains_key-eq k m)

  pub contains-keys-insert :
      (k j : K) (v : V) (m : Map K V)
      → contains (keys (insert k v m)) j ≡ (if k == j then true else contains (keys m) j)
  unfolding insert
  contains-keys-insert k j v [] = ground arith
  contains-keys-insert k j v ((i, w) ∷ m) =
      ground (arith, e.same_iff k j, e.same_iff i k, e.same_iff i j, contains-keys-insert k j v m)

  -- A `HashMap` has one entry for a key.
  pub keys-insert-IsDistinct :
      (k : K) (v : V) (m : Map K V) → IsDistinct (keys m) → IsDistinct (keys (insert k v m))
  unfolding insert
  keys-insert-IsDistinct k v [] h = (refl, tt)
  keys-insert-IsDistinct k v ((j, w) ∷ m) h = ground (
    arith,
    e.same_iff j k,
    e.same_iff k j,
    keys-insert-IsDistinct k v m h.1,
    contains-keys-insert k j v m,
  )

  pub keys-retain-le :
      (p : K → V → Bool) (k : K) (m : Map K V)
      → contains (keys (retain p m)) k ≡ true
      → contains (keys m) k ≡ true
  keys-retain-le p k [] h = h
  keys-retain-le p k ((j, v) ∷ m) h = ground (arith, keys-retain-le p k m)

  pub keys-retain-IsDistinct :
      (p : K → V → Bool) (m : Map K V) → IsDistinct (keys m) → IsDistinct (keys (retain p m))
  keys-retain-IsDistinct p [] h = tt
  keys-retain-IsDistinct p ((j, v) ∷ m) h =
      ground (arith, keys-retain-IsDistinct p m h.1, keys-retain-le p j m)

  pub lookup-retain-none :
      (p : K → V → Bool) (k : K) (m : Map K V) → lookup k m ≡ none → lookup k (retain p m) ≡ none
  unfolding lookup
  lookup-retain-none p k [] h = refl
  lookup-retain-none p k ((j, v) ∷ m) h = ground (arith, lookup-retain-none p k m)

  -- What `retain` leaves of a table without double keys.
  pub lookup-retain :
      (p : K → V → Bool) (k : K) (m : Map K V)
      → IsDistinct (keys m)
      → lookup k (retain p m)
        ≡ elim (lookup k m) [ none ↦ none | some v ↦ if p k v then some v else none ]
  unfolding lookup
  lookup-retain p k [] h = refl
  lookup-retain p k ((j, v) ∷ m) h =
      ground (arith, e.same_iff j k, lookup-retain p k m h.1, absent k m)
    where
      absent : (k : K) (m : Map K V) → contains (keys m) k ≡ false → lookup k (retain p m) ≡ none
      absent k [] h = refl
      absent k ((i, w) ∷ m) h = ground (arith, absent k m)

module _ {ℓ κ} {K : Type ℓ} {V : Type κ} ⦃e : KeyEq K⦄ (P : K × V → Type 0) where
  pub All-insert : (k : K) (v : V) (m : Map K V) → P (k, v) → All P m → All P (insert k v m)
  unfolding insert
  All-insert k v [] h hs = (h, tt)
  All-insert k v ((j, w) ∷ m) h hs = ground (arith, All-insert k v m h hs.1)

  pub All-lookup : (k : K) (m : Map K V) (v : V) → All P m → lookup k m ≡ some v → P (k, v)
  unfolding lookup
  All-lookup k [] v hs q = absurd (cc)
  All-lookup k ((j, w) ∷ m) v hs q = ground (arith, e.same_iff j k, All-lookup k m v hs.1)

pub ruleset map_laws = (lookup-empty, lookup-insert, lookup-remove)
