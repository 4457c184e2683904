-- ===== src/ConstraintProofs/Storage/Order.antt =====
-- The answer of `get_recent_proofs` (constraint_proof_storage.rs).
use constraints_builder.Shared.{
  ℕ, ◌≡◌, ◌<◌, refl, true, false, Option-cases, inl, inr, List, [], ◌∷◌, map, All, contains,
  IsDistinct, nat_eq, ◌==◌, if◌then◌else◌, arith, ap,
}
use constraints_builder.Shared.Map.{lookup, keys, contains_key, contains_key-eq}
use constraints_builder.ConstraintProofs.Storage.{
  Storage, SlotProofs, insert_recent, recent_first, collect, get_recent_proofs,
}

-- Strictly falling numbers.
abbrev pub IsFalling : List ℕ → Type 0
IsFalling [] = Unit
IsFalling (k ∷ ks) = All (λ j. j < k) ks × IsFalling ks

abbrev pub slots : List SlotProofs → List ℕ
slots ps = map (λ p. p.slot) ps

contains-insert_recent :
    (k : ℕ) (js : List ℕ) (i : ℕ)
    → contains (insert_recent k js) i ≡ (if k == i then true else contains js i)
unfolding insert_recent
contains-insert_recent k [] i = ground arith
contains-insert_recent k (j ∷ js) i = ground (arith, contains-insert_recent k js i)

contains-recent_first : (ks : List ℕ) (i : ℕ) → contains (recent_first ks) i ≡ contains ks i
unfolding recent_first
contains-recent_first [] i = refl
contains-recent_first (k ∷ ks) i =
    ground (arith, contains-insert_recent k (recent_first ks) i, contains-recent_first ks i)

All-insert_recent :
    (b k : ℕ) (js : List ℕ) → k < b → All (λ j. j < b) js → All (λ j. j < b) (insert_recent k js)
unfolding insert_recent
All-insert_recent b k [] h a = (h, tt)
All-insert_recent b k (j ∷ js) h a = ground (arith, All-insert_recent b k js h a.1)

below : (a b : ℕ) (js : List ℕ) → a < b → All (λ j. j < a) js → All (λ j. j < b) js
below a b [] h k = tt
below a b (j ∷ js) h k = (omega arith, below a b js h k.1)

insert_recent-IsFalling :
    (k : ℕ) (js : List ℕ) → contains js k ≡ false → IsFalling js → IsFalling (insert_recent k js)
unfolding insert_recent
insert_recent-IsFalling k [] c f = (tt, tt)
insert_recent-IsFalling k (j ∷ js) c f =
    ground (arith, insert_recent-IsFalling k js, All-insert_recent j k js, below j k js)

recent_first-IsFalling : (ks : List ℕ) → IsDistinct ks → IsFalling (recent_first ks)
unfolding recent_first
recent_first-IsFalling [] h = tt
recent_first-IsFalling (k ∷ ks) h =
    insert_recent-IsFalling k (recent_first ks) (ground (arith, h, contains-recent_first ks k))
      (recent_first-IsFalling ks h.1)

slots-collect :
    (storage : Storage) (ks : List ℕ)
    → ((k : ℕ) → contains ks k ≡ true → contains_key k storage ≡ true)
    → slots (collect storage ks) ≡ ks
unfolding collect contains_key
slots-collect storage [] h = refl
slots-collect storage (k ∷ ks) h =
    let rest = slots-collect storage ks (λ j c. h j (ground (arith, c))) in
    elim (Option-cases (lookup k storage)) [
      | inl e ↦ ground (arith, e, h k (ground (arith, nat_eq.same_iff k k)))
      | inr (b, e) ↦ rw (e, collect) (ap (λ js. k ∷ js) rest)
    ]

-- For a storage with one entry for a slot, `get_recent_proofs` answers with exactly the slots that
-- are kept, each once, from the most recent to the oldest.
pub get_recent_proofs-IsFalling :
    (storage : Storage)
    → IsDistinct (keys storage)
    → IsFalling (slots (get_recent_proofs storage))
      × ((k : ℕ) → contains (slots (get_recent_proofs storage)) k ≡ contains_key k storage)
unfolding get_recent_proofs
get_recent_proofs-IsFalling storage h =
    let order = recent_first (keys storage) in
    let all : slots (collect storage order) ≡ order = slots-collect storage order (λ k c.
      ground (arith, c, contains-recent_first (keys storage) k, contains_key-eq k storage)) in
    (
      rw all (recent_first-IsFalling (keys storage) h),
      λ k.
          rw all
            (ground (arith, contains-recent_first (keys storage) k, contains_key-eq k storage)),
    )
