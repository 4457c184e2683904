-- ===== src/Primitives/Nonces/Sorted.antt =====
-- The order of `bundle_nonces` (crates/rbuilder-primitives/src/lib.rs): by address, none twice.
use constraints_builder.Shared.{
  ◌<◌, ◌≡◌, ◌≢◌, Bool, false, Option, none, some, List, [], ◌∷◌, arith, All, contains, IsDistinct,
  nat_eq,
}
use constraints_builder.Shared.Map.{Map, lookup, values, keys, keys-insert-IsDistinct}
use constraints_builder.Primitives.Tx.{Address, TransactionSignedEcRecoveredWithBlobs}
use constraints_builder.Primitives.Nonces.{
  Nonce, note_entry, note_tx, note_txs, insert_by_address, sort_by_address, bundle_nonces,
}
use constraints_builder.Primitives.Nonces.Start.{IsKeyed, note_tx-IsKeyed}

-- Strictly rising addresses.
abbrev pub IsRising : List Nonce → Type 0
IsRising [] = Unit
IsRising (n ∷ ns) = All (λ (m : Nonce). n.address < m.address) ns × IsRising ns

abbrev IsOther : Nonce → Nonce → Type 0
IsOther n m = m.address ≢ n.address

module _ (P : Nonce → Type 0) where
  All-insert_by_address :
      (n : Nonce) (ns : List Nonce) → P n → All P ns → All P (insert_by_address n ns)
  unfolding insert_by_address
  All-insert_by_address n [] h hs = (h, tt)
  All-insert_by_address n (m ∷ ms) h hs = ground (arith, All-insert_by_address n ms h hs.1)

  All-sort_by_address : (ns : List Nonce) → All P ns → All P (sort_by_address ns)
  unfolding sort_by_address
  All-sort_by_address [] h = tt
  All-sort_by_address (n ∷ ns) h =
      All-insert_by_address n (sort_by_address ns) h.0 (All-sort_by_address ns h.1)

above :
    (a b : Address) (ns : List Nonce)
    → a < b
    → All (λ (n : Nonce). b < n.address) ns
    → All (λ (n : Nonce). a < n.address) ns
above a b [] h k = tt
above a b (n ∷ ns) h k = (omega arith, above a b ns h k.1)

insert_by_address-IsRising :
    (n : Nonce) (ns : List Nonce)
    → All (IsOther n) ns
    → IsRising ns
    → IsRising (insert_by_address n ns)
unfolding insert_by_address
insert_by_address-IsRising n [] o r = (tt, tt)
insert_by_address-IsRising n (m ∷ ms) o r = ground (
  arith,
  insert_by_address-IsRising n ms o.1 r.1,
  All-insert_by_address (λ x. m.address < x.address) n ms,
  above n.address m.address ms,
)

-- No two entries have one address.
abbrev AllOther : List Nonce → Type 0
AllOther [] = Unit
AllOther (n ∷ ns) = All (IsOther n) ns × AllOther ns

sort_by_address-IsRising : (ns : List Nonce) → AllOther ns → IsRising (sort_by_address ns)
unfolding sort_by_address
sort_by_address-IsRising [] o = tt
sort_by_address-IsRising (n ∷ ns) o =
    insert_by_address-IsRising n (sort_by_address ns) (All-sort_by_address (IsOther n) ns o.0)
      (sort_by_address-IsRising ns o.1)

values-IsOther :
    (a : Address) (n : Nonce) (m : Map Address Nonce)
    → n.address ≡ a
    → IsKeyed m
    → contains (keys m) a ≡ false
    → All (IsOther n) (values m)
values-IsOther a n [] e k d = tt
values-IsOther a n ((b, x) ∷ m) e k d =
    ((λ p. ground arith), values-IsOther a n m e k.1 (ground arith))

values-AllOther : (m : Map Address Nonce) → IsKeyed m → IsDistinct (keys m) → AllOther (values m)
values-AllOther [] k d = tt
values-AllOther ((a, n) ∷ m) k d = (values-IsOther a n m k.0 k.1 d.0, values-AllOther m k.1 d.1)

note_entry-IsDistinct :
    (x : Option Nonce) (t : TransactionSignedEcRecoveredWithBlobs) (o : Bool)
    (m : Map Address Nonce)
    → IsDistinct (keys m)
    → IsDistinct (keys (note_entry x t o m))
unfolding note_entry
note_entry-IsDistinct none t o m d = keys-insert-IsDistinct t.signer _ m d
note_entry-IsDistinct (some n) t o m d =
    ground (arith, keys-insert-IsDistinct t.signer (record n { nonce = t.nonce; optional = o }) m d)

note_tx-IsDistinct :
    (t : TransactionSignedEcRecoveredWithBlobs) (o : Bool) (m : Map Address Nonce)
    → IsDistinct (keys m)
    → IsDistinct (keys (note_tx t o m))
unfolding note_tx
note_tx-IsDistinct t o m d = note_entry-IsDistinct (lookup t.signer m) t o m d

note_txs_both :
    (txs : List (TransactionSignedEcRecoveredWithBlobs × Bool)) (m : Map Address Nonce)
    → IsKeyed m
    → IsDistinct (keys m)
    → IsKeyed (note_txs txs m) × IsDistinct (keys (note_txs txs m))
unfolding note_txs
note_txs_both [] m k d = (k, d)
note_txs_both ((t, o) ∷ txs) m k d =
    note_txs_both txs (note_tx t o m) (note_tx-IsKeyed t o m k) (note_tx-IsDistinct t o m d)

-- For every list of transactions the addresses of `bundle_nonces` rise strictly, so that no address
-- has two entries.
pub bundle_nonces-IsRising :
    (txs : List (TransactionSignedEcRecoveredWithBlobs × Bool)) → IsRising (bundle_nonces txs)
unfolding bundle_nonces
bundle_nonces-IsRising txs =
    let (k, d) = note_txs_both txs [] tt tt in
    sort_by_address-IsRising (values (note_txs txs [])) (values-AllOther (note_txs txs []) k d)
