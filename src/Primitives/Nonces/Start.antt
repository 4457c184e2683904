-- ===== src/Primitives/Nonces/Start.antt =====
-- What `bundle_nonces` (crates/rbuilder-primitives/src/lib.rs) computes: for every signer, the
-- first of its transactions with the least nonce.
use constraints_builder.Shared.{
  ◌≡◌, refl, ◌∙◌, Bool, Option, none, some, List, [], ◌∷◌, nat_eq, nat_beq, ltb, if◌then◌else◌,
  arith, All,
}
use constraints_builder.Shared.Map.{Map, lookup, insert, values, lookup-insert}
use constraints_builder.Primitives.Tx.{Address, TransactionSignedEcRecoveredWithBlobs}
use constraints_builder.Primitives.Nonces.{
  Nonce, note_entry, note_tx, note_txs, insert_by_address, sort_by_address, bundle_nonces,
}

abbrev Txs : Type 0
Txs = List (TransactionSignedEcRecoveredWithBlobs × Bool)

-- The entry of an address in the result.
abbrev pub find : Address → List Nonce → Option Nonce
find a [] = none
find a (n ∷ ns) = if nat_beq n.address a then some n else find a ns

-- The earlier of two entries, unless the later one has a smaller nonce.
abbrev pub earlier : Option Nonce → Option Nonce → Option Nonce
earlier none later = later
earlier (some n) none = some n
earlier (some n) (some m) = if ltb m.nonce n.nonce then some m else some n

-- The specification: the first transaction of `a` with the least nonce.
abbrev pub start : Address → List (TransactionSignedEcRecoveredWithBlobs × Bool) → Option Nonce
start a [] = none
start a ((t, optional) ∷ txs) =
    if nat_beq t.signer a
    then earlier (some (record { nonce = t.nonce; address = a; optional = optional })) (start a txs)
    else start a txs

-- Every entry stands under its own address.
abbrev pub IsKeyed : Map Address Nonce → Type 0
IsKeyed m = All (λ (kv : Address × Nonce). kv.1.address ≡ kv.0) m

IsKeyed-insert :
    (a : Address) (n : Nonce) (m : Map Address Nonce)
    → n.address ≡ a
    → IsKeyed m
    → IsKeyed (insert a n m)
unfolding insert
IsKeyed-insert a n [] e h = (e, tt)
IsKeyed-insert a n ((b, x) ∷ m) e h = ground (arith, IsKeyed-insert a n m e h.1)

address_of_lookup :
    (a : Address) (m : Map Address Nonce) (n : Nonce)
    → IsKeyed m
    → lookup a m ≡ some n
    → n.address ≡ a
unfolding lookup
address_of_lookup a [] n k h = ground arith
address_of_lookup a ((b, x) ∷ m) n k h = ground (arith, address_of_lookup a m n k.1)

note_entry-IsKeyed :
    (x : Option Nonce) (t : TransactionSignedEcRecoveredWithBlobs) (o : Bool)
    (m : Map Address Nonce)
    → lookup t.signer m ≡ x
    → IsKeyed m
    → IsKeyed (note_entry x t o m)
unfolding note_entry
note_entry-IsKeyed none t o m e k = IsKeyed-insert t.signer _ m refl k
note_entry-IsKeyed (some n) t o m e k = ground (
  arith,
  IsKeyed-insert t.signer (record n { nonce = t.nonce; optional = o }) m
      (address_of_lookup t.signer m n k e) k,
)

pub note_tx-IsKeyed :
    (t : TransactionSignedEcRecoveredWithBlobs) (o : Bool) (m : Map Address Nonce)
    → IsKeyed m
    → IsKeyed (note_tx t o m)
unfolding note_tx
note_tx-IsKeyed t o m k = note_entry-IsKeyed (lookup t.signer m) t o m refl k

lookup-note_entry :
    (a : Address) (x : Option Nonce) (t : TransactionSignedEcRecoveredWithBlobs) (o : Bool)
    (m : Map Address Nonce)
    → lookup t.signer m ≡ x
    → IsKeyed m
    → lookup a (note_entry x t o m) ≡ (
        if nat_beq t.signer a
        then earlier (lookup a m) (some (record { nonce = t.nonce; address = a; optional = o }))
        else lookup a m)
unfolding note_entry
lookup-note_entry a none t o m e k =
    let n : Nonce = record { nonce = t.nonce; address = t.signer; optional = o } in
    ground (arith, lookup-insert t.signer a n m)
lookup-note_entry a (some n) t o m e k = ground (
  arith,
  address_of_lookup t.signer m n k e,
  lookup-insert t.signer a (record n { nonce = t.nonce; optional = o }) m,
)

lookup-note_tx :
    (a : Address) (t : TransactionSignedEcRecoveredWithBlobs) (o : Bool) (m : Map Address Nonce)
    → IsKeyed m
    → lookup a (note_tx t o m) ≡ (
        if nat_beq t.signer a
        then earlier (lookup a m) (some (record { nonce = t.nonce; address = a; optional = o }))
        else lookup a m)
unfolding note_tx
lookup-note_tx a t o m k = lookup-note_entry a (lookup t.signer m) t o m refl k

find-insert_by_address :
    (a : Address) (n : Nonce) (ns : List Nonce) → find a (insert_by_address n ns) ≡ find a (n ∷ ns)
unfolding insert_by_address
find-insert_by_address a n [] = refl
find-insert_by_address a n (m ∷ ms) = ground (arith, find-insert_by_address a n ms)

find-sort_by_address : (a : Address) (ns : List Nonce) → find a (sort_by_address ns) ≡ find a ns
unfolding sort_by_address
find-sort_by_address a [] = refl
find-sort_by_address a (n ∷ ns) =
    ground (arith, find-insert_by_address a n (sort_by_address ns), find-sort_by_address a ns)

find-values : (a : Address) (m : Map Address Nonce) → IsKeyed m → find a (values m) ≡ lookup a m
unfolding lookup
find-values a [] k = refl
find-values a ((b, n) ∷ m) k = ground (arith, find-values a m k.1)

earlier_assoc : (x y z : Option Nonce) → earlier (earlier x y) z ≡ earlier x (earlier y z)
earlier_assoc none y z = refl
earlier_assoc (some x) none z = refl
earlier_assoc (some x) (some y) none = ground arith
earlier_assoc (some x) (some y) (some z) = ground arith

lookup-note_txs :
    (a : Address) (txs : Txs) (m : Map Address Nonce)
    → IsKeyed m
    → lookup a (note_txs txs m) ≡ earlier (lookup a m) (start a txs)
unfolding note_txs
lookup-note_txs a [] m k = ground arith
lookup-note_txs a ((t, o) ∷ txs) m k = ground (
  arith,
  lookup-note_txs a txs (note_tx t o m) (note_tx-IsKeyed t o m k),
  lookup-note_tx a t o m k,
  earlier_assoc (lookup a m) (some (record { nonce = t.nonce; address = a; optional = o }))
      (start a txs),
)

note_txs-IsKeyed : (txs : Txs) (m : Map Address Nonce) → IsKeyed m → IsKeyed (note_txs txs m)
unfolding note_txs
note_txs-IsKeyed [] m k = k
note_txs-IsKeyed ((t, o) ∷ txs) m k = note_txs-IsKeyed txs (note_tx t o m) (note_tx-IsKeyed t o m k)

-- For every list of transactions and every address, the entry of the address in `bundle_nonces` is
-- the nonce, and the optional flag, of its first transaction with the least nonce; there is no
-- entry if it signed none.
pub find-bundle_nonces : (a : Address) (txs : Txs) → find a (bundle_nonces txs) ≡ start a txs
unfolding bundle_nonces lookup
find-bundle_nonces a txs =
    find-sort_by_address a (values (note_txs txs []))
    ∙ (find-values a (note_txs txs []) (note_txs-IsKeyed txs [] tt) ∙ lookup-note_txs a txs [] tt)
