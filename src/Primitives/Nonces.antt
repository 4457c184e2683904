-- ===== src/Primitives/Nonces.antt =====
-- `bundle_nonces` and `Order::nonces` (crates/rbuilder-primitives/src/lib.rs): for each signer of an
-- order the nonce from which its transactions start.
pub mod Start
pub mod Sorted
use constraints_builder.Shared.{
  ℕ, Bool, false, none, some, List, [], ◌∷◌, nat_eq, leb, ltb, if◌then◌else◌, Option,
}
use constraints_builder.Shared.Map.{Map, lookup, insert, values}
use constraints_builder.Primitives.Tx.{Address, TransactionSignedEcRecoveredWithBlobs}
use constraints_builder.Primitives.Sbundle
use constraints_builder.Primitives.Orders.{Order, bundle_list_txs}

pub record Nonce : Type 0 where
  pub nonce : ℕ
  pub address : Address
  pub optional : Bool

pub record AccountNonce : Type 0 where
  pub nonce : ℕ
  pub account : Address

-- `entry(signer).and_modify(..).or_insert(..)`, by what the entry holds.
unfoldable pub note_entry :
    Option Nonce
    → TransactionSignedEcRecoveredWithBlobs
    → Bool
    → Map Address Nonce
    → Map Address Nonce
note_entry none t optional nonces =
    insert t.signer (record { nonce = t.nonce; address = t.signer; optional = optional }) nonces
note_entry (some n) t optional nonces =
    if ltb t.nonce n.nonce
    then insert t.signer (record n { nonce = t.nonce; optional = optional }) nonces
    else nonces

unfoldable pub note_tx :
    TransactionSignedEcRecoveredWithBlobs → Bool → Map Address Nonce → Map Address Nonce
unfolding note_entry
note_tx t optional nonces = note_entry (lookup t.signer nonces) t optional nonces

unfoldable pub note_txs :
    List (TransactionSignedEcRecoveredWithBlobs × Bool) → Map Address Nonce → Map Address Nonce
note_txs [] nonces = nonces
note_txs ((t, optional) ∷ txs) nonces = note_txs txs (note_tx t optional nonces)

-- `sort_by_key(|nonce| nonce.address)`: the standard library's stable sort, as its specification
-- fixes the result.
unfoldable pub insert_by_address : Nonce → List Nonce → List Nonce
insert_by_address n [] = n ∷ []
insert_by_address n (m ∷ ms) =
    if leb n.address m.address then n ∷ m ∷ ms else m ∷ insert_by_address n ms

unfoldable pub sort_by_address : List Nonce → List Nonce
unfolding insert_by_address
sort_by_address [] = []
sort_by_address (n ∷ ns) = insert_by_address n (sort_by_address ns)

unfoldable pub bundle_nonces : List (TransactionSignedEcRecoveredWithBlobs × Bool) → List Nonce
bundle_nonces txs = sort_by_address (values (note_txs txs []))

-- `Order::nonces`
unfoldable pub nonces : Order → List Nonce
nonces (Order.bundle b) = bundle_nonces (bundle_list_txs b)
nonces (Order.tx t) = (record { nonce = t.nonce; address = t.signer; optional = false }) ∷ []
nonces (Order.share_bundle s) = bundle_nonces (Sbundle.list_txs s.inner_bundle)
