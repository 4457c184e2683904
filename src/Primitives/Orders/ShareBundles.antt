-- ===== src/Primitives/Orders/ShareBundles.antt =====
-- The constructors of `ShareBundle` (crates/rbuilder-primitives/src/lib.rs), which cache the number
-- of its transactions and calculate its hash. `keccak256` of concatenated hashes is a parameter.
use constraints_builder.Shared.{ℕ, ◌≡◌, refl, Option, List, [], ◌∷◌, length, map}
use constraints_builder.Primitives.Tx.{Address, B256}
use constraints_builder.Primitives.Sbundle.{
  ShareBundleInner, ShareBundleBody, ShareBundleBodies, inner, tx, bundle, nil, cons,
}
use constraints_builder.Primitives.Sbundle
use constraints_builder.Primitives.Sbundle.Shape.{old_flag, list_txs_agree}
use constraints_builder.Primitives.Orders.{ShareBundle, ReplacementData, Order, list_txs}

unfoldable pub new_with_fake_hash :
    B256 → ℕ → ℕ → ShareBundleInner → Option Address → Option ReplacementData → ShareBundle
new_with_fake_hash hash block max_block inner_bundle signer replacement_data = record {
  hash = hash;
  block = block;
  max_block = max_block;
  inner_bundle = inner_bundle;
  list_txs_len = Sbundle.list_txs_len inner_bundle;
  signer = signer;
  replacement_data = replacement_data;
}

unfoldable pub hash_of : (List B256 → B256) → List B256 → B256
hash_of keccak256 [] = keccak256 []
hash_of keccak256 (hash ∷ []) = hash
hash_of keccak256 (hash ∷ next ∷ hashes) = keccak256 (hash ∷ next ∷ hashes)

unfoldable mutual
  unfolding hash_of

  pub hash_slow : (List B256 → B256) → ShareBundleInner → B256
  hash_slow keccak256 (inner body refund refund_config can_skip) =
      hash_of keccak256 (hashes_bodies keccak256 body)

  pub hash_body : (List B256 → B256) → ShareBundleBody → B256
  hash_body keccak256 (tx t) = t.tx.hash
  hash_body keccak256 (bundle b) = hash_slow keccak256 b

  pub hashes_bodies : (List B256 → B256) → ShareBundleBodies → List B256
  hashes_bodies keccak256 nil = []
  hashes_bodies keccak256 (cons b bs) = hash_body keccak256 b ∷ hashes_bodies keccak256 bs

-- The hash is zero until it is calculated.
unfoldable pub new :
    (List B256 → B256)
    → ℕ
    → ℕ
    → ShareBundleInner
    → Option Address
    → Option ReplacementData
    → ShareBundle
unfolding hash_slow
new keccak256 block max_block inner_bundle signer replacement_data =
    let sbundle : ShareBundle = record {
      hash = 0;
      block = block;
      max_block = max_block;
      inner_bundle = inner_bundle;
      list_txs_len = Sbundle.list_txs_len inner_bundle;
      signer = signer;
      replacement_data = replacement_data;
    } in
    record sbundle { hash = hash_slow keccak256 sbundle.inner_bundle }

unfoldable pub with_inner_bundle : (List B256 → B256) → ShareBundleInner → ShareBundle → ShareBundle
unfolding new
with_inner_bundle keccak256 inner_bundle s =
    new keccak256 s.block s.max_block inner_bundle s.signer s.replacement_data

-- It has this content, and its cached length is the number of the transactions that it lists, which
-- are those of `list_txs_revert` with each revert behaviour read as the old Boolean.
abbrev pub IsListed : ShareBundleInner → ShareBundle → Type 0
IsListed inner_bundle s =
    (s.inner_bundle ≡ inner_bundle)
    × (s.list_txs_len ≡ length (list_txs (Order.share_bundle s)))
    × (map old_flag (Sbundle.list_txs_revert s.inner_bundle) ≡ list_txs (Order.share_bundle s))

-- Of every share bundle that `new`, `new_with_fake_hash` or `with_inner_bundle` makes, whatever their
-- arguments, the content is the given one, the cached length is the number of the transactions that
-- `list_txs` lists, and `list_txs` is `list_txs_revert` with each revert behaviour read as the old
-- Boolean.
pub made-IsListed :
    (keccak256 : List B256 → B256) (hash : B256) (block max_block : ℕ) (content : ShareBundleInner)
    (signer : Option Address) (replacement_data : Option ReplacementData) (s : ShareBundle)
    → IsListed content (new keccak256 block max_block content signer replacement_data)
      × IsListed content (new_with_fake_hash hash block max_block content signer replacement_data)
      × IsListed content (with_inner_bundle keccak256 content s)
unfolding new new_with_fake_hash with_inner_bundle list_txs
made-IsListed keccak256 hash block max_block content signer replacement_data s =
    let (len, flags) = list_txs_agree content in
    ((refl, len, flags), (refl, len, flags), (refl, len, flags))
