-- ===== src/Primitives/Tx.antt =====
-- Transactions of crates/rbuilder-primitives/src/lib.rs. Addresses, hashes and uuids are byte
-- arrays of a fixed size, here the numbers that the bytes spell; they are only compared.
use constraints_builder.Shared.{ℕ, ◌^◌, Bool, true, false, if◌then◌else◌}

abbrev pub Address : Type 0
Address = ℕ

abbrev pub B256 : Type 0
B256 = ℕ

abbrev pub Uuid : Type 0
Uuid = ℕ

abbrev pub u32_mod : ℕ
u32_mod = 2 ^ 32

abbrev pub u64_mod : ℕ
u64_mod = 2 ^ 64

-- `TransactionSignedEcRecoveredWithBlobs` by what its accessors return of the signed transaction
-- and the sidecar, which are types of other crates. `size` is the in-memory size of the parts.
pub record TransactionSignedEcRecoveredWithBlobs : Type 0 where
  pub hash : B256
  pub signer : Address
  pub nonce : ℕ
  pub max_fee_per_gas : ℕ
  pub gas_limit : ℕ
  pub length_eip7934 : ℕ
  pub blobs_len : ℕ
  pub size : ℕ

pub data TxRevertBehavior : Type 0 where
  not_allowed allowed_included allowed_excluded : TxRevertBehavior

unfoldable pub from_old_bool : Bool → TxRevertBehavior
from_old_bool can_revert =
    if can_revert then TxRevertBehavior.allowed_included else TxRevertBehavior.not_allowed

unfoldable pub can_revert : TxRevertBehavior → Bool
can_revert TxRevertBehavior.not_allowed = false
can_revert TxRevertBehavior.allowed_included = true
can_revert TxRevertBehavior.allowed_excluded = true
