-- ===== src/Contracts/WalletDescriptor.antt =====
-- src/contracts/walletDescriptor.ts: the wallet descriptor. An absent field is `none`; signer
-- indexes and decay blocks are not negative.
pub mod Encode
pub mod Decode
pub mod RoundTrip
pub mod Sound
use sigbash_sdk.Prelude.{ℕ, List, [], ◌∷◌, Option, none, some, Bool, true, false, ◌&&◌, ltb}
use sigbash_sdk.Bytes.{Bytes}
use sigbash_sdk.Text.{Text}
use sigbash_sdk.Contracts.Codes.Tables.{NetworkId, WalletSignerKind, WalletMode}

abbrev pub contract_id : ℕ
contract_id = 0x01

abbrev pub descriptor_version : ℕ
descriptor_version = 1

abbrev pub max_signers_per_leaf : ℕ
max_signers_per_leaf = 3

abbrev pub max_xpub_length : ℕ
max_xpub_length = 512

abbrev pub max_descriptor_length : ℕ
max_descriptor_length = 4096

-- The code of `decayBlocks: null`.
abbrev pub no_decay : ℕ
no_decay = 0xffff

pub record Signer : Type 0 where
  pub kind : WalletSignerKind
  pub xpub : Text
  pub policy_key_id : Option Text

pub record AllowedSignerSet : Type 0 where
  pub signer_indexes : List ℕ

pub record RecoveryBranch : Type 0 where
  pub recovery_key_x_only : Bytes
  pub decay_blocks : Option ℕ

pub record WalletDescriptor : Type 0 where
  pub version : ℕ
  pub network : NetworkId
  pub wallet_mode : WalletMode
  pub signers : List Signer
  pub allowed_signer_sets : List AllowedSignerSet
  pub receive_descriptor : Text
  pub change_descriptor : Text
  pub recovery : Option RecoveryBranch

-- `signer.kind === 'sigbash_policy_key'`
unfoldable pub is_policy_key : WalletSignerKind → Bool
is_policy_key WalletSignerKind.sigbash_policy_key = true
is_policy_key WalletSignerKind.external_xpub = false

-- An index stands above the one before it, where there is one.
abbrev pub above : Option ℕ → ℕ → Bool
above none index = true
above (some previous) index = ltb previous index

-- The indexes ascend strictly from the one before.
unfoldable pub ascending : Option ℕ → List ℕ → Bool
ascending previous [] = true
ascending previous (index ∷ indexes) = above previous index && ascending (some index) indexes
