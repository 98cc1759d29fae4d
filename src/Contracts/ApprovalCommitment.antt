-- ===== src/Contracts/ApprovalCommitment.antt =====
-- src/contracts/approvalCommitment.ts: the commitment to a transaction's exact semantics.
-- Amounts are numbers, where the source also takes a `bigint`; no field is negative.
pub mod Encode
pub mod Decode
pub mod RoundTrip
pub mod Rejects
use sigbash_sdk.Prelude.{ℕ, List, [], ◌∷◌}
use sigbash_sdk.Bytes.{Bytes}
use sigbash_sdk.Text.{Text, units}
use sigbash_sdk.Contracts.Codes.Tables.{NetworkId}

abbrev pub contract_id : ℕ
contract_id = 0x03

abbrev pub contract_version : ℕ
contract_version = 1

abbrev pub commitment_tag : Text
commitment_tag = units "SIGBASH/APPROVAL/V1"

pub record Input : Type 0 where
  pub outpoint_txid : Bytes
  pub outpoint_vout : ℕ
  pub sequence : ℕ
  pub prevout_amount : ℕ
  pub prevout_script_pubkey : Bytes
  pub sighash_type : ℕ

pub record Output : Type 0 where
  pub amount : ℕ
  pub script_pubkey : Bytes

pub record CommitmentFields : Type 0 where
  pub network : NetworkId
  pub wallet_id : Bytes
  pub policy_version_id : Text
  pub selected_tapleaf_hash : Bytes
  pub selected_customer_signer_ids : List Text
  pub unsigned_tx_version : ℕ
  pub unsigned_tx_locktime : ℕ
  pub ordered_inputs : List Input
  pub ordered_outputs : List Output
