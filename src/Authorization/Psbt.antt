-- ===== src/Authorization/Psbt.antt =====
-- src/authorization/psbt.ts: the reader of PSBTs. Its cursor is the decoder of `Bytes.Decoder`;
-- whatever it refuses throws a PsbtParseError.
pub mod Reader
pub mod Sections
pub mod Maps
pub mod Fields
pub mod Globals
pub mod Fuel
pub mod Parses
pub mod Sound
pub mod Transactions
use sigbash_sdk.Prelude.{ℕ, List, Option}
use sigbash_sdk.Bytes.{Bytes}

pub record ParsedTxInput : Type 0 where
  pub txid : Bytes
  pub vout : ℕ
  pub script_sig : Bytes
  pub sequence : ℕ

pub record ParsedTxOutput : Type 0 where
  pub value : ℕ
  pub script_pub_key : Bytes

pub record ParsedTx : Type 0 where
  pub version : ℕ
  pub inputs : List ParsedTxInput
  pub outputs : List ParsedTxOutput
  pub lock_time : ℕ

pub record ParsedWitnessUtxo : Type 0 where
  pub value : ℕ
  pub script_pub_key : Bytes

pub record ParsedTapLeafScript : Type 0 where
  pub control_block : Bytes
  pub script : Bytes
  pub leaf_version : ℕ

pub record ParsedPsbtInput : Type 0 where
  pub witness_utxo : Option ParsedWitnessUtxo
  pub non_witness_utxo : Option Bytes
  pub sighash_type : Option ℕ
  pub tap_leaf_scripts : List ParsedTapLeafScript

pub record ParsedPsbt : Type 0 where
  pub unsigned_tx : ParsedTx
  pub inputs : List ParsedPsbtInput
  pub raw : Bytes

pub record SectionEntry : Type 0 where
  pub key : Bytes
  pub value : Bytes
