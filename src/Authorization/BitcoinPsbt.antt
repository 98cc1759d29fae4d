-- ===== src/Authorization/BitcoinPsbt.antt =====
-- src/authorization/bitcoinPsbtAdapter.ts: the adapter for PSBT subjects, over the PSBT reader and the
-- sighash preimages. The compression function of SHA-256 and the x-only nonce, which is curve
-- arithmetic, are parameters. Messages are not kept: a refusal is an `Error`.
pub mod Verifiable
pub mod Rederive
pub mod Inputs
pub mod Challenge
pub mod EHat
pub mod Leaves
pub mod Rederived
use sigbash_sdk.Prelude.{
  ℕ, zero, suc, ◌+◌, ◌^◌, ◌%◌, List, [], ◌∷◌, ◌++◌, length, take, get_elem?, get_or, Bool, true,
  false, not, ◌&&◌, ◌||◌, ◌==◌, ltb, eqb, Option, none, some, if◌then◌else◌, Result, ok, err, guard,
  plain_error, bad_value, bad_index, bad_length, empty_field, type_error, replicate,
}
use sigbash_sdk.Calls.{◌>>=◌, ◌>>◌, map_calls}
use sigbash_sdk.Bytes.{Bytes, big_endian}
use sigbash_sdk.Bytes.Decoder.{from_big_endian}
use sigbash_sdk.Text.{Text, units, utf8}
use sigbash_sdk.Json.{Number}
use sigbash_sdk.Contracts.Fields.{tagged_hash}
use sigbash_sdk.Contracts.AuthorizationSubject.{TxInput, TxOutput, compact_size}
use sigbash_sdk.Contracts.AuthorizationSubject.Preimages.{
  authz_prevout_q, authz_sighash_key_path, authz_sighash_acp_key_path,
  authz_sighash_tapscript_key_path, authz_sighash_acp_tapscript,
}
use sigbash_sdk.Authorization.Psbt.{
  ParsedTxInput, ParsedTxOutput, ParsedTx, ParsedTapLeafScript, ParsedPsbtInput, ParsedPsbt,
}
use sigbash_sdk.Authorization.Psbt.Reader.{parse_transaction}
use sigbash_sdk.Authorization.Psbt.Maps.{parse_psbt_bytes}
use sigbash_sdk.Authorization.Envelope.{
  MuxBranch, Envelope, PositionDisclosure, Position, completing_position_of,
}

abbrev fail : {A : Type 0} → Result A
fail = err (plain_error bad_value)

-- `ACCEPTED_POSTURES.has(posture)`
abbrev pub is_accepted : ℕ → Bool
is_accepted posture = posture == 0x00 || (posture == 0x01 || posture == 0x81)

abbrev pub is_p2tr : Bytes → Bool
is_p2tr script = length script == 34 && (get_or script 0 0 == 0x51 && get_or script 1 0 == 0x20)

-- `xs[i]`, a field of which is read: `undefined` throws a TypeError.
unfoldable pub at_index : {A : Type 0} → List A → ℕ → Result A
at_index xs i = elim (get_elem? xs i) [ none ↦ err type_error | some x ↦ ok x ]

-- `if (vout < prevTx.outputs.length) return prevTx.outputs[vout]; fail(…)`
unfoldable pub output_at : List ParsedTxOutput → ℕ → Result ParsedTxOutput
output_at outputs vout = elim (get_elem? outputs vout) [ none ↦ fail | some output ↦ ok output ]

-- `resolvePrevout`, of the input's fields and the transaction's inputs.
unfoldable pub resolve_prevout : List ParsedTxInput → ℕ → ParsedPsbtInput → Result ParsedTxOutput
resolve_prevout spending index input = elim (input.witness_utxo) [
  | some utxo ↦ ok (record { value = utxo.value; script_pub_key = utxo.script_pub_key })
  | none ↦ elim (input.non_witness_utxo) [
    | none ↦ fail
    | some raw ↦
        (parse_transaction raw >>= λ previous.
        at_index spending index >>= λ spent. output_at (previous.outputs) (spent.vout))
  ]
]

abbrev pub posture_of : ParsedPsbtInput → ℕ
posture_of input = elim (input.sighash_type) [ none ↦ 0x00 | some posture ↦ posture ]

abbrev pub has_witness_utxo : ParsedPsbtInput → Bool
has_witness_utxo input = elim (input.witness_utxo) [ none ↦ false | some utxo ↦ true ]

-- The part of the check for an ANYONECANPAY position.
unfoldable pub check_acp : ℕ → ℕ → ParsedPsbtInput → ParsedTxOutput → Result (Unit {0})
check_acp count i input prevout = do
  guard (is_p2tr (prevout.script_pub_key)) (plain_error bad_value)
  guard (has_witness_utxo input) (plain_error bad_value)
  guard (not (suc i == count && ltb 1 count)) (plain_error bad_value)
  ok tt

unfoldable pub check_position : List ParsedTxInput → ℕ → ℕ → ParsedPsbtInput → Result (Unit {0})
check_position spending count i input = do
  guard (is_accepted (posture_of input)) (plain_error bad_value)
  prevout ← resolve_prevout spending i input
  if posture_of input == 0x81 then check_acp count i input prevout else ok tt

-- The `forEach`, from the position `i`.
unfoldable pub check_positions :
    List ParsedTxInput → ℕ → ℕ → List ParsedPsbtInput → Result (Unit {0})
check_positions spending count i [] = ok tt
check_positions spending count i (input ∷ inputs) = do
  check_position spending count i input
  check_positions spending count (suc i) inputs

-- `checkVerifiable`; the network is not looked at.
unfoldable pub check_verifiable : Bytes → Text → Result (Unit {0})
check_verifiable raw network = do
  psbt ← parse_psbt_bytes raw
  guard (not (length psbt.inputs == 0)) (plain_error empty_field)
  guard (length psbt.inputs == length psbt.unsigned_tx.inputs) (plain_error bad_length)
  check_positions (psbt.unsigned_tx.inputs) (length psbt.inputs) 0 (psbt.inputs)

-- `psbt.unsignedTx.inputs.map(…)`, from the position `i`; a missing input map has no prevout.
unfoldable pub adapter_inputs :
    List ParsedTxInput → ℕ → List ParsedPsbtInput → List ParsedTxInput → Result (List TxInput)
adapter_inputs spending i maps [] = ok []
adapter_inputs spending i [] (spent ∷ rest) = fail
adapter_inputs spending i (input ∷ maps) (spent ∷ rest) = do
  prevout ← resolve_prevout spending i input
  inputs ← adapter_inputs spending (suc i) maps rest
  ok (
      record {
        txid = spent.txid;
        vout = spent.vout;
        sequence = spent.sequence;
        amount = prevout.value;
        script_pub_key = prevout.script_pub_key;
      }
      ∷ inputs)

unfoldable pub adapter_outputs : List ParsedTxOutput → List TxOutput
adapter_outputs [] = []
adapter_outputs (o ∷ os) =
    record { value = o.value; script_pub_key = o.script_pub_key } ∷ adapter_outputs os

abbrev pub is_acp_type : Number → Bool
is_acp_type (Number.natural n) = n == 0x81
is_acp_type _ = false

abbrev pub same_bool : Bool → Bool → Bool
same_bool true b = b
same_bool false b = not b

abbrev pub first_leaf : ParsedPsbtInput → Option ParsedTapLeafScript
first_leaf input = get_elem? input.tap_leaf_scripts 0
