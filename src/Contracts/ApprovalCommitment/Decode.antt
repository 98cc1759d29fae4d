-- ===== src/Contracts/ApprovalCommitment/Decode.antt =====
-- `decodeApprovalCommitmentV1`.
use sigbash_sdk.Prelude.{
  List, [], ◌∷◌, not, ◌==◌, Result, ok, err, plain_error, version_error, decode_error, empty_field,
}
use sigbash_sdk.Bytes.{Bytes}
use sigbash_sdk.Bytes.Decoder.{
  M, ◌>>=◌, ◌>>◌, pure, check, lift, read_bytes, read_u8, read_u16, read_u32, read_u64,
  read_length_delimited, read_contract_header, read_times, whole,
}
use sigbash_sdk.Contracts.Fields.{read_text}
use sigbash_sdk.Contracts.Codes.Tables.{NetworkId, decode_network_id}
use sigbash_sdk.Text.{Text}
use sigbash_sdk.Contracts.ApprovalCommitment.{
  contract_id, contract_version, Input, Output, CommitmentFields,
}

unfoldable pub read_input : M Input
read_input = do
  txid ← read_bytes 32
  vout ← read_u32
  sequence ← read_u32
  amount ← read_u64
  script ← read_length_delimited
  sighash ← read_u32
  pure (record {
    outpoint_txid = txid;
    outpoint_vout = vout;
    sequence = sequence;
    prevout_amount = amount;
    prevout_script_pubkey = script;
    sighash_type = sighash;
  })

unfoldable pub read_output : M Output
read_output = do
  amount ← read_u64
  script ← read_length_delimited
  pure (record { amount = amount; script_pubkey = script })

-- The rest of the fields, behind the signer ids.
unfoldable pub read_transaction : NetworkId → Bytes → Text → Bytes → List Text → M CommitmentFields
read_transaction network wallet_id policy_version_id tapleaf signer_ids = do
  tx_version ← read_u32
  locktime ← read_u32
  input_count ← read_u16
  inputs ← read_times input_count read_input
  output_count ← read_u16
  outputs ← read_times output_count read_output
  pure (record {
    network = network;
    wallet_id = wallet_id;
    policy_version_id = policy_version_id;
    selected_tapleaf_hash = tapleaf;
    selected_customer_signer_ids = signer_ids;
    unsigned_tx_version = tx_version;
    unsigned_tx_locktime = locktime;
    ordered_inputs = inputs;
    ordered_outputs = outputs;
  })

unfoldable pub read_commitment : M CommitmentFields
read_commitment = do
  version ← read_contract_header contract_id (contract_version ∷ [])
  code ← read_u8
  network ← lift (decode_network_id code)
  wallet_id ← read_bytes 32
  policy_version_id ← read_text
  tapleaf ← read_bytes 32
  signer_count ← read_u16
  check (not (signer_count == 0)) (plain_error empty_field)
  signer_ids ← read_times signer_count read_text
  read_transaction network wallet_id policy_version_id tapleaf signer_ids

-- The `catch` of the decoder: a version error passes, any other becomes the decode error.
unfoldable pub typed_errors : {A : Type 0} → Result A → Result A
typed_errors (ok a) = ok a
typed_errors (err version_error) = err version_error
typed_errors (err decode_error) = err decode_error
typed_errors (err e) = err decode_error

unfoldable pub decode_approval_commitment : Bytes → Result CommitmentFields
decode_approval_commitment bytes = typed_errors (whole read_commitment bytes)
