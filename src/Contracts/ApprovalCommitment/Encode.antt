-- ===== src/Contracts/ApprovalCommitment/Encode.antt =====
-- `encodeApprovalCommitmentV1` and `computeApprovalCommitment`.
use sigbash_sdk.Prelude.{
  List, [], ◌∷◌, ◌++◌, map, length, all, not, ◌==◌, Result, ok, ◌>>=◌, ◌>>◌, guard, plain_error,
  bad_length, empty_field,
}
use sigbash_sdk.Bytes.{
  Bytes, u8be, u16be, u32be, u64be, concat_bytes, length_delimited, contract_header,
}
use sigbash_sdk.Contracts.Fields.{text_field, tagged_hash}
use sigbash_sdk.Contracts.Codes.Tables.{encode_network_id}
use sigbash_sdk.Contracts.ApprovalCommitment.{
  contract_id, contract_version, commitment_tag, Input, Output, CommitmentFields,
}

unfoldable pub encode_input : Input → Result Bytes
encode_input input = concat_bytes (
    ok input.outpoint_txid
    ∷ u32be input.outpoint_vout
    ∷ u32be input.sequence
    ∷ u64be input.prevout_amount
    ∷ length_delimited input.prevout_script_pubkey
    ∷ u32be input.sighash_type
    ∷ [])

unfoldable pub encode_output : Output → Result Bytes
encode_output output =
    concat_bytes (u64be output.amount ∷ length_delimited output.script_pubkey ∷ [])

-- The fields behind the signer ids.
unfoldable pub transaction_parts : CommitmentFields → List (Result Bytes)
transaction_parts fields =
    u32be fields.unsigned_tx_version
    ∷ u32be fields.unsigned_tx_locktime
    ∷ u16be (length fields.ordered_inputs)
    ∷ (map encode_input fields.ordered_inputs
        ++ (u16be (length fields.ordered_outputs) ∷ map encode_output fields.ordered_outputs))

-- The arguments of `concatBytes`, the spliced ones as lists.
unfoldable pub commitment_parts : CommitmentFields → List (Result Bytes)
commitment_parts fields =
    contract_header contract_id contract_version
    ∷ u8be (encode_network_id fields.network)
    ∷ ok fields.wallet_id
    ∷ text_field fields.policy_version_id
    ∷ ok fields.selected_tapleaf_hash
    ∷ u16be (length fields.selected_customer_signer_ids)
    ∷ (map text_field fields.selected_customer_signer_ids ++ transaction_parts fields)

unfoldable pub encode_approval_commitment : CommitmentFields → Result Bytes
encode_approval_commitment fields = do
  guard (length fields.wallet_id == 32) (plain_error bad_length)
  guard (length fields.selected_tapleaf_hash == 32) (plain_error bad_length)
  guard (not (length fields.policy_version_id == 0)) (plain_error empty_field)
  guard (not (length fields.selected_customer_signer_ids == 0)) (plain_error empty_field)
  guard (all (λ i. length i.outpoint_txid == 32) fields.ordered_inputs) (plain_error bad_length)
  concat_bytes (commitment_parts fields)

module _ (sha256 : Bytes → Bytes) where
  unfoldable pub compute_approval_commitment : CommitmentFields → Result Bytes
  compute_approval_commitment fields = do
    encoded ← encode_approval_commitment fields
    ok (tagged_hash sha256 commitment_tag encoded)
