-- ===== src/Runs/Commitment.antt =====
-- A commitment to a transaction with one input and one output.
use sigbash_sdk.Prelude.{
  ◌≡◌, ◌≢◌, refl, ◌⊎◌, [], ◌∷◌, ◌++◌, replicate, ok, err, decode_error, version_error,
}
use sigbash_sdk.Bytes.{
  Bytes, big_endian, u8be, u16be, u32be, u64be, concat_bytes, length_delimited, contract_header,
}
use sigbash_sdk.Bytes.Decoder.{
  whole_or, read_contract_header, read_u8, read_bytes_or, check, pure, from_big_endian,
  ◌>>=◌ as ◌>>>=◌, ◌>>◌ as ◌>>>◌,
}
use sigbash_sdk.Text.{units, utf8, scalar_bytes, is_pair, well_formed, is_single, starts_with_mark}
use sigbash_sdk.Contracts.Fields.{text_field, tagged_hash, Collision}
use sigbash_sdk.Contracts.Codes.Tables.{NetworkId, encode_network_id}
use sigbash_sdk.Contracts.ApprovalCommitment.{Input, Output, CommitmentFields}
use sigbash_sdk.Contracts.ApprovalCommitment.Encode.{
  encode_input, encode_output, transaction_parts, commitment_parts, encode_approval_commitment,
  compute_approval_commitment,
}
use sigbash_sdk.Contracts.ApprovalCommitment.Decode.{
  decode_approval_commitment, typed_errors, read_commitment,
}
use sigbash_sdk.Contracts.ApprovalCommitment.RoundTrip.{
  IsFaithful, decode-encode_approval_commitment,
}
use sigbash_sdk.Contracts.ApprovalCommitment.Rejects.{
  decode_approval_commitment_trailing, decode_approval_commitment_truncated,
  decode_approval_commitment_errors, compute_approval_commitment-injective,
}
use sigbash_sdk.Runs.{count_hash}

abbrev sample_input : Input
sample_input = record {
  outpoint_txid = replicate 32 3;
  outpoint_vout = 1;
  sequence = 0xfffffffe;
  prevout_amount = 1000;
  prevout_script_pubkey = 0x51 ∷ [];
  sighash_type = 0;
}

abbrev sample_output : Output
sample_output = record { amount = 900; script_pubkey = 0x52 ∷ [] }

abbrev sample : CommitmentFields
sample = record {
  network = NetworkId.signet;
  wallet_id = replicate 32 1;
  policy_version_id = units "v1";
  selected_tapleaf_hash = replicate 32 2;
  selected_customer_signer_ids = units "a" ∷ [];
  unsigned_tx_version = 2;
  unsigned_tx_locktime = 0;
  ordered_inputs = sample_input ∷ [];
  ordered_outputs = sample_output ∷ [];
}

abbrev ids_bytes : Bytes
ids_bytes = 0 ∷ 0 ∷ 0 ∷ 2 ∷ 118 ∷ 49 ∷ replicate 32 2 ++ (0 ∷ 1 ∷ 0 ∷ 0 ∷ 0 ∷ 1 ∷ 97 ∷ [])

abbrev input_bytes : Bytes
input_bytes =
    replicate 32 3
    ++ (0 ∷ 0 ∷ 0 ∷ 1 ∷ 255 ∷ 255 ∷ 255 ∷ 254 ∷ 0 ∷ 0 ∷ 0 ∷ 0 ∷ 0 ∷ 0 ∷ 3 ∷ 232 ∷ 0 ∷ 0 ∷ 0 ∷ 1
        ∷ 0x51 ∷ 0 ∷ 0 ∷ 0 ∷ 0 ∷ [])

abbrev output_bytes : Bytes
output_bytes = 0 ∷ 0 ∷ 0 ∷ 0 ∷ 0 ∷ 0 ∷ 3 ∷ 132 ∷ 0 ∷ 0 ∷ 0 ∷ 1 ∷ 0x52 ∷ []

abbrev sample_bytes : Bytes
sample_bytes =
    3 ∷ 1 ∷ 1 ∷ replicate 32 1
    ++ (ids_bytes
        ++ (0 ∷ 0 ∷ 0 ∷ 2 ∷ 0 ∷ 0 ∷ 0 ∷ 0 ∷ 0 ∷ 1 ∷ input_bytes ++ (0 ∷ 1 ∷ output_bytes)))

sample_encodes : encode_approval_commitment sample ≡ ok sample_bytes
unfolding big_endian u8be u16be u32be u64be concat_bytes length_delimited contract_header utf8
    scalar_bytes is_pair text_field encode_network_id encode_input encode_output transaction_parts
    commitment_parts encode_approval_commitment
sample_encodes = refl

sample-IsFaithful : IsFaithful sample
unfolding well_formed is_pair is_single starts_with_mark
sample-IsFaithful = (refl, refl)

decode-encode_approval_commitment_example : decode_approval_commitment sample_bytes ≡ ok sample
decode-encode_approval_commitment_example =
    decode-encode_approval_commitment sample sample_bytes sample-IsFaithful sample_encodes

decode_approval_commitment_trailing_example :
    decode_approval_commitment (sample_bytes ++ 7 ∷ []) ≡ err decode_error
decode_approval_commitment_trailing_example =
    decode_approval_commitment_trailing sample sample_bytes sample-IsFaithful sample_encodes 7 []

abbrev cut_bytes : Bytes
cut_bytes =
    3 ∷ 1 ∷ 1 ∷ replicate 32 1
    ++ (ids_bytes ++ (0 ∷ 0 ∷ 0 ∷ 2 ∷ 0 ∷ 0 ∷ 0 ∷ 0 ∷ 0 ∷ 1 ∷ input_bytes ++ (0 ∷ 1 ∷ [])))

decode_approval_commitment_truncated_example : decode_approval_commitment cut_bytes ≢ ok sample
decode_approval_commitment_truncated_example =
    decode_approval_commitment_truncated sample sample_bytes sample-IsFaithful sample_encodes
      cut_bytes (0 ∷ 0 ∷ 0 ∷ 0 ∷ 0 ∷ 3 ∷ 132 ∷ 0 ∷ 0 ∷ 0 ∷ 1 ∷ 0x52 ∷ []) 0 sample refl

-- The same commitment at another locktime.
abbrev later : CommitmentFields
later = record sample { unsigned_tx_locktime = 5 }

abbrev later_bytes : Bytes
later_bytes =
    3 ∷ 1 ∷ 1 ∷ replicate 32 1
    ++ (ids_bytes
        ++ (0 ∷ 0 ∷ 0 ∷ 2 ∷ 0 ∷ 0 ∷ 0 ∷ 5 ∷ 0 ∷ 1 ∷ input_bytes ++ (0 ∷ 1 ∷ output_bytes)))

later_encodes : encode_approval_commitment later ≡ ok later_bytes
unfolding big_endian u8be u16be u32be u64be concat_bytes length_delimited contract_header utf8
    scalar_bytes is_pair text_field encode_network_id encode_input encode_output transaction_parts
    commitment_parts encode_approval_commitment
later_encodes = refl

sample_digest : compute_approval_commitment count_hash sample ≡ ok (226 ∷ replicate 31 0)
unfolding compute_approval_commitment tagged_hash
sample_digest = rw sample_encodes refl

later_digest : compute_approval_commitment count_hash later ≡ ok (226 ∷ replicate 31 0)
unfolding compute_approval_commitment tagged_hash
later_digest = rw later_encodes refl

compute_approval_commitment-injective_example : (sample ≡ later) ⊎ Collision count_hash
compute_approval_commitment-injective_example =
    compute_approval_commitment-injective count_hash sample later (226 ∷ replicate 31 0)
      sample-IsFaithful sample-IsFaithful sample_digest later_digest

-- A second version of the contract.
version_two : decode_approval_commitment (3 ∷ 2 ∷ []) ≡ err version_error
unfolding decode_approval_commitment typed_errors whole_or read_commitment read_contract_header
    read_u8 read_bytes_or ◌>>>=◌ ◌>>>◌ check pure from_big_endian
version_two = refl

decode_approval_commitment_errors_example :
    (version_error ≡ version_error) ⊎ (version_error ≡ decode_error)
decode_approval_commitment_errors_example =
    decode_approval_commitment_errors (3 ∷ 2 ∷ []) version_error version_two
