-- ===== src/Contracts/WalletDescriptor/Encode.antt =====
-- `encodeWalletDescriptorV1` with `encodeSigner` and `encodeRecovery`.
use sigbash_sdk.Prelude.{
  ℕ, List, [], ◌∷◌, ◌++◌, map, Option, none, some, Bool, true, ◌&&◌, not, all, length, leb, ltb,
  ◌==◌, Result, ok, ◌>>◌, guard, version_error, range_error, plain_error, bad_length, empty_field,
  bad_value, bad_index, not_ascending, too_long,
}
use sigbash_sdk.Bytes.{Bytes, u8be, u16be, concat_bytes, length_delimited, contract_header}
use sigbash_sdk.Text.{Text}
use sigbash_sdk.Contracts.Fields.{text_field}
use sigbash_sdk.Contracts.Codes.Tables.{
  encode_network_id, encode_wallet_mode, encode_wallet_signer_kind,
}
use sigbash_sdk.Contracts.WalletDescriptor.{
  contract_id, descriptor_version, max_signers_per_leaf, max_descriptor_length, no_decay, Signer,
  AllowedSignerSet, RecoveryBranch, WalletDescriptor, is_policy_key, ascending,
}

-- `signer.policyKeyId ?? ''`
abbrev pub key_id_text : Option Text → Text
key_id_text none = []
key_id_text (some id) = id

unfoldable pub encode_signer : Signer → Result Bytes
encode_signer signer = do
  let id = key_id_text signer.policy_key_id
  guard (not (is_policy_key signer.kind && length id == 0)) (plain_error empty_field)
  guard (not (not (is_policy_key signer.kind) && not (length id == 0))) (plain_error bad_value)
  concat_bytes
      (u8be (encode_wallet_signer_kind signer.kind) ∷ text_field signer.xpub ∷ text_field id ∷ [])

-- The code of the decay blocks, and whether it is refused.
abbrev pub decay_code : Option ℕ → ℕ
decay_code none = no_decay
decay_code (some blocks) = blocks

abbrev pub is_decay : Option ℕ → Bool
is_decay none = true
is_decay (some blocks) = leb 1 blocks && leb blocks 0xfffe

unfoldable pub encode_recovery : Option RecoveryBranch → Result Bytes
encode_recovery none = u8be 0x00
encode_recovery (some recovery) = do
  guard (length recovery.recovery_key_x_only == 32) (plain_error bad_length)
  guard (is_decay recovery.decay_blocks) range_error
  concat_bytes (
      u8be 0x01
      ∷ length_delimited recovery.recovery_key_x_only
      ∷ u16be (decay_code recovery.decay_blocks)
      ∷ [])

-- The body of the loop over the allowed signer sets.
unfoldable pub check_set : ℕ → AllowedSignerSet → Result (Unit {0})
check_set signer_count set = do
  let indexes = set.signer_indexes
  guard (leb 1 (length indexes) && leb (length indexes) max_signers_per_leaf)
      (plain_error bad_length)
  guard (all (λ i. ltb i signer_count) indexes) (plain_error bad_index)
  guard (ascending none indexes) (plain_error not_ascending)

unfoldable pub check_sets : ℕ → List AllowedSignerSet → Result (Unit {0})
check_sets signer_count [] = ok tt
check_sets signer_count (set ∷ sets) = do check_set signer_count set; check_sets signer_count sets

unfoldable pub encode_set : AllowedSignerSet → Result Bytes
encode_set set = concat_bytes (u8be (length set.signer_indexes) ∷ map u8be set.signer_indexes)

-- The parts behind the signers.
unfoldable pub set_parts : WalletDescriptor → List (Result Bytes)
set_parts descriptor =
    u16be (length descriptor.allowed_signer_sets)
    ∷ (map encode_set descriptor.allowed_signer_sets
        ++ (text_field descriptor.receive_descriptor
            ∷ text_field descriptor.change_descriptor
            ∷ encode_recovery descriptor.recovery
            ∷ []))

unfoldable pub descriptor_parts : WalletDescriptor → List (Result Bytes)
descriptor_parts descriptor =
    contract_header contract_id descriptor_version
    ∷ u8be (encode_network_id descriptor.network)
    ∷ u8be (encode_wallet_mode descriptor.wallet_mode)
    ∷ u16be (length descriptor.signers)
    ∷ (map encode_signer descriptor.signers ++ set_parts descriptor)

unfoldable pub encode_wallet_descriptor : WalletDescriptor → Result Bytes
encode_wallet_descriptor descriptor = do
  guard (descriptor.version == descriptor_version) version_error
  guard (leb 1 (length descriptor.signers) && leb (length descriptor.signers) 0xffff)
      (plain_error bad_length)
  check_sets (length descriptor.signers) descriptor.allowed_signer_sets
  guard (leb (length descriptor.receive_descriptor) max_descriptor_length) (plain_error too_long)
  guard (leb (length descriptor.change_descriptor) max_descriptor_length) (plain_error too_long)
  concat_bytes (descriptor_parts descriptor)
