-- ===== src/Contracts/WalletDescriptor/Decode.antt =====
-- `decodeWalletDescriptorV1` with `decodeSigner` and `decodeRecovery`.
use sigbash_sdk.Prelude.{
  ℕ, zero, suc, List, [], ◌∷◌, Option, none, some, ◌&&◌, not, length, leb, ltb, ◌==◌, if◌then◌else◌,
  Result, version_error, plain_error, bad_length, empty_field, bad_value, bad_index, not_ascending,
}
use sigbash_sdk.Bytes.{Bytes}
use sigbash_sdk.Bytes.Decoder.{
  M, ◌>>=◌, ◌>>◌, pure, check, branch, lift, read_u8, read_u16, read_length_delimited,
  read_contract_header, read_times, whole,
}
use sigbash_sdk.Text.{Text, decode_text}
use sigbash_sdk.Contracts.Fields.{read_text}
use sigbash_sdk.Contracts.Codes.Tables.{
  NetworkId, WalletMode, decode_network_id, decode_wallet_mode, decode_wallet_signer_kind,
}
use sigbash_sdk.Contracts.WalletDescriptor.{
  contract_id, descriptor_version, max_signers_per_leaf, max_xpub_length, no_decay, Signer,
  AllowedSignerSet, RecoveryBranch, WalletDescriptor, is_policy_key, above,
}

-- An id without characters is left out.
abbrev pub optional_id : Text → Option Text
optional_id [] = none
optional_id (u ∷ us) = some (u ∷ us)

unfoldable pub read_signer : M Signer
read_signer = do
  code ← read_u8
  kind ← lift (decode_wallet_signer_kind code)
  xpub ← read_length_delimited
  check (leb 1 (length xpub) && leb (length xpub) max_xpub_length) (plain_error bad_length)
  id ← read_length_delimited
  check (not (is_policy_key kind && length (decode_text id) == 0)) (plain_error empty_field)
  check (not (not (is_policy_key kind) && not (length (decode_text id) == 0)))
      (plain_error bad_value)
  pure (record {
    kind = kind;
    xpub = decode_text xpub;
    policy_key_id = optional_id (decode_text id);
  })

abbrev pub decay_of : ℕ → Option ℕ
decay_of code = if code == no_decay then none else some code

unfoldable pub read_flagged_recovery : ℕ → M (Option RecoveryBranch)
read_flagged_recovery flag = branch (flag == 0x00) (pure none) do
  check (flag == 0x01) version_error
  key ← read_length_delimited
  check (length key == 32) (plain_error bad_length)
  decay ← read_u16
  pure (some (record { recovery_key_x_only = key; decay_blocks = decay_of decay }))

unfoldable pub read_recovery : M (Option RecoveryBranch)
read_recovery = do flag ← read_u8; read_flagged_recovery flag

-- The loop over the indexes of a set, behind the one before.
unfoldable pub read_indexes : ℕ → ℕ → Option ℕ → M (List ℕ)
read_indexes signer_count zero previous = pure []
read_indexes signer_count (suc n) previous = do
  index ← read_u8
  check (ltb index signer_count) (plain_error bad_index)
  check (above previous index) (plain_error not_ascending)
  indexes ← read_indexes signer_count n (some index)
  pure (index ∷ indexes)

unfoldable pub read_set : ℕ → M AllowedSignerSet
read_set signer_count = do
  size ← read_u8
  check (leb 1 size && leb size max_signers_per_leaf) (plain_error bad_length)
  indexes ← read_indexes signer_count size none
  pure (record { signer_indexes = indexes })

-- The fields behind the signers.
unfoldable pub read_sets : ℕ → NetworkId → WalletMode → ℕ → List Signer → M WalletDescriptor
read_sets version network mode signer_count signers = do
  set_count ← read_u16
  sets ← read_times set_count (read_set signer_count)
  receive ← read_text
  change ← read_text
  check (not (length receive == 0)) (plain_error empty_field)
  check (not (length change == 0)) (plain_error empty_field)
  recovery ← read_recovery
  pure (record {
    version = version;
    network = network;
    wallet_mode = mode;
    signers = signers;
    allowed_signer_sets = sets;
    receive_descriptor = receive;
    change_descriptor = change;
    recovery = recovery;
  })

unfoldable pub read_descriptor : M WalletDescriptor
read_descriptor = do
  version ← read_contract_header contract_id (descriptor_version ∷ [])
  network_code ← read_u8
  network ← lift (decode_network_id network_code)
  mode_code ← read_u8
  mode ← lift (decode_wallet_mode mode_code)
  signer_count ← read_u16
  check (not (signer_count == 0)) (plain_error empty_field)
  signers ← read_times signer_count read_signer
  read_sets version network mode signer_count signers

unfoldable pub decode_wallet_descriptor : Bytes → Result WalletDescriptor
decode_wallet_descriptor bytes = whole read_descriptor bytes
