-- ===== src/Runs/Descriptor.antt =====
-- A wallet of two signers, one set and a recovery branch.
use sigbash_sdk.Prelude.{◌≡◌, refl, [], ◌∷◌, ◌++◌, replicate, none, some, ok}
use sigbash_sdk.Bytes.{
  Bytes, big_endian, u8be, u16be, u32be, concat_bytes, length_delimited, contract_header,
}
use sigbash_sdk.Text.{units, utf8, scalar_bytes, is_pair, well_formed, is_single, starts_with_mark}
use sigbash_sdk.Contracts.Fields.{text_field}
use sigbash_sdk.Contracts.Codes.Tables.{
  NetworkId, WalletMode, WalletSignerKind, encode_network_id, encode_wallet_mode,
  encode_wallet_signer_kind,
}
use sigbash_sdk.Contracts.WalletDescriptor.{Signer, WalletDescriptor, is_policy_key, ascending}
use sigbash_sdk.Contracts.WalletDescriptor.Encode.{
  encode_signer, encode_recovery, check_set, check_sets, encode_set, set_parts, descriptor_parts,
  encode_wallet_descriptor,
}
use sigbash_sdk.Contracts.WalletDescriptor.Decode.{decode_wallet_descriptor}
use sigbash_sdk.Contracts.WalletDescriptor.RoundTrip.{
  IsReadable, IsDescriptor, decode-encode_wallet_descriptor,
}
use sigbash_sdk.Contracts.WalletDescriptor.Sound.{IsSound, decode_wallet_descriptor-IsSound}

abbrev sigbash : Signer
sigbash = record {
  kind = WalletSignerKind.sigbash_policy_key;
  xpub = units "x";
  policy_key_id = some (units "k");
}

abbrev external : Signer
external = record { kind = WalletSignerKind.external_xpub; xpub = units "y"; policy_key_id = none }

abbrev wallet : WalletDescriptor
wallet = record {
  version = 1;
  network = NetworkId.signet;
  wallet_mode = WalletMode.mixed;
  signers = sigbash ∷ external ∷ [];
  allowed_signer_sets = record { signer_indexes = 0 ∷ 1 ∷ [] } ∷ [];
  receive_descriptor = units "r";
  change_descriptor = units "c";
  recovery = some (record { recovery_key_x_only = replicate 32 9; decay_blocks = some 144 });
}

abbrev signer_bytes : Bytes
signer_bytes =
    1 ∷ 0 ∷ 0 ∷ 0 ∷ 1 ∷ 120 ∷ 0 ∷ 0 ∷ 0 ∷ 1 ∷ 107 ∷ 2 ∷ 0 ∷ 0 ∷ 0 ∷ 1 ∷ 121 ∷ 0 ∷ 0 ∷ 0 ∷ 0 ∷ []

abbrev wallet_bytes : Bytes
wallet_bytes =
    1
    ∷ 1
    ∷ 1
    ∷ 2
    ∷ 0
    ∷ 2
    ∷ (signer_bytes
        ++ (0
            ∷ 1
            ∷ 2
            ∷ 0
            ∷ 1
            ∷ 0
            ∷ 0
            ∷ 0
            ∷ 1
            ∷ 114
            ∷ 0
            ∷ 0
            ∷ 0
            ∷ 1
            ∷ 99
            ∷ 1
            ∷ 0
            ∷ 0
            ∷ 0
            ∷ 32
            ∷ (replicate 32 9 ++ (0 ∷ 144 ∷ []))))

wallet_encodes : encode_wallet_descriptor wallet ≡ ok wallet_bytes
unfolding big_endian u8be u16be u32be concat_bytes length_delimited contract_header utf8
    scalar_bytes is_pair text_field encode_network_id encode_wallet_mode encode_wallet_signer_kind
    is_policy_key ascending encode_signer encode_recovery check_set check_sets encode_set set_parts
    descriptor_parts encode_wallet_descriptor
wallet_encodes = refl

sigbash-IsReadable : IsReadable sigbash
unfolding utf8 scalar_bytes well_formed is_pair is_single starts_with_mark
sigbash-IsReadable = record { xpub = refl; xpub_width = refl; key_id = refl; key_id_present = refl }

external-IsReadable : IsReadable external
unfolding utf8 scalar_bytes well_formed is_pair is_single starts_with_mark
external-IsReadable = record {
  xpub = refl;
  xpub_width = refl;
  key_id = refl;
  key_id_present = refl;
}

wallet-IsDescriptor : IsDescriptor wallet
unfolding well_formed is_pair is_single starts_with_mark
wallet-IsDescriptor = record {
  signers = (sigbash-IsReadable, (external-IsReadable, tt));
  receive = refl;
  receive_present = refl;
  change = refl;
  change_present = refl;
}

decode-encode_wallet_descriptor_example : decode_wallet_descriptor wallet_bytes ≡ ok wallet
decode-encode_wallet_descriptor_example =
    decode-encode_wallet_descriptor wallet wallet-IsDescriptor wallet_bytes wallet_encodes

decode_wallet_descriptor-IsSound_example : IsSound wallet
decode_wallet_descriptor-IsSound_example =
    decode_wallet_descriptor-IsSound wallet_bytes wallet
      (decode-encode_wallet_descriptor wallet wallet-IsDescriptor wallet_bytes wallet_encodes)
