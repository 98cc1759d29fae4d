-- ===== src/Runs/Event.antt =====
-- An event header with a subject, a parent and no wallet.
use sigbash_sdk.Prelude.{◌≡◌, refl, ◌↔◌, true, [], ◌∷◌, ◌++◌, replicate, none, some, ok}
use sigbash_sdk.Bytes.{
  Bytes, big_endian, u8be, u16be, u32be, u64be, concat_bytes, length_delimited, contract_header,
}
use sigbash_sdk.Text.{
  units, utf8, scalar_bytes, is_pair, is_faithful, well_formed, is_single, starts_with_mark,
}
use sigbash_sdk.Contracts.Fields.{text_field}
use sigbash_sdk.Contracts.SyncEnvelope.{EventHeader, IsSized}
use sigbash_sdk.Contracts.SyncEnvelope.Codec.Encode.{
  optional_field, tail_parts, header_parts, encode_event_header,
}
use sigbash_sdk.Contracts.SyncEnvelope.Codec.Decode.{decode_event_header}
use sigbash_sdk.Contracts.SyncEnvelope.RoundTrip.{decode-encode_event_header_iff}

abbrev sample : EventHeader
sample = record {
  schema_version = 1;
  event_id = replicate 16 1;
  event_type = units "e";
  org_client_id = replicate 16 2;
  wallet_client_id = none;
  subject_id = some (replicate 16 3);
  actor_user_id = replicate 16 4;
  client_timestamp_ms = 5;
  parent_event_hashes = replicate 32 6 ∷ [];
  semantic_commitment = none;
  actor_signature = 7 ∷ [];
}

abbrev sample_bytes : Bytes
sample_bytes =
    5
    ∷ 1
    ∷ 1
    ∷ (replicate 16 1
        ++ (0
            ∷ 0
            ∷ 0
            ∷ 1
            ∷ 101
            ∷ (replicate 16 2
                ++ (0
                    ∷ 1
                    ∷ (replicate 16 3
                        ++ (replicate 16 4
                            ++ (0
                                ∷ 0
                                ∷ 0
                                ∷ 0
                                ∷ 0
                                ∷ 0
                                ∷ 0
                                ∷ 5
                                ∷ 0
                                ∷ 1
                                ∷ (replicate 32 6 ++ (0 ∷ 0 ∷ 0 ∷ 0 ∷ 1 ∷ 7 ∷ [])))))))))

sample_encodes : encode_event_header sample ≡ ok sample_bytes
unfolding big_endian u8be u16be u32be u64be concat_bytes length_delimited contract_header utf8
    scalar_bytes is_pair text_field optional_field tail_parts header_parts encode_event_header
sample_encodes = refl

sample_is_faithful : is_faithful (units "e") ≡ true
unfolding well_formed is_pair is_single starts_with_mark
sample_is_faithful = refl

decode-encode_event_header_iff_example :
    (decode_event_header sample_bytes ≡ ok sample) ↔ IsSized sample
decode-encode_event_header_iff_example =
    decode-encode_event_header_iff sample sample_bytes sample_is_faithful sample_encodes
