-- ===== src/Contracts/SyncEnvelope/Codec/Encode.antt =====
-- `encodeEncryptedEventHeaderV1`.
use sigbash_sdk.Prelude.{
  List, [], ◌∷◌, ◌++◌, map, Option, none, some, length, not, ◌==◌, Result, ok, ◌>>◌, guard,
  plain_error, bad_length, empty_field,
}
use sigbash_sdk.Bytes.{Bytes, u8be, u16be, u64be, concat_bytes, length_delimited, contract_header}
use sigbash_sdk.Contracts.Fields.{text_field}
use sigbash_sdk.Contracts.SyncEnvelope.{contract_id, header_version, client_id_length, EventHeader}

-- `x ? concatBytes(u8be(0x01), x) : u8be(0x00)`
unfoldable pub optional_field : Option Bytes → Result Bytes
optional_field none = u8be 0x00
optional_field (some bytes) = concat_bytes (u8be 0x01 ∷ ok bytes ∷ [])

-- The fields behind the parent hashes.
unfoldable pub tail_parts : EventHeader → List (Result Bytes)
tail_parts header =
    optional_field header.semantic_commitment ∷ length_delimited header.actor_signature ∷ []

unfoldable pub header_parts : EventHeader → List (Result Bytes)
header_parts header =
    contract_header contract_id header_version
    ∷ u8be header.schema_version
    ∷ ok header.event_id
    ∷ text_field header.event_type
    ∷ ok header.org_client_id
    ∷ optional_field header.wallet_client_id
    ∷ optional_field header.subject_id
    ∷ ok header.actor_user_id
    ∷ u64be header.client_timestamp_ms
    ∷ u16be (length header.parent_event_hashes)
    ∷ (map ok header.parent_event_hashes ++ tail_parts header)

unfoldable pub encode_event_header : EventHeader → Result Bytes
encode_event_header header = do
  guard (length header.event_id == client_id_length) (plain_error bad_length)
  guard (length header.org_client_id == client_id_length) (plain_error bad_length)
  guard (length header.actor_user_id == client_id_length) (plain_error bad_length)
  guard (not (length header.event_type == 0)) (plain_error empty_field)
  concat_bytes (header_parts header)
