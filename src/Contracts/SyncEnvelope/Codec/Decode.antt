-- ===== src/Contracts/SyncEnvelope/Codec/Decode.antt =====
-- `decodeEncryptedEventHeaderV1`.
use sigbash_sdk.Prelude.{ℕ, [], ◌∷◌, Option, none, some, ◌==◌, Result, version_error}
use sigbash_sdk.Bytes.{Bytes}
use sigbash_sdk.Bytes.Decoder.{
  M, ◌>>=◌, ◌>>◌, pure, check, branch, read_bytes, read_u8, read_u16, read_u64,
  read_length_delimited, read_contract_header, read_times, whole,
}
use sigbash_sdk.Contracts.Fields.{read_text}
use sigbash_sdk.Contracts.SyncEnvelope.{contract_id, header_version, client_id_length, EventHeader}

-- `readOptionalId` (16 bytes) and `readOptionalHash32` (32 bytes), behind the flag.
unfoldable pub read_flagged : ℕ → ℕ → M (Option Bytes)
read_flagged n flag =
    branch (flag == 0x00) (pure none)
      do check (flag == 0x01) version_error; bytes ← read_bytes n; pure (some bytes)

unfoldable pub read_optional : ℕ → M (Option Bytes)
read_optional n = do flag ← read_u8; read_flagged n flag

unfoldable pub read_event_header : M EventHeader
read_event_header = do
  version ← read_contract_header contract_id (header_version ∷ [])
  schema_version ← read_u8
  event_id ← read_bytes client_id_length
  event_type ← read_text
  org_client_id ← read_bytes client_id_length
  wallet_client_id ← read_optional client_id_length
  subject_id ← read_optional client_id_length
  actor_user_id ← read_bytes client_id_length
  timestamp ← read_u64
  parent_count ← read_u16
  parents ← read_times parent_count (read_bytes 32)
  commitment ← read_optional 32
  signature ← read_length_delimited
  pure (record {
    schema_version = schema_version;
    event_id = event_id;
    event_type = event_type;
    org_client_id = org_client_id;
    wallet_client_id = wallet_client_id;
    subject_id = subject_id;
    actor_user_id = actor_user_id;
    client_timestamp_ms = timestamp;
    parent_event_hashes = parents;
    semantic_commitment = commitment;
    actor_signature = signature;
  })

unfoldable pub decode_event_header : Bytes → Result EventHeader
decode_event_header bytes = whole read_event_header bytes
