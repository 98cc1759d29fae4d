-- ===== src/Contracts/SyncEnvelope.antt =====
-- src/contracts/syncEnvelope.ts: the signed event header.
pub mod Codec
pub mod RoundTrip
use sigbash_sdk.Prelude.{ℕ, List, Option, none, some, ◌≡◌, length, All}
use sigbash_sdk.Bytes.{Bytes}
use sigbash_sdk.Text.{Text}

abbrev pub contract_id : ℕ
contract_id = 0x05

abbrev pub header_version : ℕ
header_version = 1

-- The length of an event's, an organisation's and a user's id.
abbrev pub client_id_length : ℕ
client_id_length = 16

pub record EventHeader : Type 0 where
  pub schema_version : ℕ
  pub event_id : Bytes
  pub event_type : Text
  pub org_client_id : Bytes
  pub wallet_client_id : Option Bytes
  pub subject_id : Option Bytes
  pub actor_user_id : Bytes
  pub client_timestamp_ms : ℕ
  pub parent_event_hashes : List Bytes
  pub semantic_commitment : Option Bytes
  pub actor_signature : Bytes

-- An optional field has the width `n` where it is there.
abbrev pub HasWidth : ℕ → Option Bytes → Type 0
HasWidth n none = Unit
HasWidth n (some bytes) = length bytes ≡ n

-- The fields that the encoder does not measure have the widths that the decoder reads.
pub record IsSized (h : EventHeader) : Type 0 where
  pub wallet : HasWidth 16 h.wallet_client_id
  pub subject : HasWidth 16 h.subject_id
  pub commitment : HasWidth 32 h.semantic_commitment
  pub parents : All (λ p. length p ≡ 32) h.parent_event_hashes
