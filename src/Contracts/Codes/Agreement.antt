-- ===== src/Contracts/Codes/Agreement.antt =====
-- The ten enumerations and their codes, together.
use sigbash_sdk.Prelude.{ℕ, ◌≡◌, ◌↔◌, Result, ok}
use sigbash_sdk.Contracts.Codes.Tables.{
  encode_network_id, decode_network_id, encode_wallet_signer_kind, decode_wallet_signer_kind,
  encode_wallet_mode, decode_wallet_mode, encode_transaction_proposal_state,
  decode_transaction_proposal_state, encode_signing_attempt_state, decode_signing_attempt_state,
  encode_signing_session_state, decode_signing_session_state, encode_policy_key_access_status,
  decode_policy_key_access_status, encode_policy_enforcement_class, decode_policy_enforcement_class,
  encode_policy_version_state, decode_policy_version_state, encode_protocol_authority_status,
  decode_protocol_authority_status,
}
use sigbash_sdk.Contracts.Codes.Laws.{
  decode_network_id-eq-ok_iff, decode_wallet_signer_kind-eq-ok_iff, decode_wallet_mode-eq-ok_iff,
  decode_transaction_proposal_state-eq-ok_iff, decode_signing_attempt_state-eq-ok_iff,
  decode_signing_session_state-eq-ok_iff, decode_policy_key_access_status-eq-ok_iff,
  decode_policy_enforcement_class-eq-ok_iff, decode_policy_version_state-eq-ok_iff,
  decode_protocol_authority_status-eq-ok_iff,
}

-- A decoder takes exactly the codes that the encoder writes, each to the name that it stands for.
abbrev Agree : {K : Type 0} → (K → ℕ) → (ℕ → Result K) → Type 0
Agree {K} encode decode = (code : ℕ) (x : K) → (decode code ≡ ok x) ↔ (code ≡ encode x)

-- Each of the ten decoders of codes takes a number to a name exactly when the number is the name's
-- code.
codes_Agree :
    Agree encode_network_id decode_network_id
    × Agree encode_wallet_signer_kind decode_wallet_signer_kind
    × Agree encode_wallet_mode decode_wallet_mode
    × Agree encode_transaction_proposal_state decode_transaction_proposal_state
    × Agree encode_signing_attempt_state decode_signing_attempt_state
    × Agree encode_signing_session_state decode_signing_session_state
    × Agree encode_policy_key_access_status decode_policy_key_access_status
    × Agree encode_policy_enforcement_class decode_policy_enforcement_class
    × Agree encode_policy_version_state decode_policy_version_state
    × Agree encode_protocol_authority_status decode_protocol_authority_status
codes_Agree = (
  decode_network_id-eq-ok_iff, decode_wallet_signer_kind-eq-ok_iff, decode_wallet_mode-eq-ok_iff,
  decode_transaction_proposal_state-eq-ok_iff, decode_signing_attempt_state-eq-ok_iff,
  decode_signing_session_state-eq-ok_iff, decode_policy_key_access_status-eq-ok_iff,
  decode_policy_enforcement_class-eq-ok_iff, decode_policy_version_state-eq-ok_iff,
  decode_protocol_authority_status-eq-ok_iff,
)
