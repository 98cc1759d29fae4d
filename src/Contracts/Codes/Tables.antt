-- ===== src/Contracts/Codes/Tables.antt =====
-- The enumerations and their code tables.
use sigbash_sdk.Prelude.{ℕ, List, [], ◌∷◌, Bool, true, false, Result}
use sigbash_sdk.Contracts.Codes.{decode_code}

-- network.ts
pub data NetworkId : Type 0 where
  signet mainnet : NetworkId

abbrev pub network_codes : List (NetworkId × ℕ)
network_codes = (NetworkId.signet, 0x01) ∷ (NetworkId.mainnet, 0x02) ∷ []

unfoldable pub encode_network_id : NetworkId → ℕ
encode_network_id NetworkId.signet = 0x01
encode_network_id NetworkId.mainnet = 0x02

unfoldable pub decode_network_id : ℕ → Result NetworkId
unfolding decode_code
decode_network_id = decode_code network_codes

-- walletDescriptor.ts
pub data WalletSignerKind : Type 0 where
  sigbash_policy_key external_xpub : WalletSignerKind

abbrev pub wallet_signer_kind_codes : List (WalletSignerKind × ℕ)
wallet_signer_kind_codes =
    (WalletSignerKind.sigbash_policy_key, 0x01) ∷ (WalletSignerKind.external_xpub, 0x02) ∷ []

unfoldable pub encode_wallet_signer_kind : WalletSignerKind → ℕ
encode_wallet_signer_kind WalletSignerKind.sigbash_policy_key = 0x01
encode_wallet_signer_kind WalletSignerKind.external_xpub = 0x02

unfoldable pub decode_wallet_signer_kind : ℕ → Result WalletSignerKind
unfolding decode_code
decode_wallet_signer_kind = decode_code wallet_signer_kind_codes

-- walletDescriptor.ts
pub data WalletMode : Type 0 where
  sigbash_native mixed : WalletMode

abbrev pub wallet_mode_codes : List (WalletMode × ℕ)
wallet_mode_codes = (WalletMode.sigbash_native, 0x01) ∷ (WalletMode.mixed, 0x02) ∷ []

unfoldable pub encode_wallet_mode : WalletMode → ℕ
encode_wallet_mode WalletMode.sigbash_native = 0x01
encode_wallet_mode WalletMode.mixed = 0x02

unfoldable pub decode_wallet_mode : ℕ → Result WalletMode
unfolding decode_code
decode_wallet_mode = decode_code wallet_mode_codes

-- proposal.ts
pub data TransactionProposalState : Type 0 where
  draft proposed awaiting_approvals approved rejected expired cancelled superseded signing
        session_restart_required finalized broadcast broadcast_failed confirmed :
      TransactionProposalState

abbrev pub proposal_state_codes : List (TransactionProposalState × ℕ)
proposal_state_codes =
    (TransactionProposalState.draft, 0x01)
    ∷ (TransactionProposalState.proposed, 0x02)
    ∷ (TransactionProposalState.awaiting_approvals, 0x03)
    ∷ (TransactionProposalState.approved, 0x04)
    ∷ (TransactionProposalState.rejected, 0x05)
    ∷ (TransactionProposalState.expired, 0x06)
    ∷ (TransactionProposalState.cancelled, 0x07)
    ∷ (TransactionProposalState.superseded, 0x08)
    ∷ (TransactionProposalState.signing, 0x09)
    ∷ (TransactionProposalState.session_restart_required, 0x0a)
    ∷ (TransactionProposalState.finalized, 0x0b)
    ∷ (TransactionProposalState.broadcast, 0x0c)
    ∷ (TransactionProposalState.broadcast_failed, 0x0d)
    ∷ (TransactionProposalState.confirmed, 0x0e)
    ∷ []

unfoldable pub encode_transaction_proposal_state : TransactionProposalState → ℕ
encode_transaction_proposal_state TransactionProposalState.draft = 0x01
encode_transaction_proposal_state TransactionProposalState.proposed = 0x02
encode_transaction_proposal_state TransactionProposalState.awaiting_approvals = 0x03
encode_transaction_proposal_state TransactionProposalState.approved = 0x04
encode_transaction_proposal_state TransactionProposalState.rejected = 0x05
encode_transaction_proposal_state TransactionProposalState.expired = 0x06
encode_transaction_proposal_state TransactionProposalState.cancelled = 0x07
encode_transaction_proposal_state TransactionProposalState.superseded = 0x08
encode_transaction_proposal_state TransactionProposalState.signing = 0x09
encode_transaction_proposal_state TransactionProposalState.session_restart_required = 0x0a
encode_transaction_proposal_state TransactionProposalState.finalized = 0x0b
encode_transaction_proposal_state TransactionProposalState.broadcast = 0x0c
encode_transaction_proposal_state TransactionProposalState.broadcast_failed = 0x0d
encode_transaction_proposal_state TransactionProposalState.confirmed = 0x0e

unfoldable pub decode_transaction_proposal_state : ℕ → Result TransactionProposalState
unfolding decode_code
decode_transaction_proposal_state = decode_code proposal_state_codes

-- proposal.ts
pub data SigningAttemptState : Type 0 where
  pending nonces_issued proof_verified partially_signed completed terminal_failed :
      SigningAttemptState

abbrev pub attempt_state_codes : List (SigningAttemptState × ℕ)
attempt_state_codes =
    (SigningAttemptState.pending, 0x01)
    ∷ (SigningAttemptState.nonces_issued, 0x02)
    ∷ (SigningAttemptState.proof_verified, 0x03)
    ∷ (SigningAttemptState.partially_signed, 0x04)
    ∷ (SigningAttemptState.completed, 0x05)
    ∷ (SigningAttemptState.terminal_failed, 0x06)
    ∷ []

unfoldable pub encode_signing_attempt_state : SigningAttemptState → ℕ
encode_signing_attempt_state SigningAttemptState.pending = 0x01
encode_signing_attempt_state SigningAttemptState.nonces_issued = 0x02
encode_signing_attempt_state SigningAttemptState.proof_verified = 0x03
encode_signing_attempt_state SigningAttemptState.partially_signed = 0x04
encode_signing_attempt_state SigningAttemptState.completed = 0x05
encode_signing_attempt_state SigningAttemptState.terminal_failed = 0x06

unfoldable pub decode_signing_attempt_state : ℕ → Result SigningAttemptState
unfolding decode_code
decode_signing_attempt_state = decode_code attempt_state_codes

-- signingSession.ts
pub data SigningSessionState : Type 0 where
  active completed abandoned : SigningSessionState

abbrev pub session_state_codes : List (SigningSessionState × ℕ)
session_state_codes =
    (SigningSessionState.active, 0x01)
    ∷ (SigningSessionState.completed, 0x02)
    ∷ (SigningSessionState.abandoned, 0x03)
    ∷ []

unfoldable pub encode_signing_session_state : SigningSessionState → ℕ
encode_signing_session_state SigningSessionState.active = 0x01
encode_signing_session_state SigningSessionState.completed = 0x02
encode_signing_session_state SigningSessionState.abandoned = 0x03

unfoldable pub decode_signing_session_state : ℕ → Result SigningSessionState
unfolding decode_code
decode_signing_session_state = decode_code session_state_codes

-- policyKeyAccess.ts
pub data PolicyKeyAccessStatus : Type 0 where
  active revoked : PolicyKeyAccessStatus

abbrev pub access_status_codes : List (PolicyKeyAccessStatus × ℕ)
access_status_codes =
    (PolicyKeyAccessStatus.active, 0x01) ∷ (PolicyKeyAccessStatus.revoked, 0x02) ∷ []

unfoldable pub encode_policy_key_access_status : PolicyKeyAccessStatus → ℕ
encode_policy_key_access_status PolicyKeyAccessStatus.active = 0x01
encode_policy_key_access_status PolicyKeyAccessStatus.revoked = 0x02

unfoldable pub decode_policy_key_access_status : ℕ → Result PolicyKeyAccessStatus
unfolding decode_code
decode_policy_key_access_status = decode_code access_status_codes

-- policy.ts
pub data PolicyEnforcementClass : Type 0 where
  hard_cryptographic governance_only disabled_unsound : PolicyEnforcementClass

abbrev pub enforcement_class_codes : List (PolicyEnforcementClass × ℕ)
enforcement_class_codes =
    (PolicyEnforcementClass.hard_cryptographic, 0x01)
    ∷ (PolicyEnforcementClass.governance_only, 0x02)
    ∷ (PolicyEnforcementClass.disabled_unsound, 0x03)
    ∷ []

unfoldable pub encode_policy_enforcement_class : PolicyEnforcementClass → ℕ
encode_policy_enforcement_class PolicyEnforcementClass.hard_cryptographic = 0x01
encode_policy_enforcement_class PolicyEnforcementClass.governance_only = 0x02
encode_policy_enforcement_class PolicyEnforcementClass.disabled_unsound = 0x03

unfoldable pub decode_policy_enforcement_class : ℕ → Result PolicyEnforcementClass
unfolding decode_code
decode_policy_enforcement_class = decode_code enforcement_class_codes

-- policy.ts
pub data PolicyVersionState : Type 0 where
  draft proposed awaiting_approvals approved migration_required submitted cooling_off active
        rejected cancelled superseded :
      PolicyVersionState

abbrev pub policy_version_state_codes : List (PolicyVersionState × ℕ)
policy_version_state_codes =
    (PolicyVersionState.draft, 0x01)
    ∷ (PolicyVersionState.proposed, 0x02)
    ∷ (PolicyVersionState.awaiting_approvals, 0x03)
    ∷ (PolicyVersionState.approved, 0x04)
    ∷ (PolicyVersionState.migration_required, 0x05)
    ∷ (PolicyVersionState.submitted, 0x06)
    ∷ (PolicyVersionState.cooling_off, 0x07)
    ∷ (PolicyVersionState.active, 0x08)
    ∷ (PolicyVersionState.rejected, 0x09)
    ∷ (PolicyVersionState.cancelled, 0x0a)
    ∷ (PolicyVersionState.superseded, 0x0b)
    ∷ []

unfoldable pub encode_policy_version_state : PolicyVersionState → ℕ
encode_policy_version_state PolicyVersionState.draft = 0x01
encode_policy_version_state PolicyVersionState.proposed = 0x02
encode_policy_version_state PolicyVersionState.awaiting_approvals = 0x03
encode_policy_version_state PolicyVersionState.approved = 0x04
encode_policy_version_state PolicyVersionState.migration_required = 0x05
encode_policy_version_state PolicyVersionState.submitted = 0x06
encode_policy_version_state PolicyVersionState.cooling_off = 0x07
encode_policy_version_state PolicyVersionState.active = 0x08
encode_policy_version_state PolicyVersionState.rejected = 0x09
encode_policy_version_state PolicyVersionState.cancelled = 0x0a
encode_policy_version_state PolicyVersionState.superseded = 0x0b

unfoldable pub decode_policy_version_state : ℕ → Result PolicyVersionState
unfolding decode_code
decode_policy_version_state = decode_code policy_version_state_codes

-- protocolAuthority.ts
pub data ProtocolAuthorityStatus : Type 0 where
  active rotating retired : ProtocolAuthorityStatus

abbrev pub authority_status_codes : List (ProtocolAuthorityStatus × ℕ)
authority_status_codes =
    (ProtocolAuthorityStatus.active, 0x01)
    ∷ (ProtocolAuthorityStatus.rotating, 0x02)
    ∷ (ProtocolAuthorityStatus.retired, 0x03)
    ∷ []

unfoldable pub encode_protocol_authority_status : ProtocolAuthorityStatus → ℕ
encode_protocol_authority_status ProtocolAuthorityStatus.active = 0x01
encode_protocol_authority_status ProtocolAuthorityStatus.rotating = 0x02
encode_protocol_authority_status ProtocolAuthorityStatus.retired = 0x03

unfoldable pub decode_protocol_authority_status : ℕ → Result ProtocolAuthorityStatus
unfolding decode_code
decode_protocol_authority_status = decode_code authority_status_codes

unfoldable pub is_proposal_terminal : TransactionProposalState → Bool
is_proposal_terminal TransactionProposalState.rejected = true
is_proposal_terminal TransactionProposalState.expired = true
is_proposal_terminal TransactionProposalState.cancelled = true
is_proposal_terminal TransactionProposalState.superseded = true
is_proposal_terminal TransactionProposalState.confirmed = true
is_proposal_terminal _ = false
