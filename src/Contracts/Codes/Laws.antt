-- ===== src/Contracts/Codes/Laws.antt =====
-- Each code table, read in both directions.
use sigbash_sdk.Prelude.{ℕ, ◌≡◌, ◌↔◌, refl, sym, arith, ok}
use sigbash_sdk.Contracts.Codes.Tables.{
  NetworkId, encode_network_id, decode_network_id, WalletSignerKind, encode_wallet_signer_kind,
  decode_wallet_signer_kind, WalletMode, encode_wallet_mode, decode_wallet_mode,
  TransactionProposalState, encode_transaction_proposal_state, decode_transaction_proposal_state,
  SigningAttemptState, encode_signing_attempt_state, decode_signing_attempt_state,
  SigningSessionState, encode_signing_session_state, decode_signing_session_state,
  PolicyKeyAccessStatus, encode_policy_key_access_status, decode_policy_key_access_status,
  PolicyEnforcementClass, encode_policy_enforcement_class, decode_policy_enforcement_class,
  PolicyVersionState, encode_policy_version_state, decode_policy_version_state,
  ProtocolAuthorityStatus, encode_protocol_authority_status, decode_protocol_authority_status,
}

decode_network_id_encode : (x : NetworkId) → decode_network_id (encode_network_id x) ≡ ok x
unfolding decode_network_id encode_network_id
decode_network_id_encode NetworkId.signet = refl
decode_network_id_encode NetworkId.mainnet = refl

decode_network_id_only :
    (code : ℕ) (x : NetworkId) → decode_network_id code ≡ ok x → encode_network_id x ≡ code
unfolding decode_network_id encode_network_id
decode_network_id_only code x h = ground arith

pub decode_network_id-eq-ok_iff :
    (code : ℕ) (x : NetworkId) → (decode_network_id code ≡ ok x) ↔ (code ≡ encode_network_id x)
decode_network_id-eq-ok_iff code x =
    (λ h. sym (decode_network_id_only code x h), λ h. rw h (decode_network_id_encode x))

decode_wallet_signer_kind_encode :
    (x : WalletSignerKind) → decode_wallet_signer_kind (encode_wallet_signer_kind x) ≡ ok x
unfolding decode_wallet_signer_kind encode_wallet_signer_kind
decode_wallet_signer_kind_encode WalletSignerKind.sigbash_policy_key = refl
decode_wallet_signer_kind_encode WalletSignerKind.external_xpub = refl

decode_wallet_signer_kind_only :
    (code : ℕ) (x : WalletSignerKind)
    → decode_wallet_signer_kind code ≡ ok x
    → encode_wallet_signer_kind x ≡ code
unfolding decode_wallet_signer_kind encode_wallet_signer_kind
decode_wallet_signer_kind_only code x h = ground arith

pub decode_wallet_signer_kind-eq-ok_iff :
    (code : ℕ) (x : WalletSignerKind)
    → (decode_wallet_signer_kind code ≡ ok x) ↔ (code ≡ encode_wallet_signer_kind x)
decode_wallet_signer_kind-eq-ok_iff code x = (
  λ h. sym (decode_wallet_signer_kind_only code x h),
  λ h. rw h (decode_wallet_signer_kind_encode x),
)

decode_wallet_mode_encode : (x : WalletMode) → decode_wallet_mode (encode_wallet_mode x) ≡ ok x
unfolding decode_wallet_mode encode_wallet_mode
decode_wallet_mode_encode WalletMode.sigbash_native = refl
decode_wallet_mode_encode WalletMode.mixed = refl

decode_wallet_mode_only :
    (code : ℕ) (x : WalletMode) → decode_wallet_mode code ≡ ok x → encode_wallet_mode x ≡ code
unfolding decode_wallet_mode encode_wallet_mode
decode_wallet_mode_only code x h = ground arith

pub decode_wallet_mode-eq-ok_iff :
    (code : ℕ) (x : WalletMode) → (decode_wallet_mode code ≡ ok x) ↔ (code ≡ encode_wallet_mode x)
decode_wallet_mode-eq-ok_iff code x =
    (λ h. sym (decode_wallet_mode_only code x h), λ h. rw h (decode_wallet_mode_encode x))

decode_transaction_proposal_state_encode :
    (x : TransactionProposalState)
    → decode_transaction_proposal_state (encode_transaction_proposal_state x) ≡ ok x
unfolding decode_transaction_proposal_state encode_transaction_proposal_state
decode_transaction_proposal_state_encode TransactionProposalState.draft = refl
decode_transaction_proposal_state_encode TransactionProposalState.proposed = refl
decode_transaction_proposal_state_encode TransactionProposalState.awaiting_approvals = refl
decode_transaction_proposal_state_encode TransactionProposalState.approved = refl
decode_transaction_proposal_state_encode TransactionProposalState.rejected = refl
decode_transaction_proposal_state_encode TransactionProposalState.expired = refl
decode_transaction_proposal_state_encode TransactionProposalState.cancelled = refl
decode_transaction_proposal_state_encode TransactionProposalState.superseded = refl
decode_transaction_proposal_state_encode TransactionProposalState.signing = refl
decode_transaction_proposal_state_encode TransactionProposalState.session_restart_required = refl
decode_transaction_proposal_state_encode TransactionProposalState.finalized = refl
decode_transaction_proposal_state_encode TransactionProposalState.broadcast = refl
decode_transaction_proposal_state_encode TransactionProposalState.broadcast_failed = refl
decode_transaction_proposal_state_encode TransactionProposalState.confirmed = refl

decode_transaction_proposal_state_only :
    (code : ℕ) (x : TransactionProposalState)
    → decode_transaction_proposal_state code ≡ ok x
    → encode_transaction_proposal_state x ≡ code
unfolding decode_transaction_proposal_state encode_transaction_proposal_state
decode_transaction_proposal_state_only code x h = ground arith

pub decode_transaction_proposal_state-eq-ok_iff :
    (code : ℕ) (x : TransactionProposalState)
    → (decode_transaction_proposal_state code ≡ ok x) ↔ (code ≡ encode_transaction_proposal_state x)
decode_transaction_proposal_state-eq-ok_iff code x = (
  λ h. sym (decode_transaction_proposal_state_only code x h),
  λ h. rw h (decode_transaction_proposal_state_encode x),
)

decode_signing_attempt_state_encode :
    (x : SigningAttemptState) → decode_signing_attempt_state (encode_signing_attempt_state x) ≡ ok x
unfolding decode_signing_attempt_state encode_signing_attempt_state
decode_signing_attempt_state_encode SigningAttemptState.pending = refl
decode_signing_attempt_state_encode SigningAttemptState.nonces_issued = refl
decode_signing_attempt_state_encode SigningAttemptState.proof_verified = refl
decode_signing_attempt_state_encode SigningAttemptState.partially_signed = refl
decode_signing_attempt_state_encode SigningAttemptState.completed = refl
decode_signing_attempt_state_encode SigningAttemptState.terminal_failed = refl

decode_signing_attempt_state_only :
    (code : ℕ) (x : SigningAttemptState)
    → decode_signing_attempt_state code ≡ ok x
    → encode_signing_attempt_state x ≡ code
unfolding decode_signing_attempt_state encode_signing_attempt_state
decode_signing_attempt_state_only code x h = ground arith

pub decode_signing_attempt_state-eq-ok_iff :
    (code : ℕ) (x : SigningAttemptState)
    → (decode_signing_attempt_state code ≡ ok x) ↔ (code ≡ encode_signing_attempt_state x)
decode_signing_attempt_state-eq-ok_iff code x = (
  λ h. sym (decode_signing_attempt_state_only code x h),
  λ h. rw h (decode_signing_attempt_state_encode x),
)

decode_signing_session_state_encode :
    (x : SigningSessionState) → decode_signing_session_state (encode_signing_session_state x) ≡ ok x
unfolding decode_signing_session_state encode_signing_session_state
decode_signing_session_state_encode SigningSessionState.active = refl
decode_signing_session_state_encode SigningSessionState.completed = refl
decode_signing_session_state_encode SigningSessionState.abandoned = refl

decode_signing_session_state_only :
    (code : ℕ) (x : SigningSessionState)
    → decode_signing_session_state code ≡ ok x
    → encode_signing_session_state x ≡ code
unfolding decode_signing_session_state encode_signing_session_state
decode_signing_session_state_only code x h = ground arith

pub decode_signing_session_state-eq-ok_iff :
    (code : ℕ) (x : SigningSessionState)
    → (decode_signing_session_state code ≡ ok x) ↔ (code ≡ encode_signing_session_state x)
decode_signing_session_state-eq-ok_iff code x = (
  λ h. sym (decode_signing_session_state_only code x h),
  λ h. rw h (decode_signing_session_state_encode x),
)

decode_policy_key_access_status_encode :
    (x : PolicyKeyAccessStatus)
    → decode_policy_key_access_status (encode_policy_key_access_status x) ≡ ok x
unfolding decode_policy_key_access_status encode_policy_key_access_status
decode_policy_key_access_status_encode PolicyKeyAccessStatus.active = refl
decode_policy_key_access_status_encode PolicyKeyAccessStatus.revoked = refl

decode_policy_key_access_status_only :
    (code : ℕ) (x : PolicyKeyAccessStatus)
    → decode_policy_key_access_status code ≡ ok x
    → encode_policy_key_access_status x ≡ code
unfolding decode_policy_key_access_status encode_policy_key_access_status
decode_policy_key_access_status_only code x h = ground arith

pub decode_policy_key_access_status-eq-ok_iff :
    (code : ℕ) (x : PolicyKeyAccessStatus)
    → (decode_policy_key_access_status code ≡ ok x) ↔ (code ≡ encode_policy_key_access_status x)
decode_policy_key_access_status-eq-ok_iff code x = (
  λ h. sym (decode_policy_key_access_status_only code x h),
  λ h. rw h (decode_policy_key_access_status_encode x),
)

decode_policy_enforcement_class_encode :
    (x : PolicyEnforcementClass)
    → decode_policy_enforcement_class (encode_policy_enforcement_class x) ≡ ok x
unfolding decode_policy_enforcement_class encode_policy_enforcement_class
decode_policy_enforcement_class_encode PolicyEnforcementClass.hard_cryptographic = refl
decode_policy_enforcement_class_encode PolicyEnforcementClass.governance_only = refl
decode_policy_enforcement_class_encode PolicyEnforcementClass.disabled_unsound = refl

decode_policy_enforcement_class_only :
    (code : ℕ) (x : PolicyEnforcementClass)
    → decode_policy_enforcement_class code ≡ ok x
    → encode_policy_enforcement_class x ≡ code
unfolding decode_policy_enforcement_class encode_policy_enforcement_class
decode_policy_enforcement_class_only code x h = ground arith

pub decode_policy_enforcement_class-eq-ok_iff :
    (code : ℕ) (x : PolicyEnforcementClass)
    → (decode_policy_enforcement_class code ≡ ok x) ↔ (code ≡ encode_policy_enforcement_class x)
decode_policy_enforcement_class-eq-ok_iff code x = (
  λ h. sym (decode_policy_enforcement_class_only code x h),
  λ h. rw h (decode_policy_enforcement_class_encode x),
)

decode_policy_version_state_encode :
    (x : PolicyVersionState) → decode_policy_version_state (encode_policy_version_state x) ≡ ok x
unfolding decode_policy_version_state encode_policy_version_state
decode_policy_version_state_encode PolicyVersionState.draft = refl
decode_policy_version_state_encode PolicyVersionState.proposed = refl
decode_policy_version_state_encode PolicyVersionState.awaiting_approvals = refl
decode_policy_version_state_encode PolicyVersionState.approved = refl
decode_policy_version_state_encode PolicyVersionState.migration_required = refl
decode_policy_version_state_encode PolicyVersionState.submitted = refl
decode_policy_version_state_encode PolicyVersionState.cooling_off = refl
decode_policy_version_state_encode PolicyVersionState.active = refl
decode_policy_version_state_encode PolicyVersionState.rejected = refl
decode_policy_version_state_encode PolicyVersionState.cancelled = refl
decode_policy_version_state_encode PolicyVersionState.superseded = refl

decode_policy_version_state_only :
    (code : ℕ) (x : PolicyVersionState)
    → decode_policy_version_state code ≡ ok x
    → encode_policy_version_state x ≡ code
unfolding decode_policy_version_state encode_policy_version_state
decode_policy_version_state_only code x h = ground arith

pub decode_policy_version_state-eq-ok_iff :
    (code : ℕ) (x : PolicyVersionState)
    → (decode_policy_version_state code ≡ ok x) ↔ (code ≡ encode_policy_version_state x)
decode_policy_version_state-eq-ok_iff code x = (
  λ h. sym (decode_policy_version_state_only code x h),
  λ h. rw h (decode_policy_version_state_encode x),
)

decode_protocol_authority_status_encode :
    (x : ProtocolAuthorityStatus)
    → decode_protocol_authority_status (encode_protocol_authority_status x) ≡ ok x
unfolding decode_protocol_authority_status encode_protocol_authority_status
decode_protocol_authority_status_encode ProtocolAuthorityStatus.active = refl
decode_protocol_authority_status_encode ProtocolAuthorityStatus.rotating = refl
decode_protocol_authority_status_encode ProtocolAuthorityStatus.retired = refl

decode_protocol_authority_status_only :
    (code : ℕ) (x : ProtocolAuthorityStatus)
    → decode_protocol_authority_status code ≡ ok x
    → encode_protocol_authority_status x ≡ code
unfolding decode_protocol_authority_status encode_protocol_authority_status
decode_protocol_authority_status_only code x h = ground arith

pub decode_protocol_authority_status-eq-ok_iff :
    (code : ℕ) (x : ProtocolAuthorityStatus)
    → (decode_protocol_authority_status code ≡ ok x) ↔ (code ≡ encode_protocol_authority_status x)
decode_protocol_authority_status-eq-ok_iff code x = (
  λ h. sym (decode_protocol_authority_status_only code x h),
  λ h. rw h (decode_protocol_authority_status_encode x),
)
