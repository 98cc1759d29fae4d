-- ===== src/Contracts.antt =====
-- src/contracts: the versioned contracts, each with its encoder and its strict decoder.
pub mod Codes
pub mod Fields
pub mod ApprovalCommitment
pub mod SyncEnvelope
pub mod AuthorizationArtifact
pub mod AuthorizationSubject
pub mod WalletDescriptor
pub mod Policy
