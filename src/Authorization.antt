-- ===== src/Authorization.antt =====
-- src/authorization: the subject of an authorization, its proof envelope, the issuer's keys, and
-- the verification checklist.
pub mod Psbt
pub mod Envelope
pub mod Adapters
pub mod IssuerKeySet
pub mod BitcoinPsbt
pub mod Verify
