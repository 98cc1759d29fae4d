-- ===== src/Contracts/SyncEnvelope/Codec.antt =====
-- `encodeEncryptedEventHeaderV1` and `decodeEncryptedEventHeaderV1`.
pub mod Encode
pub mod Decode
