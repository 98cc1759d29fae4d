-- ===== src/Contracts/AuthorizationArtifact.antt =====
-- src/contracts/authorizationArtifact.ts: the artifact that the issuer signs, in its little-endian
-- encoding. `maxUses`, a number or a `bigint` in the source, is one number here.
pub mod Encode
pub mod Decode
pub mod RoundTrip
pub mod IssuerKid
use sigbash_sdk.Prelude.{ℕ}
use sigbash_sdk.Bytes.{Bytes}
use sigbash_sdk.Text.{Text, units}

abbrev pub artifact_version : ℕ
artifact_version = 1

abbrev pub encoding_prefix : Text
encoding_prefix = units "SIGBASH.AUTHZ.ARTIFACT.V1"

abbrev pub max_length_prefixed_bytes : ℕ
max_length_prefixed_bytes = 0xffff

pub record ArtifactFields : Type 0 where
  pub version : ℕ
  pub subject_kind : Text
  pub protocol : Text
  pub network : Text
  pub subject_commitment : Bytes
  pub policy_root : Bytes
  pub scope : Bytes
  pub max_uses : ℕ
  pub issued_at : ℕ
  pub expires_at : ℕ
  pub artifact_nonce : Bytes
  pub issuer_kid : Text
  pub strength : Text
  pub burn_set_aggregate : Bytes
