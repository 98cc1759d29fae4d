-- ===== src/Contracts/AuthorizationArtifact/Encode.antt =====
-- `encodeAuthorizationArtifactV1` and its little-endian primitives.
use sigbash_sdk.Prelude.{
  ℕ, List, [], ◌∷◌, length, leb, ◌==◌, if◌then◌else◌, Result, ok, err, ◌>>◌, guard, range_error,
  plain_error, bad_length, format_error, unknown_version,
}
use sigbash_sdk.Bytes.{Bytes, concat_bytes}
use sigbash_sdk.Bytes.LittleEndian.{little_endian}
use sigbash_sdk.Text.{Text, utf8}
use sigbash_sdk.Contracts.AuthorizationArtifact.{
  artifact_version, encoding_prefix, max_length_prefixed_bytes, ArtifactFields,
}

unfoldable pub u16le : ℕ → Result Bytes
u16le value = if leb value 0xffff then ok (little_endian 2 value) else err range_error

unfoldable pub u64le : ℕ → Result Bytes
u64le value = if leb value 0xffffffffffffffff then ok (little_endian 8 value) else err range_error

-- What `appendLengthPrefixed` puts behind the bytes so far.
unfoldable pub length_prefixed : Text → Result Bytes
length_prefixed value =
    let bytes = utf8 value in
    if leb (length bytes) max_length_prefixed_bytes
    then concat_bytes (u16le (length bytes) ∷ ok bytes ∷ [])
    else err range_error

unfoldable pub assert_fixed32 : Bytes → Result (Unit {0})
assert_fixed32 bytes = guard (length bytes == 32) (plain_error bad_length)

-- The commitments, the numbers and the texts behind the network.
unfoldable pub signed_parts : ArtifactFields → List (Result Bytes)
signed_parts fields =
    ok fields.subject_commitment
    ∷ ok fields.policy_root
    ∷ ok fields.scope
    ∷ u64le fields.max_uses
    ∷ u64le fields.issued_at
    ∷ u64le fields.expires_at
    ∷ ok fields.artifact_nonce
    ∷ length_prefixed fields.issuer_kid
    ∷ length_prefixed fields.strength
    ∷ ok fields.burn_set_aggregate
    ∷ []

unfoldable pub artifact_parts : ArtifactFields → List (Result Bytes)
artifact_parts fields =
    ok (utf8 encoding_prefix)
    ∷ u16le fields.version
    ∷ length_prefixed fields.subject_kind
    ∷ length_prefixed fields.protocol
    ∷ length_prefixed fields.network
    ∷ signed_parts fields

unfoldable pub encode_authorization_artifact : ArtifactFields → Result Bytes
encode_authorization_artifact fields = do
  guard (fields.version == artifact_version) (format_error unknown_version)
  assert_fixed32 fields.subject_commitment
  assert_fixed32 fields.policy_root
  assert_fixed32 fields.scope
  assert_fixed32 fields.artifact_nonce
  assert_fixed32 fields.burn_set_aggregate
  concat_bytes (artifact_parts fields)
