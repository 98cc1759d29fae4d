-- ===== src/Contracts/AuthorizationArtifact/Decode.antt =====
-- `decodeAuthorizationArtifactV1` and its reader.
use sigbash_sdk.Prelude.{
  ℕ, List, [], ◌∷◌, length, ◌==◌, Bool, Error, Result, ok, err, format_error, non_canonical,
  unknown_version, eqb,
}
use sigbash_sdk.Prelude
use sigbash_sdk.Bytes.{Bytes}
use sigbash_sdk.Bytes.Decoder.{M, ◌>>=◌, ◌>>◌, pure, check, read_bytes_or, whole_or}
use sigbash_sdk.Bytes.LittleEndian.{from_little_endian, to_number}
use sigbash_sdk.Text.{Text, decode_text}
use sigbash_sdk.Contracts.AuthorizationArtifact.{artifact_version, encoding_prefix, ArtifactFields}
use sigbash_sdk.Contracts.AuthorizationArtifact.Encode.{encode_authorization_artifact}

abbrev pub malformed : Error
malformed = format_error non_canonical

unfoldable pub read_u16le : M ℕ
read_u16le = do bytes ← read_bytes_or malformed 2; pure (from_little_endian bytes)

unfoldable pub read_u64le : M ℕ
read_u64le = do bytes ← read_bytes_or malformed 8; pure (from_little_endian bytes)

unfoldable pub read_length_prefixed : M Text
read_length_prefixed = do
  n ← read_u16le
  bytes ← read_bytes_or malformed n
  pure (decode_text bytes)

-- The commitments, the numbers and the texts behind the network.
unfoldable pub read_signed : ℕ → Text → Text → Text → M ArtifactFields
read_signed version subject_kind protocol network = do
  subject_commitment ← read_bytes_or malformed 32
  policy_root ← read_bytes_or malformed 32
  scope ← read_bytes_or malformed 32
  max_uses ← read_u64le
  issued_at ← read_u64le
  expires_at ← read_u64le
  artifact_nonce ← read_bytes_or malformed 32
  issuer_kid ← read_length_prefixed
  strength ← read_length_prefixed
  burn_set_aggregate ← read_bytes_or malformed 32
  pure (record {
    version = version;
    subject_kind = subject_kind;
    protocol = protocol;
    network = network;
    subject_commitment = subject_commitment;
    policy_root = policy_root;
    scope = scope;
    max_uses = max_uses;
    issued_at = to_number issued_at;
    expires_at = to_number expires_at;
    artifact_nonce = artifact_nonce;
    issuer_kid = issuer_kid;
    strength = strength;
    burn_set_aggregate = burn_set_aggregate;
  })

unfoldable pub read_artifact : M ArtifactFields
read_artifact = do
  prefix ← read_bytes_or malformed (length encoding_prefix)
  check (eqb (decode_text prefix) encoding_prefix) malformed
  version ← read_u16le
  check (version == artifact_version) (format_error unknown_version)
  subject_kind ← read_length_prefixed
  protocol ← read_length_prefixed
  network ← read_length_prefixed
  read_signed version subject_kind protocol network

-- The decoder encodes what it read again, and compares.
unfoldable pub decode_authorization_artifact : Bytes → Result ArtifactFields
decode_authorization_artifact input =
    Prelude.◌>>=◌ (whole_or malformed read_artifact input) λ fields.
      Prelude.◌>>=◌ (encode_authorization_artifact fields)
        λ reencoded. Prelude.◌>>◌ (Prelude.guard (eqb reencoded input) malformed) (ok fields)

-- An encoding with its signature.
pub record EncodedArtifact : Type 0 where
  pub raw : Bytes
  pub signature : Bytes

-- `decodeSignedAuthorizationArtifact`
unfoldable pub decode_signed_authorization_artifact :
    Bytes → Bytes → Result (ArtifactFields × EncodedArtifact)
decode_signed_authorization_artifact raw signature =
    Prelude.◌>>◌ (Prelude.guard (length signature == 64) malformed) (
      Prelude.◌>>=◌ (decode_authorization_artifact raw)
        λ fields. ok (fields, record { raw = raw; signature = signature }))
