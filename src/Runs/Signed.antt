-- ===== src/Runs/Signed.antt =====
-- The artifact that the runs of the checklist accept.
use sigbash_sdk.Prelude.{ℕ, ◌≡◌, refl, [], ◌∷◌, ◌++◌, replicate, ok, arith}
use sigbash_sdk.Bytes.{Bytes, concat_bytes}
use sigbash_sdk.Bytes.LittleEndian.{little_endian}
use sigbash_sdk.Text.{units, utf8, scalar_bytes, is_pair, well_formed, is_single, starts_with_mark}
use sigbash_sdk.Contracts.AuthorizationArtifact.{ArtifactFields}
use sigbash_sdk.Contracts.AuthorizationArtifact.Encode.{
  u16le, u64le, length_prefixed, assert_fixed32, signed_parts, artifact_parts,
  encode_authorization_artifact,
}
use sigbash_sdk.Contracts.AuthorizationArtifact.Decode.{decode_authorization_artifact}
use sigbash_sdk.Contracts.AuthorizationArtifact.RoundTrip.{
  IsFaithful, decode_authorization_artifact_iff,
}

abbrev pub fields : ArtifactFields
fields = record {
  version = 1;
  subject_kind = units "tx";
  protocol = units "bitcoin";
  network = units "signet";
  subject_commitment = 36 ∷ replicate 31 0;
  policy_root = replicate 32 2;
  scope = replicate 32 3;
  max_uses = 7;
  issued_at = 256;
  expires_at = 512;
  artifact_nonce = replicate 32 4;
  issuer_kid = units "authz-ed25519-v1.k";
  strength = units "software_enforced";
  burn_set_aggregate = replicate 32 5;
}

abbrev number : ℕ → ℕ → Bytes
number low high = low ∷ high ∷ replicate 6 0

abbrev pub raw : Bytes
raw =
    units "SIGBASH.AUTHZ.ARTIFACT.V1"
    ++ (1 ∷ 0 ∷ 2 ∷ 0 ∷ [])
    ++ units "tx"
    ++ (7 ∷ 0 ∷ [])
    ++ units "bitcoin"
    ++ (6 ∷ 0 ∷ [])
    ++ units "signet"
    ++ (36 ∷ replicate 31 0)
    ++ replicate 32 2
    ++ replicate 32 3
    ++ number 7 0
    ++ number 0 1
    ++ number 0 2
    ++ replicate 32 4
    ++ (18 ∷ 0 ∷ [])
    ++ units "authz-ed25519-v1.k"
    ++ (17 ∷ 0 ∷ [])
    ++ units "software_enforced"
    ++ replicate 32 5

fields-IsFaithful : IsFaithful fields
unfolding well_formed is_pair is_single starts_with_mark
fields-IsFaithful = record {
  subject_kind = refl;
  protocol = refl;
  network = refl;
  issuer_kid = refl;
  strength = refl;
  issued_at = omega arith;
  expires_at = omega arith;
}

fields_encode : encode_authorization_artifact fields ≡ ok raw
unfolding concat_bytes little_endian utf8 scalar_bytes is_pair u16le u64le length_prefixed
    assert_fixed32 signed_parts artifact_parts encode_authorization_artifact
fields_encode = refl

pub fields_decode : decode_authorization_artifact raw ≡ ok fields
fields_decode = (decode_authorization_artifact_iff fields raw fields-IsFaithful).1 fields_encode
