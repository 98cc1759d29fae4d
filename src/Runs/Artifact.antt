-- ===== src/Runs/Artifact.antt =====
-- An authorization artifact.
use sigbash_sdk.Prelude.{◌≡◌, refl, ◌↔◌, ◌∷◌, ◌++◌, replicate, ok, arith}
use sigbash_sdk.Bytes.{Bytes, concat_bytes}
use sigbash_sdk.Bytes.LittleEndian.{little_endian}
use sigbash_sdk.Text.{units, utf8, scalar_bytes, is_pair, well_formed, is_single, starts_with_mark}
use sigbash_sdk.Contracts.AuthorizationArtifact.{ArtifactFields}
use sigbash_sdk.Contracts.AuthorizationArtifact.Encode.{
  u16le, u64le, length_prefixed, assert_fixed32, signed_parts, artifact_parts,
  encode_authorization_artifact,
}
use sigbash_sdk.Contracts.AuthorizationArtifact.Decode.{decode_authorization_artifact}
use sigbash_sdk.Contracts.AuthorizationArtifact.RoundTrip.{
  IsFaithful, decode_authorization_artifact_iff, decode_authorization_artifact-injective,
}
use sigbash_sdk.Contracts.AuthorizationArtifact.IssuerKid.{
  issuer_kid_from_encoding, issuer_kid_from_encoding-encode,
}

abbrev sample : ArtifactFields
sample = record {
  version = 1;
  subject_kind = units "tx";
  protocol = units "p";
  network = units "s";
  subject_commitment = replicate 32 1;
  policy_root = replicate 32 2;
  scope = replicate 32 3;
  max_uses = 7;
  issued_at = 256;
  expires_at = 512;
  artifact_nonce = replicate 32 4;
  issuer_kid = units "k";
  strength = units "m";
  burn_set_aggregate = replicate 32 5;
}

abbrev sample_bytes : Bytes
sample_bytes =
    units "SIGBASH.AUTHZ.ARTIFACT.V1"
    ++ (1
        ∷ 0
        ∷ 2
        ∷ 0
        ∷ 116
        ∷ 120
        ∷ 1
        ∷ 0
        ∷ 112
        ∷ 1
        ∷ 0
        ∷ 115
        ∷ (replicate 32 1
            ++ (replicate 32 2
                ++ (replicate 32 3
                    ++ (7
                        ∷ 0
                        ∷ 0
                        ∷ 0
                        ∷ 0
                        ∷ 0
                        ∷ 0
                        ∷ 0
                        ∷ 0
                        ∷ 1
                        ∷ 0
                        ∷ 0
                        ∷ 0
                        ∷ 0
                        ∷ 0
                        ∷ 0
                        ∷ 0
                        ∷ 2
                        ∷ 0
                        ∷ 0
                        ∷ 0
                        ∷ 0
                        ∷ 0
                        ∷ 0
                        ∷ (replicate 32 4 ++ (1 ∷ 0 ∷ 107 ∷ 1 ∷ 0 ∷ 109 ∷ replicate 32 5)))))))

sample_encodes : encode_authorization_artifact sample ≡ ok sample_bytes
unfolding concat_bytes little_endian utf8 scalar_bytes is_pair u16le u64le length_prefixed
    assert_fixed32 signed_parts artifact_parts encode_authorization_artifact
sample_encodes = refl

sample-IsFaithful : IsFaithful sample
unfolding well_formed is_pair is_single starts_with_mark
sample-IsFaithful = record {
  subject_kind = refl;
  protocol = refl;
  network = refl;
  issuer_kid = refl;
  strength = refl;
  issued_at = omega arith;
  expires_at = omega arith;
}

decode_authorization_artifact_iff_example :
    (decode_authorization_artifact sample_bytes ≡ ok sample)
    ↔ (encode_authorization_artifact sample ≡ ok sample_bytes)
decode_authorization_artifact_iff_example =
    decode_authorization_artifact_iff sample sample_bytes sample-IsFaithful

sample_decodes : decode_authorization_artifact sample_bytes ≡ ok sample
sample_decodes =
    (decode_authorization_artifact_iff sample sample_bytes sample-IsFaithful).1 sample_encodes

decode_authorization_artifact-injective_example : sample_bytes ≡ sample_bytes
decode_authorization_artifact-injective_example =
    decode_authorization_artifact-injective sample sample_bytes sample_bytes sample_decodes
      sample_decodes

issuer_kid_from_encoding-encode_example : issuer_kid_from_encoding sample_bytes ≡ units "k"
issuer_kid_from_encoding-encode_example =
    issuer_kid_from_encoding-encode sample sample_bytes sample-IsFaithful sample_encodes
