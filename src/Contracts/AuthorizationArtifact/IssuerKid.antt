-- ===== src/Contracts/AuthorizationArtifact/IssuerKid.antt =====
-- `issuerKidFromEncoding`: the walk to the issuer's key id.
use sigbash_sdk.Prelude.{
  ℕ, ◌≡◌, refl, List, [], ◌∷◌, ◌++◌, length, leb, ok, err, arith, range_error, if-eq-ok,
  ok-injective, Result,
}
use sigbash_sdk.Bytes.{Bytes, concat_bytes}
use sigbash_sdk.Bytes.Decoder.{M, ◌>>=◌, ◌>>◌, advance}
use sigbash_sdk.Bytes.LittleEndian.{little_endian, length-little_endian}
use sigbash_sdk.Bytes.Reads.{Reads, Decodes, Decodes-next, Decodes-last, concat_bytes-append-eq-ok}
use sigbash_sdk.Text.{Text, utf8}
use sigbash_sdk.Contracts.AuthorizationArtifact.{ArtifactFields, encoding_prefix}
use sigbash_sdk.Contracts.AuthorizationArtifact.Encode.{
  u16le, u64le, length_prefixed, signed_parts, artifact_parts, encode_authorization_artifact,
}
use sigbash_sdk.Contracts.AuthorizationArtifact.Decode.{read_length_prefixed}
use sigbash_sdk.Contracts.AuthorizationArtifact.RoundTrip.{
  IsFaithful, HasWidths, encoded-HasWidths, Decodes-length_prefixed, prefix_width,
}

-- `cursor += n`, which looks at no byte.
unfoldable pub skip : ℕ → M (Unit {0})
skip n d = ok (tt, advance n d)

-- The walk; where the source has `null`, it ends in an error. The cursor starts behind the prefix
-- and the version.
unfoldable pub kid_walk : M Text
kid_walk = do
  skip (length encoding_prefix)
  skip 2
  subject_kind ← read_length_prefixed
  protocol ← read_length_prefixed
  network ← read_length_prefixed
  skip 32
  skip 32
  skip 32
  skip 8
  skip 8
  skip 8
  skip 32
  read_length_prefixed

unfoldable pub issuer_kid_from_encoding : Bytes → Text
issuer_kid_from_encoding input = elim (kid_walk (record { bytes = input; offset = 0 })) [
  | err e ↦ []
  | ok (kid, d) ↦ kid
]

-- A move over a part, and the walk behind it.
Decodes-move :
    {A : Type 0} (p : Result Bytes) (ps : List (Result Bytes)) (m : M (Unit {0})) (k : M A) (w : A)
    → Decodes p m tt
    → Decodes (concat_bytes ps) k w
    → Decodes (concat_bytes (p ∷ ps)) (m >> k) w
unfolding ◌>>◌ ◌>>=◌
Decodes-move p ps m k w first later = Decodes-next p ps m (λ done. k) tt w first later

Reads-skip : (n : ℕ) (bs : Bytes) → length bs ≡ n → Reads (skip n) bs tt
unfolding skip
Reads-skip n bs h d rest k e = rw h refl

Decodes-skip : (n : ℕ) (bs : Bytes) → length bs ≡ n → Decodes (ok bs) (skip n) tt
Decodes-skip n bs h cs e = let e' = ok-injective _ _ e in rw (← e') (Reads-skip n bs h)

Decodes-skip-u16le : (n : ℕ) → Decodes (u16le n) (skip 2) tt
unfolding u16le
Decodes-skip-u16le n bs h =
    let (fits, e) = if-eq-ok (leb n 0xffff) range_error _ h in
    Decodes-skip 2 (little_endian 2 n) (length-little_endian 2 n) bs e

Decodes-skip-u64le : (n : ℕ) → Decodes (u64le n) (skip 8) tt
unfolding u64le
Decodes-skip-u64le n bs h =
    let (fits, e) = if-eq-ok (leb n 0xffffffffffffffff) range_error _ h in
    Decodes-skip 8 (little_endian 8 n) (length-little_endian 8 n) bs e

-- The parts up to the key id, and those behind it.
abbrev front_parts : ArtifactFields → List (Result Bytes)
front_parts f =
    ok (utf8 encoding_prefix)
    ∷ u16le f.version
    ∷ length_prefixed f.subject_kind
    ∷ length_prefixed f.protocol
    ∷ length_prefixed f.network
    ∷ ok f.subject_commitment
    ∷ ok f.policy_root
    ∷ ok f.scope
    ∷ u64le f.max_uses
    ∷ u64le f.issued_at
    ∷ u64le f.expires_at
    ∷ ok f.artifact_nonce
    ∷ length_prefixed f.issuer_kid
    ∷ []

abbrev back_parts : ArtifactFields → List (Result Bytes)
back_parts f = length_prefixed f.strength ∷ ok f.burn_set_aggregate ∷ []

Decodes-kid_walk :
    (f : ArtifactFields)
    → IsFaithful f
    → HasWidths f
    → Decodes (concat_bytes (front_parts f)) kid_walk f.issuer_kid
unfolding kid_walk
Decodes-kid_walk f t w =
    Decodes-move _ _ _ _ _ (Decodes-skip 25 (utf8 encoding_prefix) prefix_width) (
      Decodes-move _ _ _ _ _ (Decodes-skip-u16le f.version) (
        Decodes-next _ _ _ _ _ _ (Decodes-length_prefixed f.subject_kind t.subject_kind) (
          Decodes-next _ _ _ _ _ _ (Decodes-length_prefixed f.protocol t.protocol) (
            Decodes-next _ _ _ _ _ _ (Decodes-length_prefixed f.network t.network) (
              Decodes-move _ _ _ _ _ (Decodes-skip 32 f.subject_commitment w.subject_commitment) (
                Decodes-move _ _ _ _ _ (Decodes-skip 32 f.policy_root w.policy_root) (
                  Decodes-move _ _ _ _ _ (Decodes-skip 32 f.scope w.scope) (
                    Decodes-move _ _ _ _ _ (Decodes-skip-u64le f.max_uses) (
                      Decodes-move _ _ _ _ _ (Decodes-skip-u64le f.issued_at) (
                        Decodes-move _ _ _ _ _ (Decodes-skip-u64le f.expires_at) (
                          Decodes-move _ _ _ _ _ (Decodes-skip 32 f.artifact_nonce w.artifact_nonce)
                            (Decodes-last _ _ _
                              (Decodes-length_prefixed f.issuer_kid t.issuer_kid)))))))))))))

-- The walk finds the issuer's key id in the encoding of an artifact, if its texts are well-formed
-- UTF-16 that begins with no byte order mark, and its times are below 2 ^ 53.
pub issuer_kid_from_encoding-encode :
    (f : ArtifactFields) (bs : Bytes)
    → IsFaithful f
    → encode_authorization_artifact f ≡ ok bs
    → issuer_kid_from_encoding bs ≡ f.issuer_kid
unfolding issuer_kid_from_encoding artifact_parts signed_parts
issuer_kid_from_encoding-encode f bs t h =
    let (w, joined) = encoded-HasWidths f bs h in
    let (b, c, front, back, e) =
      concat_bytes-append-eq-ok (front_parts f) (back_parts f) bs joined in
    let walk =
      Decodes-kid_walk f t w b front (record { bytes = b ++ c; offset = 0 }) c (omega arith) refl in
    rw (← e) (rw (walk, issuer_kid_from_encoding) refl)
