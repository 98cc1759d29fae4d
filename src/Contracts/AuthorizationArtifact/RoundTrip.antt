-- ===== src/Contracts/AuthorizationArtifact/RoundTrip.antt =====
-- `encodeAuthorizationArtifactV1` and `decodeAuthorizationArtifactV1`, one after the other.
use sigbash_sdk.Prelude.{
  ℕ, ◌<◌, ◌^◌, ◌≡◌, refl, sym, ◌∙◌, length, leb, ==_iff, true, ok, range_error, arith, guard-eq-ok,
  if-eq-ok, ok-injective, eqb, eqb_refl, eqb_sound, >>=-eq-ok, ap, ◌↔◌,
}
use sigbash_sdk.Bytes.{Bytes, concat_bytes}
use sigbash_sdk.Bytes.Decoder.{pure, whole_or}
use sigbash_sdk.Bytes.LittleEndian.{Reads-little_endian, to_number_exact}
use sigbash_sdk.Bytes.Reads.{
  Reads, Reads-pure, Decodes, Decodes-next, Decodes-last, Decodes-check, Decodes-then,
}
use sigbash_sdk.Bytes.Fields.{Decodes-fixed_or}
use sigbash_sdk.Bytes.Whole.{whole_exact}
use sigbash_sdk.Text.{
  Text, utf8, decode_text, is_faithful, scalar_bytes, well_formed, is_pair, is_single,
  starts_with_mark,
}
use sigbash_sdk.Text.RoundTrip.{decode_text-utf8}
use sigbash_sdk.Contracts.AuthorizationArtifact.{
  ArtifactFields, encoding_prefix, max_length_prefixed_bytes,
}
use sigbash_sdk.Contracts.AuthorizationArtifact.Encode.{
  u16le, u64le, length_prefixed, assert_fixed32, signed_parts, artifact_parts,
  encode_authorization_artifact,
}
use sigbash_sdk.Contracts.AuthorizationArtifact.Decode.{
  malformed, read_u16le, read_u64le, read_length_prefixed, read_signed, read_artifact,
  decode_authorization_artifact,
}

Decodes-u16le : (n : ℕ) → Decodes (u16le n) read_u16le n
unfolding u16le read_u16le
Decodes-u16le n bs h =
    let (fits, e) = if-eq-ok (leb n 0xffff) range_error _ h in
    let e' = ok-injective _ _ e in
    rw (← e') (Reads-little_endian malformed 2 n pure n (ground arith) (Reads-pure n))

Decodes-u64le : (n : ℕ) → Decodes (u64le n) read_u64le n
unfolding u64le read_u64le
Decodes-u64le n bs h =
    let (fits, e) = if-eq-ok (leb n 0xffffffffffffffff) range_error _ h in
    let e' = ok-injective _ _ e in
    rw (← e') (Reads-little_endian malformed 8 n pure n (ground arith) (Reads-pure n))

pub Decodes-length_prefixed :
    (t : Text) → is_faithful t ≡ true → Decodes (length_prefixed t) read_length_prefixed t
unfolding length_prefixed read_length_prefixed
Decodes-length_prefixed t h bs e =
    let (fits, e') = if-eq-ok (leb (length (utf8 t)) max_length_prefixed_bytes) range_error _ e in
    Decodes-next _ _ _ _ _ _ (Decodes-u16le (length (utf8 t)))
      (Decodes-last _ _ _ (
        Decodes-then _ _ _ _ _ (rw (decode_text-utf8 t h) (Reads-pure t))
          (Decodes-fixed_or malformed (length (utf8 t)) (utf8 t) refl)))
      bs e'

-- The texts of an artifact survive their encoding, and its times are exact numbers.
pub record IsFaithful (f : ArtifactFields) : Type 0 where
  pub subject_kind : is_faithful f.subject_kind ≡ true
  pub protocol : is_faithful f.protocol ≡ true
  pub network : is_faithful f.network ≡ true
  pub issuer_kid : is_faithful f.issuer_kid ≡ true
  pub strength : is_faithful f.strength ≡ true
  pub issued_at : f.issued_at < 2 ^ 53
  pub expires_at : f.expires_at < 2 ^ 53

-- The widths that the encoder checks.
pub record HasWidths (f : ArtifactFields) : Type 0 where
  pub version : f.version ≡ 1
  pub subject_commitment : length f.subject_commitment ≡ 32
  pub policy_root : length f.policy_root ≡ 32
  pub scope : length f.scope ≡ 32
  pub artifact_nonce : length f.artifact_nonce ≡ 32
  pub burn_set_aggregate : length f.burn_set_aggregate ≡ 32

module _ (f : ArtifactFields) (t : IsFaithful f) (w : HasWidths f) where
  Decodes-signed :
      Decodes
        (concat_bytes (signed_parts f))
        (read_signed f.version f.subject_kind f.protocol f.network)
        f
  unfolding signed_parts read_signed
  Decodes-signed =
      Decodes-next _ _ _ _ _ _
        (Decodes-fixed_or malformed 32 f.subject_commitment w.subject_commitment)
        (Decodes-next _ _ _ _ _ _ (Decodes-fixed_or malformed 32 f.policy_root w.policy_root) (
          Decodes-next _ _ _ _ _ _ (Decodes-fixed_or malformed 32 f.scope w.scope) (
            Decodes-next _ _ _ _ _ _ (Decodes-u64le f.max_uses) (
              Decodes-next _ _ _ _ _ _ (Decodes-u64le f.issued_at) (
                Decodes-next _ _ _ _ _ _ (Decodes-u64le f.expires_at) (
                  Decodes-next _ _ _ _ _ _
                    (Decodes-fixed_or malformed 32 f.artifact_nonce w.artifact_nonce)
                    (Decodes-next _ _ _ _ _ _ (Decodes-length_prefixed f.issuer_kid t.issuer_kid) (
                      Decodes-next _ _ _ _ _ _ (Decodes-length_prefixed f.strength t.strength) (
                        Decodes-last _ _ _ (
                          Decodes-then _ _ _ _ _
                            (rw
                              (
                                to_number_exact f.issued_at t.issued_at,
                                to_number_exact f.expires_at t.expires_at,
                              )
                              (Reads-pure f))
                            (Decodes-fixed_or malformed 32 f.burn_set_aggregate
                              w.burn_set_aggregate)))))))))))

prefix_is_faithful : is_faithful encoding_prefix ≡ true
unfolding well_formed is_pair is_single starts_with_mark
prefix_is_faithful = refl

pub prefix_width : length (utf8 encoding_prefix) ≡ 25
unfolding utf8 scalar_bytes is_pair
prefix_width = refl

prefix_matches : eqb (decode_text (utf8 encoding_prefix)) encoding_prefix ≡ true
prefix_matches = rw (decode_text-utf8 encoding_prefix prefix_is_faithful) (eqb_refl encoding_prefix)

Decodes-artifact :
    (f : ArtifactFields)
    → IsFaithful f
    → HasWidths f
    → Decodes (concat_bytes (artifact_parts f)) read_artifact f
unfolding artifact_parts read_artifact
Decodes-artifact f t w =
    Decodes-next _ _ _ _ _ _ (Decodes-fixed_or malformed 25 (utf8 encoding_prefix) prefix_width) (
      Decodes-check _ _ _ _ _ prefix_matches (
        Decodes-next _ _ _ _ _ _ (Decodes-u16le f.version) (
          Decodes-check _ _ _ _ _ ((==_iff _ _).1 w.version) (
            Decodes-next _ _ _ _ _ _ (Decodes-length_prefixed f.subject_kind t.subject_kind) (
              Decodes-next _ _ _ _ _ _ (Decodes-length_prefixed f.protocol t.protocol) (
                Decodes-next _ _ _ _ _ _ (Decodes-length_prefixed f.network t.network)
                  (Decodes-signed f t w)))))))

-- What the encoder checked, and the bytes that it joined.
pub encoded-HasWidths :
    (f : ArtifactFields) (bs : Bytes)
    → encode_authorization_artifact f ≡ ok bs
    → HasWidths f × (concat_bytes (artifact_parts f) ≡ ok bs)
unfolding encode_authorization_artifact assert_fixed32
encoded-HasWidths f bs h =
    let (v, h₁) = guard-eq-ok _ _ _ h in
    let (a, h₂) = guard-eq-ok _ _ _ h₁ in
    let (b, h₃) = guard-eq-ok _ _ _ h₂ in
    let (c, h₄) = guard-eq-ok _ _ _ h₃ in
    let (d, h₅) = guard-eq-ok _ _ _ h₄ in
    let (e, h₆) = guard-eq-ok _ _ _ h₅ in
    (
      record {
        version = (==_iff _ _).0 v;
        subject_commitment = (==_iff _ _).0 a;
        policy_root = (==_iff _ _).0 b;
        scope = (==_iff _ _).0 c;
        artifact_nonce = (==_iff _ _).0 d;
        burn_set_aggregate = (==_iff _ _).0 e;
      },
      h₆,
    )

artifact-Reads :
    (f : ArtifactFields) (bs : Bytes)
    → IsFaithful f
    → encode_authorization_artifact f ≡ ok bs
    → Reads read_artifact bs f
artifact-Reads f bs t h =
    let (w, joined) = encoded-HasWidths f bs h in Decodes-artifact f t w bs joined

decode-encode :
    (f : ArtifactFields) (bs : Bytes)
    → IsFaithful f
    → encode_authorization_artifact f ≡ ok bs
    → decode_authorization_artifact bs ≡ ok f
unfolding decode_authorization_artifact
decode-encode f bs t h =
    rw (whole_exact malformed read_artifact bs f (artifact-Reads f bs t h), h, eqb_refl bs)

-- Whatever decodes is the encoding of what it decodes to.
pub encode_of_decode :
    (f : ArtifactFields) (bs : Bytes)
    → decode_authorization_artifact bs ≡ ok f
    → encode_authorization_artifact f ≡ ok bs
unfolding decode_authorization_artifact
encode_of_decode f bs h =
    let (g, read, h₁) = >>=-eq-ok (whole_or malformed read_artifact bs) _ h in
    let (again, encoded, h₂) = >>=-eq-ok (encode_authorization_artifact g) _ h₁ in
    let (same, h₃) = guard-eq-ok _ _ _ h₂ in
    let e : g ≡ f = ok-injective _ _ h₃ in rw (← e, encoded) (ap ok (eqb_sound again bs same))

-- For fields with well-formed texts that begin with no byte order mark, and times below 2 ^ 53: an
-- array decodes to them exactly when it is their encoding.
pub decode_authorization_artifact_iff :
    (f : ArtifactFields) (bs : Bytes)
    → IsFaithful f
    → (decode_authorization_artifact bs ≡ ok f) ↔ (encode_authorization_artifact f ≡ ok bs)
decode_authorization_artifact_iff f bs t = (encode_of_decode f bs, decode-encode f bs t)

-- No two arrays decode to the same fields.
pub decode_authorization_artifact-injective :
    (f : ArtifactFields) (a b : Bytes)
    → decode_authorization_artifact a ≡ ok f
    → decode_authorization_artifact b ≡ ok f
    → a ≡ b
decode_authorization_artifact-injective f a b ha hb =
    ok-injective _ _ (sym (encode_of_decode f a ha) ∙ encode_of_decode f b hb)
