-- ===== src/Authorization/Verify/Steps.antt =====
-- `verifyAuthorization`, one function per step of its checklist. Ed25519, SHA-256, `JSON.parse`, the
-- registry of adapters and the clock are parameters.
use sigbash_sdk.Prelude.{
  ℕ, ◌-◌, ◌%◌, List, [], ◌∷◌, Bool, false, not, ◌||◌, Option, none, some, ltb, Error, format_error,
  unknown_version, Result, ok, err, eqb,
}
use sigbash_sdk.Calls
use sigbash_sdk.Bytes.{Bytes}
use sigbash_sdk.Bytes.Hex.{bytes_to_hex, hex_to_bytes, same_hex}
use sigbash_sdk.Text.{Text, units}
use sigbash_sdk.Json.{Number, Json, property}
use sigbash_sdk.Contracts.AuthorizationArtifact.{ArtifactFields}
use sigbash_sdk.Contracts.AuthorizationArtifact.Decode.{decode_authorization_artifact}
use sigbash_sdk.Contracts.AuthorizationSubject.Aggregates.{authz_scope}
use sigbash_sdk.Authorization.Envelope.{Envelope}
use sigbash_sdk.Authorization.Envelope.Parse.{parse_authorization_envelope}
use sigbash_sdk.Authorization.Adapters.{Registry, get_adapter}
use sigbash_sdk.Authorization.Adapters.Aggregates.{completing_bundle, pin_aggregate_from_envelope}
use sigbash_sdk.Authorization.IssuerKeySet.{LoadedKeySet, issuer_key_for_kid}
use sigbash_sdk.Authorization.Verify.{
  Refusal, Check, refused, passed, Credential, EnvelopeInput, RootInput, VerifyOptions, ScopeDetail,
  RootDetail, Detail, strength_accepted_default, protocol_bitcoin, ◌>>=◌, ◌>>◌, present, call,
  attempt, require,
}

-- Step 2: `(err as { reason?: string }).reason ?? 'AUTHORIZATION_NON_CANONICAL'`
unfoldable pub decode_refusal : Error → Refusal
decode_refusal (format_error unknown_version) = Refusal.unknown_version
decode_refusal _ = Refusal.non_canonical

unfoldable pub decode_step : Bytes → Check ArtifactFields
decode_step raw = elim (decode_authorization_artifact raw) [
  | err e ↦ refused (decode_refusal e) 2
  | ok fields ↦ passed fields
]

-- What the `try` around the signature check leaves in `signatureValid`.
unfoldable pub signature_valid : Result Bool → Bool
signature_valid (err e) = false
signature_valid (ok t) = t

-- `now < issuedAt`, then `now > expiresAt`
unfoldable pub window_step : ℕ → ArtifactFields → Check (Unit {0})
window_step now fields = do
  require (not (ltb now (fields.issued_at))) Refusal.not_yet_valid 4
  require (not (ltb (fields.expires_at) now)) Refusal.expired 4

unfoldable pub match_step : Text → ArtifactFields → Check (Unit {0})
match_step network fields = do
  require (eqb (fields.protocol) protocol_bitcoin) Refusal.subject_mismatch 5
  require (eqb (fields.network) network) Refusal.network_mismatch 5

-- `accepted.includes(strength)`
unfoldable pub includes : Text → List Text → Bool
includes t [] = false
includes t (s ∷ ss) = eqb s t || includes t ss

unfoldable pub accepted_strengths : VerifyOptions → List Text
accepted_strengths options = elim (options.accepted_strengths) [
  | none ↦ strength_accepted_default ∷ []
  | some accepted ↦ accepted
]

unfoldable pub strength_step : VerifyOptions → ArtifactFields → Check (Unit {0})
strength_step options fields =
    require (includes (fields.strength) (accepted_strengths options)) Refusal.strength_rejected 9

-- `asBytes(value)`
unfoldable pub as_bytes : RootInput → Result Bytes
as_bytes (RootInput.root_hex hex) = hex_to_bytes hex
as_bytes (RootInput.root_bytes bytes) = ok bytes

unfoldable pub root_check : Option RootInput → ArtifactFields → Check RootDetail
root_check none fields = passed (RootDetail.root_reported (bytes_to_hex (fields.policy_root)))
root_check (some root) fields = do
  expected ← call (as_bytes root)
  require (same_hex expected (fields.policy_root)) Refusal.root_mismatch 8
  passed RootDetail.root_pinned

unfoldable pub root_step : VerifyOptions → ArtifactFields → Check RootDetail
root_step options fields = root_check (options.expected_policy_root) fields

-- An integer as the 32-bit word that `le32` writes of it.
unfoldable pub integer_word : Number → Option ℕ
integer_word (Number.natural n) = some n
integer_word (Number.negative n) = some (0xffffffff - n % 0x100000000)
integer_word (Number.fractional n) = none

-- `typeof index === 'number' && Number.isInteger(index) ? index : undefined`
unfoldable pub index_of_kmc : Option Json → Option ℕ
index_of_kmc (some value) = elim (property (units "key_index") value) [
  | some (Json.number n) ↦ integer_word n
  | _ ↦ none
]
index_of_kmc none = none

module _ (verify_signature : Bytes → Bytes → Bytes → Result Bool) where
  -- Steps 1 and 3: the key that the artifact names, and the signature over the received bytes.
  unfoldable pub signature_step : VerifyOptions → LoadedKeySet → ArtifactFields → Check (Unit {0})
  signature_step options key_set fields = do
    key ← present (issuer_key_for_kid key_set (fields.issuer_kid)) Refusal.issuer_unknown 3
    require
        (signature_valid (
          Calls.◌>>=◌ (hex_to_bytes (key.public_key_hex)) λ public_key.
            verify_signature (options.raw_signature) (options.raw_artifact) public_key))
        Refusal.bad_signature 3

unfoldable pub current_time : ℕ → VerifyOptions → ℕ
current_time clock options = elim (options.now) [ none ↦ clock | some now ↦ now ]

module _ (json_parse : Text → Option Json) where
  -- The envelope, parsed where it is a text; an empty text counts as none.
  unfoldable pub envelope_of : EnvelopeInput → Check Envelope
  envelope_of (EnvelopeInput.envelope_json []) = refused Refusal.check_unavailable 6
  envelope_of (EnvelopeInput.envelope_json (c ∷ text)) =
      call (parse_authorization_envelope json_parse (c ∷ text))
  envelope_of (EnvelopeInput.envelope_object envelope) = passed envelope

  -- `readKmcKeyIndex`: a text that does not parse, or that holds `null`, gives no index.
  unfoldable pub read_kmc_key_index : Option Text → Option ℕ
  read_kmc_key_index none = none
  read_kmc_key_index (some []) = none
  read_kmc_key_index (some (c ∷ text)) = index_of_kmc (json_parse (c ∷ text))

  unfoldable pub key_index_of : Credential → Option ℕ
  key_index_of credential = elim (credential.key_index) [
    | some index ↦ some index
    | none ↦ read_kmc_key_index (credential.kmc_json)
  ]

module _ (sha256 : Bytes → Bytes) (json_parse : Text → Option Json) where
  unfoldable pub credential_step : Option Credential → ArtifactFields → Check ScopeDetail
  credential_step none fields = passed ScopeDetail.scope_not_checked
  credential_step (some credential) fields = do
    index ← present (key_index_of json_parse credential) Refusal.scope_mismatch 7
    require (same_hex (authz_scope sha256 (credential.credential_identifier) index) (fields.scope))
        Refusal.scope_mismatch 7
    passed (ScopeDetail.scope_recomputed index)

  unfoldable pub scope_check : Option Bytes → Option Credential → ArtifactFields → Check ScopeDetail
  scope_check none credential fields = credential_step credential fields
  scope_check (some expected) credential fields = do
    require (same_hex expected (fields.scope)) Refusal.scope_mismatch 7
    passed ScopeDetail.scope_expected

  -- Step 7.
  unfoldable pub scope_step : VerifyOptions → ArtifactFields → Check ScopeDetail
  scope_step options fields = scope_check (options.expected_scope) (options.credential) fields

module _ (sha256 : Bytes → Bytes) (json_parse : Text → Option Json) (registry : Registry) where
  -- Step 6: both stages of the subject check.
  unfoldable pub subject_step : VerifyOptions → ArtifactFields → Check (Unit {0})
  subject_step options fields = do
    input ← present (options.envelope) Refusal.check_unavailable 6
    envelope ← envelope_of json_parse input
    aggregate ← call (pin_aggregate_from_envelope sha256 envelope)
    require (same_hex aggregate (fields.subject_commitment)) Refusal.subject_mismatch 6
    subject ← present (options.subject) Refusal.check_unavailable 6
    salt ← present (options.salt) Refusal.check_unavailable 6
    adapter ← present (get_adapter registry (fields.subject_kind)) Refusal.kind_unknown 6
    attempt (adapter.check_verifiable subject (options.network)) Refusal.subject_mismatch 6
    derived ←
        attempt (adapter.rederive_completing_e_hat subject envelope salt) Refusal.subject_mismatch 6
    bundle ← call (completing_bundle envelope)
    require (same_hex derived (bundle.public_inputs.challenge_e)) Refusal.subject_mismatch 6

module _ (sha256 : Bytes → Bytes) (json_parse : Text → Option Json)
    (verify_signature : Bytes → Bytes → Bytes → Result Bool) (registry : Registry) (clock : ℕ) where
  unfoldable pub verify_authorization : VerifyOptions → Check Detail
  verify_authorization options = do
    key_set ← present (options.issuer_key_set) Refusal.issuer_unknown 1
    fields ← decode_step (options.raw_artifact)
    signature_step verify_signature options key_set fields
    window_step (current_time clock options) fields
    match_step (options.network) fields
    subject_step sha256 json_parse registry options fields
    scope ← scope_step sha256 json_parse options fields
    policy_root ← root_step options fields
    strength_step options fields
    passed (record {
      subject_kind = fields.subject_kind;
      issuer_kid = fields.issuer_kid;
      scope = scope;
      policy_root = policy_root;
      strength = fields.strength;
    })
