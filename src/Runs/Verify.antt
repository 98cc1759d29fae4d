-- ===== src/Runs/Verify.antt =====
-- An authorization that an enforcer accepts, and one without an envelope.
use sigbash_sdk.Prelude.{
  ◌≡◌, refl, ◌⊎◌, inl, [], ◌∷◌, ◌≤◌, Option, none, some, Bool, true, Result, replicate, ok, Has,
  eqb, arith,
}
use sigbash_sdk.Calls
use sigbash_sdk.Bytes.{Bytes}
use sigbash_sdk.Bytes.Hex.{hex_to_bytes, is_hex, digit_value, digit_pairs}
use sigbash_sdk.Bytes.LittleEndian.{little_endian}
use sigbash_sdk.Text.{Text, units, utf8, scalar_bytes, is_pair}
use sigbash_sdk.Json.{Json}
use sigbash_sdk.Contracts.AuthorizationArtifact.{ArtifactFields}
use sigbash_sdk.Contracts.AuthorizationArtifact.Decode.{decode_authorization_artifact}
use sigbash_sdk.Contracts.AuthorizationSubject.{le32}
use sigbash_sdk.Contracts.AuthorizationSubject.Aggregates.{
  assert_width, chunk_bytes, completing_bytes, pin_message, sha256d, authz_pin_aggregate,
}
use sigbash_sdk.Authorization.Envelope.{
  select_chunk, commit_of, select_covenant_write_commit, completing_position_of,
}
use sigbash_sdk.Authorization.Adapters.{Registry, get_adapter}
use sigbash_sdk.Authorization.Adapters.Aggregates.{completing_bundle, pin_aggregate_from_envelope}
use sigbash_sdk.Authorization.IssuerKeySet.{LoadedKeySet, find_key, issuer_key_for_kid}
use sigbash_sdk.Authorization.Verify.{
  Check, passed, Credential, EnvelopeInput, RootInput, VerifyOptions, Detail,
}
use sigbash_sdk.Authorization.Verify.Steps.{
  envelope_of, current_time, as_bytes, accepted_strengths, verify_authorization,
}
use sigbash_sdk.Authorization.Verify.Accepted.{IsSigned, IsAuthorized}
use sigbash_sdk.Authorization.Verify.Sound.{verify_authorization-IsAuthorized}
use sigbash_sdk.Authorization.Verify.Complete.{verify_authorization_of_IsAuthorized}
use sigbash_sdk.Authorization.Verify.Order.{is_early, verify_authorization_signature_first}
use sigbash_sdk.Authorization.Verify.Throws.{
  IsQuiet, HasReadableInputs, verify_authorization-IsQuiet,
}
use sigbash_sdk.Runs.{count_hash}
use sigbash_sdk.Runs.Signed.{fields, raw, fields_decode}
use sigbash_sdk.Runs.Envelope.{bundle, envelope, envelope-IsEnvelope, adapter}
use sigbash_sdk.Runs.KeySet.{key, loaded}

-- A runtime without documents, and a signature check that knows one signature.
abbrev json_parse : Text → Option Json
json_parse text = none

abbrev check_signature : Bytes → Bytes → Bytes → Result Bool
check_signature signature message public_key = ok (eqb signature (9 ∷ []))

abbrev registry : Registry
registry = adapter ∷ []

abbrev options : VerifyOptions
options = record {
  raw_artifact = raw;
  raw_signature = 9 ∷ [];
  network = units "signet";
  issuer_key_set = some loaded;
  subject = some [];
  envelope = some (EnvelopeInput.envelope_object envelope);
  salt = some [];
  expected_scope = some (replicate 32 3);
  credential = none;
  expected_policy_root = some (RootInput.root_bytes (replicate 32 2));
  now = none;
  accepted_strengths = none;
}

committed : pin_aggregate_from_envelope count_hash envelope ≡ ok (36 ∷ replicate 31 0)
unfolding pin_aggregate_from_envelope completing_bundle completing_position_of authz_pin_aggregate
    pin_message sha256d chunk_bytes completing_bytes assert_width select_covenant_write_commit
    commit_of select_chunk Calls.◌>>=◌ Calls.◌>>◌ Calls.map_calls utf8 is_pair scalar_bytes le32
    little_endian
committed = refl

completing : completing_bundle envelope ≡ ok bundle
unfolding completing_bundle completing_position_of
completing = refl

selected : issuer_key_for_kid loaded (units "authz-ed25519-v1.k") ≡ some key
unfolding issuer_key_for_kid find_key eqb
selected = refl

decoded : hex_to_bytes key.public_key_hex ≡ ok (replicate 32 0xaa)
unfolding hex_to_bytes is_hex digit_value digit_pairs Calls.◌>>◌
decoded = refl

verified : check_signature (9 ∷ []) raw (replicate 32 0xaa) ≡ ok true
unfolding eqb
verified = refl

scoped : Has (accepted_strengths options) (units "software_enforced")
unfolding accepted_strengths
scoped = inl refl

current : 256 ≤ current_time 300 options
unfolding current_time
current = omega arith

unexpired : current_time 300 options ≤ 512
unfolding current_time
unexpired = omega arith

registered : get_adapter registry (units "tx") ≡ some adapter
unfolding get_adapter eqb
registered = refl

rooted : as_bytes (RootInput.root_bytes (replicate 32 2)) ≡ ok (replicate 32 2)
unfolding as_bytes
rooted = refl

enveloped : envelope_of json_parse (EnvelopeInput.envelope_object envelope) ≡ passed envelope
unfolding envelope_of
enveloped = refl

signed : IsSigned count_hash json_parse check_signature registry 300 options loaded fields
signed = record {
  key = key;
  selected = selected;
  public_key = replicate 32 0xaa;
  decoded = decoded;
  verified = verified;
}

authorized : IsAuthorized count_hash json_parse check_signature registry 300 options
authorized = record {
  key_set = loaded;
  given_keys = refl;
  fields = fields;
  decoded = fields_decode;
  signed = signed;
  current = record { begun = current; unexpired = unexpired; protocol = refl; network = refl };
  bound = record {
    input = EnvelopeInput.envelope_object envelope;
    given_envelope = refl;
    envelope = envelope;
    parsed = enveloped;
    committed = committed;
    subject = [];
    given_subject = refl;
    salt = [];
    given_salt = refl;
    adapter = adapter;
    registered = registered;
    verifiable = refl;
    bundle = bundle;
    completing = completing;
    derived = refl;
  };
  scoped = refl;
  rooted = rooted;
  strength = scoped;
}

verify_authorization_of_IsAuthorized_example :
    (detail : Detail) × (verify_authorization count_hash json_parse check_signature registry 300
        options
      ≡ passed detail)
verify_authorization_of_IsAuthorized_example =
    verify_authorization_of_IsAuthorized count_hash json_parse check_signature registry 300 options
      authorized

accepted :
    (detail : Detail) × (verify_authorization count_hash json_parse check_signature registry 300
        options
      ≡ passed detail)
accepted =
    verify_authorization_of_IsAuthorized count_hash json_parse check_signature registry 300 options
      authorized

verify_authorization-IsAuthorized_example :
    IsAuthorized count_hash json_parse check_signature registry 300 options
verify_authorization-IsAuthorized_example =
    verify_authorization-IsAuthorized count_hash json_parse check_signature registry 300 options
      accepted.0 accepted.1

verify_authorization_signature_first_example :
    (is_early (verify_authorization count_hash json_parse check_signature registry 300 options)
      ≡ true)
    ⊎ ((key_set : LoadedKeySet) × (fields : ArtifactFields) × (options.issuer_key_set
          ≡ some key_set)
        × (decode_authorization_artifact options.raw_artifact ≡ ok fields)
        × IsSigned count_hash json_parse check_signature registry 300 options key_set fields)
verify_authorization_signature_first_example =
    verify_authorization_signature_first count_hash json_parse check_signature registry 300 options

readable : HasReadableInputs count_hash json_parse check_signature registry 300 options
readable = record { envelope = sized; root = root_reads }
  where
    sized :
        (input : EnvelopeInput)
        → options.envelope ≡ some input
        → sigbash_sdk.Authorization.Verify.Throws.IsReadable count_hash json_parse input
    sized input e =
        let same : EnvelopeInput.envelope_object envelope ≡ input = cc in
        rw (← same) envelope-IsEnvelope

    root_reads :
        (root : RootInput)
        → options.expected_policy_root ≡ some root
        → sigbash_sdk.Authorization.Adapters.Total.Returns (as_bytes root)
    root_reads root e =
        let same : RootInput.root_bytes (replicate 32 2) ≡ root = cc in rw (← same) (_, rooted)

verify_authorization-IsQuiet_example :
    IsQuiet (verify_authorization count_hash json_parse check_signature registry 300 options)
verify_authorization-IsQuiet_example =
    verify_authorization-IsQuiet count_hash json_parse check_signature registry 300 options readable
