-- ===== src/Authorization/Verify/Sound.antt =====
-- What follows from an accepted authorization.
use sigbash_sdk.Prelude.{
  ℕ, ◌≤◌, ◌≡◌, refl, ap, ◌∙◌, Bool, true, false, not, Option, none, some, Result, ok, err, eqb_iff,
  ltb, arith,
}
use sigbash_sdk.Calls
use sigbash_sdk.Bytes.{Bytes}
use sigbash_sdk.Bytes.Hex.{same_hex_iff}
use sigbash_sdk.Text.{Text}
use sigbash_sdk.Json.{Json}
use sigbash_sdk.Contracts.AuthorizationArtifact.{ArtifactFields}
use sigbash_sdk.Contracts.AuthorizationArtifact.Decode.{decode_authorization_artifact}
use sigbash_sdk.Authorization.Adapters.{Registry}
use sigbash_sdk.Authorization.IssuerKeySet.{LoadedKeySet}
use sigbash_sdk.Authorization.Verify.{
  Check, passed, refused, Credential, RootInput, VerifyOptions, ScopeDetail, RootDetail, Detail,
  present, call, attempt, require, ◌>>=◌, ◌>>◌,
}
use sigbash_sdk.Authorization.Verify.Steps.{
  decode_step, signature_valid, signature_step, window_step, match_step, subject_step,
  credential_step, scope_check, root_check, scope_step, root_step, strength_step,
  verify_authorization, current_time,
}
use sigbash_sdk.Authorization.Verify.Accepted.{
  >>=-eq-passed, >>-eq-passed, present-eq-passed, call-eq-passed, attempt-eq-passed,
  require-eq-passed, includes_iff, IsSigned, IsCurrent, IsBound, IsCredential, IsScoped, IsRooted,
  IsAuthorized,
}

pub decode_step-eq-passed :
    (raw : Bytes) (fields : ArtifactFields)
    → decode_step raw ≡ passed fields
    → decode_authorization_artifact raw ≡ ok fields
unfolding decode_step
decode_step-eq-passed raw fields h = go (decode_authorization_artifact raw) h
  where
    go :
        (r : Result ArtifactFields)
        → elim r [
          | err e ↦ refused (sigbash_sdk.Authorization.Verify.Steps.decode_refusal e) 2
          | ok fields ↦ passed fields
        ]
          ≡ passed fields
        → r ≡ ok fields
    go (err e) k = absurd cc
    go (ok f) k = cc

-- The signature held only if the key's digits were decoded, and Ed25519 said so.
signature_valid-eq-true :
    (key : Result Bytes) (verify : Bytes → Result Bool)
    → signature_valid (Calls.◌>>=◌ key verify) ≡ true
    → (public_key : Bytes) × (key ≡ ok public_key) × (verify public_key ≡ ok true)
unfolding signature_valid Calls.◌>>=◌
signature_valid-eq-true (err e) verify h = absurd cc
signature_valid-eq-true (ok k) verify h = (k, refl, valid (verify k) h)
  where
    valid : (r : Result Bool) → signature_valid r ≡ true → r ≡ ok true
    valid (err e) g = absurd cc
    valid (ok true) g = refl
    valid (ok false) g = absurd cc

not-ltb : (a b : ℕ) → not (ltb a b) ≡ true → b ≤ a
not-ltb a b h = ground arith

module _ (sha256 : Bytes → Bytes) (json_parse : Text → Option Json)
    (verify_signature : Bytes → Bytes → Bytes → Result Bool) (registry : Registry) (clock : ℕ)
    (options : VerifyOptions) where
  pub signature_step-IsSigned :
      (key_set : LoadedKeySet) (fields : ArtifactFields)
      → signature_step verify_signature options key_set fields ≡ passed tt
      → IsSigned sha256 json_parse verify_signature registry clock options key_set fields
  unfolding signature_step
  signature_step-IsSigned key_set fields h =
      let (key, found, rest) = >>=-eq-passed _ _ h in
      let (public_key, digits, verified) =
        signature_valid-eq-true _ _ (require-eq-passed _ _ _ rest) in
      record {
        key = key;
        selected = present-eq-passed _ _ _ found;
        public_key = public_key;
        decoded = digits;
        verified = verified;
      }

  window-IsCurrent :
      (fields : ArtifactFields)
      → window_step (current_time clock options) fields ≡ passed tt
      → match_step options.network fields ≡ passed tt
      → IsCurrent sha256 json_parse verify_signature registry clock options fields
  unfolding window_step match_step
  window-IsCurrent fields w m =
      let (begun, unexpired) = >>-eq-passed _ _ w in
      let (protocol, network) = >>-eq-passed _ _ m in
      record {
        begun = not-ltb _ _ (require-eq-passed _ _ _ begun);
        unexpired = not-ltb _ _ (require-eq-passed _ _ _ unexpired);
        protocol = (eqb_iff _ _).0 (require-eq-passed _ _ _ protocol);
        network = (eqb_iff _ _).0 (require-eq-passed _ _ _ network);
      }

  subject_step-IsBound :
      (fields : ArtifactFields)
      → subject_step sha256 json_parse registry options fields ≡ passed tt
      → IsBound sha256 json_parse verify_signature registry clock options fields
  unfolding subject_step
  subject_step-IsBound fields h =
      let (input, given_envelope, h1) = >>=-eq-passed _ _ h in
      let (envelope, parsed, h2) = >>=-eq-passed _ _ h1 in
      let (aggregate, computed, h3) = >>=-eq-passed _ _ h2 in
      let (committed, h4) = >>-eq-passed _ _ h3 in
      let (subject, given_subject, h5) = >>=-eq-passed _ _ h4 in
      let (salt, given_salt, h6) = >>=-eq-passed _ _ h5 in
      let (adapter, registered, h7) = >>=-eq-passed _ _ h6 in
      let (verifiable, h8) = >>-eq-passed _ _ h7 in
      let (derived, rederived, h9) = >>=-eq-passed _ _ h8 in
      let (bundle, completing, same) = >>=-eq-passed _ _ h9 in
      let commitment = (same_hex_iff _ _).0 (require-eq-passed _ _ _ committed) in
      let challenge = (same_hex_iff _ _).0 (require-eq-passed _ _ _ same) in
      record {
        input = input;
        given_envelope = present-eq-passed _ _ _ given_envelope;
        envelope = envelope;
        parsed = parsed;
        committed = call-eq-passed _ computed ∙ ap ok commitment;
        subject = subject;
        given_subject = present-eq-passed _ _ _ given_subject;
        salt = salt;
        given_salt = present-eq-passed _ _ _ given_salt;
        adapter = adapter;
        registered = present-eq-passed _ _ _ registered;
        verifiable = attempt-eq-passed _ _ _ verifiable;
        bundle = bundle;
        completing = call-eq-passed _ completing;
        derived = attempt-eq-passed _ _ _ rederived ∙ ap ok challenge;
      }

  credential_step-IsCredential :
      (credential : Option Credential) (fields : ArtifactFields) {d : ScopeDetail}
      → credential_step sha256 json_parse credential fields ≡ passed d
      → IsCredential sha256 json_parse verify_signature registry clock options credential fields
  unfolding credential_step
  credential_step-IsCredential none fields h = tt
  credential_step-IsCredential (some credential) fields h =
      let (index, resolved, rest) = >>=-eq-passed _ _ h in
      let (same, done) = >>-eq-passed _ _ rest in
      (index, present-eq-passed _ _ _ resolved, (same_hex_iff _ _).0 (require-eq-passed _ _ _ same))

  scope_check-IsScoped :
      (expected : Option Bytes) (credential : Option Credential) (fields : ArtifactFields)
      {d : ScopeDetail}
      → scope_check sha256 json_parse expected credential fields ≡ passed d
      → IsScoped sha256 json_parse verify_signature registry clock options expected credential
          fields
  unfolding scope_check
  scope_check-IsScoped none credential fields h = credential_step-IsCredential credential fields h
  scope_check-IsScoped (some expected) credential fields h =
      let (same, done) = >>-eq-passed _ _ h in (same_hex_iff _ _).0 (require-eq-passed _ _ _ same)

  root_check-IsRooted :
      (root : Option RootInput) (fields : ArtifactFields) {d : RootDetail}
      → root_check root fields ≡ passed d
      → IsRooted sha256 json_parse verify_signature registry clock options root fields
  unfolding root_check
  root_check-IsRooted none fields h = tt
  root_check-IsRooted (some root) fields h =
      let (expected, decoded, rest) = >>=-eq-passed _ _ h in
      let (same, done) = >>-eq-passed _ _ rest in
      call-eq-passed _ decoded ∙ ap ok ((same_hex_iff _ _).0 (require-eq-passed _ _ _ same))

  -- An accepted authorization is authorized: the artifact decodes, an active key of the set signed
  -- its received bytes, the clock is in its window, it is for this protocol and network, its
  -- commitment is that of the envelope's pins, the pinned challenge is derived from the raw subject
  -- and the salt, the scope and the policy root are those that the enforcer gave (where it gave any),
  -- and the strength is one that it takes.
  pub verify_authorization-IsAuthorized :
      (detail : Detail)
      → verify_authorization sha256 json_parse verify_signature registry clock options
        ≡ passed detail
      → IsAuthorized sha256 json_parse verify_signature registry clock options
  unfolding verify_authorization scope_step root_step strength_step
  verify_authorization-IsAuthorized detail h =
      let (key_set, given_keys, h1) = >>=-eq-passed _ _ h in
      let (fields, decoded, h2) = >>=-eq-passed _ _ h1 in
      let (signed, h3) = >>-eq-passed _ _ h2 in
      let (window, h4) = >>-eq-passed _ _ h3 in
      let (matched, h5) = >>-eq-passed _ _ h4 in
      let (bound, h6) = >>-eq-passed _ _ h5 in
      let (scope, scoped, h7) = >>=-eq-passed _ _ h6 in
      let (root, rooted, h8) = >>=-eq-passed _ _ h7 in
      let (strong, done) = >>-eq-passed _ _ h8 in
      record {
        key_set = key_set;
        given_keys = present-eq-passed _ _ _ given_keys;
        fields = fields;
        decoded = decode_step-eq-passed _ _ decoded;
        signed = signature_step-IsSigned key_set fields signed;
        current = window-IsCurrent fields window matched;
        bound = subject_step-IsBound fields bound;
        scoped = scope_check-IsScoped _ _ fields scoped;
        rooted = root_check-IsRooted _ fields rooted;
        strength = (includes_iff _ _).0 (require-eq-passed _ _ _ strong);
      }
