-- ===== src/Authorization/Verify/Accepted.antt =====
-- What the checklist demands, and the laws of its steps.
use sigbash_sdk.Prelude.{
  ℕ, ◌≤◌, ◌≡◌, refl, List, [], ◌∷◌, Bool, true, false, Option, none, some, Result, ok, err, inl,
  inr, ◌⊎◌, Has, if◌then◌else◌, eqb_iff, eqb_refl, ◌↔◌, ◌||◌, eqb,
}
use sigbash_sdk.Bytes.{Bytes}
use sigbash_sdk.Bytes.Hex.{hex_to_bytes}
use sigbash_sdk.Text.{Text}
use sigbash_sdk.Json.{Json}
use sigbash_sdk.Contracts.AuthorizationArtifact.{ArtifactFields}
use sigbash_sdk.Contracts.AuthorizationArtifact.Decode.{decode_authorization_artifact}
use sigbash_sdk.Contracts.AuthorizationSubject.Aggregates.{authz_scope}
use sigbash_sdk.Authorization.Envelope.{Envelope, Bundle}
use sigbash_sdk.Authorization.Adapters.{Adapter, Registry, get_adapter}
use sigbash_sdk.Authorization.Adapters.Aggregates.{completing_bundle, pin_aggregate_from_envelope}
use sigbash_sdk.Authorization.IssuerKeySet.{KeysetEntry, LoadedKeySet, issuer_key_for_kid}
use sigbash_sdk.Authorization.Verify.{
  Refusal, Check, thrown, refused, passed, Credential, EnvelopeInput, RootInput, VerifyOptions,
  protocol_bitcoin, ◌>>=◌, ◌>>◌, present, call, attempt, require,
}
use sigbash_sdk.Authorization.Verify.Steps.{
  current_time, envelope_of, key_index_of, as_bytes, accepted_strengths, includes,
}

module _ {A : Type 0} where
  -- A chain that passes has passed both steps.
  pub >>=-eq-passed :
      {B : Type 0} (c : Check B) (next : B → Check A) {a : A}
      → c >>= next ≡ passed a
      → (b : B) × (c ≡ passed b) × (next b ≡ passed a)
  unfolding ◌>>=◌
  >>=-eq-passed (thrown e) next h = absurd cc
  >>=-eq-passed (refused r n) next h = absurd cc
  >>=-eq-passed (passed b) next h = (b, refl, h)

  pub >>-eq-passed :
      (c : Check (Unit {0})) (next : Check A) {a : A}
      → c >> next ≡ passed a
      → (c ≡ passed tt) × (next ≡ passed a)
  unfolding ◌>>◌ ◌>>=◌
  >>-eq-passed (thrown e) next h = absurd cc
  >>-eq-passed (refused r n) next h = absurd cc
  >>-eq-passed (passed u) next h = (refl, h)

  pub present-eq-passed :
      (o : Option A) (r : Refusal) (n : ℕ) {a : A} → present o r n ≡ passed a → o ≡ some a
  unfolding present
  present-eq-passed none r n h = absurd cc
  present-eq-passed (some b) r n h = cc

  pub call-eq-passed : (c : Result A) {a : A} → call c ≡ passed a → c ≡ ok a
  unfolding call
  call-eq-passed (err e) h = absurd cc
  call-eq-passed (ok b) h = cc

  pub attempt-eq-passed :
      (c : Result A) (r : Refusal) (n : ℕ) {a : A} → attempt c r n ≡ passed a → c ≡ ok a
  unfolding attempt
  attempt-eq-passed (err e) r n h = absurd cc
  attempt-eq-passed (ok b) r n h = cc

pub require-eq-passed :
    (t : Bool) (r : Refusal) (n : ℕ) {u : Unit {0}} → require t r n ≡ passed u → t ≡ true
unfolding require
require-eq-passed true r n h = refl
require-eq-passed false r n h = absurd cc

pub includes_iff : (t : Text) (ss : List Text) → (includes t ss ≡ true) ↔ Has ss t
unfolding includes
includes_iff t [] = (λ h. absurd cc, λ m. absurd m)
includes_iff t (s ∷ ss) = (
  λ h. elim (sigbash_sdk.Prelude.Bool-cases (eqb s t)) [
    | inl same ↦ inl ((eqb_iff s t).0 same)
    | inr other ↦ inr ((includes_iff t ss).0 (rw other at h))
  ],
  λ m. elim m [
    | inl e ↦ rw (← e, eqb_refl s) refl
    | inr later ↦ or_right (eqb s t) (includes t ss) ((includes_iff t ss).1 later)
  ],
)
  where
    or_right : (a b : Bool) → b ≡ true → (a || b) ≡ true
    or_right true b h = refl
    or_right false b h = h

module _ (sha256 : Bytes → Bytes) (json_parse : Text → Option Json)
    (verify_signature : Bytes → Bytes → Bytes → Result Bool) (registry : Registry) (clock : ℕ)
    (options : VerifyOptions) where
  -- A key of the set that is active under the artifact's key id signed the received bytes.
  pub record IsSigned (key_set : LoadedKeySet) (fields : ArtifactFields) : Type 0 where
    pub key : KeysetEntry
    pub selected : issuer_key_for_kid key_set fields.issuer_kid ≡ some key
    pub public_key : Bytes
    pub decoded : hex_to_bytes key.public_key_hex ≡ ok public_key
    pub verified : verify_signature options.raw_signature options.raw_artifact public_key ≡ ok true

  -- The clock is inside the window, and the artifact is for this network.
  pub record IsCurrent (fields : ArtifactFields) : Type 0 where
    pub begun : fields.issued_at ≤ current_time clock options
    pub unexpired : current_time clock options ≤ fields.expires_at
    pub protocol : fields.protocol ≡ protocol_bitcoin
    pub network : fields.network ≡ options.network

  -- The artifact's commitment is the aggregate of the envelope's pins, and the pinned challenge is
  -- the one that the adapter derives from the raw subject and the salt.
  pub record IsBound (fields : ArtifactFields) : Type 0 where
    pub input : EnvelopeInput
    pub given_envelope : options.envelope ≡ some input
    pub envelope : Envelope
    pub parsed : envelope_of json_parse input ≡ passed envelope
    pub committed : pin_aggregate_from_envelope sha256 envelope ≡ ok fields.subject_commitment
    pub subject : Bytes
    pub given_subject : options.subject ≡ some subject
    pub salt : Bytes
    pub given_salt : options.salt ≡ some salt
    pub adapter : Adapter
    pub registered : get_adapter registry fields.subject_kind ≡ some adapter
    pub verifiable : adapter.check_verifiable subject options.network ≡ ok tt
    pub bundle : Bundle
    pub completing : completing_bundle envelope ≡ ok bundle
    pub derived :
        adapter.rederive_completing_e_hat subject envelope salt
        ≡ ok bundle.public_inputs.challenge_e

  -- The scope of a credential, where one is given.
  abbrev pub IsCredential : Option Credential → ArtifactFields → Type 0
  IsCredential none fields = Unit
  IsCredential (some credential) fields =
      (index : ℕ) × (key_index_of json_parse credential ≡ some index)
      × (authz_scope sha256 credential.credential_identifier index ≡ fields.scope)

  -- The scope is the expected one, or else the credential's.
  abbrev pub IsScoped : Option Bytes → Option Credential → ArtifactFields → Type 0
  IsScoped none credential fields = IsCredential credential fields
  IsScoped (some expected) credential fields = expected ≡ fields.scope

  -- The policy root is the pinned one, if there is a pin.
  abbrev pub IsRooted : Option RootInput → ArtifactFields → Type 0
  IsRooted none fields = Unit
  IsRooted (some root) fields = as_bytes root ≡ ok fields.policy_root

  -- Everything that the enforcer relies on.
  pub record IsAuthorized : Type 0 where
    pub key_set : LoadedKeySet
    pub given_keys : options.issuer_key_set ≡ some key_set
    pub fields : ArtifactFields
    pub decoded : decode_authorization_artifact options.raw_artifact ≡ ok fields
    pub signed : IsSigned key_set fields
    pub current : IsCurrent fields
    pub bound : IsBound fields
    pub scoped : IsScoped options.expected_scope options.credential fields
    pub rooted : IsRooted options.expected_policy_root fields
    pub strength : Has (accepted_strengths options) fields.strength
