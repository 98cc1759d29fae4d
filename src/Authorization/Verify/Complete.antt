-- ===== src/Authorization/Verify/Complete.antt =====
-- Whatever meets the demands is accepted.
use sigbash_sdk.Prelude.{
  ℕ, ◌≤◌, ◌≡◌, refl, Bool, true, not, Option, none, some, Result, ok, eqb_iff, ltb, arith,
}
use sigbash_sdk.Calls
use sigbash_sdk.Bytes.{Bytes}
use sigbash_sdk.Bytes.Hex.{same_hex, same_hex_iff}
use sigbash_sdk.Text.{Text}
use sigbash_sdk.Json.{Json}
use sigbash_sdk.Contracts.AuthorizationArtifact.{ArtifactFields}
use sigbash_sdk.Contracts.AuthorizationArtifact.Decode.{decode_authorization_artifact}
use sigbash_sdk.Authorization.Adapters.{Registry}
use sigbash_sdk.Authorization.IssuerKeySet.{LoadedKeySet}
use sigbash_sdk.Authorization.Verify.{
  Refusal, Check, passed, Credential, RootInput, VerifyOptions, ScopeDetail, RootDetail, Detail,
  present, call, attempt, require, ◌>>=◌, ◌>>◌,
}
use sigbash_sdk.Authorization.Verify.Steps.{
  decode_step, signature_valid, signature_step, window_step, match_step, subject_step,
  credential_step, scope_check, root_check, scope_step, root_step, strength_step,
  verify_authorization, current_time, accepted_strengths,
}
use sigbash_sdk.Authorization.Verify.Accepted.{
  includes_iff, IsSigned, IsCurrent, IsBound, IsCredential, IsScoped, IsRooted, IsAuthorized,
}

-- The step passes with some value.
abbrev Passes : {A : Type 0} → Check A → Type 0
Passes {A} c = (a : A) × (c ≡ passed a)

-- A chain of steps that pass.
bind-passes :
    {A B : Type 0} (c : Check B) (next : B → Check A) {b : B} {a : A}
    → c ≡ passed b
    → next b ≡ passed a
    → c >>= next ≡ passed a
unfolding ◌>>=◌
bind-passes c next e h = rw e h

present-passes :
    {A : Type 0} (o : Option A) (r : Refusal) (n : ℕ) {a : A}
    → o ≡ some a
    → present o r n ≡ passed a
unfolding present
present-passes o r n e = rw e refl

require-passes : (t : Bool) (r : Refusal) (n : ℕ) → t ≡ true → require t r n ≡ passed tt
unfolding require
require-passes t r n e = rw e refl

decode-passes :
    (raw : Bytes) {fields : ArtifactFields}
    → decode_authorization_artifact raw ≡ ok fields
    → decode_step raw ≡ passed fields
unfolding decode_step
decode-passes raw e = rw (e, decode_step) refl

ltb-not : (a b : ℕ) → b ≤ a → not (ltb a b) ≡ true
ltb-not a b h = ground arith

same_hex_refl : (a : Bytes) → same_hex a a ≡ true
same_hex_refl a = (same_hex_iff a a).1 refl

module _ (sha256 : Bytes → Bytes) (json_parse : Text → Option Json)
    (verify_signature : Bytes → Bytes → Bytes → Result Bool) (registry : Registry) (clock : ℕ)
    (options : VerifyOptions) where
  signed-passes :
      (key_set : LoadedKeySet) (fields : ArtifactFields)
      → IsSigned sha256 json_parse verify_signature registry clock options key_set fields
      → signature_step verify_signature options key_set fields ≡ passed tt
  unfolding signature_step ◌>>=◌ present require signature_valid Calls.◌>>=◌
  signed-passes key_set fields s = rw (s.selected) (rw (s.decoded) (rw (s.verified) refl))

  window-passes :
      (fields : ArtifactFields)
      → IsCurrent sha256 json_parse verify_signature registry clock options fields
      → window_step (current_time clock options) fields ≡ passed tt
  unfolding window_step ◌>>◌ ◌>>=◌ require
  window-passes fields c =
      let a = ltb-not (current_time clock options) fields.issued_at c.begun in
      let b = ltb-not fields.expires_at (current_time clock options) c.unexpired in rw (a, b) refl

  match-passes :
      (fields : ArtifactFields)
      → IsCurrent sha256 json_parse verify_signature registry clock options fields
      → match_step options.network fields ≡ passed tt
  unfolding match_step ◌>>◌ ◌>>=◌ require
  match-passes fields c =
      let a = (eqb_iff _ _).1 c.protocol in let b = (eqb_iff _ _).1 c.network in rw (a, b) refl

  bound-passes :
      (fields : ArtifactFields)
      → IsBound sha256 json_parse verify_signature registry clock options fields
      → subject_step sha256 json_parse registry options fields ≡ passed tt
  unfolding subject_step ◌>>◌ ◌>>=◌ present call attempt require
  bound-passes fields b =
      let same = same_hex_refl fields.subject_commitment in
      let challenge = same_hex_refl b.bundle.public_inputs.challenge_e in
      rw (b.given_envelope) (
        rw (b.parsed) (
          rw (b.committed) (
            rw same (
              rw (b.given_subject) (
                rw (b.given_salt) (
                  rw (b.registered) (
                    rw (b.verifiable)
                      (rw (b.derived) (rw (b.completing) (rw challenge refl))))))))))

  credential-Passes :
      (credential : Option Credential) (fields : ArtifactFields)
      → IsCredential sha256 json_parse verify_signature registry clock options credential fields
      → Passes (credential_step sha256 json_parse credential fields)
  unfolding credential_step ◌>>◌ ◌>>=◌ present require
  credential-Passes none fields h = (ScopeDetail.scope_not_checked, refl)
  credential-Passes (some credential) fields (index, resolved, same) =
      let e = (same_hex_iff _ _).1 same in
      (ScopeDetail.scope_recomputed index, rw resolved (rw e refl))

  scope-Passes :
      (expected : Option Bytes) (credential : Option Credential) (fields : ArtifactFields)
      → IsScoped sha256 json_parse verify_signature registry clock options expected credential
          fields
      → Passes (scope_check sha256 json_parse expected credential fields)
  unfolding scope_check ◌>>◌ ◌>>=◌ require
  scope-Passes none credential fields h = credential-Passes credential fields h
  scope-Passes (some expected) credential fields same =
      let e = (same_hex_iff expected fields.scope).1 same in (ScopeDetail.scope_expected, rw e refl)

  root-Passes :
      (root : Option RootInput) (fields : ArtifactFields)
      → IsRooted sha256 json_parse verify_signature registry clock options root fields
      → Passes (root_check root fields)
  unfolding root_check ◌>>◌ ◌>>=◌ require call
  root-Passes none fields h = (RootDetail.root_reported _, refl)
  root-Passes (some root) fields h =
      let e = same_hex_refl fields.policy_root in (RootDetail.root_pinned, rw h (rw e refl))

  -- Whatever is authorized, by the same demands, is accepted.
  pub verify_authorization_of_IsAuthorized :
      IsAuthorized sha256 json_parse verify_signature registry clock options
      → (detail : Detail) × (verify_authorization sha256 json_parse verify_signature registry clock
            options
          ≡ passed detail)
  unfolding verify_authorization ◌>>◌ scope_step root_step strength_step
  verify_authorization_of_IsAuthorized a =
      let keys : present options.issuer_key_set Refusal.issuer_unknown 1 ≡ passed a.key_set =
        present-passes _ _ _ a.given_keys in
      let signed = signed-passes a.key_set a.fields a.signed in
      let window = window-passes a.fields a.current in
      let matched = match-passes a.fields a.current in
      let bound = bound-passes a.fields a.bound in
      let (scope, scoped) = scope-Passes _ _ a.fields a.scoped in
      let (root, rooted) = root-Passes _ a.fields a.rooted in
      let strong = (includes_iff a.fields.strength (accepted_strengths options)).1 a.strength in
      let strength = require-passes _ Refusal.strength_rejected 9 strong in
      (
        _,
        bind-passes _ _ keys (
            bind-passes _ _ (decode-passes _ a.decoded) (
              bind-passes _ _ signed (
                bind-passes _ _ window (
                  bind-passes _ _ matched (
                    bind-passes _ _ bound (
                      bind-passes _ _ scoped
                        (bind-passes _ _ rooted (bind-passes _ _ strength refl)))))))),
      )
