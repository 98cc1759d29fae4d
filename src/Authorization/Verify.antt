-- ===== src/Authorization/Verify.antt =====
-- src/authorization/verify.ts: the checklist that accepts or refuses an authorization without the
-- server. A run of it throws, refuses at a step with a reason, or passes. Of the details of an
-- outcome, the step and the values are kept, the messages are not.
pub mod Steps
pub mod Accepted
pub mod Sound
pub mod Complete
pub mod Order
pub mod Throws
use sigbash_sdk.Prelude.{
  ℕ, List, [], ◌∷◌, Bool, true, false, Option, none, some, Error, Result, ok, err, if◌then◌else◌,
}
use sigbash_sdk.Bytes.{Bytes}
use sigbash_sdk.Text.{Text, units}
use sigbash_sdk.Authorization.Envelope.{Envelope}
use sigbash_sdk.Authorization.IssuerKeySet.{LoadedKeySet}

pub data Refusal : Type 0 where
  issuer_unknown non_canonical unknown_version bad_signature not_yet_valid expired subject_mismatch
        network_mismatch check_unavailable kind_unknown scope_mismatch root_mismatch
        strength_rejected :
      Refusal

pub data Check (A : Type 0) : Type 0 where
  thrown : Error → Check A
  refused : Refusal → ℕ → Check A
  passed : A → Check A

pub record Credential : Type 0 where
  pub credential_identifier : Text
  pub key_index : Option ℕ
  pub kmc_json : Option Text

pub data EnvelopeInput : Type 0 where
  envelope_json : Text → EnvelopeInput
  envelope_object : Envelope → EnvelopeInput

pub data RootInput : Type 0 where
  root_hex : Text → RootInput
  root_bytes : Bytes → RootInput

pub record VerifyOptions : Type 0 where
  pub raw_artifact : Bytes
  pub raw_signature : Bytes
  pub network : Text
  pub issuer_key_set : Option LoadedKeySet
  pub subject : Option Bytes
  pub envelope : Option EnvelopeInput
  pub salt : Option Bytes
  pub expected_scope : Option Bytes
  pub credential : Option Credential
  pub expected_policy_root : Option RootInput
  pub now : Option ℕ
  pub accepted_strengths : Option (List Text)

pub data ScopeDetail : Type 0 where
  scope_expected scope_not_checked : ScopeDetail
  scope_recomputed : ℕ → ScopeDetail

pub data RootDetail : Type 0 where
  root_pinned : RootDetail
  root_reported : Text → RootDetail

pub record Detail : Type 0 where
  pub subject_kind : Text
  pub issuer_kid : Text
  pub scope : ScopeDetail
  pub policy_root : RootDetail
  pub strength : Text

abbrev pub strength_accepted_default : Text
strength_accepted_default = units "software_enforced"

abbrev pub protocol_bitcoin : Text
protocol_bitcoin = units "bitcoin"

-- A step that returns ends the checklist; otherwise the next one runs.
infixl 5 ◌>>=◌ ◌>>◌
module _ {A : Type 0} where
  unfoldable pub ◌>>=◌ : {B : Type 0} → Check B → (B → Check A) → Check A
  ◌>>=◌ (thrown e) next = thrown e
  ◌>>=◌ (refused r n) next = refused r n
  ◌>>=◌ (passed b) next = next b

  unfoldable pub ◌>>◌ : Check (Unit {0}) → Check A → Check A
  ◌>>◌ first next = ◌>>=◌ first (λ done. next)

  -- `if (!found) return { valid: false, … }`
  unfoldable pub present : Option A → Refusal → ℕ → Check A
  present none r n = refused r n
  present (some a) r n = passed a

  -- A call outside of any `try`.
  unfoldable pub call : Result A → Check A
  call (err e) = thrown e
  call (ok a) = passed a

  -- `try { … } catch { return { valid: false, … } }`
  unfoldable pub attempt : Result A → Refusal → ℕ → Check A
  attempt (err e) r n = refused r n
  attempt (ok a) r n = passed a

unfoldable pub require : Bool → Refusal → ℕ → Check (Unit {0})
require t r n = if t then passed tt else refused r n
