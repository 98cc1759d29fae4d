-- ===== src/Authorization/Verify/Order.antt =====
-- The order of the checklist.
use sigbash_sdk.Prelude.{
  ℕ, ◌≡◌, refl, Bool, true, false, Option, none, some, leb, Result, ok, err, inl, inr, ◌⊎◌,
}
use sigbash_sdk.Bytes.{Bytes}
use sigbash_sdk.Text.{Text}
use sigbash_sdk.Json.{Json}
use sigbash_sdk.Contracts.AuthorizationArtifact.{ArtifactFields}
use sigbash_sdk.Contracts.AuthorizationArtifact.Decode.{decode_authorization_artifact}
use sigbash_sdk.Authorization.Adapters.{Registry}
use sigbash_sdk.Authorization.IssuerKeySet.{LoadedKeySet}
use sigbash_sdk.Authorization.Verify.{
  Refusal, Check, thrown, passed, refused, VerifyOptions, present, require, ◌>>=◌, ◌>>◌,
}
use sigbash_sdk.Authorization.Verify.Steps.{
  decode_refusal, decode_step, signature_step, verify_authorization,
}
use sigbash_sdk.Authorization.Verify.Accepted.{present-eq-passed, IsSigned}
use sigbash_sdk.Authorization.Verify.Sound.{decode_step-eq-passed, signature_step-IsSigned}

-- The outcome is a refusal at one of the first three steps.
unfoldable pub is_early : {A : Type 0} → Check A → Bool
is_early (refused r n) = leb n 3
is_early _ = false

-- The step passes, or ends the checklist early.
abbrev Settles : {A : Type 0} → Check A → Type 0
Settles {A} c = (is_early c ≡ true) ⊎ ((a : A) × (c ≡ passed a))

module _ {A : Type 0} where
  is_early-bind :
      {B : Type 0} (c : Check B) (next : B → Check A)
      → is_early c ≡ true
      → is_early (c >>= next) ≡ true
  unfolding is_early ◌>>=◌
  is_early-bind (refused r n) next h = h
  is_early-bind (thrown e) next h = absurd cc
  is_early-bind (passed b) next h = absurd cc

  present-Settles : (o : Option A) (r : Refusal) (n : ℕ) → leb n 3 ≡ true → Settles (present o r n)
  unfolding is_early present
  present-Settles none r n h = inl h
  present-Settles (some a) r n h = inr (a, refl)

require-Settles : (t : Bool) (r : Refusal) (n : ℕ) → leb n 3 ≡ true → Settles (require t r n)
unfolding is_early require
require-Settles true r n h = inr (tt, refl)
require-Settles false r n h = inl h

decode_step-Settles : (raw : Bytes) → Settles (decode_step raw)
unfolding decode_step is_early
decode_step-Settles raw = go (decode_authorization_artifact raw)
  where
    go :
        (r : Result ArtifactFields)
        → Settles (elim r [ err e ↦ refused (decode_refusal e) 2 | ok fields ↦ passed fields ])
    go (err e) = inl refl
    go (ok f) = inr (f, refl)

module _ {A : Type 0} where
  -- A chain is early, or its first step passed and what follows is the outcome.
  bind-cases :
      {B : Type 0} (c : Check B) (next : B → Check A)
      → Settles c
      → (is_early (c >>= next) ≡ true) ⊎ ((b : B) × (c ≡ passed b) × (c >>= next ≡ next b))
  unfolding ◌>>=◌
  bind-cases c next (inl early) = inl (is_early-bind c next early)
  bind-cases c next (inr (b, e)) = inr (b, e, rw e refl)

module _ (sha256 : Bytes → Bytes) (json_parse : Text → Option Json)
    (verify_signature : Bytes → Bytes → Bytes → Result Bool) (registry : Registry) (clock : ℕ)
    (options : VerifyOptions) where
  signature_step-Settles :
      (key_set : LoadedKeySet) (fields : ArtifactFields)
      → Settles (signature_step verify_signature options key_set fields)
  unfolding signature_step
  signature_step-Settles key_set fields =
      elim (bind-cases _ (λ key. require _ Refusal.bad_signature 3) (present-Settles _ _ 3 refl)) [
        | inl early ↦ inl early
        | inr (key, found, e) ↦ rw e (require-Settles _ Refusal.bad_signature 3 refl)
      ]

  -- A checklist that throws, accepts, or refuses behind its third step was given a key set and an
  -- artifact that decodes, whose received bytes an active key of the set has signed; any other
  -- outcome is a refusal at one of the first three steps.
  pub verify_authorization_signature_first :
      (is_early (verify_authorization sha256 json_parse verify_signature registry clock options)
        ≡ true)
      ⊎ ((key_set : LoadedKeySet) × (fields : ArtifactFields) × (options.issuer_key_set
            ≡ some key_set)
          × (decode_authorization_artifact options.raw_artifact ≡ ok fields)
          × IsSigned sha256 json_parse verify_signature registry clock options key_set fields)
  unfolding verify_authorization ◌>>◌
  verify_authorization_signature_first =
      elim (bind-cases _ _ (present-Settles options.issuer_key_set Refusal.issuer_unknown 1 refl)) [
        | inl early ↦ inl early
        | inr (key_set, given, e) ↦
            rw e (elim (bind-cases _ _ (decode_step-Settles options.raw_artifact)) [
              | inl early ↦ inl early
              | inr (fields, decoded, f) ↦
                  rw f (elim (bind-cases _ _ (signature_step-Settles key_set fields)) [
                    | inl early ↦ inl early
                    | inr (done, signed, g) ↦ inr (
                      key_set,
                      fields,
                      present-eq-passed _ _ _ given,
                      decode_step-eq-passed _ _ decoded,
                      signature_step-IsSigned sha256 json_parse verify_signature registry clock
                          options key_set fields signed,
                    )
                  ])
            ])
      ]
