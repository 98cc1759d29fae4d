-- ===== src/Authorization/Verify/Throws.antt =====
-- When the checklist throws.
use sigbash_sdk.Prelude.{
  ℕ, ◌≡◌, refl, sym, ◌∙◌, Bool, true, false, Option, none, some, Result, ok, err, Error, [], ◌∷◌,
}
use sigbash_sdk.Bytes.{Bytes}
use sigbash_sdk.Text.{Text}
use sigbash_sdk.Json.{Json}
use sigbash_sdk.Contracts.AuthorizationArtifact.{ArtifactFields}
use sigbash_sdk.Contracts.AuthorizationArtifact.Decode.{decode_authorization_artifact}
use sigbash_sdk.Authorization.Envelope.{Envelope}
use sigbash_sdk.Authorization.Envelope.Parse.{parse_authorization_envelope}
use sigbash_sdk.Authorization.Envelope.Widths.{IsEnvelope}
use sigbash_sdk.Authorization.Envelope.Sound.{parse_authorization_envelope-IsEnvelope}
use sigbash_sdk.Authorization.Adapters.{Registry}
use sigbash_sdk.Authorization.Adapters.Total.{Returns, completing_bundle-ok, pin_aggregate_total}
use sigbash_sdk.Authorization.IssuerKeySet.{LoadedKeySet}
use sigbash_sdk.Authorization.Verify.{
  Refusal, Check, thrown, refused, passed, Credential, EnvelopeInput, RootInput, VerifyOptions,
  present, call, attempt, require, ◌>>=◌, ◌>>◌,
}
use sigbash_sdk.Authorization.Verify.Steps.{
  decode_refusal, decode_step, signature_step, window_step, match_step, envelope_of, subject_step,
  credential_step, scope_check, root_check, scope_step, root_step, as_bytes, strength_step,
  verify_authorization,
}
use sigbash_sdk.Authorization.Verify.Accepted.{present-eq-passed}

-- The step does not throw.
unfoldable pub IsQuiet : {A : Type 0} → Check A → Type 0
IsQuiet c = (e : Error) → c ≡ thrown e → ⊥

IsQuiet-refused : (A : Type 0) (r : Refusal) (n : ℕ) → IsQuiet {A = A} (refused r n)
unfolding IsQuiet
IsQuiet-refused A r n e h = cc

module _ {A : Type 0} where
  IsQuiet-passed : (a : A) → IsQuiet (passed a)
  unfolding IsQuiet
  IsQuiet-passed a e h = cc

  IsQuiet-bind :
      {B : Type 0} (c : Check B) (next : B → Check A)
      → IsQuiet c
      → ((b : B) → c ≡ passed b → IsQuiet (next b))
      → IsQuiet (c >>= next)
  unfolding ◌>>=◌ IsQuiet
  IsQuiet-bind (thrown f) next q p e h = absurd (q f refl)
  IsQuiet-bind (refused r n) next q p e h = cc
  IsQuiet-bind (passed b) next q p e h = p b refl e h

  IsQuiet-then :
      (c : Check (Unit {0})) (next : Check A) → IsQuiet c → IsQuiet next → IsQuiet (c >> next)
  unfolding ◌>>◌
  IsQuiet-then c next q p = IsQuiet-bind c (λ u. next) q (λ u h. p)

  IsQuiet-present : (o : Option A) (r : Refusal) (n : ℕ) → IsQuiet (present o r n)
  unfolding present
  IsQuiet-present none r n = IsQuiet-refused _ r n
  IsQuiet-present (some a) r n = IsQuiet-passed a

  IsQuiet-attempt : (c : Result A) (r : Refusal) (n : ℕ) → IsQuiet (attempt c r n)
  unfolding attempt
  IsQuiet-attempt (err e) r n = IsQuiet-refused _ r n
  IsQuiet-attempt (ok a) r n = IsQuiet-passed a

  -- A call that returns does not throw.
  IsQuiet-call : (c : Result A) → Returns c → IsQuiet (call c)
  unfolding call
  IsQuiet-call (err f) (a, k) = absurd cc
  IsQuiet-call (ok b) k = IsQuiet-passed b

call-passed : {A : Type 0} (c : Result A) {a : A} → c ≡ ok a → call c ≡ passed a
unfolding call
call-passed c h = rw h refl

IsQuiet-require : (t : Bool) (r : Refusal) (n : ℕ) → IsQuiet (require t r n)
unfolding require
IsQuiet-require true r n = IsQuiet-passed tt
IsQuiet-require false r n = IsQuiet-refused _ r n

IsQuiet-decode : (raw : Bytes) → IsQuiet (decode_step raw)
unfolding decode_step
IsQuiet-decode raw = go (decode_authorization_artifact raw)
  where
    go :
        (r : Result ArtifactFields)
        → IsQuiet (elim r [ err e ↦ refused (decode_refusal e) 2 | ok fields ↦ passed fields ])
    go (err e) = IsQuiet-refused _ _ 2
    go (ok f) = IsQuiet-passed f

IsQuiet-root :
    (root : Option RootInput) (fields : ArtifactFields)
    → ((r : RootInput) → root ≡ some r → Returns (as_bytes r))
    → IsQuiet (root_check root fields)
unfolding root_check
IsQuiet-root none fields h = IsQuiet-passed _
IsQuiet-root (some root) fields h =
    IsQuiet-bind _ _ (IsQuiet-call _ (h root refl)) (λ expected e.
      IsQuiet-then _ _ (IsQuiet-require _ Refusal.root_mismatch 8) (IsQuiet-passed _))

module _ (sha256 : Bytes → Bytes) (json_parse : Text → Option Json) where
  -- A text that the parser takes, or an object whose fields have their widths.
  abbrev pub IsReadable : EnvelopeInput → Type 0
  IsReadable (EnvelopeInput.envelope_json text) =
      Returns (parse_authorization_envelope json_parse text)
  IsReadable (EnvelopeInput.envelope_object envelope) = IsEnvelope envelope

  IsQuiet-envelope :
      (input : EnvelopeInput) → IsReadable input → IsQuiet (envelope_of json_parse input)
  unfolding envelope_of
  IsQuiet-envelope (EnvelopeInput.envelope_json []) h = IsQuiet-refused _ _ 6
  IsQuiet-envelope (EnvelopeInput.envelope_json (c ∷ text)) h = IsQuiet-call _ h
  IsQuiet-envelope (EnvelopeInput.envelope_object e) h = IsQuiet-passed e

  envelope_of-IsEnvelope :
      (input : EnvelopeInput) (e : Envelope)
      → IsReadable input
      → envelope_of json_parse input ≡ passed e
      → IsEnvelope e
  unfolding envelope_of call
  envelope_of-IsEnvelope (EnvelopeInput.envelope_json []) e h k = absurd cc
  envelope_of-IsEnvelope (EnvelopeInput.envelope_json (c ∷ text)) e (f, p) k =
      let same : f ≡ e = (let q : passed f ≡ passed e = sym (call-passed _ p) ∙ k in cc) in
      rw (← same) (parse_authorization_envelope-IsEnvelope json_parse (c ∷ text) f p)
  envelope_of-IsEnvelope (EnvelopeInput.envelope_object f) e h k =
      let same : f ≡ e = cc in rw (← same) h

  IsQuiet-credential :
      (credential : Option Credential) (fields : ArtifactFields)
      → IsQuiet (credential_step sha256 json_parse credential fields)
  unfolding credential_step
  IsQuiet-credential none fields = IsQuiet-passed _
  IsQuiet-credential (some credential) fields =
      IsQuiet-bind _ _ (IsQuiet-present _ Refusal.scope_mismatch 7) (λ index e.
        IsQuiet-then _ _ (IsQuiet-require _ Refusal.scope_mismatch 7) (IsQuiet-passed _))

  IsQuiet-scope :
      (expected : Option Bytes) (credential : Option Credential) (fields : ArtifactFields)
      → IsQuiet (scope_check sha256 json_parse expected credential fields)
  unfolding scope_check
  IsQuiet-scope none credential fields = IsQuiet-credential credential fields
  IsQuiet-scope (some expected) credential fields =
      IsQuiet-then _ _ (IsQuiet-require _ Refusal.scope_mismatch 7) (IsQuiet-passed _)

module _ (sha256 : Bytes → Bytes) (json_parse : Text → Option Json)
    (verify_signature : Bytes → Bytes → Bytes → Result Bool) (registry : Registry) (clock : ℕ)
    (options : VerifyOptions) where
  -- Both inputs that are parsed outside of a `try` are such that their parsers return.
  pub record HasReadableInputs : Type 0 where
    pub envelope :
        (input : EnvelopeInput) → options.envelope ≡ some input → IsReadable sha256 json_parse input
    pub root :
        (root : RootInput) → options.expected_policy_root ≡ some root → Returns (as_bytes root)

  IsQuiet-subject :
      (fields : ArtifactFields)
      → HasReadableInputs
      → IsQuiet (subject_step sha256 json_parse registry options fields)
  unfolding subject_step
  IsQuiet-subject fields h =
      IsQuiet-bind _ _ (IsQuiet-present _ Refusal.check_unavailable 6) (λ input given.
        let readable = h.envelope input (present-eq-passed _ _ _ given) in
        IsQuiet-bind _ _ (IsQuiet-envelope sha256 json_parse input readable) (λ envelope parsed.
          let sized = envelope_of-IsEnvelope sha256 json_parse input envelope readable parsed in
          let (position, bundle, facts) = completing_bundle-ok envelope sized in
          IsQuiet-bind _ _ (IsQuiet-call _ (pin_aggregate_total sha256 envelope sized))
            (λ aggregate a. IsQuiet-then _ _ (IsQuiet-require _ Refusal.subject_mismatch 6) (
              IsQuiet-bind _ _ (IsQuiet-present _ Refusal.check_unavailable 6) (λ subject s.
                IsQuiet-bind _ _ (IsQuiet-present _ Refusal.check_unavailable 6) (λ salt t.
                  IsQuiet-bind _ _ (IsQuiet-present _ Refusal.kind_unknown 6) (λ adapter k.
                    IsQuiet-then _ _ (IsQuiet-attempt _ Refusal.subject_mismatch 6) (
                      IsQuiet-bind _ _ (IsQuiet-attempt _ Refusal.subject_mismatch 6) (λ derived d.
                        IsQuiet-bind _ _ (IsQuiet-call _ (_, bundle))
                          (λ bundle b. IsQuiet-require _ Refusal.subject_mismatch 6))))))))))

  IsQuiet-signature :
      (key_set : LoadedKeySet) (fields : ArtifactFields)
      → IsQuiet (signature_step verify_signature options key_set fields)
  unfolding signature_step
  IsQuiet-signature key_set fields =
      IsQuiet-bind _ _ (IsQuiet-present _ Refusal.issuer_unknown 3)
        (λ key k. IsQuiet-require _ Refusal.bad_signature 3)

  IsQuiet-window : (now : ℕ) (fields : ArtifactFields) → IsQuiet (window_step now fields)
  unfolding window_step
  IsQuiet-window now fields =
      IsQuiet-then _ _ (IsQuiet-require _ Refusal.not_yet_valid 4)
        (IsQuiet-require _ Refusal.expired 4)

  IsQuiet-match : (network : Text) (fields : ArtifactFields) → IsQuiet (match_step network fields)
  unfolding match_step
  IsQuiet-match network fields =
      IsQuiet-then _ _ (IsQuiet-require _ Refusal.subject_mismatch 5)
        (IsQuiet-require _ Refusal.network_mismatch 5)

  -- The checklist never throws where the envelope is absent, a text that its parser takes, or an
  -- object whose fields have their widths, and the pinned policy root is absent or decodes:
  -- whatever the artifact, the signature check and the adapters do, it accepts or refuses.
  pub verify_authorization-IsQuiet :
      HasReadableInputs
      → IsQuiet (verify_authorization sha256 json_parse verify_signature registry clock options)
  unfolding verify_authorization scope_step root_step strength_step
  verify_authorization-IsQuiet h =
      IsQuiet-bind _ _ (IsQuiet-present _ Refusal.issuer_unknown 1) (λ key_set g.
        IsQuiet-bind _ _ (IsQuiet-decode options.raw_artifact) (λ fields d.
          IsQuiet-then _ _ (IsQuiet-signature key_set fields) (
            IsQuiet-then _ _ (IsQuiet-window _ fields) (
              IsQuiet-then _ _ (IsQuiet-match _ fields) (
                IsQuiet-then _ _ (IsQuiet-subject fields h) (
                  IsQuiet-bind _ _ (IsQuiet-scope sha256 json_parse _ _ fields) (λ scope s.
                    IsQuiet-bind _ _ (IsQuiet-root _ fields h.root) (λ root r.
                      IsQuiet-then _ _ (IsQuiet-require _ Refusal.strength_rejected 9)
                        (IsQuiet-passed _)))))))))
