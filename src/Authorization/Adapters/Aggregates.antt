-- ===== src/Authorization/Adapters/Aggregates.antt =====
-- The derivations that every enforcer makes from the completing bundle of an envelope.
use sigbash_sdk.Prelude.{[], ◌∷◌, none, some, Result, ok, err, type_error}
use sigbash_sdk.Calls.{◌>>=◌}
use sigbash_sdk.Bytes.{Bytes}
use sigbash_sdk.Bytes.Hex.{hex_to_bytes}
use sigbash_sdk.Text.{Text}
use sigbash_sdk.Contracts.AuthorizationSubject.Aggregates.{
  authz_pin_aggregate, authz_burn_set_aggregate, authz_action_key,
}
use sigbash_sdk.Authorization.Envelope.{
  Bundle, Envelope, completing_position_of, select_covenant_write_commit,
}

-- `completingPositionOf(envelope).bundle`; a field of `undefined` throws a TypeError.
unfoldable pub completing_bundle : Envelope → Result Bundle
completing_bundle e = elim (completing_position_of e) [
  | none ↦ err type_error
  | some position ↦ ok (position.bundle)
]

module _ (sha256 : Bytes → Bytes) where
  unfoldable pub pin_aggregate_from_envelope : Envelope → Result Bytes
  pin_aggregate_from_envelope e = do
    bundle ← completing_bundle e
    let pins = bundle.public_inputs
    authz_pin_aggregate sha256 (e.session_id) 0
        (record { e_hat = pins.challenge_e; position_mode = pins.position_mode } ∷ [])
        (record {
          hash_outputs_blinded_commit = pins.hash_outputs_blinded_commit;
          covenant_write_commit = select_covenant_write_commit bundle;
        }
          ∷ [])
        (record {
          hash_outputs_blinded_commit_unified = pins.hash_outputs_blinded_commit_unified;
          hin_blinded_commit_unified = pins.hin_blinded_commit_unified;
          salt_blinded_commit_unified = pins.salt_blinded_commit_unified;
          poly_coeffs_blinded_commit_unified = pins.poly_coeffs_blinded_commit_unified;
          input_set_poly_product = pins.input_set_poly_product;
        })

  unfoldable pub burn_set_aggregate_from_envelope : Envelope → Result Bytes
  burn_set_aggregate_from_envelope e = do
    bundle ← completing_bundle e
    let pins = bundle.public_inputs
    ok (
        authz_burn_set_aggregate sha256 (e.session_id)
          (record { position_index = 0; n0 = pins.nullifier_n0; n1 = pins.nullifier_n1 } ∷ []))

  unfoldable pub action_key_from_burn_pair : Text × Text → Result Bytes
  action_key_from_burn_pair (n0, n1) = do
    bytes ← hex_to_bytes n0
    ok (authz_action_key sha256 (bytes ∷ []))
