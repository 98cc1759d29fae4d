-- ===== src/Contracts/AuthorizationSubject/Aggregates.antt =====
-- The aggregates over the pins of a proof, the action key and the scope digest. The source's
-- arrays of message parts are concatenated in order.
use sigbash_sdk.Prelude.{
  ℕ, ◌%◌, List, [], ◌∷◌, ◌++◌, length, ◌==◌, Result, ok, guard, plain_error, bad_length,
}
use sigbash_sdk.Calls.{◌>>=◌, ◌>>◌, map_calls}
use sigbash_sdk.Bytes.{Bytes}
use sigbash_sdk.Text.{Text, units, utf8}
use sigbash_sdk.Contracts.AuthorizationSubject.{le32}
use sigbash_sdk.Contracts.AuthorizationSubject.Preimages.{joined}

pub record PinEntry : Type 0 where
  pub e_hat : Bytes
  pub position_mode : ℕ

pub record ChunkEntry : Type 0 where
  pub hash_outputs_blinded_commit : Bytes
  pub covenant_write_commit : Bytes

pub record CompletingPins : Type 0 where
  pub hash_outputs_blinded_commit_unified : Bytes
  pub hin_blinded_commit_unified : Bytes
  pub salt_blinded_commit_unified : Bytes
  pub poly_coeffs_blinded_commit_unified : Bytes
  pub input_set_poly_product : Bytes

pub record BurnEntry : Type 0 where
  pub position_index : ℕ
  pub n0 : Bytes
  pub n1 : Bytes

-- `throw new Error(…)` unless the array has `n` bytes.
unfoldable pub assert_width : Bytes → ℕ → Result (Unit {0})
assert_width bytes n = guard (length bytes == n) (plain_error bad_length)

unfoldable pub chunk_bytes : ChunkEntry → Result Bytes
chunk_bytes c = do
  assert_width (c.hash_outputs_blinded_commit) 32
  assert_width (c.covenant_write_commit) 16
  ok (c.hash_outputs_blinded_commit ++ c.covenant_write_commit)

-- The pins of the completing position, each asserted before any is put out.
unfoldable pub completing_bytes : CompletingPins → Result Bytes
completing_bytes p = do
  assert_width (p.hash_outputs_blinded_commit_unified) 32
  assert_width (p.hin_blinded_commit_unified) 32
  assert_width (p.salt_blinded_commit_unified) 32
  assert_width (p.poly_coeffs_blinded_commit_unified) 32
  assert_width (p.input_set_poly_product) 16
  ok (
      p.hash_outputs_blinded_commit_unified ++ p.hin_blinded_commit_unified
      ++ p.salt_blinded_commit_unified ++ p.poly_coeffs_blinded_commit_unified
      ++ p.input_set_poly_product)

-- The message that the aggregate hashes. `Uint8Array.from` keeps the low eight bits of a mode.
unfoldable pub pin_message :
    Bytes → ℕ → List PinEntry → List ChunkEntry → CompletingPins → Result Bytes
pin_message session_id completing_position positions chunks completing = do
  parts ← map_calls chunk_bytes chunks
  pins ← completing_bytes completing
  ok (
      utf8 (units "SIGBASH.AUTHZ.PINAGG.V1")
      ++ session_id
      ++ le32 (length positions)
      ++ le32 completing_position
      ++ joined (λ p. p.e_hat ++ ((p.position_mode % 256) ∷ [])) positions
      ++ le32 (length chunks)
      ++ joined (λ part. part) parts
      ++ pins)

module _ (sha256 : Bytes → Bytes) where
  unfoldable pub sha256d : Bytes → Bytes
  sha256d msg = sha256 msg

  unfoldable pub authz_pin_aggregate :
      Bytes → ℕ → List PinEntry → List ChunkEntry → CompletingPins → Result Bytes
  authz_pin_aggregate session_id completing_position positions chunks completing = do
    msg ← pin_message session_id completing_position positions chunks completing
    ok (sha256d msg)

  unfoldable pub authz_burn_set_aggregate : Bytes → List BurnEntry → Bytes
  authz_burn_set_aggregate session_id entries = sha256d (
      utf8 (units "SIGBASH.AUTHZ.BURNSET.V1")
      ++ session_id
      ++ le32 (length entries)
      ++ joined (λ e. le32 e.position_index ++ e.n0 ++ e.n1) entries)

  unfoldable pub authz_action_key : List Bytes → Bytes
  authz_action_key n0s = sha256 (utf8 (units "SIGBASH.AUTHZ.ACTIONKEY.V1") ++ joined (λ n. n) n0s)

  unfoldable pub authz_scope : Text → ℕ → Bytes
  authz_scope credential_identifier key_index = sha256 (
      utf8 (units "SIGBASH.AUTHZ.SCOPE.V1")
      ++ (0x00 ∷ [])
      ++ utf8 credential_identifier
      ++ le32 key_index)
