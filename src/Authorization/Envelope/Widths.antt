-- ===== src/Authorization/Envelope/Widths.antt =====
-- The widths that the fields of an envelope have.
use sigbash_sdk.Prelude.{ℕ, ◌≤◌, ◌<◌, ◌≡◌, length, Option, none, some, All}
use sigbash_sdk.Bytes.{Bytes}
use sigbash_sdk.Authorization.Envelope.{PublicInputs, ChunkPins, Position, Envelope}

-- An array of `n` bytes.
pub record IsBytes (n : ℕ) (bs : Bytes) : Type 0 where
  pub width : length bs ≡ n
  pub bytes : All (λ b. b ≤ 0xff) bs

abbrev pub IsOptionalBytes : ℕ → Option Bytes → Type 0
IsOptionalBytes n none = Unit
IsOptionalBytes n (some bs) = IsBytes n bs

pub record IsPublicInputs (p : PublicInputs) : Type 0 where
  pub challenge_e : IsBytes 32 p.challenge_e
  pub path_id : IsBytes 32 p.path_id
  pub session_seed : IsBytes 32 p.session_seed
  pub nullifier_n0 : IsBytes 32 p.nullifier_n0
  pub nullifier_n1 : IsBytes 32 p.nullifier_n1
  pub hash_outputs_blinded_commit : IsBytes 32 p.hash_outputs_blinded_commit
  pub unified : IsBytes 32 p.hash_outputs_blinded_commit_unified
  pub hin : IsBytes 32 p.hin_blinded_commit_unified
  pub salt : IsBytes 32 p.salt_blinded_commit_unified
  pub coeffs : IsBytes 32 p.poly_coeffs_blinded_commit_unified
  pub product : IsBytes 16 p.input_set_poly_product
  pub position_mode : p.position_mode ≤ 0xff

abbrev pub IsChunk : ChunkPins → Type 0
IsChunk c = IsBytes 16 c.covenant_write_commit

pub record IsPosition (p : Position) : Type 0 where
  pub public_inputs : IsPublicInputs p.bundle.public_inputs
  pub proof_session_id : IsBytes 32 p.bundle.proof_session_id
  pub chunks : All IsChunk p.bundle.output_chunk_proofs
  pub leaf_hash : IsOptionalBytes 32 p.posture.leaf_hash
  pub position_mode : p.position_mode ≤ 0xff

-- Every field has its width, and the completing position is one of the positions.
pub record IsEnvelope (e : Envelope) : Type 0 where
  pub version : e.version ≡ 1
  pub session_id : IsBytes 32 e.session_id
  pub positions : All IsPosition e.positions
  pub completing : e.completing_position < length e.positions
