-- ===== src/Authorization/Envelope.antt =====
-- src/authorization/envelope.ts: the proof envelope, and its parser over a value that `JSON.parse`
-- gave. Whatever the parser refuses throws an AuthorizationEnvelopeFormatError.
pub mod Parse
pub mod Widths
pub mod Sound
use sigbash_sdk.Prelude.{
  ℕ, List, [], ◌∷◌, Bool, true, false, Option, none, some, replicate, get_elem?, if◌then◌else◌,
}
use sigbash_sdk.Bytes.{Bytes}
use sigbash_sdk.Json.{Number}

pub data MuxBranch : Type 0 where
  key_path tapscript : MuxBranch

pub record PositionDisclosure : Type 0 where
  pub hash_type : Number
  pub is_acp : Bool
  pub mux_branch : MuxBranch
  pub leaf_hash : Option Bytes

pub record PublicInputs : Type 0 where
  pub challenge_e : Bytes
  pub path_id : Bytes
  pub session_seed : Bytes
  pub nullifier_n0 : Bytes
  pub nullifier_n1 : Bytes
  pub hash_outputs_blinded_commit : Bytes
  pub hash_outputs_blinded_commit_unified : Bytes
  pub hin_blinded_commit_unified : Bytes
  pub salt_blinded_commit_unified : Bytes
  pub poly_coeffs_blinded_commit_unified : Bytes
  pub input_set_poly_product : Bytes
  pub position_mode : ℕ

pub record ChunkPins : Type 0 where
  pub is_final_chunk : Bool
  pub covenant_write_commit : Bytes

pub record Bundle : Type 0 where
  pub public_inputs : PublicInputs
  pub proof_session_id : Bytes
  pub output_chunk_proofs : List ChunkPins

pub record Position : Type 0 where
  pub bundle : Bundle
  pub posture : PositionDisclosure
  pub position_mode : ℕ

pub record Envelope : Type 0 where
  pub version : ℕ
  pub session_id : Bytes
  pub completing_position : ℕ
  pub positions : List Position

-- `chunks.find(c => c.isFinalChunk) ?? chunks[chunks.length - 1]`, with `last` the chunk before.
unfoldable pub select_chunk : Option ChunkPins → List ChunkPins → Option ChunkPins
select_chunk last [] = last
select_chunk last (c ∷ cs) = if c.is_final_chunk then some c else select_chunk (some c) cs

-- `selected ? selected.covenantWriteCommit : new Uint8Array(16)`
unfoldable pub commit_of : Option ChunkPins → Bytes
commit_of none = replicate 16 0
commit_of (some c) = c.covenant_write_commit

-- `selectCovenantWriteCommit`
unfoldable pub select_covenant_write_commit : Bundle → Bytes
select_covenant_write_commit bundle = commit_of (select_chunk none (bundle.output_chunk_proofs))

-- `completingPositionOf`, which is `undefined` where the position is none of the list.
unfoldable pub completing_position_of : Envelope → Option Position
completing_position_of e = get_elem? (e.positions) (e.completing_position)
