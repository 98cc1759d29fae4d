-- ===== src/Authorization/Envelope/Parse.antt =====
-- `parseAuthorizationEnvelope` and the parsers of its parts.
use sigbash_sdk.Prelude.{
  ℕ, List, [], length, Bool, false, Option, none, some, ◌==◌, leb, ltb, if◌then◌else◌, Result, ok,
  err, guard, envelope_error, syntax_error, eqb,
}
use sigbash_sdk.Calls.{◌>>=◌, ◌>>◌, map_calls}
use sigbash_sdk.Bytes.{Bytes}
use sigbash_sdk.Text.{Text, units}
use sigbash_sdk.Json.{Number, Json, property, is_record, is_true, byte_elements, elements}
use sigbash_sdk.Authorization.Envelope.{
  MuxBranch, PositionDisclosure, PublicInputs, ChunkPins, Bundle, Position, Envelope,
}

-- `fail(…)`
abbrev fail : {A : Type 0} → Result A
fail = err envelope_error

-- The bytes of an array, where it has `n` of them and nothing else.
unfoldable pub of_width : ℕ → Option Bytes → Result Bytes
of_width n none = fail
of_width n (some bs) = guard (length bs == n) envelope_error >> ok bs

unfoldable pub fixed_bytes : Option Json → ℕ → Result Bytes
fixed_bytes (some (Json.array xs)) n = of_width n (byte_elements xs)
fixed_bytes _ n = fail

unfoldable pub optional_fixed_bytes : Option Json → ℕ → Result (Option Bytes)
optional_fixed_bytes none n = ok none
optional_fixed_bytes (some value) n = do bytes ← fixed_bytes (some value) n; ok (some bytes)

unfoldable pub integer_of : Option Json → Result Number
integer_of (some (Json.number (Number.natural n))) = ok (Number.natural n)
integer_of (some (Json.number (Number.negative n))) = ok (Number.negative n)
integer_of _ = fail

-- A byte-sized integer.
unfoldable pub byte_of : Option Json → Result ℕ
byte_of (some (Json.number (Number.natural n))) = guard (leb n 0xff) envelope_error >> ok n
byte_of _ = fail

unfoldable pub mux_branch_of : Option Json → Result MuxBranch
mux_branch_of (some (Json.string t)) =
    if eqb t (units "key_path")
    then ok MuxBranch.key_path
    else if eqb t (units "tapscript")
    then ok MuxBranch.tapscript
    else fail
mux_branch_of _ = fail

-- `if (!isRecord(value)) fail(…)`
unfoldable pub as_record : Option Json → Result Json
as_record (some value) = if is_record value then ok value else fail
as_record none = fail

unfoldable pub parse_disclosure : Option Json → Result PositionDisclosure
parse_disclosure field = do
  value ← as_record field
  hash_type ← integer_of (property (units "hash_type") value)
  mux_branch ← mux_branch_of (property (units "mux_branch") value)
  leaf_hash ← optional_fixed_bytes (property (units "leaf_hash") value) 32
  ok (record {
    hash_type = hash_type;
    is_acp = is_true (property (units "is_acp") value);
    mux_branch = mux_branch;
    leaf_hash = leaf_hash;
  })

unfoldable pub parse_public_inputs : Option Json → Result PublicInputs
parse_public_inputs field = do
  value ← as_record field
  mode ← byte_of (property (units "position_mode") value)
  challenge_e ← fixed_bytes (property (units "challenge_e") value) 32
  path_id ← fixed_bytes (property (units "path_id") value) 32
  session_seed ← fixed_bytes (property (units "session_seed") value) 32
  nullifier_n0 ← fixed_bytes (property (units "nullifier_n0") value) 32
  nullifier_n1 ← fixed_bytes (property (units "nullifier_n1") value) 32
  outputs ← fixed_bytes (property (units "hash_outputs_blinded_commit") value) 32
  unified ← fixed_bytes (property (units "hash_outputs_blinded_commit_unified") value) 32
  hin ← fixed_bytes (property (units "hin_blinded_commit_unified") value) 32
  salt ← fixed_bytes (property (units "salt_blinded_commit_unified") value) 32
  coeffs ← fixed_bytes (property (units "poly_coeffs_blinded_commit_unified") value) 32
  product ← fixed_bytes (property (units "input_set_poly_product") value) 16
  ok (record {
    challenge_e = challenge_e;
    path_id = path_id;
    session_seed = session_seed;
    nullifier_n0 = nullifier_n0;
    nullifier_n1 = nullifier_n1;
    hash_outputs_blinded_commit = outputs;
    hash_outputs_blinded_commit_unified = unified;
    hin_blinded_commit_unified = hin;
    salt_blinded_commit_unified = salt;
    poly_coeffs_blinded_commit_unified = coeffs;
    input_set_poly_product = product;
    position_mode = mode;
  })

unfoldable pub parse_chunk_proof : Json → Result ChunkPins
parse_chunk_proof field = do
  value ← as_record (some field)
  commit ← fixed_bytes (property (units "covenant_write_commit") value) 16
  ok (record {
    is_final_chunk = is_true (property (units "is_final_chunk") value);
    covenant_write_commit = commit;
  })

unfoldable pub parse_chunk_proofs : Option Json → Result (List ChunkPins)
parse_chunk_proofs none = ok []
parse_chunk_proofs (some (Json.array xs)) = map_calls parse_chunk_proof (elements xs)
parse_chunk_proofs (some _) = fail

-- The object literal evaluates its fields in order.
unfoldable pub parse_bundle : Option Json → Result Bundle
parse_bundle field = do
  value ← as_record field
  public_inputs ← parse_public_inputs (property (units "public_inputs") value)
  proof_session_id ← fixed_bytes (property (units "proof_session_id") value) 32
  chunks ← parse_chunk_proofs (property (units "output_chunk_proofs") value)
  ok (record {
    public_inputs = public_inputs;
    proof_session_id = proof_session_id;
    output_chunk_proofs = chunks;
  })

unfoldable pub parse_position : Json → Result Position
parse_position raw = do
  value ← as_record (some raw)
  bundle ← parse_bundle (property (units "bundle") value)
  posture ← parse_disclosure (property (units "posture") value)
  position_mode ← byte_of (property (units "position_mode") value)
  ok (record { bundle = bundle; posture = posture; position_mode = position_mode })

unfoldable pub elements_of : Option Json → Result (List Json)
elements_of (some (Json.array xs)) = ok (elements xs)
elements_of _ = fail

-- `record.version !== AUTHORIZATION_ENVELOPE_VERSION`
abbrev is_version : Option Json → Bool
is_version (some (Json.number (Number.natural n))) = n == 1
is_version _ = false

-- The position is an integer; a negative one is out of range.
unfoldable pub index_of : Number → ℕ → Result ℕ
index_of (Number.natural n) count = guard (ltb n count) envelope_error >> ok n
index_of _ count = fail

-- The parser of a value that is an object.
unfoldable pub parse_envelope : Json → Result Envelope
parse_envelope value = do
  guard (is_version (property (units "version") value)) envelope_error
  completing ← integer_of (property (units "completing_position") value)
  raw ← elements_of (property (units "positions") value)
  guard (ltb 0 (length raw)) envelope_error
  completing_position ← index_of completing (length raw)
  positions ← map_calls parse_position raw
  session_id ← fixed_bytes (property (units "session_id") value) 32
  ok (record {
    version = 1;
    session_id = session_id;
    completing_position = completing_position;
    positions = positions;
  })

-- The parser of a text. `JSON.parse` is the runtime's; it throws a SyntaxError where it is `none`.
module _ (json_parse : Text → Option Json) where
  unfoldable pub parse_authorization_envelope : Text → Result Envelope
  parse_authorization_envelope input = elim (json_parse input) [
    | none ↦ err syntax_error
    | some value ↦ if is_record value then parse_envelope value else fail
  ]
