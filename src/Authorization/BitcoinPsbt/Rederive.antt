-- ===== src/Authorization/BitcoinPsbt/Rederive.antt =====
-- `rederiveCompletingEHat`: the challenge that the completing position's proof must have pinned. The
-- adapter's calls leave out the version and the lock time, so the preimages have 2 and 0 for them.
use sigbash_sdk.Prelude.{
  ℕ, ◌+◌, ◌^◌, ◌%◌, List, [], ◌∷◌, ◌++◌, length, take, get_elem?, Bool, true, false, ◌==◌, ltb, eqb,
  Option, none, some, Result, ok, err, guard, plain_error, bad_value, bad_index, bad_length,
  type_error, replicate, ◌&&◌,
}
use sigbash_sdk.Calls.{◌>>=◌, ◌>>◌}
use sigbash_sdk.Bytes.{Bytes, big_endian}
use sigbash_sdk.Bytes.Decoder.{from_big_endian}
use sigbash_sdk.Text.{units, utf8}
use sigbash_sdk.Contracts.Fields.{tagged_hash}
use sigbash_sdk.Contracts.AuthorizationSubject.{TxInput, TxOutput, compact_size}
use sigbash_sdk.Contracts.AuthorizationSubject.Preimages.{
  authz_prevout_q, authz_sighash_key_path, authz_sighash_acp_key_path,
  authz_sighash_tapscript_key_path, authz_sighash_acp_tapscript, input_at,
}
use sigbash_sdk.Authorization.Psbt.{ParsedTapLeafScript, ParsedPsbtInput, ParsedPsbt}
use sigbash_sdk.Authorization.Psbt.Maps.{parse_psbt_bytes}
use sigbash_sdk.Authorization.Envelope.{MuxBranch, Envelope, Position, completing_position_of}
use sigbash_sdk.Authorization.BitcoinPsbt.{
  adapter_inputs, adapter_outputs, is_acp_type, same_bool, first_leaf,
}

abbrev fail : {A : Type 0} → Result A
fail = err (plain_error bad_value)

-- `completingPositionOf(envelope)`, a field of which is read.
unfoldable pub completing_of : Option Position → Result Position
completing_of none = err type_error
completing_of (some position) = ok position

-- The first leaf of the position's input map, which may be missing.
unfoldable pub leaf_at : List ParsedPsbtInput → ℕ → Option ParsedTapLeafScript
leaf_at inputs position = elim (get_elem? inputs position) [
  | none ↦ none
  | some input ↦ first_leaf input
]

module _ (sha256 : Bytes → Bytes) (compress : Bytes → Bytes → Bytes)
    (r_nonce : Bytes → Bytes → Result Bytes) where
  -- `tapLeafHash`
  unfoldable pub tap_leaf_hash : ParsedTapLeafScript → Bytes
  tap_leaf_hash leaf =
      tagged_hash sha256 (units "TapLeaf")
        ((leaf.leaf_version ∷ []) ++ compact_size (length leaf.script) ++ leaf.script)

  -- Every byte of the leaf's hash is the disclosed one's.
  abbrev agrees : ParsedTapLeafScript → Bytes → Bool
  agrees leaf disclosed = eqb (tap_leaf_hash leaf) (take (length (tap_leaf_hash leaf)) disclosed)

  -- The leaf hash that the sighash commits to, by the branch that the envelope discloses.
  unfoldable pub leaf_hash_of :
      MuxBranch → Option Bytes → Option ParsedTapLeafScript → Result (Option Bytes)
  leaf_hash_of MuxBranch.tapscript none none = fail
  leaf_hash_of MuxBranch.tapscript (some disclosed) none = ok (some disclosed)
  leaf_hash_of MuxBranch.tapscript none (some leaf) = ok (some (tap_leaf_hash leaf))
  leaf_hash_of MuxBranch.tapscript (some disclosed) (some leaf) = do
    guard (agrees leaf disclosed) (plain_error bad_value)
    ok (some disclosed)
  leaf_hash_of MuxBranch.key_path disclosed none = ok none
  leaf_hash_of MuxBranch.key_path disclosed (some leaf) = fail

  unfoldable pub completing_sighash :
      Bool → Option Bytes → List TxInput → List TxOutput → ℕ → Result Bytes
  completing_sighash true (some leaf) inputs outputs position =
      authz_sighash_acp_tapscript sha256 inputs outputs position leaf 2 0
  completing_sighash true none inputs outputs position =
      authz_sighash_acp_key_path sha256 inputs outputs position 2 0
  completing_sighash false (some leaf) inputs outputs position =
      authz_sighash_tapscript_key_path sha256 inputs outputs position leaf 2 0
  completing_sighash false none inputs outputs position =
      ok (authz_sighash_key_path sha256 inputs outputs position 2 0)

  -- `authzBeta`
  unfoldable pub authz_beta : Bytes → Bytes → Result Bytes
  authz_beta sighash sigma = do
    guard (length sighash == 32 && length sigma == 32) (plain_error bad_length)
    ok (
        compress sighash (
          utf8 (units "SIGBASH_BETA_V1")
          ++ (0x00 ∷ [])
          ++ sigma
          ++ (0x80 ∷ replicate 11 0)
          ++ big_endian 4 0x180 []))

  -- `authzEPrime`
  unfoldable pub authz_e_prime : Bytes → Bytes → Bytes → Bytes
  authz_e_prime r_x q_x sighash =
      tagged_hash sha256 (units "BIP0340/challenge") (r_x ++ q_x ++ sighash)

  -- `authzEHat`
  unfoldable pub authz_e_hat : Bytes → Bytes → Bytes → Bytes → Result Bytes
  authz_e_hat r_x q_x sighash sigma = do
    beta ← authz_beta sighash sigma
    let total = from_big_endian 0 (authz_e_prime r_x q_x sighash) + from_big_endian 0 beta
    ok (big_endian 32 (total % 2 ^ 256) [])

  -- The leaf, the sighash and the challenge of a position that is one of the PSBT's.
  unfoldable pub challenge_at :
      ParsedPsbt → Envelope → Bytes → Position → List TxInput → Result Bytes
  challenge_at psbt envelope salt completing inputs = do
    let posture = completing.posture
    let position = envelope.completing_position
    let outputs = adapter_outputs psbt.unsigned_tx.outputs
    leaf ← leaf_hash_of (posture.mux_branch) (posture.leaf_hash) (leaf_at (psbt.inputs) position)
    sighash ← completing_sighash (is_acp_type (posture.hash_type)) leaf inputs outputs position
    spent ← input_at inputs position
    r_x ← r_nonce salt (envelope.session_id)
    authz_e_hat r_x (authz_prevout_q sha256 (spent.script_pub_key)) sighash (replicate 32 0)

  -- What follows the parsing of the subject.
  unfoldable pub rederive_of : ParsedPsbt → Envelope → Bytes → Result Bytes
  rederive_of psbt envelope salt = do
    completing ← completing_of (completing_position_of envelope)
    let acp = is_acp_type completing.posture.hash_type
    guard (same_bool completing.posture.is_acp acp) (plain_error bad_value)
    inputs ← adapter_inputs (psbt.unsigned_tx.inputs) 0 (psbt.inputs) (psbt.unsigned_tx.inputs)
    guard (ltb (envelope.completing_position) (length inputs)) (plain_error bad_index)
    challenge_at psbt envelope salt completing inputs

  unfoldable pub rederive_completing_e_hat : Bytes → Envelope → Bytes → Result Bytes
  rederive_completing_e_hat raw envelope salt = do
    psbt ← parse_psbt_bytes raw
    rederive_of psbt envelope salt
