-- ===== src/Authorization/BitcoinPsbt/Challenge.antt =====
-- What a challenge that `rederiveCompletingEHat` returns is bound to.
use sigbash_sdk.Prelude.{
  ℕ, ◌+◌, ◌^◌, ◌%◌, ◌≡◌, ◌↔◌, ◌⊎◌, List, [], ◌∷◌, ◌++◌, length, get_elem?, Bool, true, false,
  Option, none, some, Result, ok, replicate, All,
}
use sigbash_sdk.Bytes.{Bytes}
use sigbash_sdk.Bytes.Decoder.{from_big_endian}
use sigbash_sdk.Text.{units, utf8}
use sigbash_sdk.Json.{Number}
use sigbash_sdk.Contracts.Fields.{tagged_hash}
use sigbash_sdk.Contracts.AuthorizationSubject.{TxInput, TxOutput, compact_size}
use sigbash_sdk.Contracts.AuthorizationSubject.Preimages.{
  authz_prevout_q, authz_sighash_key_path, authz_sighash_acp_key_path,
  authz_sighash_tapscript_key_path, authz_sighash_acp_tapscript,
}
use sigbash_sdk.Authorization.Psbt.{ParsedTapLeafScript, ParsedPsbtInput, ParsedPsbt}
use sigbash_sdk.Authorization.Psbt.Maps.{parse_psbt_bytes}
use sigbash_sdk.Authorization.Psbt.Sound.{HasWholeLeaves}
use sigbash_sdk.Authorization.Envelope.{MuxBranch, Envelope, Position}
use sigbash_sdk.Authorization.BitcoinPsbt.Inputs.{AreAdapterInputs, AreAdapterOutputs}

-- BIP-341's hash of a leaf: its version, and its script behind the length.
abbrev pub hash_of_leaf : (Bytes → Bytes) → ParsedTapLeafScript → Bytes
hash_of_leaf sha256 l =
    tagged_hash sha256 (units "TapLeaf")
      (l.leaf_version ∷ (compact_size (length l.script) ++ l.script))

-- The leaf hash that goes into the sighash, from the disclosed branch and hash and the leaf that the
-- PSBT carries: none on the key path, which no carried leaf may accompany; the carried leaf's, from
-- which the disclosed one does not differ; or the disclosed one alone.
pub data IsLeaf (sha256 : Bytes → Bytes) (branch : MuxBranch) (disclosed : Option Bytes)
    (carried : Option ParsedTapLeafScript) (leaf : Option Bytes) : Type 0 where
  on_key_path :
      branch ≡ MuxBranch.key_path
      → carried ≡ none
      → leaf ≡ none
      → IsLeaf sha256 branch disclosed carried leaf
  of_psbt :
      (l : ParsedTapLeafScript)
      → branch ≡ MuxBranch.tapscript
      → carried ≡ some l
      → leaf ≡ some (hash_of_leaf sha256 l)
      → (disclosed ≡ none) ⊎ (disclosed ≡ leaf)
      → IsLeaf sha256 branch disclosed carried leaf
  of_envelope :
      (hash : Bytes)
      → branch ≡ MuxBranch.tapscript
      → carried ≡ none
      → disclosed ≡ some hash
      → leaf ≡ some hash
      → IsLeaf sha256 branch disclosed carried leaf

-- The sighash of the posture and the leaf, for version 2 and lock time 0.
pub data IsSighash (sha256 : Bytes → Bytes) (acp : Bool) (leaf : Option Bytes)
    (inputs : List TxInput) (outputs : List TxOutput) (position : ℕ) (sighash : Bytes)
    : Type 0 where
  whole_key :
      acp ≡ false
      → leaf ≡ none
      → authz_sighash_key_path sha256 inputs outputs position 2 0 ≡ sighash
      → IsSighash sha256 acp leaf inputs outputs position sighash
  whole_leaf :
      (l : Bytes)
      → acp ≡ false
      → leaf ≡ some l
      → authz_sighash_tapscript_key_path sha256 inputs outputs position l 2 0 ≡ ok sighash
      → IsSighash sha256 acp leaf inputs outputs position sighash
  acp_key :
      acp ≡ true
      → leaf ≡ none
      → authz_sighash_acp_key_path sha256 inputs outputs position 2 0 ≡ ok sighash
      → IsSighash sha256 acp leaf inputs outputs position sighash
  acp_leaf :
      (l : Bytes)
      → acp ≡ true
      → leaf ≡ some l
      → authz_sighash_acp_tapscript sha256 inputs outputs position l 2 0 ≡ ok sighash
      → IsSighash sha256 acp leaf inputs outputs position sighash

-- The last block of a 48-byte message, the sigma of which is zero, as SHA-256 pads it.
abbrev pub beta_block : Bytes
beta_block =
    utf8 (units "SIGBASH_BETA_V1")
    ++ (replicate 33 0 ++ (0x80 ∷ (replicate 13 0 ++ (1 ∷ 0x80 ∷ []))))

-- The challenge is e' + beta modulo 2 ^ 256, as 32 bytes.
pub record IsEHat (sha256 : Bytes → Bytes) (compress : Bytes → Bytes → Bytes)
    (r_x q_x sighash e : Bytes) : Type 0 where
  pub width : length e ≡ 32
  pub sighash_width : length sighash ≡ 32
  pub value :
      from_big_endian 0 e
      ≡ (from_big_endian 0 (tagged_hash sha256 (units "BIP0340/challenge") (r_x ++ q_x ++ sighash))
          + from_big_endian 0 (compress sighash beta_block))
        % 2 ^ 256

module _ (sha256 : Bytes → Bytes) (compress : Bytes → Bytes → Bytes)
    (r_nonce : Bytes → Bytes → Result Bytes) where
  -- The challenge is that of the PSBT's transaction at the completing position, whose inputs these
  -- are.
  pub record IsSigned (psbt : ParsedPsbt) (envelope : Envelope) (salt : Bytes)
      (completing : Position) (inputs : List TxInput) (e : Bytes) : Type 0 where
    pub spent : TxInput
    pub spent_found : get_elem? inputs envelope.completing_position ≡ some spent
    pub input : ParsedPsbtInput
    pub input_found : get_elem? psbt.inputs envelope.completing_position ≡ some input
    pub leaf : Option Bytes
    pub leaf_bound :
        IsLeaf sha256 completing.posture.mux_branch completing.posture.leaf_hash
          (get_elem? input.tap_leaf_scripts 0)
          leaf
    pub outputs : List TxOutput
    pub outputs_kept : AreAdapterOutputs psbt.unsigned_tx.outputs outputs
    pub sighash : Bytes
    pub signed :
        IsSighash sha256 completing.posture.is_acp leaf inputs outputs envelope.completing_position
          sighash
    pub r_x : Bytes
    pub nonce : r_nonce salt envelope.session_id ≡ ok r_x
    pub e_hat : IsEHat sha256 compress r_x (authz_prevout_q sha256 spent.script_pub_key) sighash e

  -- The raw subject is a PSBT, and the challenge is that of its transaction.
  pub record IsChallenge (raw : Bytes) (envelope : Envelope) (salt e : Bytes) : Type 0 where
    pub psbt : ParsedPsbt
    pub parsed : parse_psbt_bytes raw ≡ ok psbt
    pub whole_leaves : All HasWholeLeaves psbt.inputs
    pub completing : Position
    pub found : get_elem? envelope.positions envelope.completing_position ≡ some completing
    pub posture :
        (completing.posture.is_acp ≡ true) ↔ (completing.posture.hash_type ≡ Number.natural 0x81)
    pub inputs : List TxInput
    pub resolved : AreAdapterInputs psbt.unsigned_tx.inputs psbt.inputs inputs
    pub signed : IsSigned psbt envelope salt completing inputs e
