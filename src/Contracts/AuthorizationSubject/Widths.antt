-- ===== src/Contracts/AuthorizationSubject/Widths.antt =====
-- The width checks on the preimages.
use sigbash_sdk.Prelude.{
  ℕ, ◌+◌, ◌≡◌, List, ◌++◌, length, length-append, ◌==◌, ok, arith, plain_error, bad_length, guard,
  ◌>>◌,
}
use sigbash_sdk.Bytes.{Bytes}
use sigbash_sdk.Bytes.LittleEndian.{length-little_endian}
use sigbash_sdk.Text.{units}
use sigbash_sdk.Contracts.Fields.{tagged_hash}
use sigbash_sdk.Contracts.AuthorizationSubject.{TxInput, TxOutput, le32, le64}
use sigbash_sdk.Contracts.AuthorizationSubject.Preimages.{
  input_at, tapscript_extension, hash_input_amounts, hash_input_scripts, key_path_preimage,
  acp_bytes, acp_preimage, authz_sighash_acp_key_path, authz_sighash_tapscript_key_path,
  authz_sighash_acp_tapscript,
}

length-le32 : (n : ℕ) → length (le32 n) ≡ 4
unfolding le32
length-le32 n = length-little_endian 4 n

length-le64 : (n : ℕ) → length (le64 n) ≡ 8
unfolding le64
length-le64 n = length-little_endian 8 n

length-tapscript_extension :
    (leaf_hash : Bytes) → length (tapscript_extension leaf_hash) ≡ length leaf_hash + 5
unfolding tapscript_extension
length-tapscript_extension leaf_hash = simp (length-append, length-le32) (omega arith)

module _ (sha256 : Bytes → Bytes) (width : (x : Bytes) → length (sha256 x) ≡ 32) where
  length-key_path_preimage :
      (inputs : List TxInput) (outputs : List TxOutput) (i spend version lock : ℕ)
      → length (key_path_preimage sha256 inputs outputs i spend version lock) ≡ 175
  unfolding key_path_preimage hash_input_amounts hash_input_scripts
  length-key_path_preimage inputs outputs i spend version lock =
      simp (length-append, length-le32, width)

  -- The non-ACP tapscript digest is refused exactly where the leaf hash has not 32 bytes, and is
  -- otherwise the tagged hash of the preimage, for a hash function with digests of 32 bytes.
  pub authz_sighash_tapscript_key_path_widths :
      (inputs : List TxInput) (outputs : List TxOutput) (i : ℕ) (leaf : Bytes) (version lock : ℕ)
      → authz_sighash_tapscript_key_path sha256 inputs outputs i leaf version lock ≡ (
          guard (length leaf == 32) (plain_error bad_length)
          >> ok (
              tagged_hash sha256 (units "TapSighash") (
                key_path_preimage sha256 inputs outputs i 0x02 version lock
                ++ tapscript_extension leaf)))
  unfolding authz_sighash_tapscript_key_path
  authz_sighash_tapscript_key_path_widths inputs outputs i leaf version lock = ground (
    arith,
    length-append (key_path_preimage sha256 inputs outputs i 0x02 version lock)
        (tapscript_extension leaf),
    length-key_path_preimage inputs outputs i 0x02 version lock,
    length-tapscript_extension leaf,
  )

  length-acp_bytes :
      (src : TxInput) (outputs : List TxOutput) (spend version lock : ℕ)
      → length (acp_bytes sha256 src outputs spend version lock)
        ≡ length src.txid + length src.script_pub_key + 60
  unfolding acp_bytes
  length-acp_bytes src outputs spend version lock =
      simp (length-append, length-le32, length-le64, width) (omega arith)

  module _ (inputs : List TxInput) (outputs : List TxOutput) (i : ℕ) (version lock : ℕ)
      (src : TxInput) (found : input_at inputs i ≡ ok src) where
    -- The ACP digest of a position with an input is refused exactly where the spent script has not
    -- 34 bytes or the spent transaction id not 32, for a hash function with digests of 32 bytes.
    pub authz_sighash_acp_key_path_widths :
        authz_sighash_acp_key_path sha256 inputs outputs i version lock ≡ (do
          guard (length src.script_pub_key == 34) (plain_error bad_length)
          guard (length src.txid == 32) (plain_error bad_length)
          ok (
              tagged_hash sha256
                (units "TapSighash")
                (acp_bytes sha256 src outputs 0x00 version lock)))
    unfolding authz_sighash_acp_key_path acp_preimage
    authz_sighash_acp_key_path_widths =
        rw found (ground (arith, length-acp_bytes src outputs 0x00 version lock))

    -- The ACP tapscript digest of a position with an input checks the spent script's width, and the
    -- widths of the transaction id and the leaf hash together, which are 64 bytes, for a hash function
    -- with digests of 32 bytes.
    pub authz_sighash_acp_tapscript_widths :
        (leaf : Bytes)
        → authz_sighash_acp_tapscript sha256 inputs outputs i leaf version lock ≡ (do
          guard (length src.script_pub_key == 34) (plain_error bad_length)
          guard (length src.txid + length leaf == 64) (plain_error bad_length)
          ok (
              tagged_hash sha256
                (units "TapSighash")
                (acp_bytes sha256 src outputs 0x02 version lock ++ tapscript_extension leaf)))
    unfolding authz_sighash_acp_tapscript acp_preimage
    authz_sighash_acp_tapscript_widths leaf = rw found (
        ground (
          arith,
          length-acp_bytes src outputs 0x02 version lock,
          length-tapscript_extension leaf,
          length-append (acp_bytes sha256 src outputs 0x02 version lock) (tapscript_extension leaf),
        ))
