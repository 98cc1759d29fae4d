-- ===== src/Contracts/AuthorizationSubject/Preimages.antt =====
-- The sighash preimages and the digests over them.
use sigbash_sdk.Prelude.{
  ℕ, List, [], ◌∷◌, ◌++◌, length, ◌==◌, Bool, get_elem?, get_or, ◌&&◌, if◌then◌else◌, Option, none,
  some, Result, ok, err, ◌>>=◌, ◌>>◌, guard, plain_error, bad_length, bad_index,
}
use sigbash_sdk.Bytes.{Bytes}
use sigbash_sdk.Text.{units, utf8}
use sigbash_sdk.Contracts.Fields.{tagged_hash}
use sigbash_sdk.Contracts.AuthorizationSubject.{TxInput, TxOutput, compact_size, le32, le64}

abbrev pub joined : {A : Type 0} → (A → Bytes) → List A → Bytes
joined f [] = []
joined f (x ∷ xs) = f x ++ joined f xs

-- `inputs[inputIndex]`; a field of `undefined` throws.
unfoldable pub input_at : List TxInput → ℕ → Result TxInput
input_at inputs i = elim (get_elem? inputs i) [ none ↦ err (plain_error bad_index) | some x ↦ ok x ]

abbrev pub code_separator : ℕ
code_separator = 0xffffffff

-- The tapscript extension with the default key version and code-separator position.
unfoldable pub tapscript_extension : Bytes → Bytes
tapscript_extension leaf_hash = leaf_hash ++ ((0 ∷ []) ++ le32 code_separator)

unfoldable pub hash_outputs_raw : List TxOutput → Bytes
hash_outputs_raw outputs =
    joined (λ o. le64 o.value ++ (compact_size (length o.script_pub_key) ++ o.script_pub_key))
      outputs

module _ (sha256 : Bytes → Bytes) where
  -- A 34-byte P2TR prevout gives its x-only key, any other script a tagged digest.
  unfoldable pub authz_prevout_q : Bytes → Bytes
  authz_prevout_q script =
      if length script == 34 && (get_or script 0 0 == 0x51 && get_or script 1 0 == 0x20)
      then sigbash_sdk.Prelude.take 32 (sigbash_sdk.Prelude.drop 2 script)
      else sha256 (utf8 (units "SIGBASH.AUTHZ.QKEY.V1") ++ (compact_size (length script) ++ script))

  unfoldable pub hash_input_amounts : List TxInput → Bytes
  hash_input_amounts inputs = sha256 (joined (λ i. le64 i.amount) inputs)

  unfoldable pub hash_input_scripts : List TxInput → Bytes
  hash_input_scripts inputs =
      sha256 (joined (λ i. compact_size (length i.script_pub_key) ++ i.script_pub_key) inputs)

  unfoldable pub key_path_preimage : List TxInput → List TxOutput → ℕ → ℕ → ℕ → ℕ → Bytes
  key_path_preimage inputs outputs input_index spend_type version lock_time =
      let prevouts = joined (λ i. i.txid ++ le32 i.vout) inputs in
      let sequences = joined (λ i. le32 i.sequence) inputs in
      (0x00 ∷ [])
      ++ ((0x00 ∷ [])
          ++ (le32 version
              ++ (le32 lock_time
                  ++ (sha256 prevouts
                      ++ (hash_input_amounts inputs
                          ++ (hash_input_scripts inputs
                              ++ (sha256 sequences
                                  ++ (sha256 (hash_outputs_raw outputs)
                                      ++ ((spend_type ∷ []) ++ le32 input_index)))))))))

  -- The bytes for the input that the position spends.
  unfoldable pub acp_bytes : TxInput → List TxOutput → ℕ → ℕ → ℕ → Bytes
  acp_bytes src outputs spend_type version lock_time =
      (0x00 ∷ [])
      ++ ((0x81 ∷ [])
          ++ (le32 version
              ++ (le32 lock_time
                  ++ (sha256 (hash_outputs_raw outputs)
                      ++ ((spend_type ∷ [])
                          ++ (src.txid
                              ++ (le32 src.vout
                                  ++ (le64 src.amount
                                      ++ ((0x22 ∷ [])
                                          ++ (src.script_pub_key ++ le32 src.sequence))))))))))

  unfoldable pub acp_preimage : List TxInput → List TxOutput → ℕ → ℕ → ℕ → ℕ → Result Bytes
  acp_preimage inputs outputs input_index spend_type version lock_time = do
    src ← input_at inputs input_index
    guard (length src.script_pub_key == 34) (plain_error bad_length)
    ok (acp_bytes src outputs spend_type version lock_time)

  unfoldable pub authz_sighash_key_path : List TxInput → List TxOutput → ℕ → ℕ → ℕ → Bytes
  authz_sighash_key_path inputs outputs input_index version lock_time =
      tagged_hash sha256 (units "TapSighash")
        (key_path_preimage inputs outputs input_index 0x00 version lock_time)

  unfoldable pub authz_sighash_acp_key_path :
      List TxInput → List TxOutput → ℕ → ℕ → ℕ → Result Bytes
  authz_sighash_acp_key_path inputs outputs input_index version lock_time = do
    preimage ← acp_preimage inputs outputs input_index 0x00 version lock_time
    guard (length preimage == 126) (plain_error bad_length)
    ok (tagged_hash sha256 (units "TapSighash") preimage)

  unfoldable pub authz_sighash_tapscript_key_path :
      List TxInput → List TxOutput → ℕ → Bytes → ℕ → ℕ → Result Bytes
  authz_sighash_tapscript_key_path inputs outputs input_index leaf_hash version lock_time = do
    let preimage =
        key_path_preimage inputs outputs input_index 0x02 version lock_time
        ++ tapscript_extension leaf_hash
    guard (length preimage == 212) (plain_error bad_length)
    ok (tagged_hash sha256 (units "TapSighash") preimage)

  unfoldable pub authz_sighash_acp_tapscript :
      List TxInput → List TxOutput → ℕ → Bytes → ℕ → ℕ → Result Bytes
  authz_sighash_acp_tapscript inputs outputs input_index leaf_hash version lock_time = do
    base ← acp_preimage inputs outputs input_index 0x02 version lock_time
    let preimage = base ++ tapscript_extension leaf_hash
    guard (length preimage == 163) (plain_error bad_length)
    ok (tagged_hash sha256 (units "TapSighash") preimage)
