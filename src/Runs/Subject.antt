-- ===== src/Runs/Subject.antt =====
-- The sighashes of a transaction with one P2TR input and one output.
use sigbash_sdk.Prelude.{◌≡◌, refl, [], ◌∷◌, ◌++◌, replicate, ok}
use sigbash_sdk.Bytes.{Bytes}
use sigbash_sdk.Text.{units}
use sigbash_sdk.Contracts.Fields.{tagged_hash}
use sigbash_sdk.Contracts.AuthorizationSubject.{TxInput, TxOutput}
use sigbash_sdk.Contracts.AuthorizationSubject.Preimages.{
  input_at, tapscript_extension, key_path_preimage, acp_bytes, authz_sighash_tapscript_key_path,
  authz_sighash_acp_tapscript,
}
use sigbash_sdk.Contracts.AuthorizationSubject.Widths.{
  authz_sighash_tapscript_key_path_widths, authz_sighash_acp_tapscript_widths,
}
use sigbash_sdk.Runs.{count_hash, count_hash-width}

abbrev spent : TxInput
spent = record {
  txid = replicate 32 1;
  vout = 0;
  sequence = 0xffffffff;
  amount = 1000;
  script_pub_key = 0x51 ∷ 0x20 ∷ replicate 32 2;
}

abbrev paid : TxOutput
paid = record { value = 900; script_pub_key = 0x51 ∷ [] }

abbrev leaf : Bytes
leaf = replicate 32 9

spent_found : input_at (spent ∷ []) 0 ≡ ok spent
unfolding input_at
spent_found = refl

authz_sighash_tapscript_key_path_widths_example :
    authz_sighash_tapscript_key_path count_hash (spent ∷ []) (paid ∷ []) 0 leaf 2 0
    ≡ ok (
        tagged_hash count_hash (units "TapSighash") (
          key_path_preimage count_hash (spent ∷ []) (paid ∷ []) 0 0x02 2 0
          ++ tapscript_extension leaf))
authz_sighash_tapscript_key_path_widths_example =
    authz_sighash_tapscript_key_path_widths count_hash count_hash-width (spent ∷ []) (paid ∷ []) 0
      leaf 2 0

authz_sighash_acp_tapscript_widths_example :
    authz_sighash_acp_tapscript count_hash (spent ∷ []) (paid ∷ []) 0 leaf 2 0
    ≡ ok (
        tagged_hash count_hash
          (units "TapSighash")
          (acp_bytes count_hash spent (paid ∷ []) 0x02 2 0 ++ tapscript_extension leaf))
authz_sighash_acp_tapscript_widths_example =
    authz_sighash_acp_tapscript_widths count_hash count_hash-width (spent ∷ []) (paid ∷ []) 0 2 0
      spent spent_found leaf
