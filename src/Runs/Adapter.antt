-- ===== src/Runs/Adapter.antt =====
-- A PSBT with a taproot input, as a subject, and the scan of its inputs.
use sigbash_sdk.Prelude.{◌≡◌, refl, [], ◌∷◌, ◌++◌, replicate, some, Result, ok, arith}
use sigbash_sdk.Calls
use sigbash_sdk.Bytes.{Bytes, big_endian}
use sigbash_sdk.Bytes.Decoder.{from_big_endian}
use sigbash_sdk.Bytes.LittleEndian.{little_endian}
use sigbash_sdk.Text.{units, utf8, is_pair, scalar_bytes}
use sigbash_sdk.Contracts.Fields.{tagged_hash}
use sigbash_sdk.Contracts.AuthorizationSubject.{compact_size, le32, le64}
use sigbash_sdk.Contracts.AuthorizationSubject.Preimages.{
  hash_outputs_raw, authz_prevout_q, hash_input_amounts, hash_input_scripts, key_path_preimage,
  authz_sighash_key_path, input_at,
}
use sigbash_sdk.Authorization.Psbt.{ParsedWitnessUtxo, ParsedPsbtInput, ParsedPsbt}
use sigbash_sdk.Authorization.Psbt.Maps.{psbt_magic, no_fields, parse_psbt_bytes}
use sigbash_sdk.Authorization.Psbt.Transactions.{
  serialize_transaction, serialize_input, serialize_output,
}
use sigbash_sdk.Authorization.Psbt.Fuel.{serialize_section, IsEntry}
use sigbash_sdk.Authorization.Psbt.Fields.{InputField, input_entry_of}
use sigbash_sdk.Authorization.Psbt.Parses.{
  Contents, IsContents, serialize_psbt, parse_psbt_bytes-serialize,
}
use sigbash_sdk.Authorization.Envelope.{completing_position_of}
use sigbash_sdk.Authorization.BitcoinPsbt.{
  resolve_prevout, check_acp, check_position, check_positions, check_verifiable, adapter_inputs,
  adapter_outputs,
}
use sigbash_sdk.Authorization.BitcoinPsbt.Verifiable.{IsVerifiable, check_verifiable-IsVerifiable}
use sigbash_sdk.Authorization.BitcoinPsbt.Rederive.{
  completing_of, leaf_at, leaf_hash_of, completing_sighash, authz_beta, authz_e_prime, authz_e_hat,
  challenge_at, rederive_of, rederive_completing_e_hat,
}
use sigbash_sdk.Authorization.BitcoinPsbt.Challenge.{IsChallenge}
use sigbash_sdk.Authorization.BitcoinPsbt.Rederived.{rederive_completing_e_hat-IsChallenge}
use sigbash_sdk.Wallet.InputCount.{count_inputs}
use sigbash_sdk.Wallet.InputCount.Agrees.{tx_values, count_inputs-serialize}
use sigbash_sdk.Runs.{count_hash, count_hash-width}
use sigbash_sdk.Runs.Envelope.{envelope, envelope-IsEnvelope}
use sigbash_sdk.Runs.Psbt.{
  tx, tx-IsTx, global, global-IsEntry, other, other-IsEntry, tx_entry-IsEntry,
}

abbrev script : Bytes
script = 0x51 ∷ 0x20 ∷ replicate 32 7

abbrev utxo : ParsedWitnessUtxo
utxo = record { value = 9; script_pub_key = script }

utxo-IsEntry : IsEntry (input_entry_of (InputField.witness_utxo utxo))
unfolding le64 compact_size little_endian
utxo-IsEntry = record { has_key = omega arith; key = omega arith; value = omega arith }

abbrev contents : Contents
contents = record {
  before = [];
  tx = tx;
  after = [];
  inputs = (InputField.witness_utxo utxo ∷ []) ∷ [];
  outputs = (other ∷ []) ∷ [];
}

contents-IsContents : IsContents contents
contents-IsContents = record {
  before = tt;
  tx = tx-IsTx;
  after = tt;
  globals = (tx_entry-IsEntry, tt);
  inputs = (((utxo-IsEntry, tt), ((omega arith, omega arith), tt)), tt);
  outputs = ((other-IsEntry, tt), tt);
  input_count = refl;
  output_count = refl;
}

abbrev input : ParsedPsbtInput
input = record no_fields { witness_utxo = some utxo }

abbrev raw : Bytes
raw = serialize_psbt contents

abbrev psbt : ParsedPsbt
psbt = record { unsigned_tx = tx; inputs = input ∷ []; raw = raw }

parses : parse_psbt_bytes raw ≡ ok psbt
parses = parse_psbt_bytes-serialize contents contents-IsContents

verifiable : check_verifiable raw (units "signet") ≡ ok tt
unfolding check_verifiable check_positions check_position check_acp resolve_prevout Calls.◌>>=◌
    Calls.◌>>◌
verifiable = rw parses refl

check_verifiable-IsVerifiable_example : IsVerifiable raw
check_verifiable-IsVerifiable_example =
    check_verifiable-IsVerifiable raw (units "signet") verifiable

-- Stand-ins for the compression function and the nonce.
abbrev compress : Bytes → Bytes → Bytes
compress state block = state

abbrev r_nonce : Bytes → Bytes → Result Bytes
r_nonce salt session = ok salt

abbrev challenge : Bytes
challenge = 143 ∷ replicate 31 0

rederives :
    rederive_completing_e_hat count_hash compress r_nonce raw envelope (replicate 32 1)
    ≡ ok challenge
unfolding rederive_completing_e_hat rederive_of challenge_at completing_of completing_position_of
    adapter_inputs adapter_outputs resolve_prevout leaf_at leaf_hash_of completing_sighash
    authz_sighash_key_path key_path_preimage hash_input_amounts hash_input_scripts hash_outputs_raw
    input_at authz_prevout_q authz_e_hat authz_beta authz_e_prime tagged_hash big_endian
    from_big_endian utf8 is_pair scalar_bytes le32 le64 compact_size little_endian Calls.◌>>=◌
    Calls.◌>>◌
rederives = rw parses refl

rederive_completing_e_hat-IsChallenge_example :
    IsChallenge count_hash compress r_nonce raw envelope (replicate 32 1) challenge
rederive_completing_e_hat-IsChallenge_example =
    rederive_completing_e_hat-IsChallenge count_hash compress r_nonce count_hash-width raw envelope
      (replicate 32 1) challenge envelope-IsEnvelope rederives

single : tx_values (global ∷ []) ≡ serialize_transaction tx ∷ []
unfolding tx_values serialize_transaction serialize_input serialize_output le32 le64 compact_size
    little_endian
single = refl

count_inputs-serialize_example :
    count_inputs (psbt_magic ++ (serialize_section (global ∷ []) ++ (0 ∷ []))) ≡ ok 1
count_inputs-serialize_example =
    count_inputs-serialize (global ∷ []) (0 ∷ []) tx (global-IsEntry, tt) tx-IsTx single
      (omega arith)
