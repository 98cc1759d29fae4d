-- ===== src/Authorization/Psbt/Reader.antt =====
-- Numbers and transactions: `readVarInt`, `readLe32`, `readLe64` and `parseTransaction`.
use sigbash_sdk.Prelude.{ℕ, get_or, ltb, leb, ◌==◌, if◌then◌else◌, psbt_error, Result}
use sigbash_sdk.Bytes.{Bytes}
use sigbash_sdk.Bytes.Decoder.{
  M, ◌>>=◌, ◌>>◌, pure, check, branch, read_bytes_or, read_times, whole_or,
}
use sigbash_sdk.Bytes.LittleEndian.{from_little_endian}
use sigbash_sdk.Authorization.Psbt.{ParsedTxInput, ParsedTxOutput, ParsedTx}

abbrev pub max_safe_integer : ℕ
max_safe_integer = 0x1fffffffffffff

-- `readBytes`
abbrev pub read_psbt_bytes : ℕ → M Bytes
read_psbt_bytes = read_bytes_or psbt_error

unfoldable pub read_safe : ℕ → M ℕ
read_safe width = do
  bytes ← read_psbt_bytes width
  check (leb (from_little_endian bytes) max_safe_integer) psbt_error
  pure (from_little_endian bytes)

abbrev pub var_int_width : ℕ → ℕ
var_int_width first = if first == 0xfd then 2 else if first == 0xfe then 4 else 8

unfoldable pub read_var_int : M ℕ
read_var_int = do
  bytes ← read_psbt_bytes 1
  branch (ltb (get_or bytes 0 0) 0xfd) (pure (get_or bytes 0 0))
      (read_safe (var_int_width (get_or bytes 0 0)))

unfoldable pub read_le32 : M ℕ
read_le32 = do bytes ← read_psbt_bytes 4; pure (from_little_endian bytes)

unfoldable pub read_le64 : M ℕ
read_le64 = read_safe 8

-- A length and as many bytes.
unfoldable pub read_var_bytes : M Bytes
read_var_bytes = do n ← read_var_int; read_psbt_bytes n

unfoldable pub read_tx_input : M ParsedTxInput
read_tx_input = do
  txid ← read_psbt_bytes 32
  vout ← read_le32
  script_sig ← read_var_bytes
  sequence ← read_le32
  pure (record { txid = txid; vout = vout; script_sig = script_sig; sequence = sequence })

unfoldable pub read_tx_output : M ParsedTxOutput
read_tx_output = do
  value ← read_le64
  script ← read_var_bytes
  pure (record { value = value; script_pub_key = script })

unfoldable pub read_transaction : M ParsedTx
read_transaction = do
  version ← read_le32
  input_count ← read_var_int
  inputs ← read_times input_count read_tx_input
  output_count ← read_var_int
  outputs ← read_times output_count read_tx_output
  lock_time ← read_le32
  pure (record { version = version; inputs = inputs; outputs = outputs; lock_time = lock_time })

unfoldable pub parse_transaction : Bytes → Result ParsedTx
parse_transaction tx = whole_or psbt_error read_transaction tx
