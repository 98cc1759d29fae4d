-- ===== src/Wallet/InputCount.antt =====
-- src/wallet/psbtInputCount.ts: the scan of a PSBT for its number of inputs. `atob` is the runtime's,
-- so it is a parameter; whatever the scan refuses throws a PsbtParseError.
pub mod Agrees
use sigbash_sdk.Prelude.{
  ℕ, zero, suc, ◌+◌, List, [], ◌∷◌, length, take, drop, get_or, all, Bool, true, false, not, ◌&&◌,
  ◌%◌, ◌==◌, leb, ltb, Option, none, some, if◌then◌else◌, Result, ok, err, psbt_error, eqb,
}
use sigbash_sdk.Prelude
use sigbash_sdk.Bytes.{Bytes}
use sigbash_sdk.Bytes.Decoder.{Decoder, M, ◌>>=◌, ◌>>◌, pure, throw, check, branch, read_bytes_or}
use sigbash_sdk.Bytes.Hex.{is_hex, digit_pairs}
use sigbash_sdk.Bytes.LittleEndian.{from_little_endian}
use sigbash_sdk.Text.{Text}

abbrev pub psbt_magic : Bytes
psbt_magic = 0x70 ∷ 0x73 ∷ 0x62 ∷ 0x74 ∷ 0xff ∷ []

-- The characters that the source writes for those of base64url, and the spaces it takes out.
unfoldable pub normalize_base64 : (ℕ → Bool) → Text → Text
normalize_base64 is_space [] = []
normalize_base64 is_space (c ∷ t) =
    let rest = normalize_base64 is_space t in
    if c == 0x2d
    then 0x2b ∷ rest
    else if c == 0x5f
    then 0x2f ∷ rest
    else if is_space c
    then rest
    else c ∷ rest

-- `decodePsbtBytes`: pairs of hexadecimal digits, or else base64.
unfoldable pub decode_psbt_bytes : (ℕ → Bool) → (Text → Option Bytes) → Text → Result Bytes
decode_psbt_bytes is_space atob [] = err psbt_error
decode_psbt_bytes is_space atob (c ∷ t) =
    if length (c ∷ t) % 2 == 0 && all is_hex (c ∷ t)
    then ok (digit_pairs (c ∷ t))
    else elim (atob (normalize_base64 is_space (c ∷ t))) [
      | none ↦ err psbt_error
      | some bytes ↦ ok bytes
    ]

unfoldable pub read_word : ℕ → M ℕ
read_word width = do bytes ← read_bytes_or psbt_error width; pure (from_little_endian bytes)

-- The eight-byte value, up to `Number.MAX_SAFE_INTEGER`.
unfoldable pub read_long_word : M ℕ
read_long_word = do value ← read_word 8; check (leb value 0x1fffffffffffff) psbt_error; pure value

-- `readVarint`
unfoldable pub read_varint : M ℕ
read_varint = do
  prefix ← read_word 1
  branch (ltb prefix 0xfd) (pure prefix)
      (branch (prefix == 0xfd) (read_word 2) (branch (prefix == 0xfe) (read_word 4) read_long_word))

abbrev pub is_tx_key : Bytes → Bool
is_tx_key key = length key == 1 && get_or key 0 1 == 0x00

abbrev pub is_some : Option Bytes → Bool
is_some none = false
is_some (some bytes) = true

-- The `for (;;)` over the global map, for as many rounds as the fuel, with the record found so far.
unfoldable pub scan_loop : ℕ → Option Bytes → M (Option Bytes)
scan_loop zero found = throw psbt_error
scan_loop (suc fuel) found = do
  key_length ← read_varint
  branch (key_length == 0) (pure found) do
    key ← read_bytes_or psbt_error key_length
    value_length ← read_varint
    value ← read_bytes_or psbt_error value_length
    check (not (is_tx_key key && is_some found)) psbt_error
    scan_loop fuel (if is_tx_key key then some value else found)

-- Where `countTxInputs` starts to read: behind the version, and the marker and flag of BIP-144.
unfoldable pub count_offset : Bytes → ℕ
count_offset tx = if get_or tx 4 1 == 0x00 && get_or tx 5 0 == 0x01 then 6 else 4

-- `countTxInputs`
unfoldable pub count_tx_inputs : Bytes → Result ℕ
count_tx_inputs tx =
    if ltb (length tx) 5
    then err psbt_error
    else elim (read_varint (record { bytes = tx; offset = count_offset tx })) [
      | err e ↦ err e
      | ok (count, d) ↦ ok count
    ]

-- What follows the scan: the record is there, and its inputs are counted.
unfoldable pub count_found : Result (Option Bytes × Decoder) → Result ℕ
count_found (err e) = err e
count_found (ok (none, d)) = err psbt_error
count_found (ok (some tx, d)) = count_tx_inputs tx

-- `parsePsbtInputCount`, of the bytes. A round takes a byte at least, so as many as there are bytes
-- are enough.
unfoldable pub count_inputs : Bytes → Result ℕ
count_inputs bytes =
    if ltb (length bytes) 5
    then err psbt_error
    else if eqb (take 5 bytes) psbt_magic
    then count_found (scan_loop (suc (length bytes)) none (record { bytes = bytes; offset = 5 }))
    else err psbt_error

unfoldable pub parse_psbt_input_count : (ℕ → Bool) → (Text → Option Bytes) → Text → Result ℕ
parse_psbt_input_count is_space atob psbt =
    Prelude.◌>>=◌ (decode_psbt_bytes is_space atob psbt) count_inputs
