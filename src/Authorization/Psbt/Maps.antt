-- ===== src/Authorization/Psbt/Maps.antt =====
-- The input maps, and `parsePsbtBytes`.
use sigbash_sdk.Prelude.{
  ◌-◌, List, [], ◌∷◌, ◌++◌, length, take, drop, get_or, ltb, ◌==◌, if◌then◌else◌, not, none, some,
  psbt_error, Result, ok, err, eqb, ◌>>=◌, ◌>>◌, guard,
}
use sigbash_sdk.Bytes.{Bytes}
use sigbash_sdk.Bytes.Decoder.{Decoder, M, whole_or}
use sigbash_sdk.Bytes.Decoder
use sigbash_sdk.Bytes.LittleEndian.{from_little_endian}
use sigbash_sdk.Authorization.Psbt.{
  ParsedTx, ParsedWitnessUtxo, ParsedTapLeafScript, ParsedPsbtInput, ParsedPsbt, SectionEntry,
}
use sigbash_sdk.Authorization.Psbt.Reader.{read_le64, read_var_bytes}
use sigbash_sdk.Authorization.Psbt.Sections.{read_section, global_entries}

abbrev pub psbt_magic : Bytes
psbt_magic = 0x70 ∷ 0x73 ∷ 0x62 ∷ 0x74 ∷ 0xff ∷ []

unfoldable pub read_witness_utxo : M ParsedWitnessUtxo
read_witness_utxo = Decoder.◌>>=◌ read_le64 λ value.
    Decoder.◌>>=◌ read_var_bytes
      λ script. Decoder.pure (record { value = value; script_pub_key = script })

abbrev pub no_fields : ParsedPsbtInput
no_fields = record {
  witness_utxo = none;
  non_witness_utxo = none;
  sighash_type = none;
  tap_leaf_scripts = [];
}

-- What one entry of an input map changes, by its key type. The script of a leaf is the value
-- without its last byte, the leaf version.
unfoldable pub input_entry : SectionEntry → ParsedPsbtInput → Result ParsedPsbtInput
input_entry entry input =
    let key_type = get_or entry.key 0 0 in
    let key_data = drop 1 entry.key in
    let last = length entry.value - 1 in
    let leaf : ParsedTapLeafScript = record {
      control_block = key_data;
      script = take last entry.value;
      leaf_version = get_or entry.value last 0;
    } in
    if key_type == 0x01
    then (do
      guard (length entry.key == 1) psbt_error
      utxo ← whole_or psbt_error read_witness_utxo entry.value
      ok (record input { witness_utxo = some utxo }))
    else if key_type == 0x00
    then (do
      guard (length entry.key == 1) psbt_error
      ok (record input { non_witness_utxo = some entry.value }))
    else if key_type == 0x03
    then (do
      guard (length entry.key == 1) psbt_error
      guard (length entry.value == 4) psbt_error
      ok (record input { sighash_type = some (from_little_endian entry.value) }))
    else if key_type == 0x15
    then (do
      guard (not (length key_data == 0)) psbt_error
      guard (not (ltb (length entry.value) 2)) psbt_error
      ok (record input { tap_leaf_scripts = input.tap_leaf_scripts ++ (leaf ∷ []) }))
    else ok input

unfoldable pub input_entries : List SectionEntry → ParsedPsbtInput → Result ParsedPsbtInput
input_entries [] input = ok input
input_entries (entry ∷ entries) input = do
  next ← input_entry entry input
  input_entries entries next

unfoldable pub read_psbt_input : M ParsedPsbtInput
read_psbt_input =
    Decoder.◌>>=◌ read_section λ entries. Decoder.lift (input_entries entries no_fields)

-- The input maps, and the output maps, which are only walked.
unfoldable pub read_maps : ParsedTx → M (List ParsedPsbtInput)
read_maps tx = Decoder.◌>>=◌ (Decoder.read_times (length tx.inputs) read_psbt_input) λ inputs.
    Decoder.◌>>=◌ (Decoder.read_times (length tx.outputs) read_section) λ _. Decoder.pure inputs

-- The unsigned transaction of the global map, of a PSBT of version 0.
unfoldable pub unsigned_tx : List SectionEntry → Result ParsedTx
unsigned_tx entries = do
  found ← global_entries entries none 0
  guard (found.1 == 0) psbt_error
  elim found.0 [ none ↦ err psbt_error | some tx ↦ ok tx ]

unfoldable pub read_psbt : M (ParsedTx × List ParsedPsbtInput)
read_psbt = Decoder.◌>>=◌ read_section λ entries.
    Decoder.◌>>=◌ (Decoder.lift (unsigned_tx entries))
      λ tx. Decoder.◌>>=◌ (read_maps tx) λ inputs. Decoder.pure (tx, inputs)

-- The cursor starts behind the magic bytes.
unfoldable pub parse_psbt_bytes : Bytes → Result ParsedPsbt
parse_psbt_bytes decoded = do
  guard (eqb (take 5 decoded) psbt_magic) psbt_error
  parsed ← elim (read_psbt (record { bytes = decoded; offset = 5 })) [
    | err e ↦ err e
    | ok (result, d) ↦ if d.offset == length decoded then ok result else err psbt_error
  ]
  ok (record { unsigned_tx = parsed.0; inputs = parsed.1; raw = decoded })
