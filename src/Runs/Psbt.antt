-- ===== src/Runs/Psbt.antt =====
-- A PSBT with one input, whose map has two sighash types and a leaf, and one output.
use sigbash_sdk.Prelude.{ℕ, ◌≡◌, refl, [], ◌∷◌, ◌++◌, replicate, some, ok, arith}
use sigbash_sdk.Bytes.{Bytes}
use sigbash_sdk.Bytes.Reads.{Reads}
use sigbash_sdk.Bytes.LittleEndian.{little_endian}
use sigbash_sdk.Contracts.AuthorizationSubject.{compact_size, le32, le64}
use sigbash_sdk.Authorization.Psbt.{
  ParsedTxInput, ParsedTxOutput, ParsedTx, ParsedTapLeafScript, ParsedPsbtInput, SectionEntry,
}
use sigbash_sdk.Authorization.Psbt.Reader.{parse_transaction}
use sigbash_sdk.Authorization.Psbt.Sections.{read_section}
use sigbash_sdk.Authorization.Psbt.Maps.{no_fields, parse_psbt_bytes}
use sigbash_sdk.Authorization.Psbt.Transactions.{
  serialize_transaction, serialize_input, serialize_output, IsTxInput, IsTxOutput, IsTx,
  parse_transaction-serialize,
}
use sigbash_sdk.Authorization.Psbt.Fuel.{serialize_section, IsEntry, Reads-section}
use sigbash_sdk.Authorization.Psbt.Fields.{InputField, input_entry_of}
use sigbash_sdk.Authorization.Psbt.Globals.{GlobalField, tx_entry}
use sigbash_sdk.Authorization.Psbt.Parses.{
  Contents, IsContents, serialize_psbt, parse_psbt_bytes-serialize,
}

abbrev input : ParsedTxInput
input = record { txid = replicate 32 1; vout = 3; script_sig = []; sequence = 0xffffffff }

abbrev output : ParsedTxOutput
output = record { value = 900; script_pub_key = 0x51 ∷ [] }

abbrev pub tx : ParsedTx
tx = record { version = 2; inputs = input ∷ []; outputs = output ∷ []; lock_time = 0 }

input-IsTxInput : IsTxInput input
input-IsTxInput = record {
  txid = refl;
  vout = omega arith;
  script_sig = omega arith;
  sequence = omega arith;
}

output-IsTxOutput : IsTxOutput output
output-IsTxOutput = record { value = omega arith; script_pub_key = omega arith }

pub tx-IsTx : IsTx tx
tx-IsTx = record {
  version = omega arith;
  inputs = (input-IsTxInput, tt);
  outputs = (output-IsTxOutput, tt);
  input_count = omega arith;
  output_count = omega arith;
  lock_time = omega arith;
}

parse_transaction-serialize_example : parse_transaction (serialize_transaction tx) ≡ ok tx
parse_transaction-serialize_example = parse_transaction-serialize tx tx-IsTx

-- A key of another type, with the two bytes of a value.
abbrev pub other : SectionEntry
other = record { key = 0x02 ∷ 0xaa ∷ []; value = 8 ∷ 9 ∷ [] }

abbrev sighash : SectionEntry
sighash = record { key = 0x03 ∷ []; value = 0x81 ∷ 0 ∷ 0 ∷ 0 ∷ [] }

pub other-IsEntry : IsEntry other
other-IsEntry = record { has_key = omega arith; key = omega arith; value = omega arith }

sighash-IsEntry : IsEntry sighash
sighash-IsEntry = record { has_key = omega arith; key = omega arith; value = omega arith }

Reads-section_example :
    Reads read_section (serialize_section (other ∷ sighash ∷ [])) (other ∷ sighash ∷ [])
Reads-section_example = Reads-section (other ∷ sighash ∷ []) (other-IsEntry, (sighash-IsEntry, tt))

abbrev pub tx_bytes : Bytes
tx_bytes =
    2
    ∷ 0
    ∷ 0
    ∷ 0
    ∷ 1
    ∷ (replicate 32 1
        ++ (3 ∷ 0 ∷ 0 ∷ 0 ∷ 0 ∷ 255 ∷ 255 ∷ 255 ∷ 255 ∷ 1 ∷ 132 ∷ 3 ∷ 0 ∷ 0 ∷ 0 ∷ 0 ∷ 0 ∷ 0 ∷ 1
            ∷ 0x51 ∷ 0 ∷ 0 ∷ 0 ∷ 0 ∷ []))

abbrev pub global : SectionEntry
global = record { key = 0x00 ∷ []; value = tx_bytes }

pub global-IsEntry : IsEntry global
global-IsEntry = record { has_key = omega arith; key = omega arith; value = omega arith }

pub tx_serialized : serialize_transaction tx ≡ tx_bytes
unfolding serialize_transaction serialize_input serialize_output le32 le64 compact_size
    little_endian
tx_serialized = refl

abbrev sighash_field : InputField
sighash_field = InputField.sighash_type 0x81

abbrev leaf : ParsedTapLeafScript
leaf = record { control_block = 0xc0 ∷ replicate 32 5; script = 0x51 ∷ []; leaf_version = 0xc0 }

-- The version, the transaction and an unknown entry; a sighash type, a leaf, an unknown entry and
-- another sighash type; and an output map.
abbrev contents : Contents
contents = record {
  before = GlobalField.version_zero ∷ [];
  tx = tx;
  after = GlobalField.other_global other ∷ [];
  inputs =
      (InputField.sighash_type 1
        ∷ InputField.tap_leaf_script leaf
        ∷ InputField.other other
        ∷ sighash_field
        ∷ [])
      ∷ [];
  outputs = (other ∷ []) ∷ [];
}

pub tx_entry-IsEntry : IsEntry (tx_entry tx)
tx_entry-IsEntry = rw tx_serialized (global-IsEntry)

four_bytes-IsEntry : (n : ℕ) → IsEntry (input_entry_of (InputField.sighash_type n))
unfolding le32 little_endian
four_bytes-IsEntry n = record { has_key = omega arith; key = omega arith; value = omega arith }

contents-IsContents : IsContents contents
contents-IsContents = record {
  before = (tt, tt);
  tx = tx-IsTx;
  after = ((omega arith, omega arith), tt);
  globals = (
    record { has_key = omega arith; key = omega arith; value = omega arith },
    (tx_entry-IsEntry, (other-IsEntry, tt)),
  );
  inputs = (
    (
      (
        four_bytes-IsEntry 1,
        (
          record { has_key = omega arith; key = omega arith; value = omega arith },
          (other-IsEntry, (four_bytes-IsEntry 0x81, tt)),
        ),
      ),
      (
        omega arith,
        (
          (omega arith, omega arith),
          ((omega arith, omega arith, omega arith, omega arith), (omega arith, tt)),
        ),
      ),
    ),
    tt,
  );
  outputs = ((other-IsEntry, tt), tt);
  input_count = refl;
  output_count = refl;
}

abbrev parsed_input : ParsedPsbtInput
parsed_input = record no_fields { sighash_type = some 0x81; tap_leaf_scripts = leaf ∷ [] }

parse_psbt_bytes-serialize_example :
    parse_psbt_bytes (serialize_psbt contents)
    ≡ ok (record { unsigned_tx = tx; inputs = parsed_input ∷ []; raw = serialize_psbt contents })
parse_psbt_bytes-serialize_example = parse_psbt_bytes-serialize contents contents-IsContents
