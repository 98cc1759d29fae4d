-- ===== src/Authorization/Psbt/Fields.antt =====
-- The entries of an input map that `parsePsbtBytes` looks at, by what they mean.
use sigbash_sdk.Prelude.{
  ℕ, ◌≤◌, ◌<◌, ◌^◌, ◌≡◌, ◌≢◌, refl, ap, ◌∙◌, List, [], ◌∷◌, ◌++◌, map, length, length-append, take,
  take-append, get_or, ltb, not, ◌==◌, ◌-◌, ne→==, true, false, Option, none, some, ok, psbt_error,
  arith, All,
}
use mathlib.Core.List.{append_assoc, append-nil}
use sigbash_sdk.Bytes.{Bytes}
use sigbash_sdk.Bytes.LittleEndian.{
  from_little_endian, from_little_endian-little_endian, length-little_endian,
}
use sigbash_sdk.Bytes.Reads.{Reads, Reads-pure, Reads-bind}
use sigbash_sdk.Bytes.Whole.{whole_exact}
use sigbash_sdk.Contracts.AuthorizationSubject.{compact_size, le32, le64}
use sigbash_sdk.Authorization.Psbt.{
  ParsedWitnessUtxo, ParsedTapLeafScript, ParsedPsbtInput, SectionEntry,
}
use sigbash_sdk.Authorization.Psbt.Reader.{max_safe_integer}
use sigbash_sdk.Authorization.Psbt.Maps.{no_fields, read_witness_utxo, input_entry, input_entries}
use sigbash_sdk.Authorization.Psbt.Transactions.{Reads-then, Reads-le64, Reads-var_bytes}

-- An entry of an input map.
pub data InputField : Type 0 where
  witness_utxo : ParsedWitnessUtxo → InputField
  non_witness_utxo : Bytes → InputField
  sighash_type : ℕ → InputField
  tap_leaf_script : ParsedTapLeafScript → InputField
  other : SectionEntry → InputField

abbrev pub serialize_utxo : ParsedWitnessUtxo → Bytes
serialize_utxo u = le64 u.value ++ (compact_size (length u.script_pub_key) ++ u.script_pub_key)

-- BIP-174 and BIP-371: the key type, the key data, and the value of each field.
abbrev pub input_entry_of : InputField → SectionEntry
input_entry_of (witness_utxo u) = record { key = 0x01 ∷ []; value = serialize_utxo u }
input_entry_of (non_witness_utxo raw) = record { key = 0x00 ∷ []; value = raw }
input_entry_of (sighash_type n) = record { key = 0x03 ∷ []; value = le32 n }
input_entry_of (tap_leaf_script l) = record {
  key = 0x15 ∷ l.control_block;
  value = l.script ++ (l.leaf_version ∷ []);
}
input_entry_of (other e) = e

-- The values that a field can have. An entry of another kind has another key type.
abbrev pub IsInputField : InputField → Type 0
IsInputField (witness_utxo u) =
    (u.value ≤ max_safe_integer) × (length u.script_pub_key ≤ max_safe_integer)
IsInputField (non_witness_utxo raw) = Unit
IsInputField (sighash_type n) = n < 2 ^ 32
IsInputField (tap_leaf_script l) = (1 ≤ length l.control_block) × (1 ≤ length l.script)
IsInputField (other e) =
    (get_or e.key 0 0 ≢ 0x00)
    × (get_or e.key 0 0 ≢ 0x01)
    × (get_or e.key 0 0 ≢ 0x03)
    × (get_or e.key 0 0 ≢ 0x15)

-- The last field of a kind, or else what was there before.
abbrev pub last_utxo : Option ParsedWitnessUtxo → List InputField → Option ParsedWitnessUtxo
last_utxo found [] = found
last_utxo found (witness_utxo u ∷ fields) = last_utxo (some u) fields
last_utxo found (_ ∷ fields) = last_utxo found fields

abbrev pub last_previous : Option Bytes → List InputField → Option Bytes
last_previous found [] = found
last_previous found (non_witness_utxo raw ∷ fields) = last_previous (some raw) fields
last_previous found (_ ∷ fields) = last_previous found fields

abbrev pub last_sighash : Option ℕ → List InputField → Option ℕ
last_sighash found [] = found
last_sighash found (sighash_type n ∷ fields) = last_sighash (some n) fields
last_sighash found (_ ∷ fields) = last_sighash found fields

-- The leaves in the order of their entries.
abbrev pub leaves_of : List InputField → List ParsedTapLeafScript
leaves_of [] = []
leaves_of (tap_leaf_script l ∷ fields) = l ∷ leaves_of fields
leaves_of (_ ∷ fields) = leaves_of fields

abbrev with_fields : ParsedPsbtInput → List InputField → ParsedPsbtInput
with_fields input fields = record {
  witness_utxo = last_utxo input.witness_utxo fields;
  non_witness_utxo = last_previous input.non_witness_utxo fields;
  sighash_type = last_sighash input.sighash_type fields;
  tap_leaf_scripts = input.tap_leaf_scripts ++ leaves_of fields;
}

-- What an input map says: the last field of each kind, and every leaf.
abbrev pub input_of : List InputField → ParsedPsbtInput
input_of fields = record {
  witness_utxo = last_utxo none fields;
  non_witness_utxo = last_previous none fields;
  sighash_type = last_sighash none fields;
  tap_leaf_scripts = leaves_of fields;
}

Reads-utxo :
    (u : ParsedWitnessUtxo)
    → u.value ≤ max_safe_integer
    → length u.script_pub_key ≤ max_safe_integer
    → Reads read_witness_utxo (serialize_utxo u) u
unfolding read_witness_utxo
Reads-utxo u v w =
    Reads-bind _ _ u.value u _ _ (Reads-le64 u.value v)
      (Reads-then _ _ u.script_pub_key u _ (Reads-var_bytes u.script_pub_key w) (Reads-pure u))

length-le32 : (n : ℕ) → length (le32 n) ≡ 4
unfolding le32
length-le32 n = length-little_endian 4 n

from_le32 : (n : ℕ) → n < 2 ^ 32 → from_little_endian (le32 n) ≡ n
unfolding le32
from_le32 n h = from_little_endian-little_endian 4 n (omega arith)

-- One more field.
abbrev with_field : ParsedPsbtInput → InputField → ParsedPsbtInput
with_field input (witness_utxo u) = record input { witness_utxo = some u }
with_field input (non_witness_utxo raw) = record input { non_witness_utxo = some raw }
with_field input (sighash_type n) = record input { sighash_type = some n }
with_field input (tap_leaf_script l) = record input {
  tap_leaf_scripts = input.tap_leaf_scripts ++ (l ∷ []);
}
with_field input (other e) = input

with_fields-cons :
    (input : ParsedPsbtInput) (f : InputField) (fields : List InputField)
    → with_fields (with_field input f) fields ≡ with_fields input (f ∷ fields)
with_fields-cons input (witness_utxo u) fields = refl
with_fields-cons input (non_witness_utxo raw) fields = refl
with_fields-cons input (sighash_type n) fields = refl
with_fields-cons input (tap_leaf_script l) fields =
    rw (append_assoc input.tap_leaf_scripts (l ∷ []) (leaves_of fields))
with_fields-cons input (other e) fields = refl

get_or-append : (xs : Bytes) (x : ℕ) → get_or (xs ++ (x ∷ [])) (length xs) 0 ≡ x
get_or-append [] x = refl
get_or-append (y ∷ xs) x = get_or-append xs x

-- The value of a leaf's entry is its script and, last, its version.
leaf_value :
    (l : ParsedTapLeafScript)
    → let value = l.script ++ (l.leaf_version ∷ []) in
      let last = length value - 1 in
      (ltb (length value) 2 ≡ not (ltb 0 (length l.script)))
      × (take last value ≡ l.script)
      × (get_or value last 0 ≡ l.leaf_version)
leaf_value l =
    let n : length (l.script ++ (l.leaf_version ∷ [])) - 1 ≡ length l.script =
      omega (arith, length-append l.script (l.leaf_version ∷ [])) in
    (
      ground (arith, length-append l.script (l.leaf_version ∷ [])),
      rw n (take-append l.script (l.leaf_version ∷ [])),
      rw n (get_or-append l.script l.leaf_version),
    )

input_entry-field :
    (input : ParsedPsbtInput) (f : InputField)
    → IsInputField f
    → input_entry (input_entry_of f) input ≡ ok (with_field input f)
unfolding input_entry
input_entry-field input (witness_utxo u) (v, w) =
    rw (whole_exact psbt_error read_witness_utxo (serialize_utxo u) u (Reads-utxo u v w))
input_entry-field input (non_witness_utxo raw) h = refl
input_entry-field input (sighash_type n) h = rw (length-le32 n, from_le32 n h)
input_entry-field input (tap_leaf_script l) (c, s) =
    let (long, script, version) = leaf_value l in
    let control : (length l.control_block == 0) ≡ false = ground arith in
    let body : ltb 0 (length l.script) ≡ true = ground arith in
    rw (control, long, body, script, version)
input_entry-field input (other e) (n0, n1, n3, n15) =
    rw (ne→== _ _ n1, ne→== _ _ n0, ne→== _ _ n3, ne→== _ _ n15)

input_entries-with_fields :
    (input : ParsedPsbtInput) (fields : List InputField)
    → All IsInputField fields
    → input_entries (map input_entry_of fields) input ≡ ok (with_fields input fields)
unfolding input_entries
input_entries-with_fields input [] h = rw (append-nil input.tap_leaf_scripts)
input_entries-with_fields input (f ∷ fields) (h, hs) = rw (input_entry-field input f h) (
    input_entries-with_fields (with_field input f) fields hs
    ∙ ap ok (with_fields-cons input f fields))

-- The entries of an input map give what its fields say.
pub input_entries-input_of :
    (fields : List InputField)
    → All IsInputField fields
    → input_entries (map input_entry_of fields) no_fields ≡ ok (input_of fields)
input_entries-input_of fields h = input_entries-with_fields no_fields fields h
