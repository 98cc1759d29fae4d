-- ===== src/Authorization/Psbt/Sections.antt =====
-- `readSection` and `parsePsbtBytes`.
use sigbash_sdk.Prelude.{
  ℕ, zero, suc, ◌+◌, ◌-◌, List, [], ◌∷◌, ◌++◌, length, take, drop, get_or, get_elem?, ltb, leb,
  ◌==◌, if◌then◌else◌, Bool, true, false, not, ◌||◌, Option, none, some, Error, psbt_error, Result,
  ok, err, eqb,
}
use sigbash_sdk.Prelude
use sigbash_sdk.Bytes.Decoder.{M, ◌>>=◌, pure, throw, branch}
use sigbash_sdk.Bytes.LittleEndian.{from_little_endian}
use sigbash_sdk.Authorization.Psbt.{ParsedTx, SectionEntry}
use sigbash_sdk.Authorization.Psbt.Reader.{
  read_psbt_bytes, read_var_int, read_var_bytes, parse_transaction,
}

-- The `for (;;)` of `readSection`, for as many rounds as the fuel.
unfoldable pub section_loop : ℕ → M (List SectionEntry)
section_loop zero = throw psbt_error
section_loop (suc fuel) = do
  key_length ← read_var_int
  branch (key_length == 0) (pure []) do
    key ← read_psbt_bytes key_length
    value ← read_var_bytes
    entries ← section_loop fuel
    pure (record { key = key; value = value } ∷ entries)

-- Every round takes a byte at least, so as many rounds as there are bytes are enough.
unfoldable pub read_section : M (List SectionEntry)
read_section d = section_loop (suc (length d.bytes)) d

-- The global map: the unsigned transaction, the last one if there are several, and the version.
unfoldable pub global_entries :
    List SectionEntry → Option ParsedTx → ℕ → Result (Option ParsedTx × ℕ)
global_entries [] tx version = ok (tx, version)
global_entries (entry ∷ entries) tx version =
    let key_type = get_or entry.key 0 0 in
    if key_type == 0x00
    then Prelude.◌>>◌ (Prelude.guard (length entry.key == 1) psbt_error) (
        Prelude.◌>>=◌ (parse_transaction entry.value)
          λ parsed. global_entries entries (some parsed) version)
    else if key_type == 0xfb
    then Prelude.◌>>◌ (Prelude.guard (length entry.value == 4) psbt_error)
        (global_entries entries tx (from_little_endian entry.value))
    else global_entries entries tx version
