-- ===== src/Authorization/Psbt/Globals.antt =====
-- The global map of a PSBT: the transaction, and the entries beside it.
use sigbash_sdk.Prelude.{
  ◌≡◌, ◌≢◌, refl, List, [], ◌∷◌, ◌++◌, map, get_or, Option, none, some, ok, ne→==, All,
}
use mathlib.Core.List.{append-nil}
use sigbash_sdk.Bytes.LittleEndian.{from_little_endian}
use sigbash_sdk.Authorization.Psbt.{ParsedTx, SectionEntry}
use sigbash_sdk.Authorization.Psbt.Sections.{global_entries}
use sigbash_sdk.Authorization.Psbt.Maps.{unsigned_tx}
use sigbash_sdk.Authorization.Psbt.Transactions.{
  serialize_transaction, IsTx, parse_transaction-serialize,
}

-- An entry of the global map beside the transaction: the version, which is 0, or one of a key type
-- that the reader does not look at.
pub data GlobalField : Type 0 where
  version_zero : GlobalField
  other_global : SectionEntry → GlobalField

abbrev pub global_entry_of : GlobalField → SectionEntry
global_entry_of version_zero = record { key = 0xfb ∷ []; value = 0 ∷ 0 ∷ 0 ∷ 0 ∷ [] }
global_entry_of (other_global e) = e

abbrev pub IsGlobalField : GlobalField → Type 0
IsGlobalField version_zero = Unit
IsGlobalField (other_global e) = (get_or e.key 0 0 ≢ 0x00) × (get_or e.key 0 0 ≢ 0xfb)

abbrev pub tx_entry : ParsedTx → SectionEntry
tx_entry tx = record { key = 0x00 ∷ []; value = serialize_transaction tx }

abbrev pub global_map : List GlobalField → ParsedTx → List GlobalField → List SectionEntry
global_map before tx after = map global_entry_of before ++ (tx_entry tx ∷ map global_entry_of after)

version_bytes : from_little_endian (0 ∷ 0 ∷ 0 ∷ 0 ∷ []) ≡ 0
unfolding from_little_endian
version_bytes = refl

-- These entries change nothing.
global_entries-append :
    (fields : List GlobalField) (rest : List SectionEntry) (tx : Option ParsedTx)
    → All IsGlobalField fields
    → global_entries (map global_entry_of fields ++ rest) tx 0 ≡ global_entries rest tx 0
unfolding global_entries
global_entries-append [] rest tx h = refl
global_entries-append (version_zero ∷ fields) rest tx (h, hs) =
    rw version_bytes (global_entries-append fields rest tx hs)
global_entries-append (other_global e ∷ fields) rest tx ((n0, nfb), hs) =
    rw (ne→== _ _ n0, ne→== _ _ nfb) (global_entries-append fields rest tx hs)

global_entries-tx :
    (rest : List SectionEntry) (tx : ParsedTx)
    → IsTx tx
    → global_entries (tx_entry tx ∷ rest) none 0 ≡ global_entries rest (some tx) 0
unfolding global_entries
global_entries-tx rest tx w = rw (parse_transaction-serialize tx w)

no_entries : (tx : ParsedTx) → global_entries [] (some tx) 0 ≡ ok (some tx, 0)
unfolding global_entries
no_entries tx = refl

-- The one transaction of a global map is read from its serialisation.
pub unsigned_tx-global_map :
    (before after : List GlobalField) (tx : ParsedTx)
    → All IsGlobalField before
    → All IsGlobalField after
    → IsTx tx
    → unsigned_tx (global_map before tx after) ≡ ok tx
unfolding unsigned_tx
unsigned_tx-global_map before after tx b a w = rw (
  global_entries-append before (tx_entry tx ∷ map global_entry_of after) none b,
  global_entries-tx (map global_entry_of after) tx w,
  ← append-nil (map global_entry_of after),
  global_entries-append after [] (some tx) a,
  no_entries tx,
)
