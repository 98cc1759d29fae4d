-- ===== src/Authorization/Psbt/Parses.antt =====
-- `parsePsbtBytes` on the PSBTs that BIP-174 writes.
use sigbash_sdk.Prelude.{
  take, eqb, eqb_refl, refl, ◌+◌, ◌==◌, ==_iff, true, ◌≡◌, sym, List, [], ◌∷◌, ◌++◌, map, length,
  ok, arith, All,
}
use mathlib.Core.List.{append-nil}
use sigbash_sdk.Bytes.{Bytes}
use sigbash_sdk.Bytes.Decoder.{M, read_times}
use sigbash_sdk.Bytes.Reads.{Reads, Reads-pure, Reads-bind, Reads-lift}
use sigbash_sdk.Authorization.Psbt.{ParsedTx, SectionEntry}
use sigbash_sdk.Authorization.Psbt.Sections.{read_section}
use sigbash_sdk.Authorization.Psbt.Maps.{
  psbt_magic, read_psbt_input, read_maps, read_psbt, parse_psbt_bytes,
}
use sigbash_sdk.Authorization.Psbt.Transactions.{Reads-then, joined, IsTx}
use sigbash_sdk.Authorization.Psbt.Fuel.{serialize_section, IsEntry, Reads-section}
use sigbash_sdk.Authorization.Psbt.Fields.{
  InputField, input_entry_of, IsInputField, input_of, input_entries-input_of,
}
use sigbash_sdk.Authorization.Psbt.Globals.{
  GlobalField, global_map, IsGlobalField, unsigned_tx-global_map,
}

-- What a PSBT says: its transaction with the global entries before and after it, the fields of each
-- input map, and the entries of each output map.
pub record Contents : Type 0 where
  pub before : List GlobalField
  pub tx : ParsedTx
  pub after : List GlobalField
  pub inputs : List (List InputField)
  pub outputs : List (List SectionEntry)

abbrev pub IsInputMap : List InputField → Type 0
IsInputMap fields = All IsEntry (map input_entry_of fields) × All IsInputField fields

-- Values that fit their fields, and a map for each input and each output of the transaction.
pub record IsContents (c : Contents) : Type 0 where
  pub before : All IsGlobalField c.before
  pub tx : IsTx c.tx
  pub after : All IsGlobalField c.after
  pub globals : All IsEntry (global_map c.before c.tx c.after)
  pub inputs : All IsInputMap c.inputs
  pub outputs : All (All IsEntry) c.outputs
  pub input_count : length c.tx.inputs ≡ length c.inputs
  pub output_count : length c.tx.outputs ≡ length c.outputs

abbrev serialize_input_map : List InputField → Bytes
serialize_input_map fields = serialize_section (map input_entry_of fields)

unfoldable pub serialize_maps : Contents → Bytes
serialize_maps c =
    serialize_section (global_map c.before c.tx c.after)
    ++ (joined serialize_input_map c.inputs ++ joined serialize_section c.outputs)

abbrev pub serialize_psbt : Contents → Bytes
serialize_psbt c = psbt_magic ++ serialize_maps c

Reads-psbt_input :
    (fields : List InputField)
    → IsInputMap fields
    → Reads read_psbt_input (serialize_input_map fields) (input_of fields)
unfolding read_psbt_input
Reads-psbt_input fields (w, h) =
    Reads-then _ _ (map input_entry_of fields) (input_of fields) _
      (Reads-section (map input_entry_of fields) w) (Reads-lift (input_entries-input_of fields h))

-- A counted loop over elements that stand for values.
Reads-times_of :
    {X B : Type 0} (P : X → Type 0) (ser : X → Bytes) (value : X → B) (m : M B) (xs : List X)
    → ((x : X) → P x → Reads m (ser x) (value x))
    → All P xs
    → Reads (read_times (length xs) m) (joined ser xs) (map value xs)
unfolding read_times
Reads-times_of P ser value m [] p h = Reads-pure []
Reads-times_of P ser value m (x ∷ xs) p (h, hs) =
    Reads-bind _ _ (value x) (value x ∷ map value xs) (ser x) (joined ser xs) (p x h) (
      Reads-then _ _ (map value xs) (value x ∷ map value xs) (joined ser xs)
        (Reads-times_of P ser value m xs p hs) (Reads-pure _))

module _ (c : Contents) (w : IsContents c) where
  Reads-maps :
      Reads
        (read_maps c.tx)
        (joined serialize_input_map c.inputs ++ joined serialize_section c.outputs)
        (map input_of c.inputs)
  unfolding read_maps
  Reads-maps =
      rw (w.input_count, w.output_count)
        (Reads-bind _ _ (map input_of c.inputs) (map input_of c.inputs) _ _
          (Reads-times_of IsInputMap serialize_input_map input_of read_psbt_input c.inputs
            Reads-psbt_input w.inputs)
          (Reads-then _ _ (map (λ es. es) c.outputs) (map input_of c.inputs) _
            (Reads-times_of (All IsEntry) serialize_section (λ es. es) read_section c.outputs
              Reads-section w.outputs)
            (Reads-pure _)))

  Reads-psbt : Reads read_psbt (serialize_maps c) (c.tx, map input_of c.inputs)
  unfolding read_psbt serialize_maps
  Reads-psbt =
      let globals = global_map c.before c.tx c.after in
      Reads-bind _ _ globals (c.tx, map input_of c.inputs) _ _ (Reads-section globals w.globals)
        (Reads-bind _ _ c.tx (c.tx, map input_of c.inputs) [] _
          (Reads-lift (unsigned_tx-global_map c.before c.after c.tx w.before w.after w.tx))
          (Reads-then _ _ (map input_of c.inputs) (c.tx, map input_of c.inputs) _ Reads-maps
            (Reads-pure _)))

  -- The bytes that BIP-174 writes for a PSBT are parsed to its transaction, to the last witness UTXO,
  -- previous transaction and sighash type and all tap leaves of each input map, and to the bytes
  -- themselves. The values fit their fields, every tap leaf has a control block and a script, the
  -- version is absent or 0, every key has a byte, no length exceeds a safe integer, and there is a map
  -- for each input and each output; entries of other key types, which the reader skips, may stand
  -- anywhere.
  pub parse_psbt_bytes-serialize :
      parse_psbt_bytes (serialize_psbt c)
      ≡ ok (record { unsigned_tx = c.tx; inputs = map input_of c.inputs; raw = serialize_psbt c })
  unfolding parse_psbt_bytes
  parse_psbt_bytes-serialize =
      let bytes = serialize_psbt c in
      let read =
        Reads-psbt (record { bytes = bytes; offset = 5 }) [] (omega arith)
          (sym (append-nil (serialize_maps c))) in
      let whole : (5 + length (serialize_maps c) == length bytes) ≡ true =
        (==_iff _ _).1 (omega arith) in
      let magic : eqb (take 5 bytes) psbt_magic ≡ true = eqb_refl psbt_magic in
      rw (read, whole, magic) refl
