-- ===== src/Authorization/Psbt/Sound.antt =====
-- The leaves of the PSBTs that `parsePsbtBytes` returns.
use sigbash_sdk.Prelude.{
  ℕ, ◌-◌, ◌≤◌, ◌≡◌, List, [], ◌∷◌, length, drop, length-take_of_le, sym, ap, ◌∙◌, refl, take, eqb,
  get_or, ltb, ◌==◌, not, Result, ok, err, if◌then◌else◌, arith, All, All-append, psbt_error,
  ok-injective, if-eq-ok, guard-eq-ok, >>=-eq-ok,
}
use sigbash_sdk.Calls.{
  Yields, Yields-ok, Yields-guard, Yields-if, Yields-skip, Yields-bind, ◌>>=◌, ◌>>◌,
}
use sigbash_sdk.Bytes.{Bytes}
use sigbash_sdk.Bytes.Decoder.{Decoder, whole_or, lift, read_times}
use sigbash_sdk.Bytes.Ensures.{Ensures, Ensures-pure, Ensures-bind, Ensures-skip, Ensures-times}
use sigbash_sdk.Authorization.Psbt.{
  ParsedTx, ParsedTapLeafScript, ParsedPsbtInput, ParsedPsbt, SectionEntry,
}
use sigbash_sdk.Authorization.Psbt.Sections.{read_section}
use sigbash_sdk.Authorization.Psbt.Maps.{
  no_fields, read_witness_utxo, input_entry, input_entries, read_psbt_input, read_maps, unsigned_tx,
  read_psbt, parse_psbt_bytes, psbt_magic,
}

-- A leaf has a control block and a script.
pub record IsWholeLeaf (l : ParsedTapLeafScript) : Type 0 where
  pub control_block : 1 ≤ length l.control_block
  pub script : 1 ≤ length l.script

abbrev pub HasWholeLeaves : ParsedPsbtInput → Type 0
HasWholeLeaves input = All IsWholeLeaf input.tap_leaf_scripts

input_entry-HasWholeLeaves :
    (entry : SectionEntry) (input : ParsedPsbtInput)
    → HasWholeLeaves input
    → Yields (input_entry entry input) HasWholeLeaves
unfolding input_entry ◌>>=◌ ◌>>◌
input_entry-HasWholeLeaves entry input h =
    let P = HasWholeLeaves in
    let kind = get_or entry.key 0 0 in
    let single = length entry.key == 1 in
    Yields-if P (kind == 0x01) _ _
      (λ _. Yields-guard P single psbt_error _ (λ _.
        Yields-skip P (whole_or psbt_error read_witness_utxo entry.value) _ (λ u. Yields-ok P _ h)))
      (λ _.
        Yields-if P (kind == 0x00) _ _
          (λ _. Yields-guard P single psbt_error _ (λ _. Yields-ok P _ h))
          (λ _.
            Yields-if P (kind == 0x03) _ _
              (λ _.
                Yields-guard P single psbt_error _ (λ _.
                  Yields-guard P (length entry.value == 4) psbt_error _ (λ _. Yields-ok P _ h)))
              (λ _.
                Yields-if P (kind == 0x15) _ _
                  (λ _. Yields-guard P (not (length (drop 1 entry.key) == 0)) psbt_error _ (λ c.
                    Yields-guard P (not (ltb (length entry.value) 2)) psbt_error _ (λ s.
                      Yields-ok P _ (
                        All-append IsWholeLeaf input.tap_leaf_scripts _ h (
                          record {
                            control_block = ground arith;
                            script =
                                ground
                                  (arith, length-take_of_le (length entry.value - 1) entry.value);
                          },
                          tt,
                        )))))
                  (λ _. Yields-ok P _ h))))

input_entries-HasWholeLeaves :
    (entries : List SectionEntry) (input : ParsedPsbtInput)
    → HasWholeLeaves input
    → Yields (input_entries entries input) HasWholeLeaves
unfolding input_entries ◌>>=◌
input_entries-HasWholeLeaves [] input h = Yields-ok HasWholeLeaves input h
input_entries-HasWholeLeaves (entry ∷ entries) input h =
    Yields-bind HasWholeLeaves HasWholeLeaves (input_entry entry input) _
      (input_entry-HasWholeLeaves entry input h) (input_entries-HasWholeLeaves entries)

-- A call that reads nothing.
lift-Ensures : {A : Type 0} (P : A → Type 0) (r : Result A) → Yields r P → Ensures (lift r) P
unfolding lift Yields
lift-Ensures P (ok a) p d v d' h = let e : ok a ≡ ok v = cc h in p v e
lift-Ensures P (err e) p d v d' h = cc

read_psbt_input-HasWholeLeaves : Ensures read_psbt_input HasWholeLeaves
unfolding read_psbt_input
read_psbt_input-HasWholeLeaves = Ensures-skip HasWholeLeaves read_section _ (λ entries.
    lift-Ensures HasWholeLeaves (input_entries entries no_fields)
      (input_entries-HasWholeLeaves entries no_fields tt))

read_maps-HasWholeLeaves : (tx : ParsedTx) → Ensures (read_maps tx) (All HasWholeLeaves)
unfolding read_maps
read_maps-HasWholeLeaves tx =
    let P = All HasWholeLeaves in
    Ensures-bind P P (read_times (length tx.inputs) read_psbt_input) _
      (Ensures-times HasWholeLeaves (length tx.inputs) read_psbt_input
        read_psbt_input-HasWholeLeaves)
      (λ inputs h.
        Ensures-skip P (read_times (length tx.outputs) read_section) _
          (λ _. Ensures-pure P inputs h))

AreWhole : ParsedTx × List ParsedPsbtInput → Type 0
AreWhole parsed = All HasWholeLeaves parsed.1

read_psbt-AreWhole : Ensures read_psbt AreWhole
unfolding read_psbt AreWhole
read_psbt-AreWhole = Ensures-skip AreWhole read_section _ (λ entries.
    Ensures-skip AreWhole (lift (unsigned_tx entries)) _ (λ tx.
      Ensures-bind AreWhole (All HasWholeLeaves) (read_maps tx) _ (read_maps-HasWholeLeaves tx)
        (λ inputs h. Ensures-pure AreWhole (tx, inputs) h)))

ends_at-eq-ok :
    {A : Type 0} (r : Result (A × Decoder)) (n : ℕ) (a : A)
    → elim r [
      | err e ↦ err e
      | ok (result, d) ↦ if d.offset == n then ok result else err psbt_error
    ]
      ≡ ok a
    → (d : Decoder) × (r ≡ ok (a, d))
ends_at-eq-ok (err e) n a h = cc
ends_at-eq-ok (ok (b, d)) n a h =
    let (ends, e) = if-eq-ok (d.offset == n) psbt_error (ok b) h in (d, cc e)

kept_inputs :
    (parsed : ParsedTx × List ParsedPsbtInput) (whole psbt : ParsedPsbt)
    → AreWhole parsed
    → whole.inputs ≡ parsed.1
    → ok whole ≡ ok psbt
    → All HasWholeLeaves psbt.inputs
unfolding AreWhole
kept_inputs parsed whole psbt h e same =
    let inputs : psbt.inputs ≡ parsed.1 =
      sym (ap (λ (p : ParsedPsbt). p.inputs) (ok-injective whole psbt same)) ∙ e in
    rw inputs h

-- Every leaf of every input map has a control block and a script.
pub parse_psbt_bytes-HasWholeLeaves :
    (raw : Bytes) (psbt : ParsedPsbt)
    → parse_psbt_bytes raw ≡ ok psbt
    → All HasWholeLeaves psbt.inputs
unfolding parse_psbt_bytes
parse_psbt_bytes-HasWholeLeaves raw psbt h =
    let (magic, h1) = guard-eq-ok (eqb (take 5 raw) psbt_magic) psbt_error _ h in
    let (parsed, h2, h3) = >>=-eq-ok _ _ h1 in
    let (d, read) =
      ends_at-eq-ok (read_psbt (record { bytes = raw; offset = 5 })) (length raw) parsed h2 in
    kept_inputs parsed _ psbt (read_psbt-AreWhole _ parsed d read) refl h3
