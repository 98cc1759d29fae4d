-- ===== src/Wallet/InputCount/Agrees.antt =====
-- The scan of the PSBTs that BIP-174 writes.
use sigbash_sdk.Prelude.{
  ℕ, zero, suc, ◌%◌, ◌^◌, le→leb, ◌≤◌, ◌<◌, ◌≡◌, refl, List, [], ◌∷◌, ◌++◌, length, length-append,
  drop-append, take, drop, get_or, Bool, true, false, not, ◌&&◌, ◌==◌, leb, ltb, Option, none, some,
  Bool-cases, inl, inr, arith, All, ok, psbt_error, eqb, eqb_refl, if◌then◌else◌,
}
use mathlib.Core.List.{append_assoc}
use sigbash_sdk.Bytes.{Bytes}
use sigbash_sdk.Bytes.Reads.{
  Reads, Reads-pure, Reads-bind, Reads-check, Reads-then-branch, Reads-else-branch,
  Reads-read_bytes,
}
use sigbash_sdk.Bytes.LittleEndian.{
  little_endian, length-little_endian, from_little_endian-little_endian,
}
use sigbash_sdk.Contracts.AuthorizationSubject.{compact_size, le32}
use sigbash_sdk.Authorization.Psbt.{ParsedTx, SectionEntry}
use sigbash_sdk.Authorization.Psbt.Reader.{max_safe_integer}
use sigbash_sdk.Authorization.Psbt.Transactions.{Reads-then, serialize_transaction, IsTx}
use sigbash_sdk.Authorization.Psbt.Fuel.{serialize_section, IsEntry, length-serialize_section}
use sigbash_sdk.Wallet.InputCount.{
  psbt_magic, read_word, read_long_word, read_varint, is_tx_key, is_some, scan_loop, count_offset,
  count_tx_inputs, count_found, count_inputs,
}

Reads-word : (width n : ℕ) → n < 256 ^ width → Reads (read_word width) (little_endian width n) n
unfolding read_word
Reads-word width n h =
    Reads-then _ _ (little_endian width n) n (little_endian width n)
      (Reads-read_bytes psbt_error width _ (length-little_endian width n))
      (rw (from_little_endian-little_endian width n h) (Reads-pure n))

Reads-byte : (n : ℕ) → n < 256 → Reads (read_word 1) (n ∷ []) n
unfolding little_endian
Reads-byte n h = let e : n % 256 ≡ n = omega arith in rw e at (Reads-word 1 n (omega arith))

-- The scan's reader of lengths reads back what `compactSize` writes for a safe integer.
Reads-varint : (n : ℕ) → n ≤ max_safe_integer → Reads read_varint (compact_size n) n
unfolding compact_size read_varint read_long_word
Reads-varint n h = elim (Bool-cases (ltb n 253)) [
  | inl short ↦ rw short (
      Reads-then _ _ n n (n ∷ []) (Reads-byte n (ground arith))
        (Reads-then-branch _ _ _ [] _ short (Reads-pure n)))
  | inr a ↦ elim (Bool-cases (leb n 0xffff)) [
    | inl two ↦
        rw (a, two)
          (Reads-bind _ _ 0xfd n (0xfd ∷ []) _ (Reads-byte 0xfd (omega arith)) (
            Reads-else-branch _ _ _ _ _ refl
              (Reads-then-branch _ _ _ _ _ refl (Reads-word 2 n (ground arith)))))
    | inr b ↦ elim (Bool-cases (leb n 0xffffffff)) [
      | inl four ↦
          rw (a, b, four)
            (Reads-bind _ _ 0xfe n (0xfe ∷ []) _ (Reads-byte 0xfe (omega arith)) (
              Reads-else-branch _ _ _ _ _ refl (
                Reads-else-branch _ _ _ _ _ refl
                  (Reads-then-branch _ _ _ _ _ refl (Reads-word 4 n (ground arith))))))
      | inr c ↦
          rw (a, b, c)
            (Reads-bind _ _ 0xff n (0xff ∷ []) _ (Reads-byte 0xff (omega arith)) (
              Reads-else-branch _ _ _ _ _ refl (
                Reads-else-branch _ _ _ _ _ refl (
                  Reads-else-branch _ _ _ _ _ refl (
                    Reads-then _ _ n n _ (Reads-word 8 n (omega arith))
                      (Reads-check _ _ _ [] _ (le→leb n max_safe_integer h) (Reads-pure n)))))))
    ]
  ]
]

-- The values of the records whose key is the single byte 0.
unfoldable pub tx_values : List SectionEntry → List Bytes
tx_values [] = []
tx_values (e ∷ es) = if is_tx_key e.key then e.value ∷ tx_values es else tx_values es

-- The record that the loop ends with, where there is one in all.
abbrev one_of : Option Bytes → List Bytes → Option Bytes
one_of found [] = found
one_of found (v ∷ vs) = some v

-- No record is found twice.
abbrev IsSingle : Option Bytes → List Bytes → Type 0
IsSingle found [] = Unit
IsSingle found (v ∷ vs) = (found ≡ none) × (vs ≡ [])

-- The round of one entry: what stays of the scan, whether or not the entry is the record.
entry_passes :
    (t : Bool) (found : Option Bytes) (v : Bytes) (vs : List Bytes)
    → IsSingle found (if t then v ∷ vs else vs)
    → (not (t && is_some found) ≡ true)
      × IsSingle (if t then some v else found) vs
      × (one_of (if t then some v else found) vs ≡ one_of found (if t then v ∷ vs else vs))
entry_passes true found v vs (e, f) = (rw e refl, rw f tt, rw f refl)
entry_passes false found v vs s = (refl, s, refl)

Reads-scan :
    (fuel : ℕ) (found : Option Bytes) (es : List SectionEntry)
    → All IsEntry es
    → IsSingle found (tx_values es)
    → length es < fuel
    → Reads (scan_loop fuel found) (serialize_section es) (one_of found (tx_values es))
unfolding scan_loop serialize_section tx_values
Reads-scan zero found es h s f = absurd (omega arith)
Reads-scan (suc fuel) found [] h s f =
    Reads-then _ _ 0 found _ (Reads-varint 0 (omega arith))
      (Reads-then-branch _ _ _ [] _ refl (Reads-pure found))
Reads-scan (suc fuel) found (e ∷ es) (w, ws) s f =
    let t = is_tx_key e.key in
    let (fresh, single, same) = entry_passes t found e.value (tx_values es) s in
    let later = Reads-scan fuel (if t then some e.value else found) es ws single (omega arith) in
    rw (append_assoc (compact_size (length e.value)) e.value (serialize_section es)) (
      Reads-bind _ _ (length e.key) _ _ _ (Reads-varint (length e.key) w.key) (
        Reads-else-branch _ _ _ _ _ (ground arith) (
          Reads-bind _ _ e.key _ _ _ (Reads-read_bytes psbt_error (length e.key) e.key refl) (
            Reads-bind _ _ (length e.value) _ _ _ (Reads-varint (length e.value) w.value) (
              Reads-bind _ _ e.value _ _ _
                (Reads-read_bytes psbt_error (length e.value) e.value refl)
                (Reads-check _ _ _ _ _ fresh (rw (← same) later)))))))

-- The first byte of a length that is not 0.
compact_size-marker :
    (n : ℕ) (rest : Bytes) → 1 ≤ n → (get_or (compact_size n ++ rest) 0 1 == 0x00) ≡ false
unfolding compact_size
compact_size-marker n rest h = elim (Bool-cases (ltb n 253)) [
  | inl short ↦ rw short (ground arith)
  | inr a ↦ elim (Bool-cases (leb n 0xffff)) [
    | inl two ↦ rw (a, two) refl
    | inr b ↦ elim (Bool-cases (leb n 0xffffffff)) [
      | inl four ↦ rw (a, b, four) refl
      | inr c ↦ rw (a, b, c) refl
    ]
  ]
]

get_or-le32 : (version : ℕ) (bs : Bytes) (d : ℕ) → get_or (le32 version ++ bs) 4 d ≡ get_or bs 0 d
unfolding le32 little_endian
get_or-le32 version bs d = go bs
  where
    go : (cs : Bytes) → get_or cs 0 d ≡ get_or cs 0 d
    go cs = refl

length-compact_size : (n : ℕ) → 1 ≤ length (compact_size n)
unfolding compact_size
length-compact_size n = ground arith

count_offset-le32 :
    (version n : ℕ) (rest : Bytes)
    → 1 ≤ n
    → count_offset (le32 version ++ (compact_size n ++ rest)) ≡ 4
unfolding count_offset
count_offset-le32 version n rest h =
    let first = get_or-le32 version (compact_size n ++ rest) 1 in
    let marker = compact_size-marker n rest h in rw first (rw marker refl)

-- The count of a transaction with inputs.
count_tx_inputs-version :
    (version n : ℕ) (rest : Bytes)
    → 1 ≤ n
    → n ≤ max_safe_integer
    → count_tx_inputs (le32 version ++ (compact_size n ++ rest)) ≡ ok n
unfolding count_tx_inputs le32
count_tx_inputs-version version n rest h k =
    let bytes = le32 version ++ (compact_size n ++ rest) in
    let four : length (le32 version) ≡ 4 = length-little_endian 4 version in
    let total = length-append (le32 version) (compact_size n ++ rest) in
    let part = length-append (compact_size n) rest in
    let some_byte = length-compact_size n in
    let long : ltb (length bytes) 5 ≡ false = ground arith in
    let start = count_offset-le32 version n rest h in
    let behind : drop 4 bytes ≡ compact_size n ++ rest =
      rw four at (drop-append (le32 version) (compact_size n ++ rest)) in
    let read = Reads-varint n k (record { bytes = bytes; offset = 4 }) rest (omega arith) behind in
    rw long (rw start (rw read refl))

-- The magic bytes and a PSBT in BIP-174's order, whose global map has one record of an unsigned
-- transaction with at least one input, and whose keys and lengths the PSBT reader takes too: the scan
-- returns the number of the transaction's inputs.
pub count_inputs-serialize :
    (globals : List SectionEntry) (back : Bytes) (tx : ParsedTx)
    → All IsEntry globals
    → IsTx tx
    → tx_values globals ≡ serialize_transaction tx ∷ []
    → 1 ≤ length tx.inputs
    → count_inputs (psbt_magic ++ (serialize_section globals ++ back)) ≡ ok (length tx.inputs)
unfolding count_inputs count_found serialize_transaction
count_inputs-serialize globals back tx h w single some_input =
    let body = serialize_section globals ++ back in
    let bytes = psbt_magic ++ body in
    let total = length-append (serialize_section globals) back in
    let enough = length-serialize_section globals h in
    let long : ltb (length bytes) 5 ≡ false = ground arith in
    let magic : eqb (take 5 bytes) psbt_magic ≡ true = eqb_refl psbt_magic in
    let once : IsSingle none (tx_values globals) = rw single (refl, refl) in
    let scan =
      Reads-scan (suc (length bytes)) none globals h once (omega arith)
        (record { bytes = bytes; offset = 5 }) back (omega arith) refl in
    let found = rw single at scan in
    let count = count_tx_inputs-version tx.version (length tx.inputs) _ some_input w.input_count in
    rw long (rw magic (rw found count))
