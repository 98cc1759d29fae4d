-- ===== src/Authorization/Psbt/Transactions.antt =====
-- `parseTransaction` on Bitcoin's serialisation.
use sigbash_sdk.Prelude.{
  ℕ, ◌≤◌, ◌<◌, ◌^◌, ◌≡◌, refl, List, [], ◌∷◌, ◌++◌, length, ltb, leb, Bool-cases, inl, inr,
  psbt_error, ok, arith, All, le→leb, lt→ltb,
}
use sigbash_sdk.Bytes.{Bytes}
use sigbash_sdk.Bytes.Decoder.{M, ◌>>=◌, read_times}
use sigbash_sdk.Bytes.LittleEndian.{
  little_endian, length-little_endian, from_little_endian-little_endian,
}
use sigbash_sdk.Bytes.Reads.{
  Reads, Reads-pure, Reads-bind, Reads-check, Reads-read_bytes, Reads-then-branch,
  Reads-else-branch,
}
use sigbash_sdk.Contracts.AuthorizationSubject.{compact_size, le32, le64}
use sigbash_sdk.Authorization.Psbt.{ParsedTxInput, ParsedTxOutput, ParsedTx}
use sigbash_sdk.Authorization.Psbt.Reader.{
  max_safe_integer, read_safe, var_int_width, read_var_int, read_le32, read_le64, read_var_bytes,
  read_tx_input, read_tx_output, read_transaction, parse_transaction,
}
use sigbash_sdk.Bytes.Whole.{whole_exact}
use mathlib.Core.List.{append-nil}

-- A reader whose last step reads nothing.
pub Reads-then :
    {A B : Type 0} (m : M A) (f : A → M B) (v : A) (w : B) (bs : List ℕ)
    → Reads m bs v
    → Reads (f v) [] w
    → Reads (m >>= f) bs w
Reads-then m f v w bs p q = rw (append-nil bs) at (Reads-bind m f v w bs [] p q)

Reads-safe :
    (k n : ℕ) → n < 256 ^ k → n ≤ max_safe_integer → Reads (read_safe k) (little_endian k n) n
unfolding read_safe
Reads-safe k n h g =
    Reads-then _ _ (little_endian k n) n (little_endian k n)
      (Reads-read_bytes psbt_error k _ (length-little_endian k n))
      (rw (from_little_endian-little_endian k n h)
        (Reads-check _ _ _ [] _ (le→leb _ _ g) (Reads-pure n)))

pub Reads-le32 : (n : ℕ) → n < 2 ^ 32 → Reads read_le32 (le32 n) n
unfolding read_le32 le32
Reads-le32 n h =
    Reads-then _ _ (little_endian 4 n) n (little_endian 4 n)
      (Reads-read_bytes psbt_error 4 _ (length-little_endian 4 n))
      (rw (from_little_endian-little_endian 4 n (omega arith)) (Reads-pure n))

pub Reads-le64 : (n : ℕ) → n ≤ max_safe_integer → Reads read_le64 (le64 n) n
unfolding read_le64 le64
Reads-le64 n h = Reads-safe 8 n (omega arith) h

-- The prefix byte of a long length, and the bytes that it announces.
Reads-long :
    (first k n : ℕ)
    → 0xfd ≤ first
    → var_int_width first ≡ k
    → n < 256 ^ k
    → n ≤ max_safe_integer
    → Reads read_var_int (first ∷ little_endian k n) n
unfolding read_var_int
Reads-long first k n f w h g =
    Reads-bind _ _ (first ∷ []) n (first ∷ []) (little_endian k n)
      (Reads-read_bytes psbt_error 1 (first ∷ []) refl)
      (Reads-else-branch _ _ _ _ _ (ground arith) (rw w (Reads-safe k n h g)))

Reads-short : (n : ℕ) → n < 0xfd → Reads read_var_int (n ∷ []) n
unfolding read_var_int
Reads-short n h =
    Reads-then _ _ (n ∷ []) n (n ∷ []) (Reads-read_bytes psbt_error 1 (n ∷ []) refl)
      (Reads-then-branch _ _ _ [] _ (lt→ltb _ _ h) (Reads-pure n))

-- The reader of lengths reads back what `compactSize` writes for a safe integer.
pub Reads-compact_size : (n : ℕ) → n ≤ max_safe_integer → Reads read_var_int (compact_size n) n
unfolding compact_size
Reads-compact_size n h = elim (Bool-cases (ltb n 253)) [
  | inl short ↦ rw short (Reads-short n (ground arith))
  | inr a ↦ elim (Bool-cases (leb n 0xffff)) [
    | inl two ↦ rw (a, two) (Reads-long 0xfd 2 n (omega arith) refl (ground arith) h)
    | inr b ↦ elim (Bool-cases (leb n 0xffffffff)) [
      | inl four ↦ rw (a, b, four) (Reads-long 0xfe 4 n (omega arith) refl (ground arith) h)
      | inr c ↦ rw (a, b, c) (Reads-long 0xff 8 n (omega arith) refl (omega arith) h)
    ]
  ]
]

-- A transaction as Bitcoin serialises it, with the writers of authorizationSubject.ts.
unfoldable pub serialize_input : ParsedTxInput → Bytes
serialize_input i =
    i.txid
    ++ (le32 i.vout ++ ((compact_size (length i.script_sig) ++ i.script_sig) ++ le32 i.sequence))

unfoldable pub serialize_output : ParsedTxOutput → Bytes
serialize_output o = le64 o.value ++ (compact_size (length o.script_pub_key) ++ o.script_pub_key)

abbrev pub joined : {A : Type 0} → (A → Bytes) → List A → Bytes
joined f [] = []
joined f (x ∷ xs) = f x ++ joined f xs

unfoldable pub serialize_transaction : ParsedTx → Bytes
serialize_transaction tx =
    le32 tx.version
    ++ (compact_size (length tx.inputs)
        ++ (joined serialize_input tx.inputs
            ++ (compact_size (length tx.outputs)
                ++ (joined serialize_output tx.outputs ++ le32 tx.lock_time))))

-- The values fit the fields.
pub record IsTxInput (i : ParsedTxInput) : Type 0 where
  pub txid : length i.txid ≡ 32
  pub vout : i.vout < 2 ^ 32
  pub script_sig : length i.script_sig ≤ max_safe_integer
  pub sequence : i.sequence < 2 ^ 32

pub record IsTxOutput (o : ParsedTxOutput) : Type 0 where
  pub value : o.value ≤ max_safe_integer
  pub script_pub_key : length o.script_pub_key ≤ max_safe_integer

pub record IsTx (tx : ParsedTx) : Type 0 where
  pub version : tx.version < 2 ^ 32
  pub inputs : All IsTxInput tx.inputs
  pub outputs : All IsTxOutput tx.outputs
  pub input_count : length tx.inputs ≤ max_safe_integer
  pub output_count : length tx.outputs ≤ max_safe_integer
  pub lock_time : tx.lock_time < 2 ^ 32

pub Reads-var_bytes :
    (bytes : Bytes)
    → length bytes ≤ max_safe_integer
    → Reads read_var_bytes (compact_size (length bytes) ++ bytes) bytes
unfolding read_var_bytes
Reads-var_bytes bytes h =
    Reads-bind _ _ (length bytes) bytes _ bytes (Reads-compact_size (length bytes) h)
      (Reads-read_bytes psbt_error (length bytes) bytes refl)

Reads-input : (i : ParsedTxInput) → IsTxInput i → Reads read_tx_input (serialize_input i) i
unfolding serialize_input read_tx_input
Reads-input i w = Reads-bind _ _ i.txid i _ _ (Reads-read_bytes psbt_error 32 i.txid w.txid) (
    Reads-bind _ _ i.vout i _ _ (Reads-le32 i.vout w.vout) (
      Reads-bind _ _ i.script_sig i _ _ (Reads-var_bytes i.script_sig w.script_sig)
        (Reads-then _ _ i.sequence i _ (Reads-le32 i.sequence w.sequence) (Reads-pure i))))

Reads-output : (o : ParsedTxOutput) → IsTxOutput o → Reads read_tx_output (serialize_output o) o
unfolding serialize_output read_tx_output
Reads-output o w = Reads-bind _ _ o.value o _ _ (Reads-le64 o.value w.value) (
    Reads-then _ _ o.script_pub_key o _ (Reads-var_bytes o.script_pub_key w.script_pub_key)
      (Reads-pure o))

-- A counted loop over elements that are read back.
pub Reads-times :
    {X : Type 0} (P : X → Type 0) (ser : X → Bytes) (m : M X) (xs : List X)
    → ((x : X) → P x → Reads m (ser x) x)
    → All P xs
    → Reads (read_times (length xs) m) (joined ser xs) xs
unfolding read_times
Reads-times P ser m [] p h = Reads-pure []
Reads-times P ser m (x ∷ xs) p (h, hs) =
    Reads-bind _ _ x (x ∷ xs) (ser x) (joined ser xs) (p x h)
      (Reads-then _ _ xs (x ∷ xs) (joined ser xs) (Reads-times P ser m xs p hs) (Reads-pure _))

pub Reads-transaction :
    (tx : ParsedTx) → IsTx tx → Reads read_transaction (serialize_transaction tx) tx
unfolding serialize_transaction read_transaction
Reads-transaction tx w = Reads-bind _ _ tx.version tx _ _ (Reads-le32 tx.version w.version) (
    Reads-bind _ _ (length tx.inputs) tx _ _ (Reads-compact_size (length tx.inputs) w.input_count) (
      Reads-bind _ _ tx.inputs tx _ _
        (Reads-times IsTxInput serialize_input read_tx_input tx.inputs Reads-input w.inputs)
        (Reads-bind _ _ (length tx.outputs) tx _ _
          (Reads-compact_size (length tx.outputs) w.output_count)
          (Reads-bind _ _ tx.outputs tx _ _
            (Reads-times IsTxOutput serialize_output read_tx_output tx.outputs Reads-output
              w.outputs)
            (Reads-then _ _ tx.lock_time tx _ (Reads-le32 tx.lock_time w.lock_time)
              (Reads-pure tx))))))

-- A transaction whose values fit their fields is read back from its serialisation.
pub parse_transaction-serialize :
    (tx : ParsedTx) → IsTx tx → parse_transaction (serialize_transaction tx) ≡ ok tx
unfolding parse_transaction
parse_transaction-serialize tx w =
    whole_exact psbt_error read_transaction (serialize_transaction tx) tx (Reads-transaction tx w)
