-- ===== src/Contracts/AuthorizationSubject.antt =====
-- src/contracts/authorizationSubject.ts: the serialisations and the sighash preimages that an
-- authorization binds. Numbers are not negative.
pub mod Preimages
pub mod Widths
pub mod Aggregates
use sigbash_sdk.Prelude.{ℕ, List, [], ◌∷◌, leb, ltb, if◌then◌else◌}
use sigbash_sdk.Bytes.{Bytes}
use sigbash_sdk.Bytes.LittleEndian.{little_endian}

pub record TxInput : Type 0 where
  pub txid : Bytes
  pub vout : ℕ
  pub sequence : ℕ
  pub amount : ℕ
  pub script_pub_key : Bytes

pub record TxOutput : Type 0 where
  pub value : ℕ
  pub script_pub_key : Bytes

-- `compactSize`, for a non-negative integer.
unfoldable pub compact_size : ℕ → Bytes
compact_size n =
    if ltb n 253
    then n ∷ []
    else if leb n 0xffff
    then 0xfd ∷ little_endian 2 n
    else if leb n 0xffffffff
    then 0xfe ∷ little_endian 4 n
    else 0xff ∷ little_endian 8 n

-- `(n >>> (8 * i)) & 0xff` keeps the low 32 bits, and so do four little-endian bytes.
unfoldable pub le32 : ℕ → Bytes
le32 n = little_endian 4 n

unfoldable pub le64 : ℕ → Bytes
le64 n = little_endian 8 n
